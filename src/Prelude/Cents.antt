-- ===== src/Prelude/Cents.antt =====
-- Floats that hold a whole number of hundredths, for the examples.
use Prim.Native.Nat.{ℕ, zero, suc, ◌+◌, ◌*◌, ◌/◌}
use mathlib.Core.Bool.{Bool, true, false, not, ◌&&◌}
use mathlib.Core.Path.{◌≡◌, refl}
use native.Mathlib.Omega.{arith}
use job_agent.Prelude.Tests.{ltb}
use job_agent.Prelude.Int.{ℤ, pos, negsuc}
use job_agent.Prelude.Floats.{Float, IsNumeric}

opposite : ℤ → ℤ
opposite (pos zero) = pos zero
opposite (pos (suc n)) = negsuc n
opposite (negsuc n) = pos (suc n)

minus : ℕ → ℕ → ℤ
minus m zero = pos m
minus zero (suc n) = negsuc n
minus (suc m) (suc n) = minus m n

plus : ℤ → ℤ → ℤ
unfolding minus
plus (pos a) (pos b) = pos (a + b)
plus (pos a) (negsuc b) = minus a (suc b)
plus (negsuc a) (pos b) = minus b (suc a)
plus (negsuc a) (negsuc b) = negsuc (a + b + 1)

-- The same operation on the absolute values, with the sign of a product.
signed : (ℕ → ℕ → ℕ) → ℤ → ℤ → ℤ
unfolding opposite
signed f (pos a) (pos b) = pos (f a b)
signed f (pos a) (negsuc b) = opposite (pos (f a (suc b)))
signed f (negsuc a) (pos b) = opposite (pos (f (suc a) b))
signed f (negsuc a) (negsuc b) = pos (f (suc a) (suc b))

less : ℤ → ℤ → Bool
less (pos a) (pos b) = ltb a b
less (pos a) (negsuc b) = false
less (negsuc a) (pos b) = true
less (negsuc a) (negsuc b) = ltb b a

less_asym : (x y : ℤ) → less x y ≡ true → less y x ≡ false
unfolding less
less_asym (pos a) (pos b) h = ground arith
less_asym (pos a) (negsuc b) h = cc
less_asym (negsuc a) (pos b) h = refl
less_asym (negsuc a) (negsuc b) h = ground arith

less_negtrans : (x y z : ℤ) → less x y ≡ false → less y z ≡ false → less x z ≡ false
unfolding less
less_negtrans (pos a) (pos b) (pos c) h k = ground arith
less_negtrans (pos a) (pos b) (negsuc c) h k = refl
less_negtrans (pos a) (negsuc b) (pos c) h k = cc
less_negtrans (pos a) (negsuc b) (negsuc c) h k = refl
less_negtrans (negsuc a) (pos b) z h k = cc
less_negtrans (negsuc a) (negsuc b) (pos c) h k = cc
less_negtrans (negsuc a) (negsuc b) (negsuc c) h k = ground arith

less-opposite : (x y : ℤ) → less (opposite x) (opposite y) ≡ less y x
unfolding less opposite
less-opposite (pos zero) (pos zero) = refl
less-opposite (pos zero) (pos (suc b)) = ground arith
less-opposite (pos (suc a)) (pos zero) = ground arith
less-opposite (pos (suc a)) (pos (suc b)) = ground arith
less-opposite (pos zero) (negsuc b) = ground arith
less-opposite (pos (suc a)) (negsuc b) = refl
less-opposite (negsuc a) (pos zero) = ground arith
less-opposite (negsuc a) (pos (suc b)) = refl
less-opposite (negsuc a) (negsuc b) = ground arith

unfoldable pub cents : Float ℤ
unfolding plus signed opposite less
cents = record {
  hundredths = pos;
  add = plus;
  mul = signed (λ a b. (a * b) / 100);
  div = signed (λ a b. (a * 100) / b);
  neg = opposite;
  less = less;
  at_most = λ x y. not (less y x);
  equal = λ x y. not (less x y) && not (less y x);
  show = λ x. "n";
}

instance abbrev pub numbers : Float ℤ
numbers = cents

pub cents-IsNumeric : IsNumeric cents
unfolding cents
cents-IsNumeric = record {
  asym = less_asym;
  negtrans = less_negtrans;
  at_most-not-less = λ x y. refl;
  equal-not-less = λ x y. refl;
  neg-less = less-opposite;
  less-hundredths = λ m n. refl;
}
