-- ===== src/Prelude/Floats.antt =====
-- What the code does with a Python float. Its literals are written in hundredths.
use Prim.Native.Nat.{ℕ}
use Prim.Native.String.{String}
use mathlib.Core.Bool.{Bool, true, false, not, ◌&&◌}
use mathlib.Core.Path.{◌≡◌}
use job_agent.Prelude.Tests.{ltb}

pub record Float (F : Type 0) : Type 0 where
  pub hundredths : ℕ → F
  pub add : F → F → F
  pub mul : F → F → F
  pub div : F → F → F
  pub neg : F → F
  pub less : F → F → Bool
  pub at_most : F → F → Bool
  pub equal : F → F → Bool
  pub show : F → String

-- The laws of the comparisons away from NaN, which no score is.
pub record IsNumeric {F : Type 0} (fl : Float F) : Type 0 where
  pub asym : (x y : F) → fl.less x y ≡ true → fl.less y x ≡ false
  pub negtrans : (x y z : F) → fl.less x y ≡ false → fl.less y z ≡ false → fl.less x z ≡ false
  pub at_most-not-less : (x y : F) → fl.at_most x y ≡ not (fl.less y x)
  pub equal-not-less : (x y : F) → fl.equal x y ≡ (not (fl.less x y) && not (fl.less y x))
  pub neg-less : (x y : F) → fl.less (fl.neg x) (fl.neg y) ≡ fl.less y x
  pub less-hundredths : (m n : ℕ) → fl.less (fl.hundredths m) (fl.hundredths n) ≡ ltb m n
