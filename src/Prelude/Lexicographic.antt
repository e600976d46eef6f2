-- ===== src/Prelude/Lexicographic.antt =====
-- Orders by a first key and, where it does not decide, by a second.
use mathlib.Core.Bool.{Bool, ◌||◌}
use native.Mathlib.Omega.{arith}
use job_agent.Prelude.Tests.{if◌then◌else◌}
use job_agent.Prelude.Sorted.{IsOrder}

module _ {A : Type 0} where
  infixr 3 ◌then_by◌
  abbrev pub ◌then_by◌ : (A → A → Bool) → (A → A → Bool) → A → A → Bool
  (f then_by s) a b = if f a b || f b a then f a b else s a b

  pub then_by-IsOrder : (f s : A → A → Bool) → IsOrder f → IsOrder s → IsOrder (f then_by s)
  then_by-IsOrder f s p q = record {
    asym = λ a b h. ground (arith, p.asym a b, p.asym b a, q.asym a b);
    negtrans = λ a b c h k. ground (
      arith,
      p.asym a b,
      p.asym b c,
      p.asym a c,
      p.negtrans a b c,
      p.negtrans b c a,
      p.negtrans c a b,
      p.negtrans c b a,
      q.negtrans a b c,
    );
  }
