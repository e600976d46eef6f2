-- ===== src/Prelude/Members.antt =====
-- The rows that a condition finds, as members of their table.
use mathlib.Core.Path.{◌≡◌, refl, sym, subst}
use mathlib.Core.Bool.{Bool, true, false}
use mathlib.Core.List.{List, [], ◌∷◌}
use mathlib.Core.Logic.{◌⊎◌, inl, inr}
use native.Mathlib.Omega.{arith}
use job_agent.Prelude.Tests.{Bool-cases}
use job_agent.Prelude.Lists.{any, keep, All, IsIn}

pub any-IsIn :
    {A : Type 0} (p : A → Bool) (xs : List A) → any p xs ≡ true → (x : A) × IsIn x xs × (p x ≡ true)
any-IsIn p [] h = cc
any-IsIn p (x ∷ xs) h = elim (Bool-cases (p x)) [
  | inl e ↦ (x, inl refl, e)
  | inr e ↦ let (y, at, holds) = any-IsIn p xs (ground arith) in (y, inr at, holds)
]

pub any_of_IsIn :
    {A : Type 0} (p : A → Bool) (x : A) (xs : List A) → IsIn x xs → p x ≡ true → any p xs ≡ true
any_of_IsIn p x [] at h = absurd at
any_of_IsIn p x (y ∷ ys) at h = elim at [
  | inl e ↦ rw⁻¹ e (rw h refl)
  | inr later ↦ ground (arith, any_of_IsIn p x ys later h)
]

pub any_of_All-false :
    {A : Type 0} (p : A → Bool) (xs : List A) → All (λ x. p x ≡ false) xs → any p xs ≡ false
any_of_All-false p [] h = refl
any_of_All-false p (x ∷ xs) h = ground (arith, h.0, any_of_All-false p xs h.1)

pub All-both :
    {A : Type 0} (P Q R : A → Type 0)
    → ((x : A) → P x → Q x → R x)
    → (xs : List A) → All P xs
    → All Q xs
    → All R xs
All-both P Q R f [] h k = tt
All-both P Q R f (x ∷ xs) h k = (f x h.0 k.0, All-both P Q R f xs h.1 k.1)

pub keep_of_IsIn :
    {A : Type 0} (q : A → Bool) (x : A) (xs : List A) → IsIn x xs → q x ≡ true → IsIn x (keep q xs)
keep_of_IsIn q x [] at h = at
keep_of_IsIn q x (y ∷ ys) at h = elim at [
  | inl e ↦ let holds : q y ≡ true = subst (λ z. q z ≡ true) e h in rw holds (inl e)
  | inr later ↦ elim (Bool-cases (q y)) [
    | inl e ↦ rw e (inr (keep_of_IsIn q x ys later h))
    | inr e ↦ rw e (keep_of_IsIn q x ys later h)
  ]
]

later_of_keep :
    {A : Type 0} (q : A → Bool) (x y : A) (ys : List A)
    → q y ≡ true
    → IsIn x (keep q (y ∷ ys))
    → (x ≡ y) ⊎ IsIn x (keep q ys)
later_of_keep q x y ys e h = rw e at h

pub keep-holds : {A : Type 0} (q : A → Bool) (x : A) (xs : List A) → IsIn x (keep q xs) → q x ≡ true
keep-holds q x [] at = absurd at
keep-holds q x (y ∷ ys) at = elim (Bool-cases (q y)) [
  | inr e ↦ keep-holds q x ys (rw e at at)
  | inl e ↦ elim (later_of_keep q x y ys e at) [
    | inl same ↦ subst (λ z. q z ≡ true) (sym same) e
    | inr later ↦ keep-holds q x ys later
  ]
]
