-- ===== src/Prelude/Sorting.antt =====
-- `ORDER BY` as a stable insertion sort, and the order of texts by their code points.
use Prim.Native.Char.{code}
use Prim.Native.String.{String}
use mathlib.Core.Path.{◌≡◌, refl, subst}
use mathlib.Core.Bool.{Bool, true, false, ◌&&◌, ◌||◌}
use mathlib.Core.List.{List, [], ◌∷◌}
use mathlib.Core.Option.{Option, none, some}
use mathlib.Core.Logic.{inl, inr}
use native.Mathlib.Omega.{arith}
use job_agent.Prelude.Tests.{if◌then◌else◌, ltb, eqb, is_some, Bool-cases}
use job_agent.Prelude.Table.{some-inj, All-keep}
use job_agent.Prelude.Lists.{any, keep, All, count_if}

unfoldable pub text_ltb : String → String → Bool
text_ltb String.[] String.[] = false
text_ltb String.[] (String.◌∷◌ d t) = true
text_ltb (String.◌∷◌ c s) String.[] = false
text_ltb (String.◌∷◌ c s) (String.◌∷◌ d t) =
    ltb (code c) (code d) || (eqb (code c) (code d) && text_ltb s t)

pub text_ltb-asym : (s t : String) → text_ltb s t ≡ true → text_ltb t s ≡ false
unfolding text_ltb
text_ltb-asym String.[] String.[] h = refl
text_ltb-asym String.[] (String.◌∷◌ d t) h = refl
text_ltb-asym (String.◌∷◌ c s) String.[] h = cc
text_ltb-asym (String.◌∷◌ c s) (String.◌∷◌ d t) h = ground (arith, text_ltb-asym s t)

module _ {A : Type 0} where
  abbrev pub head : List A → Option A
  head [] = none
  head (x ∷ xs) = some x

  pub All-head : (P : A → Type 0) (xs : List A) {x : A} → All P xs → head xs ≡ some x → P x
  All-head P [] h e = cc
  All-head P (x ∷ xs) h e = subst P (some-inj e) h.0

  pub any-count_if : (p : A → Bool) (xs : List A) → any p xs ≡ ltb 0 (count_if p xs)
  any-count_if p [] = refl
  any-count_if p (x ∷ xs) = ground (arith, any-count_if p xs)

  pub All-kept : (p : A → Bool) (xs : List A) → All (λ x. p x ≡ true) (keep p xs)
  All-kept p [] = tt
  All-kept p (x ∷ xs) = elim (Bool-cases (p x)) [
    | inl e ↦ rw e (e, All-kept p xs)
    | inr e ↦ rw e (All-kept p xs)
  ]

  pub All-of_any-false : (q : A → Bool) (xs : List A) → any q xs ≡ false → All (λ x. q x ≡ false) xs
  All-of_any-false q [] h = tt
  All-of_any-false q (x ∷ xs) h = (ground arith, All-of_any-false q xs (ground arith))

  is_some-head_lem : (xs : List A) → is_some (head xs) ≡ ltb 0 (count_if (λ x. true) xs)
  is_some-head_lem [] = refl
  is_some-head_lem (x ∷ xs) = ground arith

  count_if-keep : (p : A → Bool) (xs : List A) → count_if (λ x. true) (keep p xs) ≡ count_if p xs
  count_if-keep p [] = refl
  count_if-keep p (x ∷ xs) = ground (arith, count_if-keep p xs)

module _ {A : Type 0} (before : A → A → Bool) where
  unfoldable pub insert : A → List A → List A
  insert x [] = x ∷ []
  insert x (y ∷ ys) = let rest = insert x ys in if before y x then y ∷ rest else x ∷ y ∷ ys

  unfoldable pub sort : List A → List A
  sort [] = []
  sort (x ∷ xs) = insert x (sort xs)

  -- `.limit(1)` of the sorted rows.
  unfoldable pub top : List A → Option A
  unfolding sort
  top xs = head (sort xs)

  All-insert : (P : A → Type 0) (x : A) (ys : List A) → P x → All P ys → All P (insert x ys)
  unfolding insert
  All-insert P x [] hx h = (hx, tt)
  All-insert P x (y ∷ ys) hx h = elim (Bool-cases (before y x)) [
    | inl e ↦ rw e (h.0, All-insert P x ys hx h.1)
    | inr e ↦ rw e (hx, (h.0, h.1))
  ]

  pub All-sort : (P : A → Type 0) (xs : List A) → All P xs → All P (sort xs)
  unfolding sort
  All-sort P [] h = tt
  All-sort P (x ∷ xs) h = All-insert P x (sort xs) h.0 (All-sort P xs h.1)

  count_if-insert :
      (p : A → Bool) (x : A) (ys : List A) → count_if p (insert x ys) ≡ count_if p (x ∷ ys)
  unfolding insert
  count_if-insert p x [] = refl
  count_if-insert p x (y ∷ ys) = ground (arith, count_if-insert p x ys)

  pub count_if-sort : (p : A → Bool) (xs : List A) → count_if p (sort xs) ≡ count_if p xs
  unfolding sort
  count_if-sort p [] = refl
  count_if-sort p (x ∷ xs) = ground (arith, count_if-insert p x (sort xs), count_if-sort p xs)

  -- A row is found exactly where some row meets the condition, and the row found meets it.
  pub is_some-top : (p : A → Bool) (xs : List A) → is_some (top (keep p xs)) ≡ any p xs
  unfolding top
  is_some-top p xs =
      rw
        (
          is_some-head_lem (sort (keep p xs)),
          count_if-sort (λ x. true) (keep p xs),
          count_if-keep p xs,
          any-count_if p xs,
        )
        refl

  pub top-holds : (p : A → Bool) (xs : List A) {x : A} → top (keep p xs) ≡ some x → p x ≡ true
  unfolding top
  top-holds p xs e =
      All-head (λ x. p x ≡ true) (sort (keep p xs)) (All-sort _ (keep p xs) (All-kept p xs)) e

  pub top-All :
      (P : A → Type 0) (p : A → Bool) (xs : List A) {x : A}
      → All P xs
      → top (keep p xs) ≡ some x
      → P x
  unfolding top
  top-All P p xs h e = All-head P (sort (keep p xs)) (All-sort P (keep p xs) (All-keep P p xs h)) e

  -- The row found is one of the rows.
  pub top-any :
      (q p : A → Bool) (xs : List A) {x : A}
      → q x ≡ true
      → top (keep p xs) ≡ some x
      → any q xs ≡ true
  top-any q p xs h e = elim (Bool-cases (any q xs)) [
    | inl t ↦ t
    | inr f ↦
        let absent = top-All (λ y. q y ≡ false) p xs (All-of_any-false q xs f) e in ground arith
  ]
