-- ===== src/Prelude/Counts.antt =====
-- How many rows of a table meet a condition.
use Prim.Native.Nat.{◌+◌, ◌≤◌}
use mathlib.Core.Path.{◌≡◌, refl}
use mathlib.Core.Bool.{Bool, true, false}
use mathlib.Core.List.{List, [], ◌∷◌, ◌++◌}
use mathlib.Core.Option.{none, some}
use native.Mathlib.Omega.{arith}
use job_agent.Prelude.Tests.{Bool-cases, is_some}
use job_agent.Prelude.Lists.{any, count_if, All, keep, first}
use mathlib.Core.Logic.{inl, inr}
use job_agent.Prelude.Table.{some-inj, update_where, put_first}

module _ {A : Type 0} where
  pub count_if-append :
      (p : A → Bool) (xs ys : List A) → count_if p (xs ++ ys) ≡ count_if p xs + count_if p ys
  count_if-append p [] ys = omega arith
  count_if-append p (x ∷ xs) ys = omega (arith, count_if-append p xs ys)

  pub count_if_of_any-false : (p : A → Bool) (xs : List A) → any p xs ≡ false → count_if p xs ≡ 0
  count_if_of_any-false p [] h = refl
  count_if_of_any-false p (x ∷ xs) h = ground (arith, count_if_of_any-false p xs)

  -- Changing the row found does not change a count that the row counts for alike.
  pub count_if-put_first :
      (q p : A → Bool) (y x : A) (xs : List A)
      → first p xs ≡ some x
      → q y ≡ q x
      → count_if q (put_first p y xs) ≡ count_if q xs
  unfolding put_first
  count_if-put_first q p y x [] found e = cc
  count_if-put_first q p y x (z ∷ xs) found e = elim (Bool-cases (p z)) [
    | inl t ↦ let same : z ≡ x = some-inj (rw t at found) in rw (t, e, same) refl
    | inr t ↦ ground (arith, count_if-put_first q p y x xs)
  ]

  pub count_if-keep_le : (q r : A → Bool) (xs : List A) → count_if q (keep r xs) ≤ count_if q xs
  count_if-keep_le q r [] = omega arith
  count_if-keep_le q r (x ∷ xs) = ground (arith, count_if-keep_le q r xs)

  -- An update after which a row passes only if it passed before does not raise the count.
  pub count_if-update_where_le :
      (q p : A → Bool) (f : A → A) (xs : List A)
      → ((x : A) → p x ≡ true → q (f x) ≡ true → q x ≡ true)
      → count_if q (update_where p f xs) ≤ count_if q xs
  unfolding update_where
  count_if-update_where_le q p f [] k = omega arith
  count_if-update_where_le q p f (x ∷ xs) k = elim (Bool-cases (p x)) [
    | inl e ↦ ground (arith, k x e, count_if-update_where_le q p f xs k)
    | inr e ↦ ground (arith, count_if-update_where_le q p f xs k)
  ]

  pub All-update_where_if :
      (P : A → Type 0) (p : A → Bool) (f : A → A) (xs : List A)
      → ((x : A) → p x ≡ true → P x → P (f x))
      → All P xs
      → All P (update_where p f xs)
  unfolding update_where
  All-update_where_if P p f [] step h = tt
  All-update_where_if P p f (x ∷ xs) step h = elim (Bool-cases (p x)) [
    | inl e ↦ rw e (step x e h.0, All-update_where_if P p f xs step h.1)
    | inr e ↦ rw e (h.0, All-update_where_if P p f xs step h.1)
  ]

  pub any-snoc : (p : A → Bool) (x : A) (xs : List A) → p x ≡ true → any p (xs ++ x ∷ []) ≡ true
  any-snoc p x [] h = rw h refl
  any-snoc p x (y ∷ xs) h = ground (arith, any-snoc p x xs)

  -- An update that undoes its own condition leaves no row that meets it.
  pub any-update_where_self :
      (p : A → Bool) (f : A → A) (xs : List A)
      → ((x : A) → p (f x) ≡ false)
      → any p (update_where p f xs) ≡ false
  unfolding update_where
  any-update_where_self p f [] k = refl
  any-update_where_self p f (x ∷ xs) k = elim (Bool-cases (p x)) [
    | inl e ↦ ground (arith, k x, any-update_where_self p f xs k)
    | inr e ↦ ground (arith, any-update_where_self p f xs k)
  ]

  pub update_where_of_any-false :
      (p : A → Bool) (f : A → A) (xs : List A) → any p xs ≡ false → update_where p f xs ≡ xs
  unfolding update_where
  update_where_of_any-false p f [] h = refl
  update_where_of_any-false p f (x ∷ xs) h = elim (Bool-cases (p x)) [
    | inl e ↦ ground arith
    | inr e ↦
        let rest : update_where p f xs ≡ xs = update_where_of_any-false p f xs (ground arith) in
        rw (e, rest) refl
  ]

  pub any-weaken :
      (p q : A → Bool) (xs : List A)
      → ((x : A) → q x ≡ true → p x ≡ true)
      → any p xs ≡ false
      → any q xs ≡ false
  any-weaken p q [] k h = refl
  any-weaken p q (x ∷ xs) k h = ground (arith, k x, any-weaken p q xs k)

  pub any-keep-false : (p r : A → Bool) (xs : List A) → any p xs ≡ false → any p (keep r xs) ≡ false
  any-keep-false p r [] h = refl
  any-keep-false p r (x ∷ xs) h = ground (arith, any-keep-false p r xs)

  pub is_some-first : (p : A → Bool) (xs : List A) → is_some (first p xs) ≡ any p xs
  is_some-first p [] = refl
  is_some-first p (x ∷ xs) = ground (arith, is_some-first p xs)

  first-none_of_any : (p : A → Bool) (xs : List A) → any p xs ≡ false → first p xs ≡ none
  first-none_of_any p [] h = refl
  first-none_of_any p (x ∷ xs) h = ground (arith, first-none_of_any p xs)

  any-false_of_count : (p : A → Bool) (xs : List A) → count_if p xs ≡ 0 → any p xs ≡ false
  any-false_of_count p [] h = refl
  any-false_of_count p (x ∷ xs) h = ground (arith, any-false_of_count p xs)

  -- Where a single row meets a condition, dropping it leaves none.
  pub first-keep-none :
      (p r : A → Bool) (x : A) (xs : List A)
      → first p xs ≡ some x
      → count_if p xs ≤ 1
      → r x ≡ false
      → first p (keep r xs) ≡ none
  first-keep-none p r x [] found one dropped = refl
  first-keep-none p r x (y ∷ xs) found one dropped = elim (Bool-cases (p y)) [
    | inl e ↦
        let same : y ≡ x = some-inj (rw e at found) in
        let rest : count_if p xs ≡ 0 = ground arith in
        rw (same, dropped)
          (first-none_of_any p (keep r xs) (any-keep-false p r xs (any-false_of_count p xs rest)))
    | inr e ↦ ground (arith, first-keep-none p r x xs)
  ]
