-- ===== src/Prelude/Table.antt =====
-- A database table as the list of its rows.
use mathlib.Core.Path.{◌≡◌, refl, subst}
use mathlib.Core.Bool.{Bool, true, false}
use mathlib.Core.List.{List, [], ◌∷◌, ◌++◌}
use mathlib.Core.Option.{Option, none, some}
use native.Mathlib.Omega.{arith}
use job_agent.Prelude.Tests.{if◌then◌else◌, Bool-cases}
use job_agent.Prelude.Lists.{any, All, keep, first}
use mathlib.Core.Logic.{inl, inr}

pub some-inj : {A : Type 0} {x y : A} → some x ≡ some y → x ≡ y
some-inj e = cc

module _ {A : Type 0} where
  -- `UPDATE … SET … WHERE p`
  unfoldable pub update_where : (A → Bool) → (A → A) → List A → List A
  update_where p f [] = []
  update_where p f (x ∷ xs) = (if p x then f x else x) ∷ update_where p f xs

  pub All-append : (P : A → Type 0) (xs ys : List A) → All P xs → All P ys → All P (xs ++ ys)
  All-append P [] ys hx hy = hy
  All-append P (x ∷ xs) ys hx hy = (hx.0, All-append P xs ys hx.1 hy)

  pub All-keep : (P : A → Type 0) (p : A → Bool) (xs : List A) → All P xs → All P (keep p xs)
  All-keep P p [] h = tt
  All-keep P p (x ∷ xs) h = elim (Bool-cases (p x)) [
    | inl e ↦ rw e (h.0, All-keep P p xs h.1)
    | inr e ↦ rw e (All-keep P p xs h.1)
  ]

  pub All-update_where :
      (P : A → Type 0) (p : A → Bool) (f : A → A) (xs : List A)
      → ((x : A) → P x → P (f x))
      → All P xs
      → All P (update_where p f xs)
  unfolding update_where
  All-update_where P p f [] step h = tt
  All-update_where P p f (x ∷ xs) step h = elim (Bool-cases (p x)) [
    | inl e ↦ rw e (step x h.0, All-update_where P p f xs step h.1)
    | inr e ↦ rw e (h.0, All-update_where P p f xs step h.1)
  ]

  pub All-first :
      (P : A → Type 0) (p : A → Bool) (xs : List A) {x : A} → All P xs → first p xs ≡ some x → P x
  All-first P p [] h e = cc
  All-first P p (y ∷ xs) h e = elim (Bool-cases (p y)) [
    | inl t ↦ subst P (some-inj (rw t at e)) h.0
    | inr t ↦ All-first P p xs h.1 (rw t at e)
  ]

  pub first-holds : (q : A → Bool) (xs : List A) {x : A} → first q xs ≡ some x → q x ≡ true
  first-holds q [] e = cc
  first-holds q (y ∷ xs) e = elim (Bool-cases (q y)) [
    | inl t ↦ subst (λ z. q z ≡ true) (some-inj (rw t at e)) t
    | inr t ↦ first-holds q xs (rw t at e)
  ]

  abbrev pub or_else : Option A → Option A → Option A
  or_else none b = b
  or_else (some a) b = some a

  abbrev pub map_if : (A → Bool) → (A → A) → Option A → Option A
  map_if p f none = none
  map_if p f (some x) = some (if p x then f x else x)

  pub first-append :
      (q : A → Bool) (xs ys : List A) → first q (xs ++ ys) ≡ or_else (first q xs) (first q ys)
  first-append q [] ys = refl
  first-append q (x ∷ xs) ys = ground (arith, first-append q xs ys)

  -- An update that keeps the test `q` shows in a search by `q` at the row found.
  pub first-update_where :
      (q p : A → Bool) (f : A → A) (xs : List A)
      → ((x : A) → p x ≡ true → q (f x) ≡ q x)
      → first q (update_where p f xs) ≡ map_if p f (first q xs)
  unfolding update_where
  first-update_where q p f [] k = refl
  first-update_where q p f (x ∷ xs) k = elim (Bool-cases (p x)) [
    | inl e ↦ ground (arith, k x e, first-update_where q p f xs k)
    | inr e ↦ ground (arith, first-update_where q p f xs k)
  ]

  -- Rows that a search by `q` could find are kept.
  pub first-keep :
      (q r : A → Bool) (xs : List A)
      → ((x : A) → q x ≡ true → r x ≡ true)
      → first q (keep r xs) ≡ first q xs
  first-keep q r [] k = refl
  first-keep q r (x ∷ xs) k = elim (Bool-cases (q x)) [
    | inl e ↦ ground (arith, k x e)
    | inr e ↦ ground (arith, first-keep q r xs k)
  ]

  -- The change of the one row that `session.get` found.
  unfoldable pub put_first : (A → Bool) → A → List A → List A
  put_first p y [] = []
  put_first p y (x ∷ xs) = let rest = x ∷ put_first p y xs in if p x then y ∷ xs else rest

  pub All-put_first :
      (P : A → Type 0) (p : A → Bool) (y : A) (xs : List A)
      → P y
      → All P xs
      → All P (put_first p y xs)
  unfolding put_first
  All-put_first P p y [] hy h = tt
  All-put_first P p y (x ∷ xs) hy h = elim (Bool-cases (p x)) [
    | inl e ↦ rw e (hy, h.1)
    | inr e ↦ rw e (h.0, All-put_first P p y xs hy h.1)
  ]

  pub first-put_first_self :
      (p : A → Bool) (y x : A) (xs : List A)
      → p y ≡ true
      → first p xs ≡ some x
      → first p (put_first p y xs) ≡ some y
  unfolding put_first
  first-put_first_self p y x [] hy h = cc
  first-put_first_self p y x (z ∷ xs) hy h = ground (arith, first-put_first_self p y x xs)

  pub first-put_first_ne :
      (p q : A → Bool) (y : A) (xs : List A)
      → q y ≡ false
      → ((z : A) → p z ≡ true → q z ≡ false)
      → first q (put_first p y xs) ≡ first q xs
  unfolding put_first
  first-put_first_ne p q y [] hy d = refl
  first-put_first_ne p q y (z ∷ xs) hy d = elim (Bool-cases (p z)) [
    | inl e ↦ rw (e, hy, d z e)
    | inr e ↦ ground (arith, first-put_first_ne p q y xs hy d)
  ]

  pub put_first-snoc :
      (p : A → Bool) (x y : A) (xs : List A)
      → any p xs ≡ false
      → p x ≡ true
      → put_first p y (xs ++ x ∷ []) ≡ xs ++ y ∷ []
  unfolding put_first
  put_first-snoc p x y [] h e = rw e refl
  put_first-snoc p x y (z ∷ xs) h e = ground (arith, put_first-snoc p x y xs)

  pub first-snoc :
      (p : A → Bool) (x : A) (xs : List A)
      → any p xs ≡ false
      → p x ≡ true
      → first p (xs ++ x ∷ []) ≡ some x
  first-snoc p x [] h e = rw e refl
  first-snoc p x (z ∷ xs) h e = ground (arith, first-snoc p x xs)

  pub any_of_first-none : (p : A → Bool) (xs : List A) → first p xs ≡ none → any p xs ≡ false
  any_of_first-none p [] h = refl
  any_of_first-none p (x ∷ xs) h = ground (arith, any_of_first-none p xs)
