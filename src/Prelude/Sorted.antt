-- ===== src/Prelude/Sorted.antt =====
-- The insertion sort sorts.
use Prim.Native.String.{String}
use mathlib.Core.Path.{◌≡◌, refl, sym, ap, ◌∙◌}
use mathlib.Core.Bool.{Bool, true, false}
use mathlib.Core.List.{List, [], ◌∷◌}
use mathlib.Core.Logic.{inl, inr}
use native.Mathlib.Omega.{arith}
use text.Mathlib.TextEquality.{Char-path}
use job_agent.Prelude.Tests.{Bool-cases}
use job_agent.Prelude.Lists.{All, keep}
use job_agent.Prelude.Table.{All-keep}
use job_agent.Prelude.Sorting.{text_ltb, insert, sort}

pub text_ltb-negtrans :
    (s t u : String) → text_ltb s t ≡ false → text_ltb t u ≡ false → text_ltb s u ≡ false
unfolding text_ltb
text_ltb-negtrans String.[] String.[] u h k = k
text_ltb-negtrans String.[] (String.◌∷◌ d t) u h k = cc
text_ltb-negtrans (String.◌∷◌ c s) t String.[] h k = refl
text_ltb-negtrans (String.◌∷◌ c s) String.[] (String.◌∷◌ e u) h k = cc
text_ltb-negtrans (String.◌∷◌ c s) (String.◌∷◌ d t) (String.◌∷◌ e u) h k =
    ground (arith, text_ltb-negtrans s t u)

-- Of two texts neither of which is the smaller both are the same.
pub text_ltb-total : (s t : String) → text_ltb s t ≡ false → text_ltb t s ≡ false → s ≡ t
unfolding text_ltb
text_ltb-total String.[] String.[] h k = refl
text_ltb-total String.[] (String.◌∷◌ d t) h k = cc
text_ltb-total (String.◌∷◌ c s) String.[] h k = cc
text_ltb-total (String.◌∷◌ c s) (String.◌∷◌ d t) h k =
    let heads : c ≡ d = Char-path c d (ground arith) in
    let tails : s ≡ t = text_ltb-total s t (ground arith) (ground arith) in rw (heads, tails) refl

module _ {A : Type 0} (before : A → A → Bool) where
  abbrev pub IsSorted : List A → Type 0
  IsSorted [] = Unit
  IsSorted (x ∷ xs) = All (λ y. before y x ≡ false) xs × IsSorted xs

  -- A strict order of which the negation is transitive.
  pub record IsOrder : Type 0 where
    pub asym : (x y : A) → before x y ≡ true → before y x ≡ false
    pub negtrans : (x y z : A) → before x y ≡ false → before y z ≡ false → before x z ≡ false

  module _ (order : IsOrder) where
    All-weaken :
        (x y : A) (zs : List A)
        → before y x ≡ false
        → All (λ z. before z y ≡ false) zs
        → All (λ z. before z x ≡ false) zs
    All-weaken x y [] e h = tt
    All-weaken x y (z ∷ zs) e h = (order.negtrans z y x h.0 e, All-weaken x y zs e h.1)

    All-inserted :
        (x y : A) (zs : List A)
        → before x y ≡ false
        → All (λ z. before z y ≡ false) zs
        → All (λ z. before z y ≡ false) (insert before x zs)
    unfolding insert
    All-inserted x y [] e h = (e, tt)
    All-inserted x y (z ∷ zs) e h = elim (Bool-cases (before z x)) [
      | inl b ↦ rw b (h.0, All-inserted x y zs e h.1)
      | inr b ↦ rw b (e, h)
    ]

    insert-IsSorted : (x : A) (ys : List A) → IsSorted ys → IsSorted (insert before x ys)
    unfolding insert
    insert-IsSorted x [] h = (tt, tt)
    insert-IsSorted x (y ∷ ys) h = elim (Bool-cases (before y x)) [
      | inl b ↦ rw b (All-inserted x y ys (order.asym y x b) h.0, insert-IsSorted x ys h.1)
      | inr b ↦ rw b ((b, All-weaken x y ys b h.0), h)
    ]

    pub sort-IsSorted : (xs : List A) → IsSorted (sort before xs)
    unfolding sort
    sort-IsSorted [] = tt
    sort-IsSorted (x ∷ xs) = insert-IsSorted x (sort before xs) (sort-IsSorted xs)

    insert-front :
        (x : A) (zs : List A) → All (λ z. before z x ≡ false) zs → insert before x zs ≡ x ∷ zs
    unfolding insert
    insert-front x [] h = refl
    insert-front x (z ∷ zs) h = rw h.0 refl

    insert-keep :
        (p : A → Bool) (x : A) (ys : List A)
        → IsSorted ys
        → p x ≡ true
        → insert before x (keep p ys) ≡ keep p (insert before x ys)
    unfolding insert
    insert-keep p x [] h t = rw t refl
    insert-keep p x (y ∷ ys) h t = elim (Bool-cases (before y x)) [
      | inl b ↦ ground (arith, insert-keep p x ys h.1 t)
      | inr b ↦
          let after = All-weaken x y ys b h.0 in
          let front =
            insert-front x (keep p (y ∷ ys))
              (All-keep (λ z. before z x ≡ false) p (y ∷ ys) (b, after)) in
          rw (b, t) front
    ]

    insert-dropped :
        (p : A → Bool) (x : A) (ys : List A) → p x ≡ false → keep p (insert before x ys) ≡ keep p ys
    unfolding insert
    insert-dropped p x [] t = rw t refl
    insert-dropped p x (y ∷ ys) t = ground (arith, insert-dropped p x ys)

    -- Sorting the rows that are kept is keeping from the sorted rows.
    pub sort-keep : (p : A → Bool) (xs : List A) → sort before (keep p xs) ≡ keep p (sort before xs)
    unfolding sort
    sort-keep p [] = refl
    sort-keep p (x ∷ xs) = elim (Bool-cases (p x)) [
      | inl t ↦ rw t (
          ap (insert before x) (sort-keep p xs)
          ∙ insert-keep p x (sort before xs) (sort-IsSorted xs) t)
      | inr t ↦ rw t (sort-keep p xs ∙ sym (insert-dropped p x (sort before xs) t))
    ]
