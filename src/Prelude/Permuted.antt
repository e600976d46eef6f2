-- ===== src/Prelude/Permuted.antt =====
-- A sort does not depend on the order of its input where its order tells the elements apart.
use mathlib.Core.Path.{◌≡◌, refl, sym, subst, ◌∙◌}
use mathlib.Core.Bool.{Bool, true, ◌||◌}
use mathlib.Core.List.Permᴰ
use mathlib.Core.List.{List, [], ◌∷◌, Permᴰ}
use mathlib.Core.Logic.{inl, inr}
use native.Mathlib.Omega.{arith}
use job_agent.Prelude.Tests.{Bool-cases}
use job_agent.Prelude.Lists.{All}
use job_agent.Prelude.Sorting.{insert, sort}
use job_agent.Prelude.Sorted.{IsOrder}

module _ {A : Type 0} where
  pub All-Perm : (P : A → Type 0) {xs ys : List A} → Permᴰ xs ys → All P xs → All P ys
  All-Perm P Permᴰ.nil h = tt
  All-Perm P (Permᴰ.cons e p) h = (subst P e h.0, All-Perm P p h.1)
  All-Perm P (Permᴰ.swap e f) h = (subst P f h.1.0, (subst P e h.0, h.1.1))
  All-Perm P (Permᴰ.trans p q) h = All-Perm P q (All-Perm P p h)

module _ {A : Type 0} (before : A → A → Bool) where
  abbrev pub Differs : A → A → Type 0
  Differs x y = (before x y || before y x) ≡ true

  abbrev pub Separated : List A → Type 0
  Separated [] = Unit
  Separated (x ∷ xs) = All (Differs x) xs × Separated xs

  Perm-insert : (x : A) (ys : List A) → Permᴰ (x ∷ ys) (insert before x ys)
  unfolding insert
  Perm-insert x [] = Permᴰ.cons refl Permᴰ.nil
  Perm-insert x (y ∷ ys) = elim (Bool-cases (before y x)) [
    | inl b ↦
        rw b (
          Permᴰ.trans (Permᴰ.swap {a' = y} {b' = x} refl refl) (Permᴰ.cons refl (Perm-insert x ys)))
    | inr b ↦ rw b (Permᴰ.refl _)
  ]

  pub Perm-sort : (xs : List A) → Permᴰ xs (sort before xs)
  unfolding sort
  Perm-sort [] = Permᴰ.nil
  Perm-sort (x ∷ xs) = Permᴰ.trans (Permᴰ.cons refl (Perm-sort xs)) (Perm-insert x (sort before xs))

  module _ (order : IsOrder before) where
    insert-insert :
        (x y : A) (zs : List A)
        → Differs x y
        → insert before x (insert before y zs) ≡ insert before y (insert before x zs)
    unfolding insert
    insert-insert x y [] d = ground (arith, order.asym x y, order.asym y x)
    insert-insert x y (z ∷ zs) d = ground (
      arith,
      order.asym x y,
      order.asym y x,
      order.negtrans z x y,
      order.negtrans z y x,
      insert-insert x y zs d,
    )

    Differs-sym : (x y : A) → Differs x y → Differs y x
    Differs-sym x y h = ground arith

    Perm-Separated : {xs ys : List A} → Permᴰ xs ys → Separated xs → Separated ys
    Perm-Separated Permᴰ.nil h = tt
    Perm-Separated (Permᴰ.cons {a} {b} {l₁} {l₂} e p) h =
        (subst (λ c. All (Differs c) l₂) e (All-Perm (Differs a) p h.0), Perm-Separated p h.1)
    Perm-Separated (Permᴰ.swap {a} {b} {a'} {b'} {l} e f) h = (
      (
        subst (λ c. Differs c b') f (subst (Differs b) e (Differs-sym a b h.0.0)),
        subst (λ c. All (Differs c) l) f h.1.0,
      ),
      (subst (λ c. All (Differs c) l) e h.0.1, h.1.1),
    )
    Perm-Separated (Permᴰ.trans p q) h = Perm-Separated q (Perm-Separated p h)

    -- The order of the input does not show.
    pub sort-Perm : {xs ys : List A} → Permᴰ xs ys → Separated xs → sort before xs ≡ sort before ys
    unfolding sort
    sort-Perm Permᴰ.nil h = refl
    sort-Perm (Permᴰ.cons {a} {b} {l₁} {l₂} e p) h = rw (e, sort-Perm p h.1) refl
    sort-Perm (Permᴰ.swap {a} {b} {a'} {b'} {l} e f) h =
        rw (sym e, sym f) (insert-insert a b (sort before l) h.0.0)
    sort-Perm (Permᴰ.trans p q) h = sort-Perm p h ∙ sort-Perm q (Perm-Separated p h)
