-- ===== src/Prelude/Outcomes.antt =====
-- Chains of results that return or raise, without a state.
use mathlib.Core.Path.{◌≡◌, refl, ap, sym, subst, ◌∙◌}
use Prim.Native.Nat.{suc}
use mathlib.Core.List.{List, [], ◌∷◌}
use mathlib.Core.Bool.{Bool, true, false}
use job_agent.Prelude.Lists.{All, length}
use job_agent.Prelude.Tests.{if◌then◌else◌}
use job_agent.Prelude.Effects.{Outcome, returned, raised}

module _ {E A B : Type 0} where
  infixl 5 ◌>>=◌ ◌>>◌
  abbrev pub ◌>>=◌ : Outcome E A → (A → Outcome E B) → Outcome E B
  returned a >>= f = f a
  raised e >>= f = raised e

  abbrev pub ◌>>◌ : Outcome E A → Outcome E B → Outcome E B
  m >> n = m >>= λ _. n

  pub and_then-returned :
      (m : Outcome E A) (f : A → Outcome E B) {b : B}
      → (m >>= f) ≡ returned b
      → (a : A) × (m ≡ returned a) × (f a ≡ returned b)
  and_then-returned (returned a) f h = (a, refl, h)
  and_then-returned (raised e) f h = cc

module _ {E A B : Type 0} where
  pub and_then-total :
      (m : Outcome E A) (f : A → Outcome E B) {a : A}
      → m ≡ returned a
      → (b : B) × (f a ≡ returned b)
      → (b : B) × ((m >>= f) ≡ returned b)
  and_then-total m f e r = (r.0, subst (λ o. (o >>= f) ≡ returned r.0) (sym e) r.1)

  -- The same for a result with a property.
  pub and_then-holds :
      (Q : B → Type 0) (m : Outcome E A) (f : A → Outcome E B) {a : A}
      → m ≡ returned a
      → (b : B) × (f a ≡ returned b) × Q b
      → (b : B) × ((m >>= f) ≡ returned b) × Q b
  and_then-holds Q m f e r = (r.0, subst (λ o. (o >>= f) ≡ returned r.0) (sym e) r.1, r.2)

result_or : {E A : Type 0} → A → Outcome E A → A
result_or d (returned a) = a
result_or d (raised e) = d

pub returned-inj :
    {E A : Type 0} {a b : A} → ◌≡◌ {A = Outcome E A} (returned a) (returned b) → a ≡ b
unfolding result_or
returned-inj {a = a} h = ap (result_or a) h

pub check-returned :
    {E A : Type 0} (failed : Bool) (e : E) (a : A) {b : A}
    → (if failed then raised e else returned a) ≡ returned b
    → (failed ≡ false) × (a ≡ b)
check-returned true e a h = cc
check-returned false e a h = (refl, returned-inj h)

-- `[f(x) for x in xs]`, which ends with the first exception.
module _ {E A B : Type 0} (f : A → Outcome E B) where
  abbrev pub map_outcome : List A → Outcome E (List B)
  map_outcome [] = returned []
  map_outcome (x ∷ xs) = f x >>= λ y. map_outcome xs >>= λ ys. returned (y ∷ ys)

  pub map_outcome-All :
      (P : A → Type 0) (Q : B → Type 0)
      → ((x : A) (y : B) → P x → f x ≡ returned y → Q y)
      → (xs : List A) {ys : List B} → All P xs
      → map_outcome xs ≡ returned ys
      → All Q ys
  map_outcome-All P Q step [] h e = subst (All Q) (returned-inj e) tt
  map_outcome-All P Q step (x ∷ xs) h e =
      let (y, one, e1) = and_then-returned (f x) _ e in
      let (ys, others, e2) = and_then-returned (map_outcome xs) _ e1 in
      subst (All Q) (returned-inj e2) (step x y h.0 one, map_outcome-All P Q step xs h.1 others)

  pub map_outcome-total :
      (P : A → Type 0)
      → ((x : A) → P x → (y : B) × (f x ≡ returned y))
      → (xs : List A) → All P xs
      → (ys : List B) × (map_outcome xs ≡ returned ys)
  map_outcome-total P step [] h = ([], refl)
  map_outcome-total P step (x ∷ xs) h =
      let (y, one) = step x h.0 in
      let (ys, others) = map_outcome-total P step xs h.1 in (y ∷ ys, rw (one, others) refl)

  pub length-map_outcome :
      (xs : List A) {ys : List B} → map_outcome xs ≡ returned ys → length ys ≡ length xs
  length-map_outcome [] e = ap length (sym (returned-inj e))
  length-map_outcome (x ∷ xs) e =
      let (y, one, e1) = and_then-returned (f x) _ e in
      let (ys, others, e2) = and_then-returned (map_outcome xs) _ e1 in
      ap length (sym (returned-inj e2)) ∙ ap suc (length-map_outcome xs others)
