-- ===== src/Prelude/Text.antt =====
-- Python's `str.strip` on native texts.
use Prim.Native.Nat.{ℕ, zero, suc, min}
use Prim.Native.Char.{Char, code}
use Prim.Native.String.{String}
use mathlib.Core.Path.{◌≡◌, refl, ap}
use mathlib.Core.Logic.{inl, inr}
use mathlib.Core.Bool.{Bool, true, false, ◌&&◌, ◌||◌}
use native.Mathlib.Omega.{arith}
use text.Mathlib.Text.{◌==◌}
use job_agent.Prelude.Tests.{leb, eqb, if◌then◌else◌, Bool-cases}

-- The code points for which `str.isspace` holds.
unfoldable pub is_space : Char → Bool
is_space c =
    let n = code c in
    (leb 9 n && leb n 13)
    || (leb 28 n && leb n 32)
    || eqb n 133
    || eqb n 160
    || eqb n 5760
    || (leb 8192 n && leb n 8202)
    || eqb n 8232
    || eqb n 8233
    || eqb n 8239
    || eqb n 8287
    || eqb n 12288

lstrip : String → String
lstrip String.[] = String.[]
lstrip (String.◌∷◌ c s) = let rest = lstrip s in if is_space c then rest else String.◌∷◌ c s

rstrip_onto : Char → String → String
rstrip_onto c String.[] = if is_space c then String.[] else String.◌∷◌ c String.[]
rstrip_onto c (String.◌∷◌ d s) = String.◌∷◌ c (String.◌∷◌ d s)

rstrip : String → String
unfolding rstrip_onto
rstrip String.[] = String.[]
rstrip (String.◌∷◌ c s) = rstrip_onto c (rstrip s)

unfoldable pub strip : String → String
unfolding lstrip rstrip is_space
strip s = rstrip (lstrip s)

-- `s.strip() == ""`
unfoldable pub is_blank : String → Bool
unfolding strip
is_blank s = strip s == ""

-- `len(s)`: the number of characters.
abbrev pub len : String → ℕ
len String.[] = 0
len (String.◌∷◌ c s) = suc (len s)

-- `s[:n]`
unfoldable pub cut : ℕ → String → String
cut zero s = String.[]
cut (suc n) String.[] = String.[]
cut (suc n) (String.◌∷◌ c s) = String.◌∷◌ c (cut n s)

pub len-cut : (n : ℕ) (s : String) → len (cut n s) ≡ min n (len s)
unfolding cut
len-cut zero s = omega arith
len-cut (suc n) String.[] = omega arith
len-cut (suc n) (String.◌∷◌ c s) = omega (arith, len-cut n s)

strip_trims : strip "  a b\t" ≡ "a b"
unfolding strip
strip_trims = refl

blank_example : is_blank " \n " ≡ true
unfolding is_blank
blank_example = refl

rstrip_onto-solid : (c : Char) (s : String) → is_space c ≡ false → rstrip_onto c s ≡ String.◌∷◌ c s
unfolding rstrip_onto
rstrip_onto-solid c String.[] h = rw h refl
rstrip_onto-solid c (String.◌∷◌ d s) h = refl

rstrip-rstrip_onto :
    (c : Char) (s : String) → rstrip s ≡ s → rstrip (rstrip_onto c s) ≡ rstrip_onto c s
unfolding rstrip rstrip_onto
rstrip-rstrip_onto c String.[] h = elim (Bool-cases (is_space c)) [
  | inl e ↦ rw e refl
  | inr e ↦ rw (e, e) refl
]
rstrip-rstrip_onto c (String.◌∷◌ d s) h = rw h refl

rstrip_idem : (s : String) → rstrip (rstrip s) ≡ rstrip s
unfolding rstrip
rstrip_idem String.[] = refl
rstrip_idem (String.◌∷◌ c s) = rstrip-rstrip_onto c (rstrip s) (rstrip_idem s)

lstrip-solid :
    (c : Char) (s : String) → is_space c ≡ false → lstrip (String.◌∷◌ c s) ≡ String.◌∷◌ c s
unfolding lstrip
lstrip-solid c s h = rw h refl

lstrip-space : (c : Char) (s : String) → is_space c ≡ true → lstrip (String.◌∷◌ c s) ≡ lstrip s
unfolding lstrip
lstrip-space c s h = rw h refl

rstrip-cons : (c : Char) (s : String) → rstrip (String.◌∷◌ c s) ≡ rstrip_onto c (rstrip s)
unfolding rstrip
rstrip-cons c s = refl

trims_nil : rstrip (lstrip (rstrip (lstrip ""))) ≡ rstrip (lstrip "")
unfolding rstrip lstrip
trims_nil = refl

-- A second strip changes nothing, since the first letter that is left is solid.
trims_idem : (s : String) → rstrip (lstrip (rstrip (lstrip s))) ≡ rstrip (lstrip s)
trims_idem String.[] = trims_nil
trims_idem (String.◌∷◌ c s) = elim (Bool-cases (is_space c)) [
  | inl e ↦ rw (lstrip-space c s e) (trims_idem s)
  | inr e ↦
      rw
        (
          lstrip-solid c s e,
          rstrip-cons c s,
          rstrip_onto-solid c (rstrip s) e,
          lstrip-solid c (rstrip s) e,
          rstrip-cons c (rstrip s),
          rstrip_idem s,
          rstrip_onto-solid c (rstrip s) e,
        )
        refl
]

pub strip_idem : (s : String) → strip (strip s) ≡ strip s
unfolding strip
strip_idem s = trims_idem s

pub is_blank-strip : (s : String) → is_blank (strip s) ≡ is_blank s
unfolding is_blank
is_blank-strip s = ap (λ t. t == "") (strip_idem s)
