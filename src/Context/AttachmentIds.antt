-- ===== src/Context/AttachmentIds.antt =====
-- The ids that `normalize_turn_attachment_ids` returns.
use job_agent.Prelude.{
  String, ◌≡◌, refl, Bool, false, not, ◌&&◌, ◌||◌, List, [], ◌∷◌, ◌++◌, Option, arith, any, ◌==◌,
  eq_iff, Bool-cases, inl, inr, strip, is_blank, if◌then◌else◌,
}
use job_agent.Context.{contains, or_empty_set, normalize_from, normalize_turn_attachment_ids}

abbrev pub IsUnique : List String → Type 0
IsUnique [] = Unit
IsUnique (x ∷ xs) = (contains xs x ≡ false) × IsUnique xs

contains-append :
    (xs ys : List String) (v : String) → contains (xs ++ ys) v ≡ (contains xs v || contains ys v)
contains-append [] ys v = refl
contains-append (x ∷ xs) ys v = ground (arith, contains-append xs ys v)

IsUnique-snoc :
    (xs : List String) (x : String) → IsUnique xs → contains xs x ≡ false → IsUnique (xs ++ x ∷ [])
IsUnique-snoc [] x u h = (refl, tt)
IsUnique-snoc (y ∷ ys) x u h = (
  ground (arith, contains-append ys (x ∷ []) y, eq_iff x y, eq_iff y x),
  IsUnique-snoc ys x u.1 (ground arith),
)

-- The texts that the loop looks for.
abbrev pub names : String → String → Bool
names v raw = not (is_blank raw) && strip raw == v

normalize_from-contains :
    (raws out : List String) (v : String)
    → contains (normalize_from raws out) v ≡ (contains out v || any (names v) raws)
unfolding normalize_from
normalize_from-contains [] out v = ground arith
normalize_from-contains (raw ∷ rest) out v =
    let next = if is_blank raw || contains out (strip raw) then out else out ++ strip raw ∷ [] in
    ground (
      arith,
      normalize_from-contains rest next v,
      contains-append out (strip raw ∷ []) v,
      eq_iff (strip raw) v,
    )

normalize_from-IsUnique :
    (raws out : List String) → IsUnique out → IsUnique (normalize_from raws out)
unfolding normalize_from
normalize_from-IsUnique [] out u = u
normalize_from-IsUnique (raw ∷ rest) out u =
    elim (Bool-cases (is_blank raw || contains out (strip raw))) [
      | inl old ↦ rw old (normalize_from-IsUnique rest out u)
      | inr new ↦ rw new (
          normalize_from-IsUnique rest (out ++ strip raw ∷ [])
            (IsUnique-snoc out (strip raw) u (ground arith)))
    ]

-- The normalized ids are pairwise different, and they are exactly the trimmed values of the
-- requested ids that are not blank.
pub normalize_turn_attachment_ids_lem :
    (ids : Option (List String))
    → IsUnique (normalize_turn_attachment_ids ids)
      × ((v : String)
          → contains (normalize_turn_attachment_ids ids) v ≡ any (names v) (or_empty_set ids))
unfolding normalize_turn_attachment_ids
normalize_turn_attachment_ids_lem ids = (
  normalize_from-IsUnique (or_empty_set ids) [] tt,
  normalize_from-contains (or_empty_set ids) [],
)
