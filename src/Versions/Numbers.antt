-- ===== src/Versions/Numbers.antt =====
-- The latest number of a session and the versions that carry a number, after the writes of
-- backend/app/repositories/cv_tailoring.py.
use job_agent.Prelude.{
  ℕ, suc, String, Bool, true, false, not, ◌&&◌, ◌||◌, Option, none, some, List, [], ◌∷◌, ◌++◌, ◌≡◌,
  refl, sym, ap, arith, ◌==◌, eq_iff, first, keep, any, count_if, eqb, ltb, leb, is_none,
  if◌then◌else◌, Bool-cases, inl, inr, ◌∙◌,
}
use job_agent.Prelude.Table.{update_where, put_first, some-inj}
use job_agent.Models.Tailoring.{CvTailoringSession, CvTailoringVersion}
use job_agent.Versions.{has_id}
use job_agent.Versions.Writes.{is_numbered, is_head, moved_to, is_parent_key}

abbrev pub number_of : Option CvTailoringSession → ℕ
number_of none = 0
number_of (some row) = row.latest_version_number

-- The number of the session's head; 0 where the session does not exist.
abbrev pub latest_of : String → List CvTailoringSession → ℕ
latest_of s rows = number_of (first (has_id s) rows)

abbrev pub is_up_to : ℕ → ℕ → ℕ
is_up_to n latest = if ltb 0 n && leb n latest then 1 else 0

abbrev pub is_parent : CvTailoringVersion → CvTailoringVersion → Bool
is_parent v p = is_parent_key v p && eqb v.version_number (suc p.version_number)

-- The first version has no parent, each other one follows its parent.
abbrev pub has_parent : List CvTailoringVersion → CvTailoringVersion → Bool
has_parent versions v =
    (eqb v.version_number 1 && is_none v.parent_version_id) || any (is_parent v) versions

same_of : (a b : String) → (a == b) ≡ true → a ≡ b
same_of a b h = (eq_iff a b).0 h

pub latest_of-append :
    (s : String) (rows : List CvTailoringSession) (row : CvTailoringSession)
    → row.latest_version_number ≡ 0
    → latest_of s (rows ++ row ∷ []) ≡ latest_of s rows
latest_of-append s [] row h = ground arith
latest_of-append s (r ∷ rows) row h = ground (arith, latest_of-append s rows row h)

pub latest_of-put_first :
    (s t : String) (rows : List CvTailoringSession) (old changed : CvTailoringSession)
    → first (has_id s) rows ≡ some old
    → changed.id ≡ old.id
    → changed.latest_version_number ≡ old.latest_version_number
    → latest_of t (put_first (has_id s) changed rows) ≡ latest_of t rows
unfolding put_first
latest_of-put_first s t [] old changed found i n = refl
latest_of-put_first s t (r ∷ rows) old changed found i n = elim (Bool-cases (r.id == s)) [
  | inl e ↦
      let same : r ≡ old = some-inj (rw e at found) in
      let one_id : changed.id ≡ r.id = i ∙ sym (ap (λ x. x.id) same) in
      let one_number : changed.latest_version_number ≡ r.latest_version_number =
        n ∙ sym (ap (λ x. x.latest_version_number) same) in
      let one_test : (changed.id == t) ≡ (r.id == t) = ap (λ x. x == t) one_id in ground arith
  | inr e ↦ ground (arith, latest_of-put_first s t rows old changed)
]

pub latest_of-moved_to :
    (s : String) (e now : ℕ) (rows : List CvTailoringSession) (old : CvTailoringSession)
    → first (has_id s) rows ≡ some old
    → old.latest_version_number ≡ e
    → latest_of s (update_where (is_head s e) (moved_to (suc e) now) rows) ≡ suc e
unfolding update_where
latest_of-moved_to s e now [] old found n = cc
latest_of-moved_to s e now (r ∷ rows) old found n = elim (Bool-cases (r.id == s)) [
  | inl t ↦
      let same : r ≡ old = some-inj (rw t at found) in
      let head : r.latest_version_number ≡ e = ap (λ x. x.latest_version_number) same ∙ n in
      ground arith
  | inr t ↦ ground (arith, latest_of-moved_to s e now rows old)
]

pub latest_of-moved_to_ne :
    (s t : String) (e now : ℕ) (rows : List CvTailoringSession)
    → (s == t) ≡ false
    → latest_of t (update_where (is_head s e) (moved_to (suc e) now) rows) ≡ latest_of t rows
unfolding update_where
latest_of-moved_to_ne s t e now [] d = refl
latest_of-moved_to_ne s t e now (r ∷ rows) d = elim (Bool-cases (r.id == s)) [
  | inl i ↦
      let same : r.id ≡ s = same_of r.id s i in
      let other : (r.id == t) ≡ false = ap (λ x. x == t) same ∙ d in
      ground (arith, latest_of-moved_to_ne s t e now rows d)
  | inr i ↦ ground (arith, latest_of-moved_to_ne s t e now rows d)
]

pub latest_of-keep :
    (chosen : String → Bool) (t : String) (rows : List CvTailoringSession)
    → latest_of t (keep (λ row. not (chosen row.id)) rows)
      ≡ (if chosen t then 0 else latest_of t rows)
latest_of-keep chosen t [] = ground arith
latest_of-keep chosen t (r ∷ rows) = elim (Bool-cases (r.id == t)) [
  | inl i ↦
      let same : chosen r.id ≡ chosen t = ap chosen (same_of r.id t i) in
      ground (arith, latest_of-keep chosen t rows)
  | inr i ↦ ground (arith, latest_of-keep chosen t rows)
]

pub count_if-keep_numbered :
    (chosen : String → Bool) (t : String) (n : ℕ) (vs : List CvTailoringVersion)
    → count_if (is_numbered t n) (keep (λ v. not (chosen v.session_id)) vs)
      ≡ (if chosen t then 0 else count_if (is_numbered t n) vs)
count_if-keep_numbered chosen t n [] = ground arith
count_if-keep_numbered chosen t n (v ∷ vs) = elim (Bool-cases (v.session_id == t)) [
  | inl i ↦
      let same : chosen v.session_id ≡ chosen t = ap chosen (same_of v.session_id t i) in
      ground (arith, count_if-keep_numbered chosen t n vs)
  | inr i ↦ ground (arith, count_if-keep_numbered chosen t n vs)
]

pub any-keep_parent :
    (chosen : String → Bool) (v : CvTailoringVersion) (vs : List CvTailoringVersion)
    → chosen v.session_id ≡ false
    → any (is_parent v) (keep (λ p. not (chosen p.session_id)) vs) ≡ any (is_parent v) vs
any-keep_parent chosen v [] h = refl
any-keep_parent chosen v (p ∷ vs) h = elim (Bool-cases (p.session_id == v.session_id)) [
  | inl i ↦
      let same : chosen p.session_id ≡ chosen v.session_id =
        ap chosen (same_of p.session_id v.session_id i) in
      ground (arith, any-keep_parent chosen v vs h)
  | inr i ↦ ground (arith, any-keep_parent chosen v vs h)
]

pub any-append_left :
    (q : CvTailoringVersion → Bool) (vs more : List CvTailoringVersion)
    → any q vs ≡ true
    → any q (vs ++ more) ≡ true
any-append_left q [] more h = cc
any-append_left q (v ∷ vs) more h = ground (arith, any-append_left q vs more)

pub any-first :
    (p q : CvTailoringVersion → Bool) (vs : List CvTailoringVersion) (v : CvTailoringVersion)
    → first p vs ≡ some v
    → q v ≡ true
    → any q vs ≡ true
any-first p q [] v found h = cc
any-first p q (x ∷ vs) v found h = elim (Bool-cases (p x)) [
  | inl e ↦ let same : x ≡ v = some-inj (rw e at found) in rw (same, h) refl
  | inr e ↦ ground (arith, any-first p q vs v)
]
