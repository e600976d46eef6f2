-- ===== src/Matching/Labels/Bounds.antt =====
-- The length of a Job's label.
use job_agent.Prelude.{String, Option, none, some, ◌≡◌, ◌≤◌, ◌+◌, arith, len, len-cut, true, leb}
use job_agent.Prelude.Words.{Unicode, text_append}
use job_agent.Matching.Labels.{
  clean, first_meaningful_sentence, of_sentence, of_names, derive_saved_job_display_label,
}

len-text_append : (s t : String) → len (text_append s t) ≡ len s + len t
len-text_append String.[] t = omega arith
len-text_append (String.◌∷◌ c s) t = omega (arith, len-text_append s t)

of_sentence-len :
    (o : Option String) (saved_on : String) → len saved_on ≤ 10 → len (of_sentence o saved_on) ≤ 140
unfolding of_sentence
of_sentence-len none saved_on h = omega (arith, len-text_append "Untitled saved job · " saved_on)
of_sentence-len (some s) saved_on h = omega (arith, len-cut 120 s)

of_names-len :
    (title company : Option String) (other : String)
    → len other ≤ 140
    → len (of_names title company other) ≤ 140
unfolding of_names
of_names-len none none other h = h
of_names-len none (some c) other h = omega (arith, len-cut 140 c)
of_names-len (some t) none other h = omega (arith, len-cut 140 t)
of_names-len (some t) (some c) other h =
    omega (arith, len-cut 140 (text_append t (text_append " · " c)))

pub label_fits_lem :
    (u : Unicode) (title company summary : Option String) (saved_on : String)
    → len saved_on ≤ 10
    → leb (len (derive_saved_job_display_label u title company summary saved_on)) 140 ≡ true
unfolding derive_saved_job_display_label
label_fits_lem u title company summary saved_on h = ground (
  arith,
  of_names-len (clean u title) (clean u company)
      (of_sentence (first_meaningful_sentence u summary) saved_on)
      (of_sentence-len (first_meaningful_sentence u summary) saved_on h),
)
