-- ===== src/Matching/Labels.antt =====
-- backend/app/services/job_display.py
pub mod Bounds
use Prim.Native.Char.{Char}
use job_agent.Prelude.{
  ℕ, String, Bool, true, false, Option, none, some, ◌==◌, ◌&&◌, not, cut, if◌then◌else◌,
}
use job_agent.Prelude.Text.{is_space}
use job_agent.Prelude.Words.{Unicode, text_append, contains_char, rstrip_chars, collapse_whitespace}

-- An empty text counts as none.
unfoldable pub clean : Unicode → Option String → Option String
unfolding collapse_whitespace
clean u none = none
clean u (some value) =
    let cleaned = collapse_whitespace (u.nfkc value) in if cleaned == "" then none else some cleaned

-- What comes before the first white space that follows one of `.!?`; `ended` tells that the
-- character before was one of them.
first_sentence : Bool → String → String
unfolding is_space
first_sentence ended String.[] = String.[]
first_sentence ended (String.◌∷◌ c s) =
    let rest = first_sentence (contains_char c ".!?") s in
    if ended && is_space c then String.[] else String.◌∷◌ c rest

sentence_of : Option String → Option String
unfolding first_sentence rstrip_chars
sentence_of none = none
sentence_of (some cleaned) =
    let sentence = rstrip_chars ".!? " (first_sentence false cleaned) in
    if sentence == "" then none else some sentence

unfoldable pub first_meaningful_sentence : Unicode → Option String → Option String
unfolding clean sentence_of
first_meaningful_sentence u value = sentence_of (clean u value)

of_sentence : Option String → String → String
of_sentence (some sentence) saved_on = cut 120 sentence
of_sentence none saved_on = text_append "Untitled saved job · " saved_on

of_names : Option String → Option String → String → String
of_names (some title) (some company) other = cut 140 (text_append title (text_append " · " company))
of_names (some title) none other = cut 140 title
of_names none (some company) other = cut 140 company
of_names none none other = other

-- `saved_on` is the date of `saved_at` in UTC, as `isoformat` writes it.
unfoldable pub derive_saved_job_display_label :
    Unicode → Option String → Option String → Option String → String → String
unfolding clean first_meaningful_sentence of_sentence of_names
derive_saved_job_display_label u title company summary saved_on =
    of_names (clean u title) (clean u company)
      (of_sentence (first_meaningful_sentence u summary) saved_on)
