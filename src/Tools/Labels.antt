-- ===== src/Tools/Labels.antt =====
-- backend/app/schemas/agent_activity.py: `humanize_activity_name`, for ASCII names.
use Prim.Native.Char.{Char, code, nul}
use Prim.Native.Nat.{ℕ, zero, suc, ◌-◌}
use Prim.Native.String.{String}
use job_agent.Prelude.{◌≡◌, refl, Bool, false, ◌&&◌, ◌||◌, ◌==◌, leb, eqb, strip, if◌then◌else◌}

letter_at : ℕ → String → Char
letter_at i String.[] = nul
letter_at zero (String.◌∷◌ c s) = c
letter_at (suc i) (String.◌∷◌ c s) = letter_at i s

is_lower : Char → Bool
is_lower c = leb b'a' (code c) && leb (code c) b'z'

is_upper : Char → Bool
is_upper c = leb b'A' (code c) && leb (code c) b'Z'

upper : Char → Char
upper c = if is_lower c then letter_at (code c - b'a') "ABCDEFGHIJKLMNOPQRSTUVWXYZ" else c

lower : Char → Char
lower c = if is_upper c then letter_at (code c - b'A') "abcdefghijklmnopqrstuvwxyz" else c

-- `str.title`: the first letter of each run of letters in upper case, the others in lower case.
title_from : Bool → String → String
title_from in_word String.[] = String.[]
title_from in_word (String.◌∷◌ c s) =
    String.◌∷◌ (if in_word then lower c else upper c) (title_from (is_lower c || is_upper c) s)

is_joint : Char → Bool
is_joint c = eqb (code c) b'_' || eqb (code c) b'-'

-- `re.sub(r"[_-]+", " ", value)`; `in_run` tells that the run's blank is already written.
space_joints : Bool → String → String
space_joints in_run String.[] = String.[]
space_joints in_run (String.◌∷◌ c s) =
    let rest = space_joints (is_joint c) s in
    if is_joint c
    then (if in_run then rest else String.◌∷◌ (letter_at 0 " ") rest)
    else String.◌∷◌ c rest

unfoldable pub humanize_activity_name : String → String
unfolding letter_at is_lower is_upper upper lower title_from is_joint space_joints
humanize_activity_name value =
    let words = strip (space_joints false value) in
    if words == "" then "Agent activity" else title_from false words

humanize_example : humanize_activity_name "save__job-post" ≡ "Save Job Post"
unfolding humanize_activity_name strip
humanize_example = refl
