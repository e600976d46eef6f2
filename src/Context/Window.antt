-- ===== src/Context/Window.antt =====
-- Which messages the window holds: the newest ones, in order, up to the first that does not fit.
use mathlib.Core.List.{map-append, append-nil, append_assoc}
use job_agent.Prelude.{
  ℕ, zero, suc, ◌+◌, ◌≤◌, ◌<◌, String, ◌≡◌, refl, ap, sym, ◌∙◌, true, false, not, ◌&&◌, List, [],
  ◌∷◌, ◌++◌, map, Option, reverse, arith, length, len, cut, returned, pos, keep, Bool-cases, inl,
  inr, ◌⊎◌, leb, ltb,
}
use job_agent.Context.{
  Message, ContextMessage, fitted, projected, is_empty, contains, or_empty_set, select_window,
  apply_recent_context_budget,
}
use job_agent.Context.Budget.{chars, chars-append}

abbrev pub unskipped : List String → List Message → List Message
unskipped skip = keep (λ r. not (contains skip r.id))

abbrev pub verbatim : Message → ContextMessage
verbatim r = record { id = r.id; role = r.role; content = r.content }

-- The projection of messages given newest first: only the newest may be cut.
abbrev pub as_window : ℕ → List Message → List ContextMessage
as_window b [] = []
as_window b (r ∷ rs) =
    record { id = r.id; role = r.role; content = cut b r.content } ∷ map verbatim rs

-- Why the window ends before `rest`: it is full, or the next message does not fit.
abbrev pub Stops : ℕ → ℕ → List ContextMessage → List Message → Type 0
Stops m b selected [] = Unit
Stops m b selected (r ∷ rest) =
    (m ≤ length selected) ⊎ ((0 < length selected) × (b < chars selected + len r.content))

cut_of_len-le : (b : ℕ) (s : String) → len s ≤ b → cut b s ≡ s
unfolding cut
cut_of_len-le zero String.[] h = refl
cut_of_len-le (suc b) String.[] h = refl
cut_of_len-le zero (String.◌∷◌ c s) h = absurd (omega arith)
cut_of_len-le (suc b) (String.◌∷◌ c s) h = ap (String.◌∷◌ c) (cut_of_len-le b s (omega arith))

module _ (m b : ℕ) (skip : List String) where
  as_window-snoc :
      (taken : List Message) (row : Message)
      → as_window b taken ++ projected m b skip (as_window b taken) row ∷ []
        ≡ as_window b (taken ++ row ∷ [])
  unfolding fitted
  as_window-snoc [] row = ground (arith, cut_of_len-le b row.content)
  as_window-snoc (r ∷ rs) row =
      ap (◌∷◌ (record { id = r.id; role = r.role; content = cut b r.content }))
        (sym (map-append verbatim rs (row ∷ [])))

  -- The loop's result, for the rows that are left after `taken`.
  record Windowed (taken rows : List Message) (result : List ContextMessage) : Type 0 where
    more : List Message
    rest : List Message
    split : more ++ rest ≡ unskipped skip rows
    shown : result ≡ as_window b (taken ++ more)
    stops : Stops m b result rest

  stop-Windowed :
      (taken rows : List Message)
      → Stops m b (as_window b taken) (unskipped skip rows)
      → Windowed taken rows (as_window b taken)
  stop-Windowed taken rows h = record {
    more = [];
    rest = unskipped skip rows;
    split = refl;
    shown = rw append-nil refl;
    stops = h;
  }

  full-Stops :
      (taken rows : List Message)
      → m ≤ length (as_window b taken)
      → Stops m b (as_window b taken) rows
  full-Stops taken [] h = tt
  full-Stops taken (r ∷ rows) h = inl h

  more-Windowed :
      (taken rows : List Message) (row : Message) {result : List ContextMessage}
      → contains skip row.id ≡ false
      → Windowed (taken ++ row ∷ []) rows result
      → Windowed taken (row ∷ rows) result
  more-Windowed taken rows row e w = record {
    more = row ∷ w.more;
    rest = w.rest;
    split = rw e (ap (◌∷◌ row) w.split);
    shown = w.shown ∙ ap (as_window b) (append_assoc taken (row ∷ []) w.more);
    stops = w.stops;
  }

  skip-Windowed :
      (taken rows : List Message) (row : Message) {result : List ContextMessage}
      → contains skip row.id ≡ true
      → Windowed taken rows result
      → Windowed taken (row ∷ rows) result
  skip-Windowed taken rows row e w = record {
    more = w.more;
    rest = w.rest;
    split = rw e w.split;
    shown = w.shown;
    stops = w.stops;
  }

  over-pos :
      (taken : List Message) (n : ℕ)
      → (not (is_empty (as_window b taken)) && ltb b n) ≡ true
      → (0 < length (as_window b taken)) × (b < n)
  unfolding is_empty
  over-pos [] n h = cc
  over-pos (r ∷ rs) n h = (omega arith, ground arith)

  select_window-Windowed :
      (rows taken : List Message) (used_chars : ℕ)
      → used_chars ≡ chars (as_window b taken)
      → Windowed taken rows (select_window m b skip rows (as_window b taken) used_chars)
  unfolding select_window
  select_window-Windowed [] taken used_chars e = stop-Windowed taken [] tt
  select_window-Windowed (row ∷ rows) taken used_chars e =
      let selected = as_window b taken in
      let next = projected m b skip selected row in
      let grown : selected ++ next ∷ [] ≡ as_window b (taken ++ row ∷ []) =
        as_window-snoc taken row in
      let used : ℕ = used_chars + len (fitted m b skip selected row) in
      let counted : used ≡ chars (as_window b (taken ++ row ∷ [])) =
        rw (← grown) (omega (arith, chars-append selected (next ∷ []))) in
      elim (Bool-cases (leb m (length selected))) [
        | inl full ↦ rw full (stop-Windowed taken (row ∷ rows) (full-Stops taken _ (ground arith)))
        | inr room ↦ elim (Bool-cases (contains skip row.id)) [
          | inl out ↦
              rw (room, out)
                (skip-Windowed taken rows row out (select_window-Windowed rows taken used_chars e))
          | inr wanted ↦
              elim (Bool-cases (not (is_empty selected) && ltb b (used_chars + len row.content))) [
                | inl over ↦
                    rw (room, wanted, over)
                      (stop-Windowed taken (row ∷ rows) (
                        rw wanted
                          (inr (over-pos taken (chars selected + len row.content) (rw e at over)))))
                | inr fits ↦
                    rw (room, wanted, fits, grown)
                      (more-Windowed taken rows row wanted
                        (select_window-Windowed rows (taken ++ row ∷ []) used counted))
              ]
        ]
      ]

-- For ceilings that are not negative the returned window is made of the newest messages that are
-- not excluded: `taken` are the first of them in the given order, newest first, and `rest` the
-- others. The window is `taken` in chronological order with the id, role and content of each,
-- the content of the newest one cut to the budget. It ends before `rest` only because it holds
-- `max_messages` messages already, or is not empty and the next message's content does not fit.
pub apply_recent_context_budget_window :
    (rows : List Message) (m b : ℕ) (exclude_ids : Option (List String))
    → (taken : List Message) × (rest : List Message) × (taken ++ rest
        ≡ unskipped (or_empty_set exclude_ids) rows)
      × (apply_recent_context_budget rows (pos m) (pos b) exclude_ids
          ≡ returned (reverse (as_window b taken)))
      × Stops m b (as_window b taken) rest
unfolding apply_recent_context_budget
apply_recent_context_budget_window rows m b exclude_ids =
    let w = select_window-Windowed m b (or_empty_set exclude_ids) rows [] 0 refl in
    (w.more, w.rest, w.split, ap (λ s. returned (reverse s)) w.shown, rw w.shown at w.stops)
