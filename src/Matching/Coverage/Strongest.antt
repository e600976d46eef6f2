-- ===== src/Matching/Coverage/Strongest.antt =====
-- `match_job_skill` against an independent description: the first of the skills that rank highest.
use job_agent.Prelude.{
  ℕ, String, true, false, Option, none, some, List, [], ◌∷◌, ◌==◌, ◌≡◌, refl, sym, ◌≤◌, arith, keep,
  first, is_some, eqb, if◌then◌else◌, Bool-cases, Option-cases, inl, inr,
}
use Prim.Native.Nat.{max}
use mathlib.Core.Path.{subst}
use job_agent.Prelude.Floats.{Float}
use job_agent.Prelude.Options.{◌>>=◌}
use job_agent.Models.Skills.{JobSkill, CandidateSkill}
use job_agent.Taxonomy.{RelatedToEdge, SkillTaxonomy}
use job_agent.Matching.{SkillMatchType, direct, related, none_matched, SkillMatchFact}
use job_agent.Matching.Coverage.{
  is_eligible, first_direct_match, edge_to, or_later, first_related_match, related_or_none,
  direct_or_other, match_job_skill,
}

abbrev pub rank : SkillMatchType → ℕ
rank direct = 2
rank related = 1
rank none_matched = 0

module _ {F : Type 0} (job_key : String) (t : SkillTaxonomy F) where
  -- How well one skill of the candidate serves: 2 if it is the Job's own, 1 if a seed edge leads
  -- from it to the Job's, 0 if neither or if the candidate has excluded it.
  unfoldable pub rank_of : CandidateSkill F → ℕ
  rank_of c =
      if c.excluded
      then 0
      else if c.skill.canonical_key == job_key
      then 2
      else if is_some (edge_to job_key t c)
      then 1
      else 0

  unfoldable pub best : List (CandidateSkill F) → ℕ
  unfolding rank_of
  best [] = 0
  best (c ∷ cs) = max (rank_of c) (best cs)

  rank_of_le : (c : CandidateSkill F) → rank_of c ≤ 2
  unfolding rank_of
  rank_of_le c = ground arith

  best_le : (cs : List (CandidateSkill F)) → best cs ≤ 2
  unfolding best
  best_le [] = omega arith
  best_le (c ∷ cs) = omega (arith, rank_of_le c, best_le cs)

  -- The first direct match is the first skill of rank 2.
  first_direct_match-rank :
      (cs : List (CandidateSkill F))
      → first_direct_match job_key (keep is_eligible cs) ≡ first (λ c. eqb (rank_of c) 2) cs
  unfolding first_direct_match rank_of
  first_direct_match-rank [] = refl
  first_direct_match-rank (c ∷ cs) = ground (arith, first_direct_match-rank cs)

  best-two :
      (cs : List (CandidateSkill F)) → is_some (first (λ c. eqb (rank_of c) 2) cs) ≡ eqb (best cs) 2
  unfolding best
  best-two [] = refl
  best-two (c ∷ cs) = ground (arith, best-two cs, rank_of_le c, best_le cs)

  best-one :
      (cs : List (CandidateSkill F))
      → eqb (best cs) 2 ≡ false
      → is_some (first (λ c. eqb (rank_of c) 1) cs) ≡ eqb (best cs) 1
  unfolding best
  best-one [] h = refl
  best-one (c ∷ cs) h = ground (arith, best-one cs, rank_of_le c, best_le cs)

  -- The candidate's skill and the edge that leads from it.
  abbrev pub Links : CandidateSkill F × RelatedToEdge F → Type 0
  Links p = edge_to job_key t p.0 ≡ some p.1

  abbrev pub LinkedFirst :
      List (CandidateSkill F) → Option (CandidateSkill F × RelatedToEdge F) → Type 0
  LinkedFirst cs none = first (λ c. eqb (rank_of c) 1) cs ≡ none
  LinkedFirst cs (some p) = (first (λ c. eqb (rank_of c) 1) cs ≡ some p.0) × Links p

  rank_of-excluded : (c : CandidateSkill F) → c.excluded ≡ true → rank_of c ≡ 0
  unfolding rank_of
  rank_of-excluded c gone = simp gone

  rank_of-edge :
      (c : CandidateSkill F) (e : Option (RelatedToEdge F))
      → c.excluded ≡ false
      → (c.skill.canonical_key == job_key) ≡ false
      → edge_to job_key t c ≡ e
      → rank_of c ≡ (if is_some e then 1 else 0)
  unfolding rank_of
  rank_of-edge c e kept other at = simp (kept, other, at)

  rank_of-other :
      (c : CandidateSkill F)
      → c.excluded ≡ false
      → eqb (rank_of c) 2 ≡ false
      → (c.skill.canonical_key == job_key) ≡ false
  unfolding rank_of
  rank_of-other c kept h = ground arith

  or_later-LinkedFirst :
      (c : CandidateSkill F) (cs : List (CandidateSkill F)) (e : Option (RelatedToEdge F))
      (later : Option (CandidateSkill F × RelatedToEdge F))
      → edge_to job_key t c ≡ e
      → rank_of c ≡ (if is_some e then 1 else 0)
      → LinkedFirst cs later
      → LinkedFirst (c ∷ cs) (or_later c e later)
  unfolding or_later
  or_later-LinkedFirst c cs none none at ranked h = rw ranked h
  or_later-LinkedFirst c cs none (some p) at ranked h = (rw ranked h.0, h.1)
  or_later-LinkedFirst c cs (some e) later at ranked h = (rw ranked refl, at)

  excluded-LinkedFirst :
      (c : CandidateSkill F) (cs : List (CandidateSkill F))
      (later : Option (CandidateSkill F × RelatedToEdge F))
      → rank_of c ≡ 0
      → LinkedFirst cs later
      → LinkedFirst (c ∷ cs) later
  excluded-LinkedFirst c cs none ranked h = rw ranked h
  excluded-LinkedFirst c cs (some p) ranked h = (rw ranked h.0, h.1)

  keep-excluded :
      (c : CandidateSkill F) (cs : List (CandidateSkill F))
      → c.excluded ≡ true
      → keep is_eligible (c ∷ cs) ≡ keep is_eligible cs
  keep-excluded c cs gone = ground arith

  keep-eligible :
      (c : CandidateSkill F) (cs : List (CandidateSkill F))
      → c.excluded ≡ false
      → keep is_eligible (c ∷ cs) ≡ c ∷ keep is_eligible cs
  keep-eligible c cs kept = ground arith

  -- Where no skill has rank 2, the first related match is the first skill of rank 1.
  first_related_match-LinkedFirst :
      (cs : List (CandidateSkill F))
      → first (λ c. eqb (rank_of c) 2) cs ≡ none
      → LinkedFirst cs (first_related_match job_key t (keep is_eligible cs))
  unfolding first_related_match
  first_related_match-LinkedFirst [] h = refl
  first_related_match-LinkedFirst (c ∷ cs) h =
      let later : first (λ c. eqb (rank_of c) 2) cs ≡ none = ground arith in
      let ih = first_related_match-LinkedFirst cs later in
      let goal =
        λ (l : List (CandidateSkill F)). LinkedFirst (c ∷ cs) (first_related_match job_key t l) in
      elim (Bool-cases c.excluded) [
        | inl gone ↦
            subst goal (sym (keep-excluded c cs gone))
              (excluded-LinkedFirst c cs _ (rank_of-excluded c gone) ih)
        | inr kept ↦
            let other = rank_of-other c kept (ground arith) in
            subst goal (sym (keep-eligible c cs kept)) (
              or_later-LinkedFirst c cs (edge_to job_key t c) _ refl
                (rank_of-edge c _ kept other refl) ih)
      ]

  -- The first skill of the highest rank, and the edge that leads from it if this rank is 1.
  unfoldable pub strongest : List (CandidateSkill F) → Option (CandidateSkill F)
  unfolding best rank_of
  strongest cs =
      let found = first (λ c. eqb (rank_of c) (best cs)) cs in
      if eqb (best cs) 0 then none else found

  unfoldable pub strongest_edge : List (CandidateSkill F) → Option (RelatedToEdge F)
  unfolding strongest edge_to
  strongest_edge cs = if eqb (best cs) 1 then strongest cs >>= edge_to job_key t else none

module _ {F : Type 0} ⦃fl : Float F⦄ (j : JobSkill F) (t : SkillTaxonomy F) where
  key : String
  key = j.skill.canonical_key

  -- The fact names the strongest skill of the candidate.
  unfoldable pub IsStrongest : List (CandidateSkill F) → SkillMatchFact F → Type 0
  unfolding best strongest strongest_edge key
  IsStrongest cs fact =
      (rank fact.match_type ≡ best key t cs)
      × (fact.candidate_skill ≡ strongest key t cs)
      × (fact.relationship ≡ strongest_edge key t cs)

  direct-IsStrongest :
      (cs : List (CandidateSkill F)) (c : CandidateSkill F) (other : SkillMatchFact F)
      → first (λ c. eqb (rank_of key t c) 2) cs ≡ some c
      → best key t cs ≡ 2
      → IsStrongest cs (direct_or_other j (some c) other)
  unfolding IsStrongest direct_or_other strongest strongest_edge
  direct-IsStrongest cs c other e b = (sym b, rw (b, e) refl, rw b refl)

  related_or_none-IsStrongest :
      (cs : List (CandidateSkill F)) (o : Option (CandidateSkill F × RelatedToEdge F))
      → LinkedFirst key t cs o
      → is_some (first (λ c. eqb (rank_of key t c) 1) cs) ≡ eqb (best key t cs) 1
      → eqb (best key t cs) 2 ≡ false
      → IsStrongest cs (related_or_none j o)
  unfolding IsStrongest related_or_none strongest strongest_edge
  related_or_none-IsStrongest cs none h one two =
      let b : best key t cs ≡ 0 = ground (arith, best_le key t cs) in (sym b, rw b refl, rw b refl)
  related_or_none-IsStrongest cs (some p) h one two =
      let b : best key t cs ≡ 1 = ground (arith, h.0) in
      (sym b, rw (b, h.0) refl, rw (b, h.0, h.1) refl)

  -- The match of a Job's skill has the highest rank that a skill of the candidate has, and names
  -- the first skill of this rank, with its edge where the rank is that of a related skill; where
  -- the highest rank is 0, it names none.
  pub match_job_skill-IsStrongest :
      (cs : List (CandidateSkill F)) → IsStrongest cs (match_job_skill j cs t)
  unfolding match_job_skill key
  match_job_skill-IsStrongest cs =
      let two = best-two key t cs in
      elim (Option-cases (first (λ c. eqb (rank_of key t c) 2) cs)) [
        | inl e ↦
            let low : eqb (best key t cs) 2 ≡ false = ground arith in
            rw (first_direct_match-rank key t cs, e)
              (related_or_none-IsStrongest cs _ (first_related_match-LinkedFirst key t cs e)
                (best-one key t cs low) low)
        | inr (c, e) ↦
            rw (first_direct_match-rank key t cs, e)
              (direct-IsStrongest cs c
                (related_or_none j (first_related_match key t (keep is_eligible cs))) e
                (ground arith))
      ]
