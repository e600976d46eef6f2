-- ===== src/TailoringGuard/Manual.antt =====
-- backend/app/services/cv_tailoring_guard.py: `guard_manual_tailored_content`.
pub mod Identity
pub mod Patches
pub mod Edited
use job_agent.Prelude.{
  ℕ, String, Bool, true, false, Option, none, some, List, [], ◌∷◌, ◌==◌, ◌≡◌, ◌+◌, not, ◌&&◌, keep,
  map, length, arith, eqb, if◌then◌else◌,
}
use job_agent.Models.Tailored.{
  CvSectionKind, TailoredSection, TailoredHeaderSnapshot, TailoredCvContent, TailoredPatchSet,
}
use job_agent.TailoringGraph.{Issue}
use job_agent.TailoringGuard.{Checks, issue, indexed}
use job_agent.TailoringGuard.Structure.{is_among}
use job_agent.TailoringGuard.Assembly.{guard_tailored_patch}
use job_agent.TailoringGuard.Assembly.Preserved.{patch_of}
use job_agent.TailoringGuard.Assembly.Grounded.{IsGuarded, guard_tailored_patch-IsGuarded}

same_option : Option String → Option String → Bool
same_option none none = true
same_option (some s) (some t) = s == t
same_option _ _ = false

same_header : TailoredHeaderSnapshot → TailoredHeaderSnapshot → Bool
unfolding same_option
same_header a b =
    a.full_name == b.full_name
    && same_option a.location b.location
    && same_option a.phone b.phone
    && same_option a.email b.email
    && same_option a.github_url b.github_url

kind_code : CvSectionKind → ℕ
kind_code CvSectionKind.summary = 0
kind_code CvSectionKind.experience = 1
kind_code CvSectionKind.education = 2
kind_code CvSectionKind.skills = 3
kind_code CvSectionKind.languages = 4
kind_code CvSectionKind.certifications = 5
kind_code CvSectionKind.projects = 6
kind_code CvSectionKind.awards = 7
kind_code CvSectionKind.publications = 8
kind_code CvSectionKind.volunteering = 9
kind_code CvSectionKind.interests = 10
kind_code CvSectionKind.references = 11
kind_code CvSectionKind.other = 12

pub same_identity : TailoredSection → TailoredSection → Bool
unfolding kind_code
same_identity s p =
    s.id == p.id
    && s.heading == p.heading
    && eqb (kind_code s.kind) (kind_code p.kind)
    && eqb s.ordinal p.ordinal

-- The first section that differs; the lists have one length.
pub first_changed : ℕ → List TailoredSection → List TailoredSection → List Issue
unfolding same_identity indexed
first_changed index (s ∷ ss) (p ∷ ps) =
    let rest = first_changed (index + 1) ss ps in
    if not (same_identity s p)
    then issue "SECTION_IDENTITY_CHANGED" (indexed "" "sections" index) ∷ []
    else rest
first_changed index _ _ = []

unfoldable pub manual_content_identity_issues : TailoredCvContent → TailoredCvContent → List Issue
unfolding same_header first_changed
manual_content_identity_issues content parent =
    if not (same_header content.header parent.header)
    then issue "SECTION_IDENTITY_CHANGED" "header" ∷ []
    else if not (eqb (length content.sections) (length parent.sections))
    then issue "SECTION_IDENTITY_CHANGED" "sections" ∷ []
    else first_changed 0 content.sections parent.sections

unfoldable pub manual_content_patch : TailoredCvContent → List String → TailoredPatchSet
manual_content_patch content allowed = record {
  sections =
      map (λ (s : TailoredSection). record { section_id = s.id; items = map patch_of s.items })
        (keep (λ s. is_among s.id allowed) content.sections);
}

-- Without the semantic check, and with the deterministic one.
abbrev pub manual_checks : Checks → Checks
manual_checks checks = record checks {
  require_semantic_support = false;
  require_deterministic_support = true;
}

guard_unless :
    (ℕ → String)
    → Checks
    → List Issue
    → TailoredCvContent
    → TailoredCvContent
    → List String
    → ℕ
    → (Option TailoredCvContent × List Issue) × ℕ
unfolding guard_tailored_patch manual_content_patch
guard_unless uuid checks (i ∷ issues) content parent allowed n = ((none, i ∷ issues), n)
guard_unless uuid checks [] content parent allowed n =
    guard_tailored_patch uuid (manual_checks checks) (manual_content_patch content allowed) parent
      allowed n

unfoldable pub guard_manual_tailored_content :
    (ℕ → String)
    → Checks
    → TailoredCvContent
    → TailoredCvContent
    → List String
    → ℕ
    → (Option TailoredCvContent × List Issue) × ℕ
unfolding guard_unless manual_content_identity_issues
guard_manual_tailored_content uuid checks content parent allowed n =
    guard_unless uuid checks (manual_content_identity_issues content parent) content parent allowed
      n
