-- ===== src/TailoringGuard/Manual/Identity.antt =====
-- What an edit without identity issues shares with its parent.
use job_agent.Prelude.{
  ℕ, zero, suc, String, true, Option, none, some, List, [], ◌∷◌, ◌≡◌, refl, sym, ap, ◌∙◌, length,
  arith, eq_iff, Bool-cases, inl, inr,
}
use job_agent.Models.Tailored.{
  CvSectionKind, TailoredSection, TailoredHeaderSnapshot, TailoredCvContent,
}
use job_agent.TailoringGuard.Assembly.Preserved.{HasIdentityOf}
use job_agent.TailoringGuard.Manual.{
  same_option, same_header, kind_code, same_identity, first_changed, manual_content_identity_issues,
}

same_option_lem : (a b : Option String) → same_option a b ≡ true → a ≡ b
unfolding same_option
same_option_lem none none h = refl
same_option_lem none (some b) h = cc
same_option_lem (some a) none h = cc
same_option_lem (some a) (some b) h = ap some ((eq_iff a b).0 h)

same_header_lem : (a b : TailoredHeaderSnapshot) → same_header a b ≡ true → a ≡ b
unfolding same_header
same_header_lem a b h =
    let name = (eq_iff a.full_name b.full_name).0 (ground arith) in
    let location = same_option_lem a.location b.location (ground arith) in
    let phone = same_option_lem a.phone b.phone (ground arith) in
    let email = same_option_lem a.email b.email (ground arith) in
    let github = same_option_lem a.github_url b.github_url (ground arith) in cc

nth_kind : List CvSectionKind → ℕ → CvSectionKind
nth_kind [] n = CvSectionKind.other
nth_kind (k ∷ ks) zero = k
nth_kind (k ∷ ks) (suc n) = nth_kind ks n

abbrev kinds : List CvSectionKind
kinds =
    CvSectionKind.summary ∷ CvSectionKind.experience ∷ CvSectionKind.education
    ∷ CvSectionKind.skills ∷ CvSectionKind.languages ∷ CvSectionKind.certifications
    ∷ CvSectionKind.projects ∷ CvSectionKind.awards ∷ CvSectionKind.publications
    ∷ CvSectionKind.volunteering ∷ CvSectionKind.interests ∷ CvSectionKind.references
    ∷ CvSectionKind.other ∷ []

kind_of : ℕ → CvSectionKind
unfolding nth_kind
kind_of n = nth_kind kinds n

kind_of_code : (k : CvSectionKind) → kind_of (kind_code k) ≡ k
unfolding nth_kind kind_of kind_code
kind_of_code CvSectionKind.summary = refl
kind_of_code CvSectionKind.experience = refl
kind_of_code CvSectionKind.education = refl
kind_of_code CvSectionKind.skills = refl
kind_of_code CvSectionKind.languages = refl
kind_of_code CvSectionKind.certifications = refl
kind_of_code CvSectionKind.projects = refl
kind_of_code CvSectionKind.awards = refl
kind_of_code CvSectionKind.publications = refl
kind_of_code CvSectionKind.volunteering = refl
kind_of_code CvSectionKind.interests = refl
kind_of_code CvSectionKind.references = refl
kind_of_code CvSectionKind.other = refl

kind_code_inj : (a b : CvSectionKind) → kind_code a ≡ kind_code b → a ≡ b
kind_code_inj a b h = sym (kind_of_code a) ∙ ap kind_of h ∙ kind_of_code b

pub same_identity_lem : (s p : TailoredSection) → same_identity s p ≡ true → HasIdentityOf p s
unfolding same_identity
same_identity_lem s p h = (
  (eq_iff s.id p.id).0 (ground arith),
  ground arith,
  (eq_iff s.heading p.heading).0 (ground arith),
  kind_code_inj s.kind p.kind (ground arith),
)

pub no_identity_issue :
    (content parent : TailoredCvContent)
    → manual_content_identity_issues content parent ≡ []
    → (content.header ≡ parent.header)
      × (length content.sections ≡ length parent.sections)
      × (first_changed 0 content.sections parent.sections ≡ [])
unfolding manual_content_identity_issues
no_identity_issue content parent h = elim (Bool-cases (same_header content.header parent.header)) [
  | inr e ↦ ground arith
  | inl e ↦ (same_header_lem content.header parent.header e, ground arith, ground arith)
]
