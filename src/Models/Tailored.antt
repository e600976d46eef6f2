-- ===== src/Models/Tailored.antt =====
-- backend/app/schemas/cv_tailoring.py: the tailored content and the patches of it.
use job_agent.Prelude.{ℕ, String, Option, List}

-- `CVSectionKind` of backend/app/schemas/cv_document.py.
pub data CvSectionKind : Type 0 where
  summary experience education skills languages certifications projects awards publications
        volunteering interests references other :
      CvSectionKind

pub record SourceBoundText : Type 0 where
  pub text : String
  pub source_fact_ids : List String

pub record TailoredAttribute : Type 0 where
  pub name : String
  pub values : List SourceBoundText

pub record TailoredItem : Type 0 where
  pub id : String
  pub source_entry_id : Option String
  pub title : Option SourceBoundText
  pub subtitle : Option SourceBoundText
  pub date_text : Option SourceBoundText
  pub location : Option SourceBoundText
  pub body : SourceBoundText
  pub bullets : List SourceBoundText
  pub attributes : List TailoredAttribute

pub record TailoredSection : Type 0 where
  pub id : String
  pub ordinal : ℕ
  pub heading : String
  pub kind : CvSectionKind
  pub items : List TailoredItem

pub record TailoredHeaderSnapshot : Type 0 where
  pub full_name : String
  pub location : Option String
  pub phone : Option String
  pub email : Option String
  pub github_url : Option String

pub record TailoredCvContent : Type 0 where
  pub header : TailoredHeaderSnapshot
  pub sections : List TailoredSection

pub record TailoredFactEvidence : Type 0 where
  pub fact_id : String
  pub section_id : String
  pub source_entry_id : String
  pub field_path : String
  pub source_text : String

pub record TailoredItemPatch : Type 0 where
  pub source_entry_id : Option String
  pub title : Option SourceBoundText
  pub subtitle : Option SourceBoundText
  pub date_text : Option SourceBoundText
  pub location : Option SourceBoundText
  pub body : SourceBoundText
  pub bullets : List SourceBoundText
  pub attributes : List TailoredAttribute

pub record TailoredSectionPatch : Type 0 where
  pub section_id : String
  pub items : List TailoredItemPatch

pub record TailoredPatchSet : Type 0 where
  pub sections : List TailoredSectionPatch
