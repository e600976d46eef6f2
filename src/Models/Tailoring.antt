-- ===== src/Models/Tailoring.antt =====
-- backend/app/db/models/cv_tailoring.py: the rows of the two tailoring tables. Times are instants in
-- UTC.
use job_agent.Prelude.{ℕ, String, Option, List}
use job_agent.Models.Json.{JsonObject}
use job_agent.Models.Database.{TailoringState}

pub record CvTailoringSession : Type 0 where
  pub id : String
  pub profile_id : String
  pub source_attachment_id : String
  pub source_hash : String
  pub profile_updated_at : ℕ
  pub job_id : Option String
  pub job_updated_at : Option ℕ
  pub job_label_json : Option JsonObject
  pub instruction : String
  pub template_version : String
  pub state : TailoringState
  pub latest_version_number : ℕ
  pub error_code : Option String
  pub created_at : ℕ
  pub updated_at : ℕ

pub record CvTailoringVersion : Type 0 where
  pub id : String
  pub session_id : String
  pub version_number : ℕ
  pub parent_version_id : Option String
  pub created_by : String
  pub content_json : JsonObject
  pub provenance_json : JsonObject
  pub source_revision_json : JsonObject
  pub tex_relative_path : String
  pub pdf_relative_path : String
  pub tex_sha256 : String
  pub pdf_sha256 : String
  pub page_count : ℕ
  pub page_warning : Option String
  pub created_at : ℕ

-- The two tables.
pub record Store : Type 0 where
  pub sessions : List CvTailoringSession
  pub versions : List CvTailoringVersion
