-- ===== src/TailoringGuard.antt =====
-- backend/app/services/cv_tailoring_guard.py: the issues, the fields of an item, the parameters.
pub mod Tokens
pub mod Support
pub mod Fields
pub mod Structure
pub mod Assembly
pub mod Manual
pub mod Service
mod Examples
use job_agent.Prelude.{ℕ, String, Bool, Option, none, some, List, [], ◌∷◌, ◌++◌, ◌+◌}
use job_agent.Prelude.Words.{Unicode, join, decimal}
use job_agent.Models.Tailored.{SourceBoundText, TailoredAttribute, TailoredItemPatch}
use job_agent.TailoringGraph.{Issue, FactBank}

-- The arguments of the guard that its checks share. The semantic checker is a component outside.
pub record Checks : Type 0 where
  pub unicode : Unicode
  pub fact_bank : FactBank
  pub approved_skill_labels : List String
  pub semantic_checker : Option (String → List String → Bool)
  pub require_semantic_support : Bool
  pub require_deterministic_support : Bool

abbrev pub issue : String → String → Issue
issue code path = record { code = code; path = path }

-- `f"{path}{name}[{index}]"`
unfoldable pub indexed : String → String → ℕ → String
unfolding join decimal
indexed path name index = join "" (path ∷ name ∷ "[" ∷ decimal index ∷ "]" ∷ [])

abbrev pub Field : Type 0
Field = String × SourceBoundText

optional : String → String → Option SourceBoundText → List Field
unfolding join
optional path name none = []
optional path name (some value) = (join "" (path ∷ name ∷ []), value) ∷ []

numbered : String → String → ℕ → List SourceBoundText → List Field
unfolding indexed
numbered path name index [] = []
numbered path name index (value ∷ values) =
    (indexed path name index, value) ∷ numbered path name (index + 1) values

attribute_fields : String → ℕ → List TailoredAttribute → List Field
unfolding indexed numbered
attribute_fields path index [] = []
attribute_fields path index (a ∷ rest) =
    numbered (indexed path ".attributes" index) ".values" 0 a.values
    ++ attribute_fields path (index + 1) rest

-- `_text_fields`
unfoldable pub text_fields : String → TailoredItemPatch → List Field
unfolding optional numbered attribute_fields join
text_fields path item =
    optional path ".title" item.title
    ++ optional path ".subtitle" item.subtitle
    ++ optional path ".date_text" item.date_text
    ++ optional path ".location" item.location
    ++ (join "" (path ∷ ".body" ∷ []), item.body) ∷ numbered path ".bullets" 0 item.bullets
    ++ attribute_fields path 0 item.attributes
