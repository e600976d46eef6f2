-- ===== src/Models/Json.antt =====
-- The values of the JSON columns.
use job_agent.Prelude.{String, ℤ, Bool, Option, none, some, ◌==◌, if◌then◌else◌}

mutual
  pub data Json : Type 0 where
    null : Json
    bool : Bool → Json
    number : ℤ → Json
    text : String → Json
    array : JsonItems → Json
    object : JsonObject → Json

  pub data JsonItems : Type 0 where
    no_items : JsonItems
    item : Json → JsonItems → JsonItems

  pub data JsonObject : Type 0 where
    no_fields : JsonObject
    field : String → Json → JsonObject → JsonObject

-- `d.get(k)`: of two fields with one name the first is taken.
unfoldable pub get_field : String → JsonObject → Option Json
get_field k no_fields = none
get_field k (field j v rest) = let later = get_field k rest in if j == k then some v else later
