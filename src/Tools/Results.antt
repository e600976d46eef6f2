-- ===== src/Tools/Results.antt =====
-- backend/app/schemas/tools.py: `ToolResult`, its JSON form and its coupling with a status.
pub mod RoundTrip
use job_agent.Prelude.{
  String, Bool, true, false, not, ◌&&◌, ◌||◌, Option, none, some, ◌==◌, is_none, is_blank,
  if◌then◌else◌, List, [], ◌∷◌, any,
}
use job_agent.Prelude.Options.{◌>>=◌}
use job_agent.Models.Json.{Json, JsonObject, null, bool, text, object, no_fields, field, get_field}
use job_agent.Models.Chat.{ToolStatus}

pub record ToolResult : Type 0 where
  pub ok : Bool
  pub code : Option String
  pub summary : String
  pub payload : Option JsonObject

-- The validator `couple_ok_and_code` returns instead of raising.
unfoldable pub couple_ok_and_code : ToolResult → Bool
couple_ok_and_code result =
    if result.ok
    then is_none result.code
    else elim result.code [ none ↦ false | some code ↦ not (is_blank code) ]

-- `summary: str = Field(min_length=1)`
abbrev pub is_nonempty : String → Bool
is_nonempty s = not (s == "")

abbrev pub is_valid : ToolResult → Bool
is_valid result = is_nonempty result.summary && couple_ok_and_code result

-- `validate_tool_result_terminal_coupling` returns instead of raising `ValueError`.
unfoldable pub validate_tool_result_terminal_coupling :
    ToolResult → ToolStatus → Option String → Bool
validate_tool_result_terminal_coupling result ToolStatus.completed error_code =
    result.ok && is_none error_code && is_none result.code
validate_tool_result_terminal_coupling result ToolStatus.failed none = false
validate_tool_result_terminal_coupling result ToolStatus.failed (some error_code) =
    not result.ok
    && not (is_blank error_code)
    && elim result.code [ none ↦ false | some code ↦ code == error_code ]
validate_tool_result_terminal_coupling result ToolStatus.pending error_code = false
validate_tool_result_terminal_coupling result ToolStatus.running error_code = false

optional_text : Option String → Json
optional_text none = null
optional_text (some s) = text s

optional_object : Option JsonObject → Json
optional_object none = null
optional_object (some o) = object o

-- `model_dump(mode="json")`: every declared field, in order.
unfoldable pub serialize_result : ToolResult → JsonObject
unfolding optional_text optional_object
serialize_result result = field "ok" (bool result.ok) (
    field "code" (optional_text result.code) (
      field "summary" (text result.summary)
        (field "data" (optional_object result.payload) no_fields)))

-- `extra="forbid"`
only_declared : JsonObject → Bool
only_declared no_fields = true
only_declared (field k v rest) =
    any (λ n. n == k) ("ok" ∷ "code" ∷ "summary" ∷ "data" ∷ []) && only_declared rest

read_bool : Option Json → Option Bool
read_bool (some (bool b)) = some b
read_bool _ = none

-- `str | None = None`; the outer `none` is a field of another type.
read_optional_text : Option Json → Option (Option String)
read_optional_text none = some none
read_optional_text (some null) = some none
read_optional_text (some (text s)) = some (some s)
read_optional_text _ = none

read_text : Option Json → Option String
read_text (some (text s)) = some s
read_text _ = none

read_optional_object : Option Json → Option (Option JsonObject)
read_optional_object none = some none
read_optional_object (some null) = some none
read_optional_object (some (object o)) = some (some o)
read_optional_object _ = none

-- The validators of the class, on the declared fields.
checked : ToolResult → Option ToolResult
checked result = if is_valid result then some result else none

read_fields : JsonObject → Option ToolResult
unfolding get_field read_bool read_optional_text read_text read_optional_object checked
read_fields fields = do
  ok ← read_bool (get_field "ok" fields)
  code ← read_optional_text (get_field "code" fields)
  summary ← read_text (get_field "summary" fields)
  content ← read_optional_object (get_field "data" fields)
  checked (record { ok = ok; code = code; summary = summary; payload = content })

-- `ToolResult.model_validate(payload)`; `none` is a `ValidationError`.
unfoldable pub parse_tool_result : JsonObject → Option ToolResult
unfolding only_declared read_fields
parse_tool_result fields = if only_declared fields then read_fields fields else none
