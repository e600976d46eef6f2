-- ===== src/Tools/Results/RoundTrip.antt =====
-- Storing a result and reading it back.
use job_agent.Prelude.{◌≡◌, true, some, arith}
use job_agent.Tools.Results.{ToolResult, is_valid, serialize_result, parse_tool_result}

-- A result that meets its own validators is what is read back from its JSON form.
pub parse-serialize :
    (result : ToolResult)
    → is_valid result ≡ true
    → parse_tool_result (serialize_result result) ≡ some result
unfolding parse_tool_result serialize_result
parse-serialize result valid = ground arith
