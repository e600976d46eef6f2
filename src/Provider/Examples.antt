-- ===== src/Provider/Examples.antt =====
-- Runs of the retry loop on small inputs.
use job_agent.Prelude.{ℕ, zero, suc, ◌+◌, ◌≡◌, refl, none, some, [], ◌∷◌, returned, raised, Action}
use job_agent.Provider.{
  Exc, is_instance, is_rate_limit_error, is_timeout_error, is_retryable_provider_code, retry_error,
  provider_timeout, classify_provider_error, invoke_with_provider_retry, schema_error_types,
  reraised, passes_through, error_message,
}
use job_agent.Provider.Attempts.{call_at_most_twice, invoke-eq-call_at_most_twice}

program : Unit {0}
unfolding invoke_with_provider_retry passes_through is_instance classify_provider_error
    is_rate_limit_error is_timeout_error is_retryable_provider_code error_message
program = tt

abbrev read_timeout : Exc
read_timeout = record {
  type_name = "ReadTimeout";
  bases = "TimeoutException" ∷ "Exception" ∷ [];
  module_name = some "httpx";
  status_code = none;
}

abbrev bad_value : Exc
bad_value = record {
  type_name = "JSONDecodeError";
  bases = "ValueError" ∷ "Exception" ∷ [];
  module_name = some "json.decoder";
  status_code = none;
}

-- Fails with a timeout until its state counts one call.
abbrev flaky : Action ℕ Exc ℕ
flaky zero = (raised read_timeout, 1)
flaky (suc n) = (returned 7, suc (suc n))

abbrev always : Exc → Action ℕ Exc ℕ
always exc n = (raised exc, n + 1)

retried_once : invoke_with_provider_retry schema_error_types flaky 0 ≡ (returned (7, 1), 2)
unfolding program
retried_once = refl

gives_up :
    invoke_with_provider_retry schema_error_types (always read_timeout) 0
    ≡ (raised (retry_error provider_timeout "provider error: ReadTimeout"), 2)
unfolding program
gives_up = refl

not_retried :
    invoke_with_provider_retry schema_error_types (always bad_value) 0
    ≡ (raised (reraised bad_value), 1)
unfolding program
not_retried = refl

invoke-eq-call_at_most_twice_example :
    invoke_with_provider_retry schema_error_types flaky 0
    ≡ call_at_most_twice schema_error_types flaky 0
invoke-eq-call_at_most_twice_example = invoke-eq-call_at_most_twice schema_error_types flaky 0
