-- ===== src/Provider.antt =====
-- backend/app/services/provider_retry.py: error classification and the loop with one retry.
-- An exception is what the code reads of it: the names of its classes, its module and its status.
pub mod Attempts
mod Examples
use job_agent.Prelude.{
  ℕ, zero, suc, ◌+◌, String, Bool, true, false, ◌&&◌, ◌||◌, Option, none, some, List, [], ◌∷◌, ◌++◌,
  ◌==◌, eqb, ltb, any, if◌then◌else◌, Outcome, returned, raised, Action,
}
use job_agent.Prelude.Substring.{occurs_in, occurs_in_lower}

pub record Exc : Type 0 where
  pub type_name : String
  pub bases : List String
  pub module_name : Option String
  pub status_code : Option ℕ

pub data Code : Type 0 where
  provider_timeout provider_rate_limit provider_error : Code

-- What leaves `invoke_with_provider_retry`: the caught exception, or a `ProviderRetryError`.
pub data Failure : Type 0 where
  reraised : Exc → Failure
  retry_error : Code → String → Failure

abbrev pub max_provider_retries : ℕ
max_provider_retries = 1

-- `isinstance(exc, name)`
unfoldable pub is_instance : Exc → String → Bool
is_instance exc name = exc.type_name == name || any (λ b. b == name) exc.bases

abbrev schema_error_types : List String
schema_error_types = "ValidationError" ∷ "JSONDecodeError" ∷ "TypeError" ∷ "ValueError" ∷ []

or_empty : Option String → String
or_empty none = ""
or_empty (some s) = s

is_429 : Option ℕ → Bool
is_429 none = false
is_429 (some n) = eqb n 429

unfoldable pub is_rate_limit_error : Exc → Bool
unfolding or_empty is_429 occurs_in occurs_in_lower
is_rate_limit_error exc =
    if exc.type_name == "RateLimitError" || exc.type_name == "APIRateLimitError"
    then true
    else if occurs_in "openai" (or_empty exc.module_name) && occurs_in_lower "rate" exc.type_name
    then true
    else is_429 exc.status_code

unfoldable pub is_timeout_error : Exc → Bool
unfolding or_empty is_instance occurs_in occurs_in_lower
is_timeout_error exc =
    if is_instance exc "TimeoutError"
    then true
    else if any (λ n. exc.type_name == n)
        ("APITimeoutError" ∷ "TimeoutException" ∷ "ReadTimeout" ∷ "ConnectTimeout" ∷ [])
    then true
    else occurs_in_lower "timeout" exc.type_name
      && (occurs_in "openai" (or_empty exc.module_name)
          || occurs_in "httpx" (or_empty exc.module_name)
          || occurs_in "httpcore" (or_empty exc.module_name))

unfoldable pub classify_provider_error : Exc → Code
classify_provider_error exc =
    if is_rate_limit_error exc
    then provider_rate_limit
    else if is_timeout_error exc
    then provider_timeout
    else provider_error

unfoldable pub is_retryable_provider_code : Code → Bool
is_retryable_provider_code provider_timeout = true
is_retryable_provider_code provider_rate_limit = true
is_retryable_provider_code provider_error = false

-- The `except` clauses above `except Exception`, and what is no `Exception`.
unfoldable pub passes_through : List String → Exc → Bool
passes_through schema_types exc =
    if any (is_instance exc) schema_types
    then true
    else if is_instance exc "ProviderRetryError"
    then true
    else if is_instance exc "Exception"
    then false
    else true

unfoldable pub error_message : Exc → String
error_message exc = Prim.Native.String.◌++◌ "provider error: " exc.type_name

module _ {S T : Type 0} (schema_types : List String) (call : Action S Exc T) where
  -- One pass of the `for` loop for each unit of `left`; `attempt` is the loop's variable.
  unfoldable pub attempt_loop :
      (left attempt retries_used : ℕ) (last_code : Code) (last_message : String)
      → Action S Failure (T × ℕ)
  attempt_loop zero attempt retries_used last_code last_message s =
      (raised (retry_error last_code last_message), s)
  attempt_loop (suc left) attempt retries_used last_code last_message s =
      let (result, after) = call s in
      elim result [
        | returned value ↦ (returned (value, retries_used), after)
        | raised exc ↦
            let code = classify_provider_error exc in
            let again =
              attempt_loop left (attempt + 1) (retries_used + 1) code (error_message exc) after in
            if passes_through schema_types exc
            then (raised (reraised exc), after)
            else if is_retryable_provider_code code && ltb attempt max_provider_retries
            then again
            else (raised (retry_error code (error_message exc)), after)
      ]

  unfoldable pub invoke_with_provider_retry : Action S Failure (T × ℕ)
  unfolding attempt_loop
  invoke_with_provider_retry =
      attempt_loop (max_provider_retries + 1) 0 0 provider_error "provider call failed"
