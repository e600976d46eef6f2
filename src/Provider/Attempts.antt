-- ===== src/Provider/Attempts.antt =====
-- How often `invoke_with_provider_retry` calls, and what it returns.
use job_agent.Prelude.{
  ℕ, ◌+◌, String, ◌≡◌, Bool, false, List, arith, if◌then◌else◌, returned, raised, Action,
}
use job_agent.Provider.{
  Exc, Failure, reraised, retry_error, classify_provider_error, is_retryable_provider_code,
  passes_through, error_message, invoke_with_provider_retry,
}

-- What an exception of the last attempt becomes.
abbrev pub surfaced : List String → Exc → Failure
surfaced schema_types exc =
    if passes_through schema_types exc
    then reraised exc
    else retry_error (classify_provider_error exc) (error_message exc)

abbrev pub is_retried : List String → Exc → Bool
is_retried schema_types exc =
    if passes_through schema_types exc
    then false
    else is_retryable_provider_code (classify_provider_error exc)

module _ {S T : Type 0} (schema_types : List String) (call : Action S Exc T) where
  abbrev pub last_attempt : ℕ → Action S Failure (T × ℕ)
  last_attempt retries_used s =
      let (result, after) = call s in
      elim result [
        | returned value ↦ (returned (value, retries_used), after)
        | raised exc ↦ (raised (surfaced schema_types exc), after)
      ]

  -- The contract, with no loop: a second call exactly after a retried first failure.
  abbrev pub call_at_most_twice : Action S Failure (T × ℕ)
  call_at_most_twice s =
      let (result, after) = call s in
      elim result [
        | returned value ↦ (returned (value, 0), after)
        | raised exc ↦
            if is_retried schema_types exc
            then last_attempt 1 after
            else (raised (surfaced schema_types exc), after)
      ]

  -- The retry loop is the two-call contract: it returns the first value with 0 retries, calls a
  -- second time exactly when the first call raised a timeout or a rate limit that no other
  -- `except` clause takes, returns the second value with 1 retry, and otherwise surfaces the last
  -- exception, in the state that the calls left.
  pub invoke-eq-call_at_most_twice :
      (s : S) → invoke_with_provider_retry schema_types call s ≡ call_at_most_twice s
  unfolding invoke_with_provider_retry
  invoke-eq-call_at_most_twice s = ground arith

  -- The call, with a count of how often it ran.
  abbrev pub counted : Action (S × ℕ) Exc T
  counted (s, n) = let (result, after) = call s in (result, (after, n + 1))

-- Whatever the call does, it runs once or twice, and twice exactly when its first run raised an
-- exception that is retried.
pub invoke-calls :
    {S T : Type 0} (schema_types : List String) (call : Action S Exc T) (s : S)
    → (invoke_with_provider_retry schema_types (counted schema_types call) (s, 0)).1.1
      ≡ elim (call s).0 [
        | returned value ↦ 1
        | raised exc ↦ if is_retried schema_types exc then 2 else 1
      ]
unfolding invoke_with_provider_retry
invoke-calls schema_types call s = ground arith
