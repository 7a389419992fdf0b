-- ===== src/Errors/Chain.antt =====
-- `errors.As(err, &re)` with a target of type `*RetryableError` (package errors of Go): the walk
-- over the tree of an error, and the relation that it decides.
use go_amqp_adapter.Base.{◌≡◌, refl, Bool, true, false, ◌||◌, arith, Bool-cases, inl, inr}
use go_amqp_adapter.Errors.{
  GoError, Format, sentinel, context_canceled, context_deadline, foreign, wrap, wrap_both,
  retryable_nil, retryable,
}

-- The walk is depth first, and stops at the first `*RetryableError`.
unfoldable pub errors_as : GoError → Bool
errors_as (wrap f e) = errors_as e
errors_as (wrap_both f d e) = errors_as d || errors_as e
errors_as retryable_nil = true
errors_as (retryable e) = true
errors_as _ = false

-- A `*RetryableError` stands somewhere in the tree.
pub data IsMarked : GoError → Type 0 where
  bare : IsMarked retryable_nil
  here : {e : GoError} → IsMarked (retryable e)
  under : {f : Format} {e : GoError} → IsMarked e → IsMarked (wrap f e)
  under_first : {f : Format} {d e : GoError} → IsMarked d → IsMarked (wrap_both f d e)
  under_second : {f : Format} {d e : GoError} → IsMarked e → IsMarked (wrap_both f d e)

pub errors_as-of_IsMarked : {e : GoError} → IsMarked e → errors_as e ≡ true
unfolding errors_as
errors_as-of_IsMarked bare = refl
errors_as-of_IsMarked here = refl
errors_as-of_IsMarked (under m) = errors_as-of_IsMarked m
errors_as-of_IsMarked (under_first m) = ground (arith, errors_as-of_IsMarked m)
errors_as-of_IsMarked (under_second m) = ground (arith, errors_as-of_IsMarked m)

pub IsMarked-of_errors_as : (e : GoError) → errors_as e ≡ true → IsMarked e
unfolding errors_as
IsMarked-of_errors_as (sentinel s) h = cc
IsMarked-of_errors_as context_canceled h = cc
IsMarked-of_errors_as context_deadline h = cc
IsMarked-of_errors_as (foreign s) h = cc
IsMarked-of_errors_as (wrap f e) h = under (IsMarked-of_errors_as e h)
IsMarked-of_errors_as (wrap_both f d e) h = elim (Bool-cases (errors_as d)) [
  | inl first ↦ under_first (IsMarked-of_errors_as d first)
  | inr other ↦ under_second (IsMarked-of_errors_as e (ground arith))
]
IsMarked-of_errors_as retryable_nil h = bare
IsMarked-of_errors_as (retryable e) h = here
