-- ===== src/Errors/Retryable.antt =====
-- retryable.go: marking an error as retryable, and the test that the consumer makes.
use go_amqp_adapter.Base.{◌≡◌, ◌↔◌, refl, Bool, true, false, Option, none, some}
use go_amqp_adapter.Errors.{GoError, Format, wrap, wrap_both, retryable}
use go_amqp_adapter.Errors.Chain.{
  errors_as, IsMarked, here, under_second, errors_as-of_IsMarked, IsMarked-of_errors_as,
}

-- An `error` that may be nil.
abbrev pub MaybeError : Type 0
MaybeError = Option GoError

-- `Retry`
unfoldable pub retry_error : MaybeError → MaybeError
retry_error none = none
retry_error (some e) = some (retryable e)

-- The method `Unwrap` of `*RetryableError`; other errors do not have it here.
pub unwrap_retryable : GoError → MaybeError
unwrap_retryable (retryable e) = some e
unwrap_retryable _ = none

-- `IsRetryable`
unfoldable pub is_retryable : MaybeError → Bool
unfolding errors_as
is_retryable none = false
is_retryable (some e) = errors_as e

-- The error is retryable exactly when a mark stands in its tree.
pub is_retryable_iff : (e : GoError) → (is_retryable (some e) ≡ true) ↔ IsMarked e
unfolding is_retryable
is_retryable_iff e = (IsMarked-of_errors_as e, errors_as-of_IsMarked)

-- `Retry` marks every error but nil, and loses nothing: `Unwrap` gives the error back. What wraps a
-- marked error later, alone or beside another, stays retryable.
pub is_retryable-retry_error :
    (e : GoError) (f : Format) (other : GoError)
    → (retry_error none ≡ none)
      × (is_retryable (retry_error (some e)) ≡ true)
      × (unwrap_retryable (retryable e) ≡ some e)
      × (is_retryable (some (wrap f (retryable e))) ≡ true)
      × (is_retryable (some (wrap_both f other (retryable e))) ≡ true)
unfolding is_retryable retry_error unwrap_retryable
is_retryable-retry_error e f other = (
  refl,
  refl,
  refl,
  refl,
  errors_as-of_IsMarked (under_second {f = f} {d = other} (here {e = e})),
)
