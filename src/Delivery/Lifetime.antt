-- ===== src/Delivery/Lifetime.antt =====
-- The life of a message in retry mode, from its first delivery to the ack.
use go_amqp_adapter.Base.{
  ℕ, suc, ◌+◌, ◌*◌, ◌≤◌, ◌<◌, ◌≡◌, ◌⊎◌, inl, inr, refl, Bool, true, false, Option, none, some, List,
  [], ◌∷◌, arith, All, length, lookup, if◌then◌else◌, Bool-cases,
}
use go_amqp_adapter.Errors.Retryable.{is_retryable, is_retryable_iff}
use go_amqp_adapter.Config.{
  Table, PublishMessage, RetryConfig, Outcome, returned, panics, FailJobHandler,
}
use go_amqp_adapter.Broker.{Env, History, called, ack, nack, reject}
use go_amqp_adapter.Time.RoundTrip.{year_of}
use go_amqp_adapter.Client.{Client, with_retry, add_duration}
use go_amqp_adapter.Client.Push.{publish_headers, retry_limit}
use go_amqp_adapter.Delivery.{
  Delivery, extract_expired_header, reject_delivery, ack_delivery, finalize_failed_retry,
  handle_retry_error, handle_consumer_error, settle,
}
use go_amqp_adapter.Delivery.Retried.{settle_until_deadline}

-- A delivery of the message: the clock when it is settled, and how the handler ended.
abbrev pub Try : Type 0
Try = ℕ × Outcome

abbrev pub at_time : Env → ℕ → Env
at_time env t = record env { now = λ h. t }

-- A message that is dropped without requeue goes round by the delay queue.
abbrev pub comes_back : History → Bool
comes_back (called (reject tag false) ∷ h) = true
comes_back (called (nack tag multiple false) ∷ h) = true
comes_back _ = false

-- The latest event acks the message.
abbrev pub IsAcked : ℕ → History → Type 0
IsAcked tag [] = ⊥
IsAcked tag (e ∷ h) = e ≡ called (ack tag false)

-- Each delivery comes at least `gap` after the one before, and the first not before `start`: what
-- the time to live of the delay queue brings about, if the broker's clock runs with the consumer's.
abbrev pub Spaced : ℕ → ℕ → List Try → Type 0
Spaced gap start [] = Unit {0}
Spaced gap start ((t, o) ∷ rest) = (start ≤ t) × Spaced gap (t + gap) rest

-- The handler returns, with an error or not.
abbrev pub Returns : Try → Type 0
Returns (t, returned e) = Unit {0}
Returns (t, panics) = ⊥

-- How many deliveries there were, whether the message still circulates, and the history.
pub record Life : Type 0 where
  pub deliveries : ℕ
  pub circulates : Bool
  pub history : History

mul_suc : (n g : ℕ) → suc n * g ≡ n * g + g
mul_suc n g = omega arith

module _ (env : Env) (fail : Option FailJobHandler) (clnt : Client) (d : Delivery) where
  -- The deliveries of the message, as long as it comes back.
  unfoldable pub life : List Try → History → Life
  life [] h = record { deliveries = 0; circulates = true; history = h }
  life ((t, o) ∷ rest) h =
      let h' = settle (at_time env t) fail clnt d (extract_expired_header clnt d) o h in
      let later = life rest h' in
      if comes_back h'
      then record later { deliveries = suc later.deliveries }
      else record { deliveries = 1; circulates = false; history = h' }

  module _ (publisher : Client) (r : RetryConfig) (msg : PublishMessage) (headers : Table)
      (sent : ℕ) (retries : publisher.retry ≡ some r)
      (arrived : lookup "expired" d.headers
        ≡ lookup "expired" (publish_headers publisher msg headers sent))
      (mode : with_retry clnt ≡ true)
      (early : year_of (add_duration sent (retry_limit msg r)) < 10000) where
    -- One delivery: the message comes back before its deadline, or is acked.
    one_delivery :
        (t : ℕ) (o : Outcome) (h : History)
        → Returns (t, o)
        → let h' = settle (at_time env t) fail clnt d (extract_expired_header clnt d) o h in
          ((comes_back h' ≡ true) × (t ≤ add_duration sent (retry_limit msg r)))
          ⊎ ((comes_back h' ≡ false) × IsAcked d.tag h')
    unfolding settle handle_consumer_error handle_retry_error finalize_failed_retry ack_delivery
        reject_delivery
    one_delivery t (returned none) h ret = inr (refl, refl)
    one_delivery t (returned (some e)) h ret = elim (Bool-cases (is_retryable (some e))) [
      | inl marked ↦ ground (
        arith,
        settle_until_deadline (at_time env t) fail clnt d publisher r msg headers sent e h retries
            arrived mode ((is_retryable_iff e).0 marked) early,
      )
      | inr plain ↦ ground (arith, plain, mode)
    ]
    one_delivery t panics h ret = absurd ret

    abbrev pub deadline : ℕ
    deadline = add_duration sent (retry_limit msg r)

    -- What holds of a life that starts at `start`, after as many deliveries as are listed.
    abbrev Bounded : ℕ → ℕ → ℕ → Life → Type 0
    Bounded gap start n l =
        ((l.circulates ≡ false)
          × IsAcked d.tag l.history
          × ((l.deliveries ≤ 1) ⊎ (start + l.deliveries * gap ≤ deadline + 2 * gap)))
        ⊎ ((l.circulates ≡ true)
            × (l.deliveries ≡ n)
            × ((n ≡ 0) ⊎ (start + n * gap ≤ deadline + gap)))

    life-Bounded :
        (gap start : ℕ) (times : List Try) (h : History)
        → Spaced gap start times
        → All Returns times
        → Bounded gap start (length times) (life times h)
    unfolding life
    life-Bounded gap start [] h spaced ret = inr (refl, refl, inl refl)
    life-Bounded gap start ((t, o) ∷ rest) h spaced ret =
        let h' = settle (at_time env t) fail clnt d (extract_expired_header clnt d) o h in
        ground (
          arith,
          one_delivery t o h ret.0,
          life-Bounded gap (t + gap) rest h' spaced.1 ret.1,
          mul_suc (life rest h').deliveries gap,
          mul_suc (length rest) gap,
        )

    -- Retrying ends. A message is published at the time `sent` by a client in retry mode and
    -- arrives with the same `expired` header at a consumer in retry mode, whose handler always
    -- returns, with whatever result; the deadline lies before the year 10000; each delivery comes
    -- at least `gap` after the one before. If so many deliveries are on offer that `gap` times
    -- their number reaches past the deadline and one `gap` more, then the message does not go round
    -- for ever: it is acked after finitely many, either the first or so many that `gap` times their
    -- number ends two `gap`s after the deadline.
    pub life-IsAcked :
        (gap : ℕ) (times : List Try) (h : History)
        → Spaced gap sent times
        → All Returns times
        → 0 < length times
        → deadline + gap < sent + length times * gap
        → let l = life times h in
          (l.circulates ≡ false)
          × IsAcked d.tag l.history
          × ((l.deliveries ≤ 1) ⊎ (sent + l.deliveries * gap ≤ deadline + 2 * gap))
    life-IsAcked gap times h spaced ret some_there many =
        ground (arith, life-Bounded gap sent times h spaced ret)
