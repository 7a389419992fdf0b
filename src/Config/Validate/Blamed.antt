-- ===== src/Config/Validate/Blamed.antt =====
-- What the error of a refused configuration says.
use go_amqp_adapter.Base.{
  refl, Bool, not, String, str_eq, if◌then◌else◌, ◌≡◌, ◌⊎◌, inl, inr, true, false, Option, none,
  some, [], ◌∷◌, Dict, arith, eq_iff, is_some, Option-cases,
}
use go_amqp_adapter.Base.Int.{pos, ◌≤ℤ◌, ◌<ℤ◌, ltb_ℤ, leb_ℤ}
use go_amqp_adapter.Errors.{
  GoError, wrap, sentinel, lit, str, operand, Wraps, err_empty_url, err_invalid_delay,
  err_fail_handler_required, err_invalid_retry_config,
}
use go_amqp_adapter.Config.{Config, QueueItem, QueueName, RetryConfig, millisecond}
use go_amqp_adapter.Config.Options.{Options}
use go_amqp_adapter.Config.Validate.{
  validate_retry, validate_retry_queue, validate_queues, validate_params, validate_config,
}

-- The rule for retry mode that the error says is broken.
abbrev pub BlamesRetry : Options → Option RetryConfig → GoError → Type 0
BlamesRetry opts none e = ⊥
BlamesRetry opts (some r) e =
    (Wraps err_fail_handler_required e × (opts.fail_handler ≡ none))
    ⊎ (Wraps err_invalid_retry_config e
        × ((r.delay <ℤ pos millisecond) ⊎ (r.max_duration ≤ℤ pos 0)))

abbrev pub BlamesQueues : Options → Dict QueueItem → GoError → Type 0
BlamesQueues opts [] e = ⊥
BlamesQueues opts ((name, item) ∷ rest) e = BlamesRetry opts item.retry e ⊎ BlamesQueues opts rest e

abbrev pub BlamesParams : Options → Option (Dict QueueItem) → GoError → Type 0
BlamesParams opts none e = ⊥
BlamesParams opts (some params) e = BlamesQueues opts params e

-- The error is of the kind of a rule that the configuration breaks.
abbrev pub Blames : Config → Options → GoError → Type 0
Blames conf opts e =
    (Wraps err_empty_url e × (conf.url ≡ ""))
    ⊎ (Wraps err_invalid_delay e
        × ((conf.reconnect_delay ≤ℤ pos 0)
            ⊎ (conf.re_init_delay ≤ℤ pos 0)
            ⊎ (conf.resend_delay ≤ℤ pos 0)))
    ⊎ BlamesParams opts conf.queue_params e

-- If there is an error, it does so.
abbrev pub IfError : (GoError → Type 0) → Option GoError → Type 0
IfError P none = Unit {0}
IfError P (some e) = P e

IfError-map :
    (P Q : GoError → Type 0) (o : Option GoError)
    → ((e : GoError) → P e → Q e)
    → IfError P o
    → IfError Q o
IfError-map P Q none f p = tt
IfError-map P Q (some e) f p = f e p

-- The code tries one rule after another.
IfError-elim :
    (P : GoError → Type 0) (o k : Option GoError)
    → IfError P o
    → IfError P k
    → IfError P (elim o [ none ↦ k | some e ↦ some e ])
IfError-elim P none k p q = q
IfError-elim P (some e) k p q = p

IfError-if :
    (P : GoError → Type 0) (b : Bool) (e : GoError) (k : Option GoError)
    → (b ≡ true → P e)
    → IfError P k
    → IfError P (if b then some e else k)
IfError-if P true e k p q = p refl
IfError-if P false e k p q = q

module _ (opts : Options) where
  validate_retry-Blames :
      (name : QueueName) (r : RetryConfig)
      → IfError (BlamesRetry opts (some r)) (validate_retry name r opts)
  unfolding validate_retry
  validate_retry-Blames name r =
      let P = BlamesRetry opts (some r) in
      let field : String → GoError = λ f.
        wrap (operand ∷ lit ": " ∷ str name ∷ lit f ∷ []) (sentinel err_invalid_retry_config) in
      let over =
        IfError-if P (leb_ℤ r.max_duration (pos 0)) (field " MaxDuration") none
          (λ h. inr (refl, inr (ground (arith, h)))) tt in
      let short =
        IfError-if P (ltb_ℤ r.delay (pos millisecond)) (field " Delay")
          (if leb_ℤ r.max_duration (pos 0) then some (field " MaxDuration") else none)
          (λ h. inr (refl, inl (ground (arith, h)))) over in
      IfError-if P (not (is_some opts.fail_handler))
        (wrap (operand ∷ lit ": " ∷ str name ∷ []) (sentinel err_fail_handler_required))
        (if ltb_ℤ r.delay (pos millisecond)
          then some (field " Delay")
          else if leb_ℤ r.max_duration (pos 0)
          then some (field " MaxDuration")
          else none)
        (λ h. inl (refl, ground (arith, h))) short

  validate_retry_queue-Blames :
      (name : QueueName) (item : QueueItem)
      → IfError (BlamesRetry opts item.retry) (validate_retry_queue name item opts)
  unfolding validate_retry_queue
  validate_retry_queue-Blames name item = elim (Option-cases item.retry) [
    | inl plain ↦ rw plain tt
    | inr (r, retries) ↦ rw retries (validate_retry-Blames name r)
  ]

  validate_queues-Blames :
      (params : Dict QueueItem) → IfError (BlamesQueues opts params) (validate_queues params opts)
  unfolding validate_queues
  validate_queues-Blames [] = tt
  validate_queues-Blames ((name, item) ∷ rest) =
      let Q = BlamesQueues opts ((name, item) ∷ rest) in
      let first = validate_retry_queue name item opts in
      IfError-elim Q first (validate_queues rest opts)
        (IfError-map (BlamesRetry opts item.retry) Q first (λ e p. inl p)
          (validate_retry_queue-Blames name item))
        (IfError-map (BlamesQueues opts rest) Q (validate_queues rest opts) (λ e p. inr p)
          (validate_queues-Blames rest))

  validate_params-Blames :
      (params : Option (Dict QueueItem))
      → IfError (BlamesParams opts params) (validate_params params opts)
  unfolding validate_params
  validate_params-Blames none = tt
  validate_params-Blames (some params) = validate_queues-Blames params

  -- The tests of the delays, from the last to the first.
  abbrev delay_error : String → GoError
  delay_error f = wrap (operand ∷ lit ": " ∷ lit f ∷ []) (sentinel err_invalid_delay)

  resend-Blames :
      (conf : Config)
      → IfError (Blames conf opts) (
          if leb_ℤ conf.resend_delay (pos 0)
          then some (delay_error "ResendDelay")
          else validate_params conf.queue_params opts)
  resend-Blames conf =
      IfError-if (Blames conf opts) (leb_ℤ conf.resend_delay (pos 0)) (delay_error "ResendDelay")
        (validate_params conf.queue_params opts)
        (λ h. inr (inl (refl, inr (inr (ground (arith, h))))))
        (IfError-map (BlamesParams opts conf.queue_params) (Blames conf opts)
          (validate_params conf.queue_params opts) (λ e p. inr (inr p))
          (validate_params-Blames conf.queue_params))

  pub validate_config-Blames :
      (conf : Config) → IfError (Blames conf opts) (validate_config conf opts)
  unfolding validate_config
  validate_config-Blames conf =
      let P = Blames conf opts in
      let last =
        if leb_ℤ conf.resend_delay (pos 0)
        then some (delay_error "ResendDelay")
        else validate_params conf.queue_params opts in
      let third =
        if leb_ℤ conf.re_init_delay (pos 0) then some (delay_error "ReInitDelay") else last in
      let second =
        if leb_ℤ conf.reconnect_delay (pos 0) then some (delay_error "ReconnectDelay") else third in
      IfError-if P (str_eq conf.url "") (sentinel err_empty_url) second
        (λ h. inl (refl, ground (arith, h, eq_iff conf.url "")))
        (IfError-if P (leb_ℤ conf.reconnect_delay (pos 0)) (delay_error "ReconnectDelay") third
          (λ h. inr (inl (refl, inl (ground (arith, h)))))
          (IfError-if P (leb_ℤ conf.re_init_delay (pos 0)) (delay_error "ReInitDelay") last
            (λ h. inr (inl (refl, inr (inl (ground (arith, h)))))) (resend-Blames conf)))
