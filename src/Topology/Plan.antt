-- ===== src/Topology/Plan.antt =====
-- The calls that a client makes to declare its queues, in order, up to the first that is refused.
use go_amqp_adapter.Base.{
  ℕ, ◌≡◌, true, false, List, [], ◌∷◌, Option, none, some, String, concat, arith,
}
use go_amqp_adapter.Base.Int.{ℤ}
use go_amqp_adapter.Errors.{GoError, Result, ok, err, Holds}
use go_amqp_adapter.Broker.{
  Env, History, Call, called, exchange_declare, queue_declare, queue_bind, ch_qos,
}
use go_amqp_adapter.Topology.{main_args, delay_args, init_queue, init_queue_with_retry}

abbrev pub plain_plan : String → ℕ → List Call
plain_plan name ch = queue_declare ch name true false false false [] ∷ ch_qos ch 1 0 false ∷ []

abbrev pub retry_plan : String → ℕ → ℤ → List Call
retry_plan name ch retry_delay =
    exchange_declare ch (concat name ".ex") "fanout" true false false false
    ∷ exchange_declare ch (concat name ".delay.ex") "fanout" true false false false
    ∷ queue_declare ch name true false false false (main_args name)
    ∷ queue_declare ch (concat name ".delay") true false false false (delay_args name retry_delay)
    ∷ queue_bind ch name (concat name ".bind") (concat name ".ex") false
    ∷ queue_bind ch (concat name ".delay") (concat name ".delay.bind") (concat name ".delay.ex")
        false
    ∷ ch_qos ch 1 0 false
    ∷ []

-- The history after a list of calls.
abbrev pub recorded : List Call → History → History
recorded [] h = h
recorded (c ∷ cs) h = recorded cs (called c ∷ h)

module _ (env : Env) where
  -- Calls made one after another; the first refusal ends them.
  pub run_plan : List Call → History → Option GoError × History
  run_plan [] h = (none, h)
  run_plan (c ∷ cs) h = elim (env.reply h c) [
    | none ↦ run_plan cs (called c ∷ h)
    | some e ↦ (some e, called c ∷ h)
  ]

  -- The function ended as the plan did: it succeeded with the whole plan carried out, or returned
  -- an error that wraps the broker's own refusal.
  abbrev pub Follows : String → Result String × History → Option GoError × History → Type 0
  Follows name (ok q, h) (r, k) = (r ≡ none) × (h ≡ k) × (q ≡ name)
  Follows name (err e, h) (some c, k) = Holds c e × (h ≡ k)
  Follows name _ _ = ⊥

  -- Without retry mode the calls are those of the plan, in order, up to the first that is refused:
  -- all of them if the result is the queue, and otherwise the error wraps that of the broker.
  pub init_queue-Follows :
      (name : String) (ch : ℕ) (h : History)
      → Follows name (init_queue env name ch h) (run_plan (plain_plan name ch) h)
  unfolding init_queue run_plan
  init_queue-Follows name ch h = ground arith

  -- In retry mode the calls are those of the plan, in order, up to the first that is refused: all
  -- of them if the result is the queue, and otherwise the error wraps that of the broker.
  pub init_queue_with_retry-Follows :
      (name : String) (ch : ℕ) (retry_delay : ℤ) (h : History)
      → Follows name
          (init_queue_with_retry env name ch retry_delay h)
          (run_plan (retry_plan name ch retry_delay) h)
  unfolding init_queue_with_retry run_plan
  init_queue_with_retry-Follows name ch retry_delay h = ground arith
