-- ===== src/Client/Push/Outcomes.antt =====
-- What a call of `push` can end with.
use go_amqp_adapter.Base.{
  ℕ, ◌≤◌, ◌≡◌, ◌⊎◌, inl, inr, refl, true, false, none, some, List, [], ◌∷◌, arith, Option-cases,
}
use go_amqp_adapter.Errors.{
  GoError, ok, Wraps, err_done_signal_before_ack, err_context_canceled_before_ack,
}
use go_amqp_adapter.Config.{Context, Table, PublishMessage}
use go_amqp_adapter.Broker.{Env, History, called, ch_publish}
use go_amqp_adapter.Client.{Client}
use go_amqp_adapter.Client.Push.{
  Ready, Confirm, Round, finished, wait_ready, wait_publish_confirm, wait_before_push_retry,
  publishing, priority_of, max_publish_message_priority, unsafe_push, locked, push_loop, push,
}

-- The caller gave up: the client was closed, or the context was done.
abbrev pub GaveUp : GoError → Type 0
GaveUp e = Wraps err_done_signal_before_ack e ⊎ Wraps err_context_canceled_before_ack e

module _ (env : Env) (clnt : Client) (msg : PublishMessage) where
  -- The last event is a publish of the message to the client's queue, which the broker took.
  abbrev pub IsSent : Table → History → Type 0
  IsSent headers h' =
      (n : ℕ) × (k : History) × let p = publishing clnt msg headers (env.now k) in
        let call = ch_publish n "" clnt.queue_name true false p in
        (h' ≡ called call ∷ k) × (env.reply k call ≡ none)

  abbrev pub IsAck : Confirm → Type 0
  IsAck c = (tag : ℕ) × (c ≡ Confirm.on_confirm true tag)

  wait_publish_confirm-IsAck : (c : Confirm) → wait_publish_confirm clnt c ≡ ok tt → IsAck c
  unfolding wait_publish_confirm
  wait_publish_confirm-IsAck Confirm.on_done e = cc
  wait_publish_confirm-IsAck Confirm.on_ctx e = cc
  wait_publish_confirm-IsAck (Confirm.on_confirm true tag) e = (tag, refl)
  wait_publish_confirm-IsAck (Confirm.on_confirm false tag) e = cc

  locked-IsSent :
      (headers : Table) (r : Round) (h h' : History)
      → locked env clnt msg headers r h ≡ (ok tt, h')
      → IsSent headers h'
        × (wait_publish_confirm clnt r.confirm ≡ ok tt)
        × (priority_of msg ≤ max_publish_message_priority)
  unfolding locked unsafe_push publishing
  locked-IsSent headers r h h' e = elim (Option-cases r.ch) [
    | inl nil ↦ absurd (ground arith)
    | inr (n, at_ch) ↦ ((n, h, (ground arith, ground arith)), ground arith, ground arith)
  ]

  -- A round in which the broker acked what was published.
  abbrev pub AnyAck : List Round → Type 0
  AnyAck [] = ⊥
  AnyAck (r ∷ rs) = IsAck r.confirm ⊎ AnyAck rs

  abbrev Succeeded : Table → List Round → History → Type 0
  Succeeded headers rounds h' =
      IsSent headers h' × AnyAck rounds × (priority_of msg ≤ max_publish_message_priority)

  after_locked :
      (headers : Table) (r : Round) (rs : List Round) (h h' : History)
      → locked env clnt msg headers r h ≡ (ok tt, h')
      → Succeeded headers (r ∷ rs) h'
  after_locked headers r rs h h' e =
      let sent = locked-IsSent headers r h h' e in
      (sent.0, inl (wait_publish_confirm-IsAck r.confirm sent.1), sent.2)

  push_loop-Succeeded :
      (headers : Table) (rounds : List Round) (h h' : History)
      → push_loop env clnt msg headers rounds h ≡ (finished (ok tt), h')
      → Succeeded headers rounds h'
  unfolding push_loop
  push_loop-Succeeded headers [] h h' e = cc
  push_loop-Succeeded headers (r ∷ rs) h h' e =
      let h1 = (locked env clnt msg headers r h).1 in
      let h2 = (wait_before_push_retry clnt r.pause h1).1 in
      ground (arith, after_locked headers r rs h h', push_loop-Succeeded headers rs h2 h')

  -- If `push` returns nil, then the client has a builder of headers, the latest event is a publish
  -- of the message with those headers to the queue of the client, persistent and mandatory, on the
  -- default exchange; the broker took it; a confirmation with `Ack` was read in one of the rounds;
  -- and the priority is at most 9.
  pub push-Succeeded :
      (ctx : Context) (ready : Ready) (rounds : List Round) (h h' : History)
      → push env clnt ctx msg ready rounds h ≡ (finished (ok tt), h')
      → (build : Context → Table) × (clnt.publish_headers_builder ≡ some build)
        × IsSent (build ctx) h'
        × AnyAck rounds
        × (priority_of msg ≤ max_publish_message_priority)
  unfolding push wait_ready
  push-Succeeded ctx ready rounds h h' e = elim (Option-cases clnt.publish_headers_builder) [
    | inl nil ↦ absurd (ground arith)
    | inr (build, set) ↦
        let found : Succeeded (build ctx) rounds h' =
          push_loop-Succeeded (build ctx) rounds h h' (ground arith) in
        (build, set, found.0, found.1, found.2)
  ]
