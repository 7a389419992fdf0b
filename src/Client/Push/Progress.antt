-- ===== src/Client/Push/Progress.antt =====
-- When `push` goes on, and when it ends.
use go_amqp_adapter.Base.{
  ℕ, suc, ◌<◌, ◌≤◌, ◌≡◌, ◌≢◌, ◌⊎◌, inl, inr, refl, true, false, none, some, List, [], ◌∷◌, ◌++◌,
  arith, All, Option-cases,
}
use go_amqp_adapter.Errors.{ok, crash}
use go_amqp_adapter.Config.{Context, Table, PublishMessage}
use go_amqp_adapter.Broker.{Env, Call, History, called, slept, ch_publish}
use go_amqp_adapter.Client.{Client}
use go_amqp_adapter.Client.Push.{
  Ready, Pause, Round, Push, finished, unfinished, wait_ready, wait_publish_confirm,
  wait_before_push_retry, priority_of, max_publish_message_priority, publishing, unsafe_push, seen,
  locked, push_loop, push,
}

-- The number of publishes.
pub published : History → ℕ
published [] = 0
published (called (ch_publish n ex key mandatory immediate p) ∷ h) = suc (published h)
published (_ ∷ h) = published h

-- Neither the client was closed nor the context done while the loop waited.
abbrev pub AllTimers : List Round → Type 0
AllTimers = All (λ r. r.pause ≡ Pause.on_timer)

-- The fields that `push` reads are those of a client whose channel is there if it is ready.
abbrev pub AllSteady : List Round → Type 0
AllSteady = All (λ r. (r.is_ready ≡ 0) ⊎ (r.ch ≢ none))

module _ (env : Env) (clnt : Client) (msg : PublishMessage) where
  locked_invalid :
      (headers : Table) (r : Round) (h : History)
      → max_publish_message_priority < priority_of msg
      → (locked env clnt msg headers r h).0 ≢ ok tt
        × (locked env clnt msg headers r h).0 ≢ crash
        × ((locked env clnt msg headers r h).1 ≡ h)
  unfolding locked unsafe_push
  locked_invalid headers r h big = ground arith

  abbrev Idles : History → Push × History → Type 0
  Idles h (p, h') = (p ≡ unfinished) × (published h' ≡ published h)

  push_loop_invalid :
      (headers : Table) (rounds : List Round) (h : History)
      → max_publish_message_priority < priority_of msg
      → AllTimers rounds
      → Idles h (push_loop env clnt msg headers rounds h)
  unfolding push_loop wait_before_push_retry published
  push_loop_invalid headers [] h big timers = (refl, refl)
  push_loop_invalid headers (r ∷ rs) h big timers = ground (
    arith,
    locked_invalid headers r h big,
    push_loop_invalid headers rs (slept clnt.resend_delay ∷ h) big timers.1,
  )

  -- A priority above 9 is not reported to the caller: as long as the client, which has a builder of
  -- headers, is open and the context is not done, `push` neither returns nor publishes, however
  -- many rounds it makes.
  pub push_invalid_priority :
      (ctx : Context) (build : Context → Table) (rounds : List Round) (h : History)
      → max_publish_message_priority < priority_of msg
      → clnt.publish_headers_builder ≡ some build
      → AllTimers rounds
      → let (p, h') = push env clnt ctx msg Ready.on_ready rounds h in
        (p ≡ unfinished) × (published h' ≡ published h)
  unfolding push wait_ready
  push_invalid_priority ctx build rounds h big set timers =
      ground (arith, push_loop_invalid (build ctx) rounds h big timers)

  -- A round in which the client is ready and the broker acks.
  pub record IsGood (r : Round) : Type 0 where
    pub is_up : r.is_ready ≢ 0
    pub has_channel : r.ch ≢ none
    pub acks : wait_publish_confirm clnt r.confirm ≡ ok tt

  locked_good :
      (headers : Table) (r : Round) (h : History)
      → ((k : History) (c : Call) → env.reply k c ≡ none)
      → priority_of msg ≤ max_publish_message_priority
      → IsGood r
      → (locked env clnt msg headers r h).0 ≡ ok tt
  unfolding locked unsafe_push
  locked_good headers r h takes small good = elim (Option-cases r.ch) [
    | inl nil ↦ absurd (good.has_channel nil)
    | inr (n, at_ch) ↦
        let p = publishing (seen clnt r) msg headers (env.now h) in
        ground (arith, takes h (ch_publish n "" clnt.queue_name true false p))
  ]

  locked_steady :
      (headers : Table) (r : Round) (h : History)
      → ((r.is_ready ≡ 0) ⊎ (r.ch ≢ none))
      → (locked env clnt msg headers r h).0 ≢ crash
  unfolding locked unsafe_push wait_publish_confirm
  locked_steady headers r h steady = ground arith

  push_loop_delivers :
      (headers : Table) (bad : List Round) (good : Round) (rest : List Round) (h : History)
      → ((k : History) (c : Call) → env.reply k c ≡ none)
      → priority_of msg ≤ max_publish_message_priority
      → AllTimers bad
      → AllSteady bad
      → IsGood good
      → (push_loop env clnt msg headers (bad ++ good ∷ rest) h).0 ≡ finished (ok tt)
  unfolding push_loop wait_before_push_retry
  push_loop_delivers headers [] good rest h takes small timers steady up =
      ground (arith, locked_good headers good h takes small up)
  push_loop_delivers headers (r ∷ rs) good rest h takes small timers steady up =
      let h1 = (locked env clnt msg headers r h).1 in
      ground (
        arith,
        locked_steady headers r h steady.0,
        push_loop_delivers headers rs good rest (slept clnt.resend_delay ∷ h1) takes small timers.1
            steady.1 up,
      )

  -- Whatever went wrong in earlier rounds (the client was not ready, the broker sent a negative
  -- confirmation), once a round finds the client ready with a channel and gets an ack, `push`
  -- returns nil: if the broker takes what is published, the priority is at most 9, the client has a
  -- builder of headers, it had a channel whenever it was ready, and nobody gave up in between.
  pub push_delivers :
      (ctx : Context) (build : Context → Table) (bad : List Round) (good : Round)
      (rest : List Round) (h : History)
      → ((k : History) (c : Call) → env.reply k c ≡ none)
      → priority_of msg ≤ max_publish_message_priority
      → clnt.publish_headers_builder ≡ some build
      → AllTimers bad
      → AllSteady bad
      → IsGood good
      → (push env clnt ctx msg Ready.on_ready (bad ++ good ∷ rest) h).0 ≡ finished (ok tt)
  unfolding push wait_ready
  push_delivers ctx build bad good rest h takes small set timers steady up =
      ground (arith, push_loop_delivers (build ctx) bad good rest h takes small timers steady up)
