-- ===== src/Delivery/Panics.antt =====
-- A handler that panics each time the message comes back.
use go_amqp_adapter.Base.{ℕ, zero, suc, ◌≡◌, refl, false, Option, none, some, ◌∷◌, arith}
use go_amqp_adapter.Config.{
  Context, Body, ConsumerHandler, ConsumeHeadersExtractor, panics, FailJobHandler,
}
use go_amqp_adapter.Broker.{Env, History, called, handled, inflight_add, inflight_done, nack}
use go_amqp_adapter.Client.{Client, amqp_table_to_map}
use go_amqp_adapter.Delivery.{Delivery, nack_after_panic, handle_delivery}

module _ (env : Env) (fail : Option FailJobHandler) (loop_ctx : Context) (clnt : Client)
    (callback : ConsumerHandler) (d : Delivery) where
  -- The message is delivered `n` times, one after another.
  pub redelivered : ℕ → History → Option History
  redelivered zero h = some h
  redelivered (suc n) h = elim (handle_delivery env fail loop_ctx clnt callback d h) [
    | none ↦ none
    | some h' ↦ redelivered n h'
  ]

  -- Each delivery was answered by a nack without requeue, and nothing else happened.
  abbrev pub nacked : Context → ℕ → History → History
  nacked ctx zero h = h
  nacked ctx (suc n) h =
      nacked ctx n
        (inflight_done ∷ called (nack d.tag false false) ∷ handled ctx d.body ∷ inflight_add ∷ h)

  -- As long as the handler panics, a message that a consumer with an extractor takes is nacked
  -- without requeue at every delivery, in retry mode and out of it, also when its deadline has long
  -- passed: the handler of failed jobs is never called, and the message is never acked.
  pub redelivered_panics :
      (extract : ConsumeHeadersExtractor) (n : ℕ) (h : History)
      → clnt.consume_headers_extractor ≡ some extract
      → ((ctx : Context) (body : Body) → callback ctx body ≡ panics)
      → redelivered n h ≡ some (nacked (extract loop_ctx (amqp_table_to_map d.headers)) n h)
  unfolding redelivered handle_delivery nack_after_panic
  redelivered_panics extract zero h set broken = refl
  redelivered_panics extract (suc n) h set broken =
      let ctx = extract loop_ctx (amqp_table_to_map d.headers) in
      ground (
        arith,
        broken ctx d.body,
        redelivered_panics extract n
            (inflight_done
              ∷ called (nack d.tag false false)
              ∷ handled ctx d.body
              ∷ inflight_add
              ∷ h)
            set broken,
      )
