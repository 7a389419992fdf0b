-- ===== src/Client/Push/Tags.antt =====
-- The delivery tags of confirmations.
use go_amqp_adapter.Base.{ℕ, ◌≡◌, refl, true, false, List, [], ◌∷◌, arith, Option-cases, inl, inr}
use go_amqp_adapter.Config.{Context, Table, PublishMessage}
use go_amqp_adapter.Broker.{Env, History}
use go_amqp_adapter.Client.{Client}
use go_amqp_adapter.Client.Push.{
  Ready, Confirm, Round, wait_ready, wait_publish_confirm, wait_before_push_retry, locked,
  push_loop, push,
}

-- The same rounds, with other delivery tags on the confirmations.
pub retagged : (ℕ → ℕ) → Confirm → Confirm
retagged f (Confirm.on_confirm is_ack tag) = Confirm.on_confirm is_ack (f tag)
retagged f c = c

pub retag : (ℕ → ℕ) → List Round → List Round
unfolding retagged
retag f [] = []
retag f (r ∷ rs) = record r { confirm = retagged f r.confirm } ∷ retag f rs

module _ (env : Env) (clnt : Client) (msg : PublishMessage) (f : ℕ → ℕ) where
  wait_publish_confirm-retagged :
      (c : Confirm) → wait_publish_confirm clnt (retagged f c) ≡ wait_publish_confirm clnt c
  unfolding wait_publish_confirm retagged
  wait_publish_confirm-retagged Confirm.on_done = refl
  wait_publish_confirm-retagged Confirm.on_ctx = refl
  wait_publish_confirm-retagged (Confirm.on_confirm true tag) = refl
  wait_publish_confirm-retagged (Confirm.on_confirm false tag) = refl

  locked-retagged :
      (headers : Table) (r : Round) (h : History)
      → locked env clnt msg headers (record r { confirm = retagged f r.confirm }) h
        ≡ locked env clnt msg headers r h
  unfolding locked
  locked-retagged headers r h = ground (arith, wait_publish_confirm-retagged r.confirm)

  push_loop-retag :
      (headers : Table) (rounds : List Round) (h : History)
      → push_loop env clnt msg headers (retag f rounds) h ≡ push_loop env clnt msg headers rounds h
  unfolding push_loop retag
  push_loop-retag headers [] h = refl
  push_loop-retag headers (r ∷ rs) h =
      let h1 = (locked env clnt msg headers r h).1 in
      let h2 = (wait_before_push_retry clnt r.pause h1).1 in
      ground (arith, locked-retagged headers r h, push_loop-retag headers rs h2)

  -- `push` does not look at the delivery tag of a confirmation: with any other tags on the
  -- confirmations that it reads, it returns the same and leaves the same history.
  pub push-retag :
      (ctx : Context) (ready : Ready) (rounds : List Round) (h : History)
      → push env clnt ctx msg ready (retag f rounds) h ≡ push env clnt ctx msg ready rounds h
  unfolding push
  push-retag ctx ready rounds h =
      let h' = (wait_ready env clnt ready h).1 in
      elim (Option-cases clnt.publish_headers_builder) [
        | inl nil ↦ ground arith
        | inr (build, set) ↦ ground (arith, push_loop-retag (build ctx) rounds h')
      ]
