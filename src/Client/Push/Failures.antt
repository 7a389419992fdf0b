-- ===== src/Client/Push/Failures.antt =====
-- The errors of `push`, and the messages that it never sends.
use go_amqp_adapter.Base.{◌≡◌, ◌⊎◌, inl, inr, List, [], ◌∷◌, arith, Option-cases}
use go_amqp_adapter.Errors.{GoError, err, Wraps, Holds, err_client_closed_before_ready}
use go_amqp_adapter.Config.{Context, Table, PublishMessage}
use go_amqp_adapter.Broker.{Env, History}
use go_amqp_adapter.Client.{Client}
use go_amqp_adapter.Client.Push.Outcomes.{GaveUp}
use go_amqp_adapter.Client.Push.{
  Ready, Round, finished, context_error, wait_ready, wait_before_push_retry, locked, push_loop,
  push,
}

-- It gave up before the client was ready.
abbrev pub NotReady : GoError → GoError → Type 0
NotReady ctx_err e = Wraps err_client_closed_before_ready e ⊎ Holds ctx_err e

module _ (env : Env) (clnt : Client) (msg : PublishMessage) where
  push_loop-GaveUp :
      (headers : Table) (rounds : List Round) (h h' : History) (e : GoError)
      → push_loop env clnt msg headers rounds h ≡ (finished (err e), h')
      → GaveUp e
  unfolding push_loop wait_before_push_retry
  push_loop-GaveUp headers [] h h' e p = cc
  push_loop-GaveUp headers (r ∷ rs) h h' e p =
      let h1 = (locked env clnt msg headers r h).1 in
      let h2 = (wait_before_push_retry clnt r.pause h1).1 in
      ground (arith, push_loop-GaveUp headers rs h2 h' e)

  -- An error that `push` returns says that the client was closed or the context done, before the
  -- client was ready or before a confirmation. A refusal of the broker, a negative confirmation, a
  -- lost connection and an invalid priority are never returned: they are tried again.
  pub push_errors :
      (ctx : Context) (ready : Ready) (rounds : List Round) (h h' : History) (e : GoError)
      → push env clnt ctx msg ready rounds h ≡ (finished (err e), h')
      → NotReady (context_error (env.ctx_err h)) e ⊎ GaveUp e
  unfolding push wait_ready
  push_errors ctx ready rounds h h' e p = elim (Option-cases clnt.publish_headers_builder) [
    | inl nil ↦ ground arith
    | inr (build, set) ↦ ground (arith, push_loop-GaveUp (build ctx) rounds h h' e)
  ]
