-- ===== src/Store/Shutdown.antt =====
-- queue.go: `Shutdown` and the functions that it calls.
pub mod Closed
pub mod Calls
pub mod Inflight
use go_amqp_adapter.Base.{
  ℕ, suc, Bool, true, false, Option, none, some, List, [], ◌∷◌, String, Dict, ◌==◌, is_some,
}
use go_amqp_adapter.Errors.{GoError, wrap, wrap_both, lit, str, num, operand}
use go_amqp_adapter.Config.{QueueName}
use go_amqp_adapter.Broker.{Env, History}
use go_amqp_adapter.Client.{Client}
use go_amqp_adapter.Client.Session.{State}
use go_amqp_adapter.Client.Close.{close}
use go_amqp_adapter.Client.Push.{context_error}
use go_amqp_adapter.Store.{Store, World}

-- `fmt.Errorf("%w", e)`
abbrev pub rewrapped : GoError → GoError
rewrapped e = wrap (operand ∷ []) e

-- `fmt.Errorf("error closing %s %s[%d]: %w", role, name, idx, e)`
abbrev pub closing_error : String → QueueName → ℕ → GoError → GoError
closing_error role name idx e =
    wrap
      (lit "error closing "
        ∷ str role
        ∷ lit " "
        ∷ str name
        ∷ lit "["
        ∷ num idx
        ∷ lit "]: "
        ∷ operand
        ∷ [])
      e

-- `if ctx.Err() != nil && firstErr == nil { … }`
abbrev pub or_context : Option GoError → Option GoError → Option GoError
or_context (some first) ctx_err = some first
or_context none none = none
or_context none (some e) = some (rewrapped e)

-- The first error stays; another one is only logged.
abbrev pub or_closing : Option GoError → Option GoError → Option GoError
or_closing (some first) e = some first
or_closing none e = e

abbrev map_error : (GoError → GoError) → Option GoError → Option GoError
map_error f none = none
map_error f (some e) = some (f e)

-- The cases of the `select` in `waitInflight`: all handlers are finished, or the context is done.
pub data Idle : Type 0 where
  on_idle on_ctx : Idle

-- `ctx.Err()` after that `select`: a context that has ended it is done.
abbrev pub context_after : Idle → Option GoError → Option GoError
context_after on_idle e = e
context_after on_ctx e = some (context_error e)

-- The end of `Shutdown`: the error of a done context goes in front.
unfoldable pub final_error : Option GoError → Option GoError → Option GoError
final_error first none = first
final_error none (some e) = some (rewrapped e)
final_error (some first) (some e) = some (wrap_both (operand ∷ lit ": " ∷ operand ∷ []) e first)

module _ (env : Env) where
  -- `closeOneClient`: the error so far, the client after it, and the history.
  unfoldable pub close_one_client :
      QueueName → ℕ → String → Client → Option GoError → History → Option GoError × Client × History
  close_one_client name idx role clnt first h =
      let first' = or_context first (env.ctx_err h) in
      let (e, s) = close env (record { client = clnt; history = h }) in
      (or_closing first' (map_error (closing_error role name idx) e), s.client, s.history)

  -- The loop over the publishers in `closeClients`.
  unfoldable pub close_publishers :
      Dict Client → Option GoError → History → Option GoError × Dict Client × History
  close_publishers [] first h = (first, [], h)
  close_publishers ((name, clnt) ∷ rest) first h =
      let (first', clnt', h') = close_one_client name 0 "publisher" clnt first h in
      let (last, rest', h'') = close_publishers rest first' h' in (last, (name, clnt') ∷ rest', h'')

  -- The loop over the clients of one queue, from the index `i` on.
  unfoldable pub close_queue :
      QueueName
      → ℕ
      → List Client
      → Option GoError
      → History
      → Option GoError × List Client × History
  close_queue name i [] first h = (first, [], h)
  close_queue name i (c ∷ cs) first h =
      let (first', c', h') = close_one_client name i "consumer" c first h in
      let (last, cs', h'') = close_queue name (suc i) cs first' h' in (last, c' ∷ cs', h'')

  -- The loop over the consumers in `closeClients`.
  unfoldable pub close_consumers :
      Dict (List Client) → Option GoError → History → Option GoError × Dict (List Client) × History
  close_consumers [] first h = (first, [], h)
  close_consumers ((name, cs) ∷ rest) first h =
      let (first', cs', h') = close_queue name 0 cs first h in
      let (last, rest', h'') = close_consumers rest first' h' in (last, (name, cs') ∷ rest', h'')

  -- `closeClients`, on the snapshot that `snapshotClients` takes: its clients are those of the
  -- store.
  unfoldable pub close_clients : World → Option GoError × World
  close_clients w =
      let (first, publishers, h) = close_publishers w.store.publishers none w.history in
      let (last, consumers, h') = close_consumers w.store.consumers first h in
      (
        last,
        record {
          store = record w.store { publishers = publishers; consumers = consumers };
          history = h';
        },
      )

  -- `waitInflight`
  unfoldable pub wait_inflight : Idle → History → Option GoError
  wait_inflight on_idle h = none
  wait_inflight on_ctx h = some (
      wrap (lit "timeout waiting for in-flight message processing: " ∷ operand ∷ [])
        (context_error (env.ctx_err h)))

  -- `Shutdown`
  unfoldable pub shutdown : Idle → World → Option GoError × World
  unfolding wait_inflight
  shutdown idle w =
      let (first, w') = close_clients w in
      let first' = or_closing first (wait_inflight idle w'.history) in
      (final_error first' (context_after idle (env.ctx_err w'.history)), w')
