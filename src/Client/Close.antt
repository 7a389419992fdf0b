-- ===== src/Client/Close.antt =====
-- client.go: `close`.
pub mod Laws
use go_amqp_adapter.Base.{
  ℕ, Bool, true, false, Option, none, some, List, [], ◌∷◌, ◌≡◌, refl, String, if◌then◌else◌, arith,
}
use go_amqp_adapter.Errors.{
  Sentinel, GoError, Result, ok, err, crash, sentinel, wrap_both, lit, str, operand,
  err_closing_queue_channel, err_closing_queue_connection,
}
use go_amqp_adapter.Broker.{Env, History, Call, called, ch_close, conn_close}
use go_amqp_adapter.Client.{Client}
use go_amqp_adapter.Client.Session.{State}

-- `fmt.Errorf("%w %s: %w", s, clnt.queueName, err)`
abbrev pub about_queue : Sentinel → String → GoError → GoError
about_queue s name e =
    wrap_both (operand ∷ lit " " ∷ str name ∷ lit ": " ∷ operand ∷ []) (sentinel s) e

-- `if err != nil && closeErr == nil { closeErr = … }`
abbrev pub first_error : Option GoError → Option GoError → Option GoError
first_error none e = e
first_error (some c) e = some c

module _ (env : Env) where
  -- Closing a handle that may be nil: the error, and the history after it.
  close_handle : Sentinel → String → (ℕ → Call) → Option ℕ → History → Option GoError × History
  close_handle s name call none h = (none, h)
  close_handle s name call (some n) h = elim (env.reply h (call n)) [
    | none ↦ (none, called (call n) ∷ h)
    | some e ↦ (some (about_queue s name e), called (call n) ∷ h)
  ]

  -- The function under `closeOnce`.
  close_body : State → Option GoError × State
  unfolding close_handle
  close_body s =
      let c = record s.client { is_ready = 0; done = true; closed_once = true } in
      let (ch_err, h') =
        close_handle err_closing_queue_channel c.queue_name ch_close c.ch s.history in
      let (conn_err, h'') =
        close_handle err_closing_queue_connection c.queue_name conn_close c.conn h' in
      (first_error ch_err conn_err, record { client = c; history = h'' })

  unfoldable pub close : State → Option GoError × State
  unfolding close_body
  close s = if s.client.closed_once then (none, s) else close_body s
