-- ===== src/Store/Shutdown/Inflight/Counted.antt =====
-- The counter of `inflight` in the events of the loops.
use go_amqp_adapter.Base.{
  ℕ, ◌+◌, ◌≡◌, refl, true, Option, none, some, List, [], ◌∷◌, ◌++◌, inl, inr, arith, Bool-cases,
}
use go_amqp_adapter.Broker.{
  Env, History, Event, called, job_failed, slept, connecting, consuming, handled, ch_close,
  conn_close, inflight_add, inflight_done,
}
use go_amqp_adapter.Topology.Plan.{recorded}
use go_amqp_adapter.Client.{Client}
use go_amqp_adapter.Client.Session.{State}
use go_amqp_adapter.Client.Close.{close}
use go_amqp_adapter.Client.Close.Laws.{closing_call, close_first}
use go_amqp_adapter.Delivery.Settled.{counts}
use go_amqp_adapter.Store.Shutdown.Inflight.{At, running, Worker, IsOther, closed}

-- A handler at work counts as one.
abbrev pub weight : At → ℕ
weight (running d) = 1
weight _ = 0

unfoldable pub at_work : List Worker → ℕ
at_work [] = 0
at_work (w ∷ ws) = weight w.at + at_work ws

at_work-append : (ws vs : List Worker) → at_work (ws ++ vs) ≡ at_work ws + at_work vs
unfolding at_work
at_work-append [] vs = omega arith
at_work-append (w ∷ ws) vs = omega (arith, at_work-append ws vs)

-- The counter of `inflight`, as its raises and lowers, fits the handlers at work.
abbrev pub Fits : History → List Worker → Type 0
Fits h ws = (counts h).raised ≡ (counts h).lowered + at_work ws

closing-counts :
    (ch conn : Option ℕ) (h : History)
    → let h' = recorded (closing_call ch_close ch ++ closing_call conn_close conn) h in
      ((counts h').raised ≡ (counts h).raised) × ((counts h').lowered ≡ (counts h).lowered)
unfolding counts
closing-counts none none h = (refl, refl)
closing-counts none (some n) h = (refl, refl)
closing-counts (some m) none h = (refl, refl)
closing-counts (some m) (some n) h = (refl, refl)

module _ (env : Env) where
  pub close-counts :
      (s : State)
      → let h' = (close env s).1.history in
        ((counts h').raised ≡ (counts s.history).raised)
        × ((counts h').lowered ≡ (counts s.history).lowered)
  unfolding close
  close-counts s = elim (Bool-cases s.client.closed_once) [
    | inl again ↦ ground (arith, again)
    | inr fresh ↦
        rw (close_first env s fresh).0 (closing-counts s.client.ch s.client.conn s.history)
  ]

pub closed-IsClosed :
    (env : Env) (c : Client) (h : History) → (closed env c h).client.closed_once ≡ true
unfolding close
closed-IsClosed env c h = ground arith

-- One worker moves, and the history grows.
pub Fits-moved :
    (h h' : History) (ws vs : List Worker) (c c' : Client) (a b : At)
    → Fits h (ws ++ (record { client = c; at = a } ∷ vs))
    → (counts h').raised + weight a + (counts h).lowered
      ≡ (counts h).raised + weight b + (counts h').lowered
    → Fits h' (ws ++ (record { client = c'; at = b } ∷ vs))
unfolding at_work
Fits-moved h h' ws vs c c' a b fits grown = omega (
  arith,
  at_work-append ws (record { client = c; at = a } ∷ vs),
  at_work-append ws (record { client = c'; at = b } ∷ vs),
)

pub other-counts :
    (e : Event) (h : History)
    → IsOther e
    → ((counts (e ∷ h)).raised ≡ (counts h).raised)
      × ((counts (e ∷ h)).lowered ≡ (counts h).lowered)
unfolding counts
other-counts (called call) h o = ground arith
other-counts (handled ctx body) h o = (refl, refl)
other-counts (job_failed job) h o = (refl, refl)
other-counts (slept t) h o = (refl, refl)
other-counts inflight_add h o = absurd o
other-counts inflight_done h o = absurd o
other-counts (connecting name) h o = (refl, refl)
other-counts (consuming name) h o = (refl, refl)
