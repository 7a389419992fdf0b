-- ===== src/Store/Shutdown/Inflight/Handlers.antt =====
-- What becomes of the handlers at work when `Shutdown` is called.
use go_amqp_adapter.Base.{◌≤◌, ◌≡◌, ◌↔◌, refl, Bool, true, false, Option, List, [], ◌∷◌, arith}
use go_amqp_adapter.Config.{FailJobHandler}
use go_amqp_adapter.Broker.{Env, History}
use go_amqp_adapter.Client.{Client}
use go_amqp_adapter.Delivery.{Delivery}
use go_amqp_adapter.Delivery.Settled.{counts}
use go_amqp_adapter.Store.Shutdown.Inflight.{
  Phase, waiting, past, System, IsIdle, relinks, relinks, Reaches, here, later, started, initial,
}
use go_amqp_adapter.Store.Shutdown.Inflight.Counted.{at_work}
use go_amqp_adapter.Store.Shutdown.Inflight.Waits.{Inv, Step-Inv}

initial-at_work : (cs : List Client) → at_work (started cs) ≡ 0
unfolding at_work
initial-at_work [] = refl
initial-at_work (c ∷ cs) = omega (arith, initial-at_work cs)

-- `Shutdown` has closed all clients.
abbrev pub IsLate : Phase → Type 0
IsLate waiting = Unit {0}
IsLate (past ended_by) = Unit {0}
IsLate _ = ⊥

module _ (env : Env) (fail : Option FailJobHandler) (accepts : Client → Delivery → Bool) where
  pub Reaches-Inv : {s t : System} → Reaches env fail accepts s t → Inv s → Inv t
  Reaches-Inv here v = v
  Reaches-Inv (later path step) v = Step-Inv env fail step (Reaches-Inv path v)

  pub initial-Inv : (cs : List Client) (h : History) → IsIdle h → Inv (initial cs h)
  initial-Inv cs h quiet = record { fits = omega (arith, quiet, initial-at_work cs); shut = tt }

  -- The counter of handlers. From consumer loops that have just started, while no handler is
  -- counted: in every state that the loops and `Shutdown` reach, in whatever order they move, the
  -- counter has not been lowered more often than raised, at which Go would panic, and it is zero,
  -- so that the wait of `Shutdown` can end, exactly if no handler that has been counted is at work.
  pub Reaches-counter :
      (cs : List Client) (h : History) (s : System)
      → IsIdle h
      → Reaches env fail accepts (initial cs h) s
      → ((counts s.history).lowered ≤ (counts s.history).raised)
        × (IsIdle s.history ↔ (at_work s.workers ≡ 0))
  Reaches-counter cs h s quiet path =
      let v = Reaches-Inv path (initial-Inv cs h quiet) in
      (omega (arith, v.fits), (λ i. omega (arith, v.fits, i), λ none_left. omega (arith, v.fits)))

  -- amqp091-go refuses the settlement of a delivery whose channel is closed.
  abbrev pub RefusesClosed : Type 0
  RefusesClosed = (c : Client) (d : Delivery) → c.closed_once ≡ true → accepts c d ≡ false
