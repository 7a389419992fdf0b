-- ===== src/Store/Shutdown/Inflight/Tests.antt =====
-- Runs of the theorems on `Shutdown` beside the consumer loops.
use go_amqp_adapter.Base.{◌≡◌, ◌≤◌, ◌↔◌, refl, not, Bool, none, some, [], ◌∷◌}
use go_amqp_adapter.Config.{returned}
use go_amqp_adapter.Client.{Client}
use go_amqp_adapter.Delivery.{Delivery}
use go_amqp_adapter.Delivery.Settled.{counts}
use go_amqp_adapter.Store.Shutdown.{on_idle}
use go_amqp_adapter.Store.Shutdown.Inflight.{
  idle, received, running, waiting, past, System, IsIdle, begin, closed, finish, Reaches, here,
  later, receives, begins, shuts, closes, waits, initial,
}
use go_amqp_adapter.Store.Shutdown.Inflight.Counted.{at_work}
use go_amqp_adapter.Store.Shutdown.Inflight.Handlers.{Reaches-counter}
use go_amqp_adapter.Store.Shutdown.Inflight.Gap.{received-Reaches}
use go_amqp_adapter.Samples.{calm, alert, linked, delivery}

abbrev if_open : Client → Delivery → Bool
if_open c d = not c.closed_once

-- One worker has received a message, and has begun to handle it.
abbrev got : System
got = record (initial (linked ∷ []) []) {
  workers = (record { client = linked; at = received delivery }) ∷ [];
}

abbrev busy : System
busy = record got {
  workers = (record { client = linked; at = running delivery }) ∷ [];
  history = begin [];
}

got-Reaches : Reaches calm (some alert) if_open (initial (linked ∷ []) []) got
got-Reaches = later here (receives [] [] linked delivery refl)

busy-Reaches : Reaches calm (some alert) if_open (initial (linked ∷ []) []) busy
busy-Reaches = later got-Reaches (begins [] [] linked delivery refl)

-- `Shutdown` waits after each of them.
abbrev got_late : System
got_late = record got {
  workers = (record { client = (closed calm linked []).client; at = received delivery }) ∷ [];
  phase = waiting;
  history = (closed calm linked []).history;
}

abbrev busy_late : System
busy_late = record busy {
  workers =
      (record { client = (closed calm linked (begin [])).client; at = running delivery }) ∷ [];
  phase = waiting;
  history = (closed calm linked (begin [])).history;
}

got_late-Reaches : Reaches calm (some alert) if_open (initial (linked ∷ []) []) got_late
got_late-Reaches =
    later
      (later (later got-Reaches (shuts refl)) (closes [] [] linked (received delivery) refl refl))
      (waits refl)

-- The handler has ended.
abbrev after : System
after = record busy_late {
  workers = (record { client = (closed calm linked (begin [])).client; at = idle }) ∷ [];
  history =
      finish calm (some alert) (closed calm linked (begin [])).client [] delivery (returned none)
        busy_late.history;
}

Reaches-counter_example :
    ((counts busy.history).lowered ≤ (counts busy.history).raised)
    × (IsIdle busy.history ↔ (at_work busy.workers ≡ 0))
unfolding counts
Reaches-counter_example =
    Reaches-counter calm (some alert) if_open (linked ∷ []) [] busy refl busy-Reaches

received-Reaches_example :
    (t : System) × Reaches calm (some alert) if_open got_late t
    × (t.phase ≡ past on_idle)
    × (t.workers ≡ record { client = (closed calm linked []).client; at = running delivery } ∷ [])
unfolding counts
received-Reaches_example =
    received-Reaches calm (some alert) if_open (returned none) (linked ∷ []) [] got_late [] []
      (closed calm linked []).client delivery refl got_late-Reaches refl refl
