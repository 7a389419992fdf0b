-- ===== src/Consumer/Tests.antt =====
-- Runs of the theorems on the loop of a consumer.
use go_amqp_adapter.Base.{◌≢◌, refl, false, some, [], ◌∷◌}
use go_amqp_adapter.Consumer.{
  Wait, Tick, Arrival, Process, Round, process_arrivals, run_consumer_loop,
}
use go_amqp_adapter.Consumer.Intake.{Finished, taken, process_arrivals-Finished}
use go_amqp_adapter.Consumer.Sleeps.{AllSleeps, run_consumer_loop-AllSleeps}
use go_amqp_adapter.Samples.{
  calm, harsh, alert, linked_state, delivery, always_panics, same_context,
}

abbrev sleepy : Tick
sleepy = record { is_ready = 0; wait = Wait.on_timer }

abbrev up : Tick
up = record { is_ready = 1; wait = Wait.on_timer }

abbrev stopped : Tick
stopped = record { is_ready = 0; wait = Wait.on_done }

-- Two waits for the client, and then two messages.
abbrev busy : Round
busy = record {
  canceled = false;
  ticks = sleepy ∷ sleepy ∷ up ∷ [];
  link = record { is_ready = 1; ch = some 2; conn = some 1; closed = false };
  wait = Wait.on_timer;
  arrivals =
      Arrival.on_delivery delivery ∷ Arrival.on_delivery delivery ∷ Arrival.on_channel_closed ∷ [];
}

process_arrivals-Finished_example :
    let (p, s) = process_arrivals calm (some alert) [] always_panics busy.arrivals linked_state in
    (p ≢ Process.crashed) × Finished (taken busy.arrivals) [] s.history
process_arrivals-Finished_example =
    process_arrivals-Finished calm (some alert) [] same_context always_panics busy.arrivals
      linked_state refl

run_consumer_loop-AllSleeps_example :
    AllSleeps (run_consumer_loop harsh (some alert) [] (busy ∷ busy ∷ []) linked_state).1.history
run_consumer_loop-AllSleeps_example =
    run_consumer_loop-AllSleeps harsh (some alert) [] (busy ∷ busy ∷ []) linked_state tt
