-- ===== src/Consumer/Backoff.antt =====
-- The delays between the attempts of a consumer.
use Prim.Native.Nat.{min}
use native.Mathlib.Nat.{pow-suc}
use go_amqp_adapter.Base.{
  ℕ, zero, suc, ◌*◌, ◌^◌, ◌≤◌, ◌≡◌, ◌≢◌, refl, some, List, [], ◌∷◌, ◌++◌, arith, All, length,
}
use go_amqp_adapter.Base.Int.{ℤ, pos, negsuc, ◌≤ℤ◌}
use go_amqp_adapter.Config.{second}
use go_amqp_adapter.Broker.{History, slept}
use go_amqp_adapter.Consumer.{
  max_consumer_backoff, initial_consumer_delay, next_consumer_backoff, Wait, Tick,
  wait_until_client_ready,
}

-- From one second to thirty.
abbrev pub InRange : ℤ → Type 0
InRange d = (initial_consumer_delay ≤ℤ d) × (d ≤ℤ max_consumer_backoff)

-- On delays in range the next delay is in range and no shorter: twice the delay, or thirty seconds.
-- The product does not overflow.
pub next_consumer_backoff_lem :
    (n : ℕ) → InRange (pos n) → next_consumer_backoff (pos n) ≡ pos (min (2 * n) (30 * second))
unfolding next_consumer_backoff
next_consumer_backoff_lem n h = ground arith

-- A delay between one and thirty seconds is followed by one between them that is no shorter.
pub next_consumer_backoff-InRange :
    (d : ℤ) → InRange d → InRange (next_consumer_backoff d) × (d ≤ℤ next_consumer_backoff d)
next_consumer_backoff-InRange (pos n) h = rw (next_consumer_backoff_lem n h) (ground arith)
next_consumer_backoff-InRange (negsuc n) h = absurd (omega arith)

-- The delay after `k` waits in a row.
pub backoff : ℕ → ℤ
backoff zero = initial_consumer_delay
backoff (suc k) = next_consumer_backoff (backoff k)

backoff-suc : (k : ℕ) → backoff (suc k) ≡ next_consumer_backoff (backoff k)
unfolding backoff
backoff-suc k = refl

pow_pos : (k : ℕ) → 1 ≤ 2 ^ k
pow_pos zero = omega arith
pow_pos (suc k) = omega (arith, pow-suc 2 k, pow_pos k)

-- In a row of waits the delays double from one second up to thirty, and stay there.
pub backoff_lem : (k : ℕ) → backoff k ≡ pos (min (2 ^ k * second) (30 * second))
unfolding backoff
backoff_lem zero = refl
backoff_lem (suc k) = rw (backoff_lem k) (
    rw (next_consumer_backoff_lem (min (2 ^ k * second) (30 * second)) (omega (arith, pow_pos k)))
      (ground (arith, pow-suc 2 k)))

-- The history after `k` waits in a row, the first of them the `j`th.
abbrev pub slept_from : ℕ → ℕ → History → History
slept_from j zero h = h
slept_from j (suc k) h = slept_from (suc j) k (slept (backoff j) ∷ h)

-- A tick that finds the client not ready, and waits its time.
abbrev pub IsIdle : Tick → Type 0
IsIdle t = (t.is_ready ≡ 0) × (t.wait ≡ Wait.on_timer)

wait_from :
    (ticks rest : List Tick) (up : Tick) (j : ℕ) (h : History)
    → All IsIdle ticks
    → up.is_ready ≢ 0
    → wait_until_client_ready (ticks ++ up ∷ rest) (backoff j) h
      ≡ (some initial_consumer_delay, slept_from j (length ticks) h)
unfolding wait_until_client_ready
wait_from [] rest up j h idle ready = ground arith
wait_from (t ∷ ts) rest up j h idle ready =
    ground (arith, wait_from ts rest up (suc j) (slept (backoff j) ∷ h) idle.1 ready, backoff-suc j)

-- A consumer that finds its client not ready some times in a row and then ready has slept that many
-- times, as long as the row of delays says, and goes on with the initial delay.
pub wait_until_client_ready_lem :
    (ticks rest : List Tick) (up : Tick) (h : History)
    → All IsIdle ticks
    → up.is_ready ≢ 0
    → wait_until_client_ready (ticks ++ up ∷ rest) initial_consumer_delay h
      ≡ (some initial_consumer_delay, slept_from 0 (length ticks) h)
unfolding backoff
wait_until_client_ready_lem ticks rest up h idle ready = wait_from ticks rest up 0 h idle ready
