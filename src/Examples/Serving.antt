-- ===== src/Examples/Serving.antt =====
-- examples/: the `main` functions up to the first publish, and at their ends.
use go_amqp_adapter.Base.{
  ℕ, ◌+◌, ◌≡◌, refl, Bool, none, some, List, [], ◌∷◌, String, Dict, lookup, arith,
}
use go_amqp_adapter.Base.Int.{ℤ, pos}
use go_amqp_adapter.Errors.{ok}
use go_amqp_adapter.Config.{Config, QueueItem, ConsumerHandler, QueueName}
use go_amqp_adapter.Config.Options.{
  Setter, Options, default_options, apply_options, with_logger, with_fail_handler,
}
use go_amqp_adapter.Config.Validate.Accepted.{IsAccepted, AllSound}
use go_amqp_adapter.Broker.{History}
use go_amqp_adapter.Store.{Store, World, new, new_store}
use go_amqp_adapter.Store.Consumers.{count_clients, workers}
use go_amqp_adapter.Store.Consumers.Registered.{loops_started}
use go_amqp_adapter.Examples.{
  Run, goes, exits, panics, waits, Main, Setting, ◌>>◌, example_config, slog, add, add_n, start,
}
use go_amqp_adapter.Examples.Setup.{
  IsOpen, Goes, Serving, add_n-Goes, add-Goes, start-Goes, new_ok, amqp_url-ne-empty,
}
use go_amqp_adapter.Examples.Basic
use go_amqp_adapter.Examples.Workers
use go_amqp_adapter.Examples.Graceful
use go_amqp_adapter.Examples.Retry
use go_amqp_adapter.Examples.Failed

-- `New` makes a store, and the part of the program that follows leaves `n` consumers at work.
abbrev pub Starts : ℕ → Config → List Setter → Main (Unit {0}) → Type 0
Starts n conf setters prepare =
    (q : Store) × (new conf setters ≡ ok q)
    × Goes (Serving n) (prepare (record { store = q; history = [] }))

pub example_config-IsAccepted :
    (v : String) (params : Dict QueueItem) (opts : Options)
    → AllSound opts (some params)
    → IsAccepted (example_config v params) opts
unfolding example_config
example_config-IsAccepted v params opts sound = record {
  has_url = amqp_url-ne-empty v;
  reconnects = ground arith;
  re_inits = ground arith;
  resends = ground arith;
  queues = sound;
}

new_store-IsOpen :
    (v : String) (params : Dict QueueItem) (opts : Options)
    → IsOpen 0 params (record { store = new_store (example_config v params) opts; history = [] })
unfolding example_config count_clients loops_started
new_store-IsOpen v params opts = record {
  fresh = refl;
  known = refl;
  registered = refl;
  unstarted = refl;
}

-- Two parts in a row.
Run-then :
    (P Q : World → Type 0) (r : Run (Unit {0})) (k : Main (Unit {0})) (w : World)
    → Goes P (r, w)
    → ((w' : World) → P w' → Goes Q (k w'))
    → Goes Q (((λ w'. (r, w')) >> k) w)
Run-then P Q (goes _) k w first then = then w first
Run-then P Q (exits n) k w first then = first
Run-then P Q panics k w first then = first
Run-then P Q waits k w first then = first

module _ (a : Setting) (name : QueueName) (callback : ConsumerHandler) (params : Dict QueueItem)
    (item : QueueItem) (n : ℕ) (k : Main (Unit {0})) (w : World)
    (known : lookup name params ≡ some item) where
  -- A program that adds consumers first.
  add_n-then :
      (m : ℕ) (p : ℤ)
      → IsOpen m params w
      → ((w' : World) → IsOpen (m + workers p) params w' → Goes (Serving n) (k w'))
      → Goes (Serving n) ((add_n a name p callback >> k) w)
  add_n-then m p ready then =
      let (r, w') = add_n a name p callback w in
      Run-then (IsOpen (m + workers p) params) (Serving n) r k w'
        (add_n-Goes a name p callback w m params item ready known) then

  add-then :
      (m : ℕ)
      → IsOpen m params w
      → ((w' : World) → IsOpen (m + 1) params w' → Goes (Serving n) (k w'))
      → Goes (Serving n) ((add a name callback >> k) w)
  add-then m ready then =
      let (r, w') = add a name callback w in
      Run-then (IsOpen (m + 1) params) (Serving n) r k w'
        (add-Goes a name callback w m params item ready known) then

module _ (a : Setting) (v : String) (live : (h : History) → a.env.ctx_err h ≡ none) where
  Starts-of :
      (n : ℕ) (params : Dict QueueItem) (setters : List Setter) (prepare : Main (Unit {0}))
      → AllSound (apply_options setters default_options) (some params)
      → ((w : World) → IsOpen 0 params w → Goes (Serving n) (prepare w))
      → Starts n (example_config v params) setters prepare
  Starts-of n params setters prepare sound serves =
      let opts = apply_options setters default_options in
      let conf = example_config v params in
      (
        new_store conf opts,
        new_ok conf setters (example_config-IsAccepted v params opts sound),
        serves (record { store = new_store conf opts; history = [] })
            (new_store-IsOpen v params opts),
      )

  Basic-Starts :
      (got_closed : Bool)
      → Starts 1
          (example_config v ((Basic.queue_name, Basic.item) ∷ []))
          (with_logger (some slog) ∷ [])
          (Basic.prepare a got_closed)
  unfolding Basic.prepare
  Basic-Starts got_closed =
      let params : Dict QueueItem = (Basic.queue_name, Basic.item) ∷ [] in
      Starts-of 1 params (with_logger (some slog) ∷ []) (Basic.prepare a got_closed) (tt, tt)
        (λ w fresh.
          add-then a Basic.queue_name (λ ctx body. Basic.handler got_closed) params Basic.item 1
            (start a) w refl 0 fresh (λ w' ready. start-Goes a w' 1 params live ready (λ e. cc)))

  Workers-Starts :
      Starts 5
        (example_config v
          ((Workers.email_queue, Workers.item) ∷ (Workers.sms_queue, Workers.item) ∷ []))
        (with_logger (some slog) ∷ [])
        (Workers.prepare a)
  unfolding Workers.prepare
  Workers-Starts =
      let params : Dict QueueItem =
        (Workers.email_queue, Workers.item) ∷ (Workers.sms_queue, Workers.item) ∷ [] in
      let then = add a Workers.sms_queue Workers.handler >> start a in
      Starts-of 5 params (with_logger (some slog) ∷ []) (Workers.prepare a) (tt, (tt, tt))
        (λ w fresh.
          add_n-then a Workers.email_queue Workers.handler params Workers.item 5 then w refl 0
            (pos 4) fresh
            (λ w' ready.
              add-then a Workers.sms_queue Workers.handler params Workers.item 5 (start a) w' refl 4
                ready (λ w'' ready'. start-Goes a w'' 5 params live ready' (λ e. cc))))

  Graceful-Starts :
      Starts 2
        (example_config v ((Graceful.queue_name, Graceful.item) ∷ []))
        (with_logger (some slog) ∷ [])
        (Graceful.prepare a)
  unfolding Graceful.prepare
  Graceful-Starts =
      let params : Dict QueueItem = (Graceful.queue_name, Graceful.item) ∷ [] in
      Starts-of 2 params (with_logger (some slog) ∷ []) (Graceful.prepare a) (tt, tt)
        (λ w fresh.
          add_n-then a Graceful.queue_name Graceful.handler params Graceful.item 2 (start a) w refl
            0 (pos 2) fresh (λ w' ready. start-Goes a w' 2 params live ready (λ e. cc)))

  Retry-Starts :
      (attempts : ℕ)
      → Starts 1
          (example_config v ((Retry.queue_name, Retry.item) ∷ []))
          (with_logger (some slog) ∷ with_fail_handler (some Retry.fail_handler) ∷ [])
          (Retry.prepare a attempts)
  unfolding Retry.prepare with_fail_handler with_logger apply_options
  Retry-Starts attempts =
      let params : Dict QueueItem = (Retry.queue_name, Retry.item) ∷ [] in
      Starts-of 1 params
        (with_logger (some slog) ∷ with_fail_handler (some Retry.fail_handler) ∷ [])
        (Retry.prepare a attempts) ((refl, ground arith, ground arith), tt)
        (λ w fresh.
          add-then a Retry.queue_name (λ ctx msg. (Retry.handler attempts msg).0) params Retry.item
            1 (start a) w refl 0 fresh (λ w' ready. start-Goes a w' 1 params live ready (λ e. cc)))

  Failed-Starts :
      Starts 1
        (example_config v ((Failed.queue_name, Failed.item) ∷ []))
        (with_logger (some slog) ∷ with_fail_handler (some (λ job. none)) ∷ [])
        (Failed.prepare a)
  unfolding Failed.prepare with_fail_handler with_logger apply_options
  Failed-Starts =
      let params : Dict QueueItem = (Failed.queue_name, Failed.item) ∷ [] in
      Starts-of 1 params (with_logger (some slog) ∷ with_fail_handler (some (λ job. none)) ∷ [])
        (Failed.prepare a) ((refl, ground arith, ground arith), tt)
        (λ w fresh.
          add-then a Failed.queue_name Failed.handler params Failed.item 1 (start a) w refl 0 fresh
            (λ w' ready. start-Goes a w' 1 params live ready (λ e. cc)))

  -- Whatever the variable `AMQP_URL` holds and whatever the broker refuses: as long as the context
  -- lives, `New` accepts the configuration of each example that consumes, and its `main` comes to
  -- its first publish with the consumers started, one loop for each of the workers that it wants:
  -- one, five, two, one and one.
  pub prepare-Starts :
      (got_closed : Bool) (attempts : ℕ)
      → Starts 1
          (example_config v ((Basic.queue_name, Basic.item) ∷ []))
          (with_logger (some slog) ∷ [])
          (Basic.prepare a got_closed)
        × Starts 5
            (example_config v
              ((Workers.email_queue, Workers.item) ∷ (Workers.sms_queue, Workers.item) ∷ []))
            (with_logger (some slog) ∷ [])
            (Workers.prepare a)
        × Starts 2
            (example_config v ((Graceful.queue_name, Graceful.item) ∷ []))
            (with_logger (some slog) ∷ [])
            (Graceful.prepare a)
        × Starts 1
            (example_config v ((Retry.queue_name, Retry.item) ∷ []))
            (with_logger (some slog) ∷ with_fail_handler (some Retry.fail_handler) ∷ [])
            (Retry.prepare a attempts)
        × Starts 1
            (example_config v ((Failed.queue_name, Failed.item) ∷ []))
            (with_logger (some slog) ∷ with_fail_handler (some (λ job. none)) ∷ [])
            (Failed.prepare a)
  prepare-Starts got_closed attempts = (
    Basic-Starts got_closed,
    Workers-Starts,
    Graceful-Starts,
    Retry-Starts attempts,
    Failed-Starts,
  )
