-- ===== src/Examples/Ends.antt =====
-- examples/: how a `main` ends.
use go_amqp_adapter.Base.{◌≡◌, subst, refl, sym, some, List, [], arith}
use go_amqp_adapter.Errors.{ok}
use go_amqp_adapter.Config.{Config}
use go_amqp_adapter.Config.Options.{Setter}
use go_amqp_adapter.Store.{Store, World, new}
use go_amqp_adapter.Store.Shutdown.Closed.{AllClosed, AllQueuesClosed, shutdown-AllClosed}
use go_amqp_adapter.Examples.{Run, goes, exits, panics, waits, Main, Setting, run_main, deferred}

-- Every client of the store is closed.
abbrev pub IsShut : World → Type 0
IsShut w = AllClosed w.store.publishers × AllQueuesClosed w.store.consumers

-- What is left at the end of a program whose rest ends like this.
abbrev pub Ended : Run (Unit {0}) × World → Run (Unit {0}) → World → Type 0
Ended (goes _, w) r w' = (r ≡ goes tt) × IsShut w'
Ended (panics, w) r w' = (r ≡ panics) × IsShut w'
Ended (exits n, w) r w' = (r ≡ exits n) × (w' ≡ w)
Ended (waits, w) r w' = (r ≡ waits) × (w' ≡ w)

module _ (a : Setting) where
  deferred-Ended :
      (r : Run (Unit {0})) (w : World) → Ended (r, w) (deferred a (r, w)).0 (deferred a (r, w)).1
  unfolding deferred
  deferred-Ended (goes _) w =
      let done = shutdown-AllClosed a.closing a.idle a.idle w in (refl, (done.0, done.1))
  deferred-Ended panics w =
      let done = shutdown-AllClosed a.closing a.idle a.idle w in (refl, (done.0, done.1))
  deferred-Ended (exits n) w = (refl, refl)
  deferred-Ended waits w = (refl, refl)

  -- Once `New` has made a store, a `main` whose body returns or panics has closed every publisher
  -- and every consumer of the store, whatever the broker refuses; one whose body ends the program
  -- by `os.Exit` leaves the store and all its connections as they are.
  pub run_main-Ended :
      (conf : Config) (setters : List Setter) (body : Main (Unit {0})) (q : Store)
      → new conf setters ≡ ok q
      → let (r, left) = run_main a conf setters body in
        (w' : World) × (left ≡ some w') × Ended (body (record { store = q; history = [] })) r w'
  unfolding run_main
  run_main-Ended conf setters body q made =
      let start : World = record { store = q; history = [] } in
      let r = (body start).0 in
      let w = (body start).1 in
      let ended = deferred a (r, w) in
      let same : run_main a conf setters body ≡ (ended.0, some ended.1) = ground (arith, made) in
      subst (λ x. (w' : World) × (x.1 ≡ some w') × Ended (body start) x.0 w') (sym same)
        (ended.1, refl, deferred-Ended r w)
