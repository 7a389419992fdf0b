-- ===== src/Client/Race.antt =====
-- `unsafePush` beside `handleReInit`, step by step: the lock `pushMu` keeps pushes apart, but the
-- loop that writes `isReady` and `ch` does not take it. A push reads `isReady` first and `ch`
-- later.
use go_amqp_adapter.Base.{ℕ, ◌≡◌, ◌≢◌, ◌⊎◌, refl, Bool, true, false, Option, none, some, arith}

-- Where `handleReInit` stands: before it opens a channel, before the declarations on the channel
-- that it has assigned, and in the wait of a client that is ready.
pub data Loop : Type 0 where
  opening declaring live : Loop

-- Where the push stands: outside `unsafePush`, past the test of `isReady`, or in a panic.
pub data Pusher : Type 0 where
  outside tested panicked : Pusher

-- The fields of the client, the two goroutines, and whether a declaration has failed since the
-- test.
pub record Shared : Type 0 where
  pub is_ready : ℕ
  pub ch : Option ℕ
  pub loop : Loop
  pub pusher : Pusher
  pub failed_since : Bool

abbrev pub initial : Shared
initial = record { is_ready = 0; ch = none; loop = opening; pusher = outside; failed_since = false }

-- One step of one goroutine.
pub data Step (s : Shared) : Shared → Type 0 where
  -- `clnt.isReady.Load() == 0` holds, and `unsafePush` returns an error.
  refused : s.pusher ≡ outside → s.is_ready ≡ 0 → Step s s
  -- It does not hold.
  tests :
      s.pusher ≡ outside
      → s.is_ready ≢ 0
      → Step s (record s { pusher = tested; failed_since = false })
  -- `clnt.ch.PublishWithContext(…)`
  publishes : (n : ℕ) → s.pusher ≡ tested → s.ch ≡ some n → Step s (record s { pusher = outside })
  panics : s.pusher ≡ tested → s.ch ≡ none → Step s (record s { pusher = panicked })
  -- `init` assigns the channel that it has opened.
  assigns : (n : ℕ) → s.loop ≡ opening → Step s (record s { ch = some n; loop = declaring })
  -- The declarations succeed: `isReady.Store(1)`.
  declares : s.loop ≡ declaring → Step s (record s { is_ready = 1; loop = live })
  -- They fail: `clnt.ch = nil`, and then `isReady.Store(0)` again.
  fails :
      s.loop ≡ declaring
      → Step s (record s { is_ready = 0; ch = none; loop = opening; failed_since = true })
  -- The channel or the connection is lost: `isReady.Store(0)`.
  loses : s.loop ≡ live → Step s (record s { is_ready = 0; loop = opening })
  -- `close`: `isReady.Store(0)`.
  closes : Step s (record s { is_ready = 0 })

pub data Reaches (s : Shared) : Shared → Type 0 where
  here : Reaches s s
  later : {t u : Shared} → Reaches s t → Step t u → Reaches s u

pub record Inv (s : Shared) : Type 0 where
  -- A client that is ready has a channel.
  pub linked : (s.is_ready ≡ 0) ⊎ (s.ch ≢ none)
  -- So does one that is declaring or waiting.
  pub held : (s.loop ≡ opening) ⊎ (s.ch ≢ none)
  -- A push past the test finds no channel only after a failure.
  pub guarded : (s.pusher ≡ outside) ⊎ (s.ch ≢ none) ⊎ (s.failed_since ≡ true)
  pub blamed : (s.pusher ≢ panicked) ⊎ (s.failed_since ≡ true)

Step-Inv : {s t : Shared} → Step s t → Inv s → Inv t
Step-Inv (refused out down) v = v
Step-Inv (tests out up) v = ground (arith, v)
Step-Inv (publishes n in_test there) v = ground (arith, v)
Step-Inv (panics in_test gone) v = ground (arith, v)
Step-Inv (assigns n at_loop) v = ground (arith, v)
Step-Inv (declares at_loop) v = ground (arith, v)
Step-Inv (fails at_loop) v = ground (arith, v)
Step-Inv (loses at_loop) v = ground (arith, v)
Step-Inv closes v = ground (arith, v)

Reaches-Inv : {s t : Shared} → Reaches s t → Inv s → Inv t
Reaches-Inv here v = v
Reaches-Inv (later path step) v = Step-Inv step (Reaches-Inv path v)

initial-Inv : Inv initial
initial-Inv = ground arith

-- A push that has panicked on a nil channel has seen a declaration of the queue fail between its
-- test of `isReady` and its use of the channel.
pub Reaches-blamed : (s : Shared) → Reaches initial s → s.pusher ≡ panicked → s.failed_since ≡ true
Reaches-blamed s path broken = ground (arith, (Reaches-Inv path initial-Inv).blamed)

-- And so it can go: from every state in which a push has passed the test and the loop waits on a
-- channel that it can lose, there are steps to the panic.
pub panicked-Reaches :
    (s : Shared)
    → s.pusher ≡ tested
    → s.loop ≡ live
    → (t : Shared) × Reaches s t × (t.pusher ≡ panicked)
panicked-Reaches s in_test waits =
    let lost : Shared = record s { is_ready = 0; loop = opening } in
    let assigned : Shared = record lost { ch = some 0; loop = declaring } in
    let failed : Shared = record assigned {
      is_ready = 0;
      ch = none;
      loop = opening;
      failed_since = true;
    } in
    (
      record failed { pusher = panicked },
      later (later (later (later here (loses waits)) (assigns 0 refl)) (fails refl))
          (panics in_test refl),
      refl,
    )
