-- ===== src/Client/Session.antt =====
-- A method of a client: it may change the client and add to the history, and may fail. What was
-- changed before a failure stays changed.
use go_amqp_adapter.Errors.{Result, ok, err, crash}
use go_amqp_adapter.Broker.{History, Act}
use go_amqp_adapter.Client.{Client}

pub record State : Type 0 where
  pub client : Client
  pub history : History

abbrev pub Method : Type 0 → Type 0
Method A = State → Result A × State

infixl 5 ◌>>=◌ ◌>>◌
abbrev pub ◌>>=◌ : {A B : Type 0} → Method A → (A → Method B) → Method B
◌>>=◌ m f s =
    let (r, s') = m s in elim r [ ok a ↦ f a s' | err e ↦ (err e, s') | crash ↦ (crash, s') ]

abbrev pub ◌>>◌ : {A B : Type 0} → Method A → Method B → Method B
m >> k = m >>= λ _. k

abbrev pub pure : {A : Type 0} → A → Method A
pure a s = (ok a, s)

-- Calls that do not read the client.
abbrev pub lift : {A : Type 0} → Act A → Method A
lift m s = let (r, h) = m s.history in (r, record s { history = h })

abbrev pub modify : (Client → Client) → Method (Unit {0})
modify f s = (ok tt, record s { client = f s.client })

-- `if err != nil { cleanup; return err }`
abbrev pub or_clean_up : {A : Type 0} → Method A → Method (Unit {0}) → Method A
or_clean_up m cleanup s =
    let (r, s') = m s in
    elim r [ ok a ↦ (ok a, s') | err e ↦ (err e, (cleanup s').1) | crash ↦ (crash, s') ]
