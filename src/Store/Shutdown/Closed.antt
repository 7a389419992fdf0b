-- ===== src/Store/Shutdown/Closed.antt =====
-- What `Shutdown` leaves.
use go_amqp_adapter.Base.{
  ℕ, suc, ◌≡◌, refl, true, Option, none, List, [], ◌∷◌, String, Dict, arith, All,
}
use go_amqp_adapter.Errors.{GoError}
use go_amqp_adapter.Config.{QueueName}
use go_amqp_adapter.Broker.{Env, History}
use go_amqp_adapter.Client.{Client}
use go_amqp_adapter.Client.Close.{close}
use go_amqp_adapter.Store.{World}
use go_amqp_adapter.Store.Shutdown.{
  close_one_client, close_publishers, close_queue, close_consumers, close_clients, Idle, shutdown,
}

-- A client that takes no more messages and holds no right to reopen: `close` has run on it.
abbrev pub IsClosed : Client → Type 0
IsClosed c = c.closed_once ≡ true

abbrev pub AllClosed : Dict Client → Type 0
AllClosed = All (λ entry. IsClosed entry.1)

abbrev pub AllQueuesClosed : Dict (List Client) → Type 0
AllQueuesClosed = All (λ entry. All IsClosed entry.1)

module _ (env : Env) where
  close_one_client-IsClosed :
      (name : QueueName) (idx : ℕ) (role : String) (c : Client) (first : Option GoError)
      (h : History)
      → IsClosed (close_one_client env name idx role c first h).1
  unfolding close_one_client close
  close_one_client-IsClosed name idx role c first h = ground arith

  close_publishers-AllClosed :
      (m : Dict Client) (first : Option GoError) (h : History)
      → AllClosed (close_publishers env m first h).1
  unfolding close_publishers
  close_publishers-AllClosed [] first h = tt
  close_publishers-AllClosed ((name, c) ∷ m) first h =
      let (first', c', h') = close_one_client env name 0 "publisher" c first h in
      (
        close_one_client-IsClosed name 0 "publisher" c first h,
        close_publishers-AllClosed m first' h',
      )

  close_queue-AllClosed :
      (name : QueueName) (i : ℕ) (cs : List Client) (first : Option GoError) (h : History)
      → All IsClosed (close_queue env name i cs first h).1
  unfolding close_queue
  close_queue-AllClosed name i [] first h = tt
  close_queue-AllClosed name i (c ∷ cs) first h =
      let (first', c', h') = close_one_client env name i "consumer" c first h in
      (
        close_one_client-IsClosed name i "consumer" c first h,
        close_queue-AllClosed name (suc i) cs first' h',
      )

  close_consumers-AllClosed :
      (m : Dict (List Client)) (first : Option GoError) (h : History)
      → AllQueuesClosed (close_consumers env m first h).1
  unfolding close_consumers
  close_consumers-AllClosed [] first h = tt
  close_consumers-AllClosed ((name, cs) ∷ m) first h =
      let (first', cs', h') = close_queue env name 0 cs first h in
      (close_queue-AllClosed name 0 cs first h, close_consumers-AllClosed m first' h')

  -- On closed clients the loops change nothing and make no call.
  close_one_client_again :
      (name : QueueName) (idx : ℕ) (role : String) (c : Client) (first : Option GoError)
      (h : History)
      → IsClosed c
      → let (e, c', h') = close_one_client env name idx role c first h in (c' ≡ c) × (h' ≡ h)
  unfolding close_one_client close
  close_one_client_again name idx role c first h closed = ground arith

  close_publishers_again :
      (m : Dict Client) (first : Option GoError) (h : History)
      → AllClosed m
      → let (e, m', h') = close_publishers env m first h in (m' ≡ m) × (h' ≡ h)
  unfolding close_publishers
  close_publishers_again [] first h closed = (refl, refl)
  close_publishers_again ((name, c) ∷ m) first h closed =
      let (first', c', h') = close_one_client env name 0 "publisher" c first h in
      ground (
        arith,
        close_one_client_again name 0 "publisher" c first h closed.0,
        close_publishers_again m first' h' closed.1,
      )

  close_queue_again :
      (name : QueueName) (i : ℕ) (cs : List Client) (first : Option GoError) (h : History)
      → All IsClosed cs
      → let (e, cs', h') = close_queue env name i cs first h in (cs' ≡ cs) × (h' ≡ h)
  unfolding close_queue
  close_queue_again name i [] first h closed = (refl, refl)
  close_queue_again name i (c ∷ cs) first h closed =
      let (first', c', h') = close_one_client env name i "consumer" c first h in
      ground (
        arith,
        close_one_client_again name i "consumer" c first h closed.0,
        close_queue_again name (suc i) cs first' h' closed.1,
      )

  close_consumers_again :
      (m : Dict (List Client)) (first : Option GoError) (h : History)
      → AllQueuesClosed m
      → let (e, m', h') = close_consumers env m first h in (m' ≡ m) × (h' ≡ h)
  unfolding close_consumers
  close_consumers_again [] first h closed = (refl, refl)
  close_consumers_again ((name, cs) ∷ m) first h closed =
      let (first', cs', h') = close_queue env name 0 cs first h in
      ground (
        arith,
        close_queue_again name 0 cs first h closed.0,
        close_consumers_again m first' h' closed.1,
      )

  pub shutdown-AllClosed :
      (idle again : Idle) (w : World)
      → let w' = (shutdown env idle w).1 in
        AllClosed w'.store.publishers
        × AllQueuesClosed w'.store.consumers
        × ((shutdown env again w').1 ≡ w')
  unfolding shutdown close_clients
  shutdown-AllClosed idle again w =
      let (first, publishers, h) = close_publishers env w.store.publishers none w.history in
      let (last, consumers, h') = close_consumers env w.store.consumers first h in
      let closed = close_publishers-AllClosed w.store.publishers none w.history in
      let closed' = close_consumers-AllClosed w.store.consumers first h in
      ground (
        arith,
        closed,
        closed',
        close_publishers_again publishers none h' closed,
        close_consumers_again consumers (close_publishers env publishers none h').0 h' closed',
      )
