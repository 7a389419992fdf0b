-- ===== src/Store/Shutdown/Calls.antt =====
-- The calls that `Shutdown` makes, and its error.
use go_amqp_adapter.Base.{
  ℕ, suc, ◌≡◌, ◌↔◌, refl, Option, none, some, List, [], ◌∷◌, ◌++◌, String, Dict, arith,
  if◌then◌else◌, Bool-cases, inl, inr,
}
use go_amqp_adapter.Errors.{GoError}
use go_amqp_adapter.Config.{QueueName}
use go_amqp_adapter.Broker.{Env, History, Call, called}
use go_amqp_adapter.Client.{Client}
use go_amqp_adapter.Client.Close.{close}
use go_amqp_adapter.Client.Close.Laws.{closing_calls, first_refusal, close_first}
use go_amqp_adapter.Topology.Plan.{recorded}
use go_amqp_adapter.Store.{World}
use go_amqp_adapter.Store.Shutdown.{
  close_one_client, close_publishers, close_queue, close_consumers, close_clients, Idle, shutdown,
  final_error, or_closing,
}

-- What is left to close of a client, of the publishers, of the consumers of a queue, and of all
-- queues, in the order of the loops.
abbrev pub client_calls : Client → List Call
client_calls c = if c.closed_once then [] else closing_calls c

pub publisher_calls : Dict Client → List Call
publisher_calls [] = []
publisher_calls ((name, c) ∷ m) = client_calls c ++ publisher_calls m

pub queue_calls : List Client → List Call
queue_calls [] = []
queue_calls (c ∷ cs) = client_calls c ++ queue_calls cs

pub consumer_calls : Dict (List Client) → List Call
unfolding queue_calls
consumer_calls [] = []
consumer_calls ((name, cs) ∷ m) = queue_calls cs ++ consumer_calls m

recorded_append :
    (xs ys : List Call) (h : History) → recorded (xs ++ ys) h ≡ recorded ys (recorded xs h)
recorded_append [] ys h = refl
recorded_append (x ∷ xs) ys h = recorded_append xs ys (called x ∷ h)

-- At the end, with the handlers finished and a live context, the error so far is the result.
final_error_iff :
    (last : Option GoError) → (final_error (or_closing last none) none ≡ none) ↔ (last ≡ none)
unfolding final_error
final_error_iff none = ground arith
final_error_iff (some e) = ground arith

module _ (env : Env) where
  -- No call of the list is refused, when they are made one after another.
  abbrev Passes : List Call → History → Type 0
  Passes cs h = first_refusal env cs h ≡ none

  Passes-append :
      (xs ys : List Call) (h : History)
      → Passes (xs ++ ys) h ↔ (Passes xs h × Passes ys (recorded xs h))
  unfolding first_refusal
  Passes-append [] ys h = ground arith
  Passes-append (x ∷ xs) ys h = ground (arith, Passes-append xs ys (called x ∷ h))

  -- An error so far, and the refusals among the calls that come.
  abbrev Ends : Option GoError → List Call → History → Option GoError → History → Type 0
  Ends first cs h last k = (k ≡ recorded cs h) × ((last ≡ none) ↔ ((first ≡ none) × Passes cs h))

  Ends-append :
      (first mid last : Option GoError) (xs ys : List Call) (h i k : History)
      → Ends first xs h mid i
      → Ends mid ys i last k
      → Ends first (xs ++ ys) h last k
  Ends-append first mid last xs ys h i k a b =
      ground (arith, recorded_append xs ys h, Passes-append xs ys h)

  module _ (live : (h : History) → env.ctx_err h ≡ none) where
    close_one_client-Ends :
        (name : QueueName) (idx : ℕ) (role : String) (c : Client) (first : Option GoError)
        (h : History)
        → let (last, c', k) = close_one_client env name idx role c first h in
          Ends first (client_calls c) h last k
    unfolding close_one_client close first_refusal
    close_one_client-Ends name idx role c first h = elim (Bool-cases c.closed_once) [
      | inl closed ↦ ground (arith, live h)
      | inr fresh ↦
          ground (arith, live h, close_first env (record { client = c; history = h }) fresh)
    ]

    close_publishers-Ends :
        (m : Dict Client) (first : Option GoError) (h : History)
        → let (last, m', k) = close_publishers env m first h in
          Ends first (publisher_calls m) h last k
    unfolding close_publishers publisher_calls first_refusal
    close_publishers-Ends [] first h = ground arith
    close_publishers-Ends ((name, c) ∷ m) first h =
        let (mid, c', i) = close_one_client env name 0 "publisher" c first h in
        let (last, m', k) = close_publishers env m mid i in
        Ends-append first mid last (client_calls c) (publisher_calls m) h i k
          (close_one_client-Ends name 0 "publisher" c first h) (close_publishers-Ends m mid i)

    close_queue-Ends :
        (name : QueueName) (n : ℕ) (cs : List Client) (first : Option GoError) (h : History)
        → let (last, cs', k) = close_queue env name n cs first h in
          Ends first (queue_calls cs) h last k
    unfolding close_queue queue_calls first_refusal
    close_queue-Ends name n [] first h = ground arith
    close_queue-Ends name n (c ∷ cs) first h =
        let (mid, c', i) = close_one_client env name n "consumer" c first h in
        let (last, cs', k) = close_queue env name (suc n) cs mid i in
        Ends-append first mid last (client_calls c) (queue_calls cs) h i k
          (close_one_client-Ends name n "consumer" c first h)
          (close_queue-Ends name (suc n) cs mid i)

    close_consumers-Ends :
        (m : Dict (List Client)) (first : Option GoError) (h : History)
        → let (last, m', k) = close_consumers env m first h in
          Ends first (consumer_calls m) h last k
    unfolding close_consumers consumer_calls first_refusal
    close_consumers-Ends [] first h = ground arith
    close_consumers-Ends ((name, cs) ∷ m) first h =
        let (mid, cs', i) = close_queue env name 0 cs first h in
        let (last, m', k) = close_consumers env m mid i in
        Ends-append first mid last (queue_calls cs) (consumer_calls m) h i k
          (close_queue-Ends name 0 cs first h) (close_consumers-Ends m mid i)

  -- While the context lives and once all handlers are finished, `Shutdown` makes the closing calls
  -- of every client that is not yet closed, the publishers first, each channel before its
  -- connection, all of them whatever is refused; and it returns nil exactly if the broker refuses
  -- none of them.
  pub shutdown_iff :
      (w : World)
      → ((h : History) → env.ctx_err h ≡ none)
      → let calls = publisher_calls w.store.publishers ++ consumer_calls w.store.consumers in
        let (e, w') = shutdown env Idle.on_idle w in
        (w'.history ≡ recorded calls w.history)
        × ((e ≡ none) ↔ (first_refusal env calls w.history ≡ none))
  unfolding shutdown close_clients
  shutdown_iff w live =
      let (mid, ps, i) = close_publishers env w.store.publishers none w.history in
      let (last, cs, k) = close_consumers env w.store.consumers mid i in
      let ends =
        Ends-append none mid last (publisher_calls w.store.publishers)
          (consumer_calls w.store.consumers) w.history i k
          (close_publishers-Ends live w.store.publishers none w.history)
          (close_consumers-Ends live w.store.consumers mid i) in
      (ends.0, rw (live k) (ground (arith, final_error_iff last, ends.1)))
