-- ===== src/Store/Shutdown/Inflight.antt =====
-- `Shutdown` beside the consumer loops: queue.go's `closeClients` and `waitInflight`,
-- consumer_loop.go's `processDeliveries` and delivery.go's `handleDelivery`, whose counting is
-- split from the moment in which the message is taken off the channel. The counter `inflight` is
-- read off the history. A message may be received at any time, also from a channel that is closed.
pub mod Counted
pub mod Waits
pub mod Handlers
pub mod Gap
mod Tests
use go_amqp_adapter.Base.{
  ℕ, suc, ◌+◌, ◌≡◌, refl, Bool, true, false, Option, none, some, List, [], ◌∷◌, ◌++◌, length, arith,
  if◌then◌else◌,
}
use go_amqp_adapter.Config.{
  Context, ConsumerHandler, ConsumeHeadersExtractor, Outcome, FailJobHandler,
}
use go_amqp_adapter.Broker.{Env, History, Event, handled, inflight_add, inflight_done}
use go_amqp_adapter.Client.{Client, amqp_table_to_map}
use go_amqp_adapter.Client.Session.{State}
use go_amqp_adapter.Client.Close.{close}
use go_amqp_adapter.Delivery.{Delivery, extract_expired_header, settle, handle_delivery}
use go_amqp_adapter.Delivery.Settled.{counts}
use go_amqp_adapter.Store.Shutdown.{Idle, on_idle, on_ctx}

-- Where a consumer loop stands: in the `select`, with a message that it has received but not
-- counted, in `handleDelivery` after `inflight.Add(1)`, or at its end.
pub data At : Type 0 where
  idle : At
  received running : Delivery → At
  ended : At

pub record Worker : Type 0 where
  pub client : Client
  pub at : At

-- Where `Shutdown` stands: not called, with so many clients closed, in `waitInflight`, or past its
-- `select`.
pub data Phase : Type 0 where
  before : Phase
  closing : ℕ → Phase
  waiting : Phase
  past : Idle → Phase

-- `taken` are the settlements that the broker took, by the messages' tags.
pub record System : Type 0 where
  pub workers : List Worker
  pub phase : Phase
  pub taken : List ℕ
  pub history : History

-- Nobody counts at this event.
abbrev pub IsOther : Event → Type 0
IsOther inflight_add = ⊥
IsOther inflight_done = ⊥
IsOther _ = Unit {0}

-- The clients that the counter says are at work: none.
abbrev pub IsIdle : History → Type 0
IsIdle h = (counts h).raised ≡ (counts h).lowered

-- The client after `close`, and the history.
abbrev pub closed : Env → Client → History → State
closed env c h = (close env (record { client = c; history = h })).1

-- The history after `inflight.Add(1)`, and after the rest of `handleDelivery`.
abbrev pub begin : History → History
begin h = inflight_add ∷ h

module _ (env : Env) (fail : Option FailJobHandler) where
  abbrev pub finish : Client → Context → Delivery → Outcome → History → History
  finish clnt ctx d o h =
      inflight_done
      ∷ settle env fail clnt d (extract_expired_header clnt d) o (handled ctx d.body ∷ h)

  -- One after the other they are `handleDelivery`.
  handle_delivery-finish :
      (loop_ctx : Context) (extract : ConsumeHeadersExtractor) (clnt : Client)
      (callback : ConsumerHandler) (d : Delivery) (h : History)
      → clnt.consume_headers_extractor ≡ some extract
      → let ctx = extract loop_ctx (amqp_table_to_map d.headers) in
        handle_delivery env fail loop_ctx clnt callback d h
        ≡ some (finish clnt ctx d (callback ctx d.body) (begin h))
  unfolding handle_delivery
  handle_delivery-finish loop_ctx extract clnt callback d h set = ground (arith, set)

  -- `accepts` says whether the broker takes the settlement of a delivery.
  module _ (accepts : Client → Delivery → Bool) where
    -- One step of one goroutine; the worker that moves stands between the others.
    pub data Step (s : System) : System → Type 0 where
      receives :
          (ws vs : List Worker) (c : Client) (d : Delivery)
          → s.workers ≡ ws ++ (record { client = c; at = idle } ∷ vs)
          → Step s (record s { workers = ws ++ (record { client = c; at = received d } ∷ vs) })
      begins :
          (ws vs : List Worker) (c : Client) (d : Delivery)
          → s.workers ≡ ws ++ (record { client = c; at = received d } ∷ vs)
          → Step s (record s {
            workers = ws ++ (record { client = c; at = running d } ∷ vs);
            history = begin s.history;
          })
      finishes :
          (ws vs : List Worker) (c : Client) (d : Delivery) (ctx : Context) (o : Outcome)
          → s.workers ≡ ws ++ (record { client = c; at = running d } ∷ vs)
          → Step s (record s {
            workers = ws ++ (record { client = c; at = idle } ∷ vs);
            taken = if accepts c d then d.tag ∷ s.taken else s.taken;
            history = finish c ctx d o s.history;
          })
      ends :
          (ws vs : List Worker) (c : Client)
          → s.workers ≡ ws ++ (record { client = c; at = idle } ∷ vs)
          → Step s (record s { workers = ws ++ (record { client = c; at = ended } ∷ vs) })
      -- `Shutdown` is called, closes a client, the last of them, and waits.
      shuts : s.phase ≡ before → Step s (record s { phase = closing 0 })
      closes :
          (ws vs : List Worker) (c : Client) (at : At)
          → s.phase ≡ closing (length ws)
          → s.workers ≡ ws ++ (record { client = c; at = at } ∷ vs)
          → Step s (record s {
            workers = ws ++ (record { client = (closed env c s.history).client; at = at } ∷ vs);
            phase = closing (suc (length ws));
            history = (closed env c s.history).history;
          })
      waits : s.phase ≡ closing (length s.workers) → Step s (record s { phase = waiting })
      -- `waitInflight` ends.
      finds_idle : s.phase ≡ waiting → IsIdle s.history → Step s (record s { phase = past on_idle })
      times_out : s.phase ≡ waiting → Step s (record s { phase = past on_ctx })
      -- The reconnect loop of a client writes its fields, or the client is closed.
      relinks :
          (ws vs : List Worker) (c c' : Client) (at : At)
          → s.workers ≡ ws ++ (record { client = c; at = at } ∷ vs)
          → (c.closed_once ≡ true → c'.closed_once ≡ true)
          → Step s (record s { workers = ws ++ (record { client = c'; at = at } ∷ vs) })
      -- Anything else that happens.
      others : (e : Event) → IsOther e → Step s (record s { history = e ∷ s.history })

    pub data Reaches (s : System) : System → Type 0 where
      here : Reaches s s
      later : {t u : System} → Reaches s t → Step t u → Reaches s u

-- Consumer loops that have just started.
abbrev pub started : List Client → List Worker
started [] = []
started (c ∷ cs) = record { client = c; at = idle } ∷ started cs

abbrev pub initial : List Client → History → System
initial cs h = record { workers = started cs; phase = before; taken = []; history = h }
