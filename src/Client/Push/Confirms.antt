-- ===== src/Client/Push/Confirms.antt =====
-- The confirmations of one channel, from `init` on: `notifyConfirm` is made there, and the waits of
-- all calls of `push` on the channel read it one after another. What the code relies on of package
-- amqp091-go is the premise of `arrives`: publishes are numbered from 1, and their confirmations
-- come in the order of the numbers. A value that is sent but not yet read waits, in the buffer or
-- before it.
use go_amqp_adapter.Base.{
  ℕ, suc, ◌+◌, ◌≤◌, ◌≡◌, Bool, true, false, List, [], ◌∷◌, ◌++◌, All, length,
}
use go_amqp_adapter.Errors.{Result, ok}
use go_amqp_adapter.Config.{Table, PublishMessage}
use go_amqp_adapter.Broker.{Env, History}
use go_amqp_adapter.Client.{Client}
use go_amqp_adapter.Client.Push.{Confirm, wait_publish_confirm, unsafe_push}

-- `amqp.Confirmation`: `Ack` and `DeliveryTag`.
pub record Confirmation : Type 0 where
  pub is_ack : Bool
  pub tag : ℕ

-- A wait that read a confirmation: the number of the publish that it was for, the confirmation, its
-- result, and how many waits had been abandoned before.
pub record Read : Type 0 where
  pub publish : ℕ
  pub confirmation : Confirmation
  pub result : Result (Unit {0})
  pub abandoned : ℕ

-- `sent` publishes have been made, `next` is the number that the broker confirms next, and
-- `waiting` says that a publish has been made whose wait is not over.
pub record Channel : Type 0 where
  pub sent : ℕ
  pub next : ℕ
  pub unread : List Confirmation
  pub waiting : Bool
  pub abandoned : ℕ
  pub reads : List Read

-- After `init`.
abbrev pub fresh : Channel
fresh = record { sent = 0; next = 1; unread = []; waiting = false; abandoned = 0; reads = [] }

module _ (env : Env) where
  pub data Step (c : Channel) : Channel → Type 0 where
    -- `unsafePush` has published, under the lock.
    publishes :
        (clnt : Client) (msg : PublishMessage) (headers : Table) (h h' : History)
        → c.waiting ≡ false
        → unsafe_push env clnt msg headers h ≡ (ok tt, h')
        → Step c (record c { sent = suc c.sent; waiting = true })
    -- The broker confirms the next publish.
    arrives :
        (is_ack : Bool)
        → c.next ≤ c.sent
        → Step c (record c {
          next = suc c.next;
          unread = c.unread ++ (record { is_ack = is_ack; tag = c.next } ∷ []);
        })
    -- `waitPublishConfirm` reads the oldest value of the channel.
    reads_one :
        (clnt : Client) (found : Confirmation) (rest : List Confirmation)
        → c.waiting ≡ true
        → c.unread ≡ found ∷ rest
        → Step c (record c {
          unread = rest;
          waiting = false;
          reads =
              record {
                publish = c.sent;
                confirmation = found;
                result = wait_publish_confirm clnt (Confirm.on_confirm found.is_ack found.tag);
                abandoned = c.abandoned;
              }
              ∷ c.reads;
        })
    -- `waitPublishConfirm` ends by its other cases.
    gives_up : c.waiting ≡ true → Step c (record c { waiting = false; abandoned = suc c.abandoned })

  pub data Reaches : Channel → Type 0 where
    start : Reaches fresh
    later : {c c' : Channel} → Reaches c → Step c c' → Reaches c'

-- The tags are `first`, `first + 1`, and so on.
abbrev pub Numbered : ℕ → List Confirmation → Type 0
Numbered first [] = Unit {0}
Numbered first (x ∷ xs) = (x.tag ≡ first) × Numbered (suc first) xs

abbrev pub bit : Bool → ℕ
bit true = 1
bit false = 0

-- The confirmation is that of the publish `abandoned` places earlier.
abbrev pub Lags : Read → Type 0
Lags r = r.publish ≡ r.confirmation.tag + r.abandoned

pub record Inv (first : ℕ) (c : Channel) : Type 0 where
  pub in_order : Numbered first c.unread
  pub up_to_next : first + length c.unread ≡ c.next
  pub behind : c.sent + 1 ≡ first + c.abandoned + bit c.waiting
  pub lags : All Lags c.reads
