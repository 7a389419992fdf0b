-- ===== src/Examples/Workers.antt =====
-- examples/multiple-consumers/main.go: four workers for one queue and one for another.
use go_amqp_adapter.Base.{
  ℕ, Bool, true, false, ◌&&◌, ◌==◌, suc, none, List, [], ◌∷◌, String, concat, Option, some,
  if◌then◌else◌,
}
use go_amqp_adapter.Base.Int.{pos}
use go_amqp_adapter.Config.{QueueName, QueueItem, ConsumerHandler, returned}
use go_amqp_adapter.Config.Options.{with_logger}
use go_amqp_adapter.Store.{World}
use go_amqp_adapter.Time.Text.{codes, decimal}
use go_amqp_adapter.Examples.{
  Run, Main, Setting, ◌>>◌, pure, example_config, slog, add, add_n, start, send, wait, run_main,
  with_body,
}

abbrev pub email_queue : QueueName
email_queue = "example.emails"

abbrev pub sms_queue : QueueName
sms_queue = "example.sms"

abbrev pub email_workers : ℕ
email_workers = 4

abbrev pub email_jobs : ℕ
email_jobs = 8

abbrev pub item : QueueItem
item = record { retry = none; consumer_only = false }

-- The counters, and whether `finished` is closed.
pub record Counters : Type 0 where
  pub emails_done : ℕ
  pub sms_done : ℕ
  pub finished : Bool

-- `mark`, when no other goroutine is in it.
unfoldable pub mark : Counters → Counters
mark c = if c.emails_done == email_jobs && c.sms_done == 1 then record c { finished = true } else c

-- What the handlers do to the counters; both return nil.
unfoldable pub email_done : Counters → Counters
unfolding mark
email_done c = mark (record c { emails_done = suc c.emails_done })

unfoldable pub sms_done : Counters → Counters
unfolding mark
sms_done c = mark (record c { sms_done = suc c.sms_done })

abbrev pub handler : ConsumerHandler
handler ctx body = returned none

module _ (a : Setting) where
  unfoldable pub prepare : Main (Unit {0})
  prepare = do add_n a email_queue (pos email_workers) handler; add a sms_queue handler; start a

  -- The loop that publishes the emails.
  unfoldable pub send_emails : List ℕ → Main (Unit {0})
  send_emails [] = pure tt
  send_emails (i ∷ is) = do
    send a i email_queue (with_body (codes (concat "email-" (decimal 1 i))))
    send_emails is

  unfoldable pub body : Main (Unit {0})
  body = do
    prepare
    send_emails (1 ∷ 2 ∷ 3 ∷ 4 ∷ 5 ∷ 6 ∷ 7 ∷ 8 ∷ [])
    send a 9 sms_queue (with_body (codes "sms-1"))
    wait a

  -- `main`
  unfoldable pub main : String → Run (Unit {0}) × Option World
  main url =
      run_main a (example_config url ((email_queue, item) ∷ (sms_queue, item) ∷ []))
        (with_logger (some slog) ∷ []) body
