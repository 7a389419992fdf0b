-- ===== src/Client/Push/Tests.antt =====
-- Runs of the theorems on `push`.
use go_amqp_adapter.Base.{◌≡◌, ◌⊎◌, ◌≤◌, inr, refl, true, false, none, some, [], ◌∷◌, arith}
use go_amqp_adapter.Errors.{ok}
use go_amqp_adapter.Config.{Context, Table}
use go_amqp_adapter.Broker.{Publishing, called, ch_publish}
use go_amqp_adapter.Client.{new_client}
use go_amqp_adapter.Client.Push.{
  Ready, Confirm, Pause, Round, finished, unfinished, publishing, publish_headers, wait_ready,
  push_loop, locked, unsafe_push, publish_on, wait_publish_confirm, wait_before_push_retry, push,
  for_quoted, priority_of, max_publish_message_priority, context_error,
}
use go_amqp_adapter.Client.Push.Outcomes.{IsSent, AnyAck, GaveUp, push-Succeeded}
use go_amqp_adapter.Client.Push.Failures.{NotReady, push_errors}
use go_amqp_adapter.Client.Push.Progress.{published, push_invalid_priority, push_delivers}
use go_amqp_adapter.Client.Push.Confirms.{Channel}
use go_amqp_adapter.Errors.{err_done_signal_before_ack}
use go_amqp_adapter.Samples.{calm, linked, letter, user_header}

-- The broker acks, sends a negative confirmation, and the client is closed.
abbrev acked : Round
acked = record {
  is_ready = 1;
  ch = some 2;
  confirm = Confirm.on_confirm true 1;
  pause = Pause.on_timer;
}

abbrev nacked : Round
nacked = record acked { confirm = Confirm.on_confirm false 1 }

abbrev closing : Round
closing = record nacked { pause = Pause.on_done }

push-Succeeded_example :
    (build : Context → Table) × (linked.publish_headers_builder ≡ some build)
    × IsSent calm linked letter (build []) (
        called (
          ch_publish 2 "" "mail" true false
            (publishing linked letter (user_header []) 5_000_000_000))
        ∷ [])
    × AnyAck calm linked letter (acked ∷ [])
    × (priority_of letter ≤ max_publish_message_priority)
unfolding push wait_ready push_loop locked unsafe_push publish_on wait_publish_confirm publishing
    publish_headers new_client
push-Succeeded_example =
    push-Succeeded calm linked letter [] Ready.on_ready (acked ∷ []) []
      (called (
          ch_publish 2 "" "mail" true false
            (publishing linked letter (user_header []) 5_000_000_000))
        ∷ [])
      refl

push_errors_example :
    NotReady (context_error none) (for_quoted err_done_signal_before_ack "mail")
    ⊎ GaveUp (for_quoted err_done_signal_before_ack "mail")
unfolding push wait_ready push_loop locked unsafe_push publish_on wait_publish_confirm
    wait_before_push_retry publishing new_client
push_errors_example =
    push_errors calm linked letter [] Ready.on_ready (closing ∷ []) []
      (called (
          ch_publish 2 "" "mail" true false
            (publishing linked letter (user_header []) 5_000_000_000))
        ∷ [])
      (for_quoted err_done_signal_before_ack "mail") refl

push_invalid_priority_example :
    let (p, h) =
      push calm linked []
        (record letter { priority = some 10 })
        Ready.on_ready
        (acked ∷ acked ∷ [])
        [] in
    (p ≡ unfinished) × (published h ≡ published [])
push_invalid_priority_example =
    push_invalid_priority calm linked (record letter { priority = some 10 }) [] user_header
      (acked ∷ acked ∷ []) [] (omega arith) refl (refl, (refl, tt))

push_delivers_example :
    (push calm linked [] letter Ready.on_ready (nacked ∷ nacked ∷ acked ∷ []) []).0
    ≡ finished (ok tt)
unfolding wait_publish_confirm
push_delivers_example =
    push_delivers calm linked letter [] user_header (nacked ∷ nacked ∷ []) acked [] [] (λ k c. refl)
      (omega arith) refl (refl, (refl, tt)) (inr (λ e. cc), (inr (λ e. cc), tt))
      (record { is_up = λ e. cc; has_channel = λ e. cc; acks = refl })

-- The first publish is given up, and the second reads its confirmation.
abbrev message : Publishing
message = publishing linked letter (user_header []) 5_000_000_000

abbrev read_one : Channel
read_one = record {
  sent = 2;
  next = 2;
  unread = [];
  waiting = false;
  abandoned = 1;
  reads =
      record {
        publish = 2;
        confirmation = record { is_ack = true; tag = 1 };
        result = wait_publish_confirm linked (Confirm.on_confirm true 1);
        abandoned = 1;
      }
      ∷ [];
}
