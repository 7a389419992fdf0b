-- ===== src/Examples/Retry/Settled.antt =====
-- examples/retry/main.go: how its three kinds of messages end in the adapter.
use go_amqp_adapter.Base.{
  ℕ, suc, ltb, ◌≡◌, ◌≢◌, refl, sym, subst, true, false, none, some, List, [], ◌∷◌, ◌++◌, String,
  arith, if◌then◌else◌,
}
use go_amqp_adapter.Errors.{foreign, retryable}
use go_amqp_adapter.Errors.Chain.{here}
use go_amqp_adapter.Errors.Retryable.{retry_error, is_retryable}
use go_amqp_adapter.Delivery.Retried.{settle-reject_iff}
use go_amqp_adapter.Config.{Body, FailJobHandler, Outcome, returned}
use go_amqp_adapter.Broker.{Env, History, called, ack, reject, job_failed}
use go_amqp_adapter.Time.Text.{codes}
use go_amqp_adapter.Client.{Client, with_retry}
use go_amqp_adapter.Client.Expiry.{is_expired}
use go_amqp_adapter.Delivery.{
  Delivery, extract_expired_header, settle, reject_delivery, finalize_failed_retry,
}
use go_amqp_adapter.Delivery.Lifetime.{Try, Life, life, at_time}
use go_amqp_adapter.Examples.Retry.{handler, bytes_eq, has_prefix}

handler-retry :
    (n : ℕ) (rest : Body)
    → (handler n (codes "retry-then-ok:" ++ rest)).0 ≡ (
        if ltb (suc n) 3
        then returned (some (retryable (foreign "temporary failure")))
        else returned none)
unfolding handler bytes_eq has_prefix retry_error
handler-retry n rest = ground arith

handler-fail :
    (n : ℕ) (rest : Body)
    → handler n (codes "fail:" ++ rest) ≡ (returned (some (foreign "permanent demo failure")), n)
unfolding handler bytes_eq has_prefix
handler-fail n rest = refl

handler-ok : (n : ℕ) → handler n (codes "ok") ≡ (returned none, n)
unfolding handler bytes_eq
handler-ok n = refl

module _ (env : Env) (f : FailJobHandler) (clnt : Client) (d : Delivery) where
  life_acked :
      (t : ℕ) (rest : List Try) (h : History)
      → life env (some f) clnt d ((t, returned none) ∷ rest) h
        ≡ record { deliveries = 1; circulates = false; history = called (ack d.tag false) ∷ h }
  unfolding life settle
  life_acked t rest h = refl

  failed :
      (t : ℕ) (text : String) (h : History)
      → with_retry clnt ≡ true
      → settle
          (at_time env t)
          (some f)
          clnt
          d
          (extract_expired_header clnt d)
          (returned (some (foreign text)))
          h
        ≡ called (ack d.tag false)
          ∷ job_failed (record { queue = clnt.queue_name; body = d.body; error = foreign text })
          ∷ h
  unfolding settle finalize_failed_retry is_retryable
  failed t text h mode = ground (arith, mode)

  life_failed :
      (t : ℕ) (text : String) (rest : List Try) (h : History)
      → with_retry clnt ≡ true
      → life env (some f) clnt d ((t, returned (some (foreign text))) ∷ rest) h ≡ record {
        deliveries = 1;
        circulates = false;
        history =
            called (ack d.tag false)
            ∷ job_failed (record { queue = clnt.queue_name; body = d.body; error = foreign text })
            ∷ h;
      }
  unfolding life
  life_failed t text rest h mode = rw (failed t text h mode) refl

  life_rejected :
      (t : ℕ) (text : String) (rest : List Try) (h : History)
      → with_retry clnt ≡ true
      → extract_expired_header clnt d ≢ ""
      → is_expired t (extract_expired_header clnt d) ≡ false
      → let later = life env (some f) clnt d rest (called (reject d.tag false) ∷ h) in
        life env (some f) clnt d ((t, returned (some (retryable (foreign text)))) ∷ rest) h
        ≡ record later { deliveries = suc later.deliveries }
  unfolding life reject_delivery
  life_rejected t text rest h mode has_deadline in_time =
      let e = retryable (foreign text) in
      let done =
        (settle-reject_iff (at_time env t) (some f) clnt d (extract_expired_header clnt d) e h).1
          (record {
            in_retry_mode = mode;
            marked = here;
            has_deadline = has_deadline;
            in_time = in_time;
          }) in
      rw done refl

-- The three kinds of messages, and what they begin with.
pub data Kind : Type 0 where
  fine : Kind
  later fails : Body → Kind

abbrev pub message_of : Kind → Body
message_of fine = codes "ok"
message_of (later rest) = codes "retry-then-ok:" ++ rest
message_of (fails rest) = codes "fail:" ++ rest

-- What becomes of the message: the deliveries, and the events, the latest first.
abbrev pub end_of : Kind → Client → Delivery → History → Life
end_of fine clnt d h = record {
  deliveries = 1;
  circulates = false;
  history = called (ack d.tag false) ∷ h;
}
end_of (later rest) clnt d h = record {
  deliveries = 3;
  circulates = false;
  history =
      called (ack d.tag false) ∷ called (reject d.tag false) ∷ called (reject d.tag false) ∷ h;
}
end_of (fails rest) clnt d h = record {
  deliveries = 1;
  circulates = false;
  history =
      called (ack d.tag false)
      ∷ job_failed (record {
        queue = clnt.queue_name;
        body = d.body;
        error = foreign "permanent demo failure";
      })
      ∷ h;
}

-- Up to three deliveries, for which the counter of attempts begins at 0.
abbrev pub tries : Body → ℕ → ℕ → ℕ → List Try
tries body t0 t1 t2 =
    (t0, (handler 0 body).0) ∷ (t1, (handler 1 body).0) ∷ (t2, (handler 2 body).0) ∷ []

module _ (env : Env) (f : FailJobHandler) (clnt : Client) (d : Delivery)
    (mode : with_retry clnt ≡ true) (t0 t1 t2 : ℕ) (h : History) where
  later_life :
      (rest : Body)
      → extract_expired_header clnt d ≢ ""
      → is_expired t0 (extract_expired_header clnt d) ≡ false
      → is_expired t1 (extract_expired_header clnt d) ≡ false
      → life env (some f) clnt d (tries (message_of (later rest)) t0 t1 t2) h
        ≡ end_of (later rest) clnt d h
  later_life rest has_deadline now0 now1 =
      let text : String = "temporary failure" in
      let again : Outcome = returned (some (retryable (foreign text))) in
      let rejected = called (reject d.tag false) in
      let third : List Try = (t2, returned none) ∷ [] in
      rw (
        handler-retry 0 rest,
        handler-retry 1 rest,
        handler-retry 2 rest,
        life_rejected env f clnt d t0 text ((t1, again) ∷ third) h mode has_deadline now0,
        life_rejected env f clnt d t1 text third (rejected ∷ h) mode has_deadline now1,
        life_acked env f clnt d t2 [] (rejected ∷ rejected ∷ h),
      )

  kind_life :
      (kind : Kind)
      → extract_expired_header clnt d ≢ ""
      → is_expired t0 (extract_expired_header clnt d) ≡ false
      → is_expired t1 (extract_expired_header clnt d) ≡ false
      → life env (some f) clnt d (tries (message_of kind) t0 t1 t2) h ≡ end_of kind clnt d h
  kind_life fine has_deadline now0 now1 = rw (handler-ok 0, life_acked env f clnt d t0)
  kind_life (later rest) has_deadline now0 now1 = later_life rest has_deadline now0 now1
  kind_life (fails rest) has_deadline now0 now1 = rw (
    handler-fail 0 rest,
    life_failed env f clnt d t0 "permanent demo failure"
        ((t1, (handler 1 (message_of (fails rest))).0)
          ∷ (t2, (handler 2 (message_of (fails rest))).0)
          ∷ [])
        h mode,
  )

  -- The example's three kinds of messages, in the adapter with the example's handlers. A client in
  -- retry mode has a message with a deadline, which is not past when the handler is called for the
  -- first and the second time, if it is called so often; the counter of attempts begins at 0. Then
  -- `ok` is acked at once; `retry-then-ok:…` is rejected twice, comes back twice, and is acked at
  -- its third delivery; and `fail:…` is acked at once, after the handler of failed jobs has been
  -- called with it.
  pub life-tries :
      (kind : Kind)
      → d.body ≡ message_of kind
      → extract_expired_header clnt d ≢ ""
      → is_expired t0 (extract_expired_header clnt d) ≡ false
      → is_expired t1 (extract_expired_header clnt d) ≡ false
      → life env (some f) clnt d (tries d.body t0 t1 t2) h ≡ end_of kind clnt d h
  life-tries kind b has_deadline now0 now1 =
      subst (λ x. life env (some f) clnt d (tries x t0 t1 t2) h ≡ end_of kind clnt d h) (sym b)
        (kind_life kind has_deadline now0 now1)
