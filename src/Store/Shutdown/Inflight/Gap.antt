-- ===== src/Store/Shutdown/Inflight/Gap.antt =====
-- The end of the wait in `Shutdown`, and a handler that begins after it.
use go_amqp_adapter.Base.{
  ◌≡◌, refl, ap, ◌∙◌, sym, Bool, Option, List, [], ◌∷◌, ◌++◌, arith, if◌then◌else◌,
}
use mathlib.Core.List.{append_assoc}
use go_amqp_adapter.Config.{FailJobHandler, Outcome}
use go_amqp_adapter.Broker.{Env, History}
use go_amqp_adapter.Client.{Client}
use go_amqp_adapter.Delivery.{Delivery}
use go_amqp_adapter.Store.Shutdown.{on_idle}
use go_amqp_adapter.Store.Shutdown.Inflight.{
  At, idle, received, running, ended, Worker, waiting, past, System, IsIdle, begin, finish, begins,
  finishes, finds_idle, Reaches, here, later, initial,
}
use go_amqp_adapter.Store.Shutdown.Inflight.Counted.{at_work}
use go_amqp_adapter.Store.Shutdown.Inflight.Waits.{Inv}
use go_amqp_adapter.Store.Shutdown.Inflight.Handlers.{Reaches-Inv, initial-Inv}

-- Every handler has come to its end.
abbrev pub rested : At → At
rested (running d) = idle
rested at = at

abbrev pub drained : List Worker → List Worker
drained [] = []
drained (w ∷ ws) = record w { at = rested w.at } ∷ drained ws

drained-at_work : (ws : List Worker) → at_work (drained ws) ≡ 0
unfolding at_work
drained-at_work [] = refl
drained-at_work (w ∷ ws) = ground (arith, drained-at_work ws)

drained-append : (ws vs : List Worker) → drained (ws ++ vs) ≡ drained ws ++ drained vs
drained-append [] vs = refl
drained-append (w ∷ ws) vs = ap (λ x. record w { at = rested w.at } ∷ x) (drained-append ws vs)

module _ (env : Env) (fail : Option FailJobHandler) (accepts : Client → Delivery → Bool)
    (o : Outcome) where
  Reaches-append :
      {s t u : System}
      → Reaches env fail accepts s t
      → Reaches env fail accepts t u
      → Reaches env fail accepts s u
  Reaches-append p here = p
  Reaches-append p (later q step) = later (Reaches-append p q) step

  rest_one :
      (ws vs : List Worker) (c : Client) (a : At) (s s' : System)
      → Reaches env fail accepts s s'
      → s'.workers ≡ ws ++ (record { client = c; at = a } ∷ vs)
      → s'.phase ≡ s.phase
      → (t : System) × Reaches env fail accepts s t
        × (t.workers ≡ ws ++ (record { client = c; at = rested a } ∷ vs))
        × (t.phase ≡ s.phase)
  rest_one ws vs c (running d) s s' path e p =
      let t : System = record {
        workers = ws ++ (record { client = c; at = idle } ∷ vs);
        phase = s'.phase;
        taken = if accepts c d then d.tag ∷ s'.taken else s'.taken;
        history = finish env fail c [] d o s'.history;
      } in
      (t, later path (finishes ws vs c d [] o e), refl, p)
  rest_one ws vs c idle s s' path e p = (s', path, e, p)
  rest_one ws vs c (received d) s s' path e p = (s', path, e, p)
  rest_one ws vs c ended s s' path e p = (s', path, e, p)

  -- The handlers end one after another, each with the same outcome.
  drain :
      (ws vs : List Worker) (s s' : System)
      → Reaches env fail accepts s s'
      → s'.workers ≡ ws ++ vs
      → s'.phase ≡ s.phase
      → (t : System) × Reaches env fail accepts s t
        × (t.workers ≡ ws ++ drained vs)
        × (t.phase ≡ s.phase)
  drain ws [] s s' path e p = (s', path, e, p)
  drain ws (w ∷ vs) s s' path e p =
      let w' : Worker = record w { at = rested w.at } in
      let (t, q, f, r) = rest_one ws vs w.client w.at s s' path e p in
      let (u, q', f', r') =
        drain (ws ++ (w' ∷ [])) vs s t q (f ∙ sym (append_assoc ws (w' ∷ []) vs)) r in
      (u, q', f' ∙ append_assoc ws (w' ∷ []) (drained vs), r')

  -- From every state in which `Shutdown` waits, if the handlers at work come to their ends, it
  -- stops waiting, and every worker stands where it stood, or in its `select` if it was at work.
  idle-Reaches :
      (s : System)
      → Inv s
      → s.phase ≡ waiting
      → (t : System) × Reaches env fail accepts s t
        × (t.workers ≡ drained s.workers)
        × (t.phase ≡ past on_idle)
  idle-Reaches s v p =
      let (t, q, f, r) = drain [] s.workers s s here refl refl in
      let fits = (Reaches-Inv env fail accepts q v).fits in
      let none_left : at_work t.workers ≡ 0 = ap at_work f ∙ drained-at_work s.workers in
      (
        record t { phase = past on_idle },
        later q (finds_idle (r ∙ p) (omega (arith, fits, none_left))),
        f,
        refl,
      )

  -- A handler can begin after `Shutdown` has stopped waiting. From every such state in which a
  -- worker has received a message and not yet counted itself, there are steps after which
  -- `Shutdown` is past its wait, having found no handler at work, and the handler of that message
  -- is at work.
  pub received-Reaches :
      (cs : List Client) (h : History) (s : System) (ws vs : List Worker) (c : Client)
      (d : Delivery)
      → IsIdle h
      → Reaches env fail accepts (initial cs h) s
      → s.phase ≡ waiting
      → s.workers ≡ ws ++ (record { client = c; at = received d } ∷ vs)
      → (t : System) × Reaches env fail accepts s t
        × (t.phase ≡ past on_idle)
        × (t.workers ≡ drained ws ++ (record { client = c; at = running d } ∷ drained vs))
  received-Reaches cs h s ws vs c d quiet path p e =
      let v = Reaches-Inv env fail accepts path (initial-Inv env fail accepts cs h quiet) in
      let (t, q, f, r) = idle-Reaches s v p in
      let there =
        f ∙ ap drained e ∙ drained-append ws (record { client = c; at = received d } ∷ vs) in
      (
        record t {
          workers = drained ws ++ (record { client = c; at = running d } ∷ drained vs);
          history = begin t.history;
        },
        later q (begins (drained ws) (drained vs) c d there),
        r,
        refl,
      )
