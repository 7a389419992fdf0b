-- ===== src/Store/Shutdown/Inflight/Waits.antt =====
-- The invariant of `Shutdown` beside the loops of the consumers.
use go_amqp_adapter.Base.{
  ℕ, zero, suc, ◌+◌, ◌≡◌, refl, subst, Bool, true, Option, List, [], ◌∷◌, ◌++◌, length, arith, All,
  if◌then◌else◌,
}
use go_amqp_adapter.Config.{FailJobHandler}
use go_amqp_adapter.Broker.{Env, History, handled}
use go_amqp_adapter.Client.{Client}
use go_amqp_adapter.Delivery.{Delivery, extract_expired_header}
use go_amqp_adapter.Delivery.Settled.{counts, counts-settle}
use go_amqp_adapter.Store.Shutdown.Inflight.{
  At, idle, received, running, ended, Worker, Phase, before, closing, waiting, past, System, begin,
  finish, closed, Step, receives, begins, finishes, ends, shuts, closes, waits, finds_idle,
  times_out, relinks, others,
}
use go_amqp_adapter.Store.Shutdown.Inflight.Counted.{
  weight, Fits, Fits-moved, close-counts, closed-IsClosed, other-counts,
}

-- Which clients are closed, and that the first `k` are, or all.
abbrev pub flags : List Worker → List Bool
flags [] = []
flags (w ∷ ws) = w.client.closed_once ∷ flags ws

abbrev pub FirstClosed : ℕ → List Bool → Type 0
FirstClosed zero cs = Unit {0}
FirstClosed (suc k) [] = Unit {0}
FirstClosed (suc k) (b ∷ bs) = (b ≡ true) × FirstClosed k bs

abbrev pub ClosedAt : Phase → List Bool → Type 0
ClosedAt before cs = Unit {0}
ClosedAt (closing k) cs = FirstClosed k cs
ClosedAt waiting cs = All (λ b. b ≡ true) cs
ClosedAt (past ended_by) cs = All (λ b. b ≡ true) cs

FirstClosed-moved :
    (k : ℕ) (ws vs : List Worker) (c c' : Client) (a b : At)
    → (c.closed_once ≡ true → c'.closed_once ≡ true)
    → FirstClosed k (flags (ws ++ (record { client = c; at = a } ∷ vs)))
    → FirstClosed k (flags (ws ++ (record { client = c'; at = b } ∷ vs)))
FirstClosed-moved zero ws vs c c' a b keeps p = tt
FirstClosed-moved (suc k) [] vs c c' a b keeps p = (keeps p.0, p.1)
FirstClosed-moved (suc k) (w ∷ ws) vs c c' a b keeps p =
    (p.0, FirstClosed-moved k ws vs c c' a b keeps p.1)

All-moved :
    (ws vs : List Worker) (c c' : Client) (a b : At)
    → (c.closed_once ≡ true → c'.closed_once ≡ true)
    → All (λ x. x ≡ true) (flags (ws ++ (record { client = c; at = a } ∷ vs)))
    → All (λ x. x ≡ true) (flags (ws ++ (record { client = c'; at = b } ∷ vs)))
All-moved [] vs c c' a b keeps p = (keeps p.0, p.1)
All-moved (w ∷ ws) vs c c' a b keeps p = (p.0, All-moved ws vs c c' a b keeps p.1)

ClosedAt-moved :
    (phase : Phase) (ws vs : List Worker) (c c' : Client) (a b : At)
    → (c.closed_once ≡ true → c'.closed_once ≡ true)
    → ClosedAt phase (flags (ws ++ (record { client = c; at = a } ∷ vs)))
    → ClosedAt phase (flags (ws ++ (record { client = c'; at = b } ∷ vs)))
ClosedAt-moved before ws vs c c' a b keeps p = tt
ClosedAt-moved (closing k) ws vs c c' a b keeps p = FirstClosed-moved k ws vs c c' a b keeps p
ClosedAt-moved waiting ws vs c c' a b keeps p = All-moved ws vs c c' a b keeps p
ClosedAt-moved (past ended_by) ws vs c c' a b keeps p = All-moved ws vs c c' a b keeps p

FirstClosed-suc :
    (ws vs : List Worker) (c c' : Client) (a : At)
    → c'.closed_once ≡ true
    → FirstClosed (length ws) (flags (ws ++ (record { client = c; at = a } ∷ vs)))
    → FirstClosed (suc (length ws)) (flags (ws ++ (record { client = c'; at = a } ∷ vs)))
FirstClosed-suc [] vs c c' a e p = (e, tt)
FirstClosed-suc (w ∷ ws) vs c c' a e p = (p.0, FirstClosed-suc ws vs c c' a e p.1)

FirstClosed-All :
    (ws : List Worker) → FirstClosed (length ws) (flags ws) → All (λ b. b ≡ true) (flags ws)
FirstClosed-All [] p = tt
FirstClosed-All (w ∷ ws) p = (p.0, FirstClosed-All ws p.1)

pub record Inv (s : System) : Type 0 where
  pub fits : Fits s.history s.workers
  pub shut : ClosedAt s.phase (flags s.workers)

module _ (env : Env) (fail : Option FailJobHandler) where
  Inv-moved :
      (s : System) (h' : History) (taken' : List ℕ) (ws vs : List Worker) (c : Client) (a b : At)
      → s.workers ≡ ws ++ (record { client = c; at = a } ∷ vs)
      → Inv s
      → (counts h').raised + weight a + (counts s.history).lowered
        ≡ (counts s.history).raised + weight b + (counts h').lowered
      → Inv (record {
        workers = ws ++ (record { client = c; at = b } ∷ vs);
        phase = s.phase;
        taken = taken';
        history = h';
      })
  Inv-moved s h' taken' ws vs c a b e v grown = record {
    fits = Fits-moved s.history h' ws vs c c a b (subst (Fits s.history) e v.fits) grown;
    shut =
        ClosedAt-moved s.phase ws vs c c a b (λ h. h)
          (subst (λ x. ClosedAt s.phase (flags x)) e v.shut);
  }

  pub Step-Inv :
      {accepts : Client → Delivery → Bool} {s t : System}
      → Step env fail accepts s t
      → Inv s
      → Inv t
  unfolding counts
  Step-Inv {accepts} {s} (receives ws vs c d e) v =
      Inv-moved s s.history s.taken ws vs c idle (received d) e v refl
  Step-Inv {accepts} {s} (begins ws vs c d e) v =
      Inv-moved s (begin s.history) s.taken ws vs c (received d) (running d) e v (omega arith)
  Step-Inv {accepts} {s} (finishes ws vs c d ctx o e) v =
      let expired = extract_expired_header c d in
      Inv-moved s (finish env fail c ctx d o s.history)
        (if accepts c d then d.tag ∷ s.taken else s.taken) ws vs c (running d) idle e v
        (ground (arith, counts-settle env fail c d expired o (handled ctx d.body ∷ s.history)))
  Step-Inv {accepts} {s} (ends ws vs c e) v =
      Inv-moved s s.history s.taken ws vs c idle ended e v refl
  Step-Inv {accepts} {s} (shuts p) v = record { fits = v.fits; shut = tt }
  Step-Inv {accepts} {s} (closes ws vs c at p e) v =
      let s' = closed env c s.history in
      let kept = close-counts env (record { client = c; history = s.history }) in
      record {
        fits =
            Fits-moved s.history s'.history ws vs c s'.client at at
              (subst (Fits s.history) e v.fits) (omega (arith, kept.0, kept.1));
        shut = FirstClosed-suc ws vs c s'.client at (closed-IsClosed env c s.history) (
            subst (λ x. ClosedAt (closing (length ws)) (flags x)) e
              (subst (λ x. ClosedAt x (flags s.workers)) p v.shut));
      }
  Step-Inv {accepts} {s} (waits p) v = record {
    fits = v.fits;
    shut = FirstClosed-All s.workers (subst (λ x. ClosedAt x (flags s.workers)) p v.shut);
  }
  Step-Inv {accepts} {s} (finds_idle p i) v = record {
    fits = v.fits;
    shut = subst (λ x. ClosedAt x (flags s.workers)) p v.shut;
  }
  Step-Inv {accepts} {s} (times_out p) v = record {
    fits = v.fits;
    shut = subst (λ x. ClosedAt x (flags s.workers)) p v.shut;
  }
  Step-Inv {accepts} {s} (relinks ws vs c c' at e keeps) v = record {
    fits = Fits-moved s.history s.history ws vs c c' at at (subst (Fits s.history) e v.fits) refl;
    shut =
        ClosedAt-moved s.phase ws vs c c' at at keeps
          (subst (λ x. ClosedAt s.phase (flags x)) e v.shut);
  }
  Step-Inv {accepts} {s} (others x o) v =
      let kept = other-counts x s.history o in
      record { fits = omega (arith, v.fits, kept.0, kept.1); shut = v.shut }
