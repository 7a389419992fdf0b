-- ===== src/Examples/Failed/Republished.antt =====
-- examples/failed-jobs/main.go: what `republish` and the route `POST /retry` do to the stored jobs.
use go_amqp_adapter.Base.{
  ℕ, ◌≡◌, subst, ◌≢◌, refl, Option, none, some, List, ◌==◌, arith, length, if◌then◌else◌,
}
use go_amqp_adapter.Errors.{err, foreign}
use go_amqp_adapter.Config.{Context, Body}
use go_amqp_adapter.Broker.{Env}
use go_amqp_adapter.Client.Push.{Ready, Round, Push, finished}
use go_amqp_adapter.Store.{World}
use go_amqp_adapter.Store.Publish.{publish}
use go_amqp_adapter.Examples.{with_body}
use go_amqp_adapter.Examples.Failed.{republish}
use go_amqp_adapter.Examples.Failed.Store.{
  StoredJob, MemoryStore, IsStore, find, take_job, take_job-IsStore,
}

-- The body that goes out: the new one, or that of the job if the new one is empty.
abbrev pub body_of : StoredJob → Body → Body
body_of job new_body = if length new_body == 0 then job.body else new_body

module _ (env : Env) (ctx : Context) (ready : Ready) (rounds : List Round) (w : World) where
  -- What `republish` does to a store of which one number is looked up.
  abbrev pub Republished :
      ℕ → Body → MemoryStore → Option StoredJob → Push × MemoryStore × World → Type 0
  Republished id new_body s none (p, s', w') =
      (p ≡ finished (err (foreign "failed job not found")))
      × (w' ≡ w)
      × ((k : ℕ) → find k s'.jobs ≡ find k s.jobs)
  Republished id new_body s (some job) (p, s', w') =
      ((p, w') ≡ publish env ctx job.queue (with_body (body_of job new_body)) ready rounds w)
      × (find id s'.jobs ≡ none)
      × ((k : ℕ) → k ≢ id → find k s'.jobs ≡ find k s.jobs)

  -- `republish` after `take`.
  Republished-of :
      (id : ℕ) (new_body : Body) (s s' : MemoryStore) (found : Option StoredJob)
      → found ≡ find id s.jobs
      → ((k : ℕ) → find k s'.jobs ≡ (if id == k then none else find k s.jobs))
      → Republished id new_body s found (elim found [
        | none ↦ (finished (err (foreign "failed job not found")), s', w)
        | some job ↦
            let (p, w') =
              publish env ctx job.queue (with_body (body_of job new_body)) ready rounds w in
            (p, s', w')
      ])
  Republished-of id new_body s s' none e rest = (refl, refl, λ k. ground (arith, e, rest k))
  Republished-of id new_body s s' (some job) e rest =
      (refl, ground (arith, rest id), λ k other. ground (arith, rest k, other))

  -- In a store whose numbers rise up to the counter: a job that is not stored gives the error for
  -- that, and nothing happens. One that is stored is published to its queue, with the new body if
  -- that is not empty, and the result is that of `Publish`; and whatever that is, a failure
  -- included, the job is no longer in the store, and the others are.
  pub republish-Republished :
      (id : ℕ) (new_body : Body) (s : MemoryStore)
      → IsStore s
      → Republished id new_body s (find id s.jobs) (republish env ctx ready rounds id new_body s w)
  unfolding republish
  republish-Republished id new_body s valid =
      let (found, s') = take_job id s in
      let same = (take_job-IsStore id id s valid).1 in
      subst (λ x. Republished id new_body s x (republish env ctx ready rounds id new_body s w)) same
        (Republished-of id new_body s s' found same (λ k. (take_job-IsStore id k s valid).2))
