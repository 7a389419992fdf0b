-- ===== src/Examples/Failed/Store.antt =====
-- examples/failed-jobs/main.go: the store of failed jobs. Its lock makes each method one step.
use go_amqp_adapter.Base.{
  ℕ, suc, ◌<◌, ◌≤◌, ◌≡◌, refl, Option, none, some, List, [], ◌∷◌, ◌++◌, ◌==◌, arith, All,
  if◌then◌else◌,
}
use go_amqp_adapter.Errors.{Format, message}
use go_amqp_adapter.Config.{QueueName, Body, FailedJob}

pub record StoredJob : Type 0 where
  pub id : ℕ
  pub queue : QueueName
  pub body : Body
  pub error : Format

pub record MemoryStore : Type 0 where
  pub next : ℕ
  pub jobs : List StoredJob

abbrev pub empty : MemoryStore
empty = record { next = 0; jobs = [] }

-- `add`: the stored job, and the store. The job's error is never nil.
unfoldable pub add_job : FailedJob → MemoryStore → StoredJob × MemoryStore
add_job job s =
    let item : StoredJob = record {
      id = suc s.next;
      queue = job.queue;
      body = job.body;
      error = message job.error;
    } in
    (item, record { next = suc s.next; jobs = s.jobs ++ (item ∷ []) })

-- `list`
unfoldable pub list_jobs : MemoryStore → List StoredJob
list_jobs s = s.jobs

-- The loop of `take`: the first job with the number, and the others.
unfoldable pub take_from : ℕ → List StoredJob → Option StoredJob × List StoredJob
take_from id [] = (none, [])
take_from id (job ∷ jobs) =
    let (found, rest) = take_from id jobs in
    if job.id == id then (some job, jobs) else (found, job ∷ rest)

-- `take`
unfoldable pub take_job : ℕ → MemoryStore → Option StoredJob × MemoryStore
unfolding take_from
take_job id s = let (found, rest) = take_from id s.jobs in (found, record s { jobs = rest })

-- The numbers rise from one job to the next, and none is above the counter.
abbrev pub Rising : ℕ → List StoredJob → Type 0
Rising low [] = Unit {0}
Rising low (job ∷ jobs) = (low < job.id) × Rising job.id jobs

abbrev pub IsStore : MemoryStore → Type 0
IsStore s = Rising 0 s.jobs × All (λ job. job.id ≤ s.next) s.jobs

-- The abstract view: what is stored under a number.
unfoldable pub find : ℕ → List StoredJob → Option StoredJob
find id [] = none
find id (job ∷ jobs) = let later = find id jobs in if job.id == id then some job else later

find-above : (low id : ℕ) (jobs : List StoredJob) → Rising low jobs → id ≤ low → find id jobs ≡ none
unfolding find
find-above low id [] r h = refl
find-above low id (job ∷ jobs) r h = ground (arith, find-above job.id id jobs r.1)

find-snoc :
    (id : ℕ) (jobs : List StoredJob) (job : StoredJob)
    → All (λ j. j.id < job.id) jobs
    → find id (jobs ++ (job ∷ [])) ≡ (if job.id == id then some job else find id jobs)
unfolding find
find-snoc id [] job below = refl
find-snoc id (j ∷ jobs) job below = ground (arith, find-snoc id jobs job below.1)

Rising-snoc :
    (low : ℕ) (jobs : List StoredJob) (job : StoredJob)
    → Rising low jobs
    → All (λ j. j.id < job.id) jobs
    → low < job.id
    → Rising low (jobs ++ (job ∷ []))
Rising-snoc low [] job r below h = (h, tt)
Rising-snoc low (j ∷ jobs) job r below h = (r.0, Rising-snoc j.id jobs job r.1 below.1 below.0)

All-snoc :
    (n : ℕ) (jobs : List StoredJob) (job : StoredJob)
    → All (λ j. j.id ≤ n) jobs
    → job.id ≡ suc n
    → All (λ j. j.id ≤ suc n) (jobs ++ (job ∷ []))
All-snoc n [] job a e = (omega arith, tt)
All-snoc n (j ∷ jobs) job a e = (omega (arith, a.0), All-snoc n jobs job a.1 e)

All-below :
    (n : ℕ) (jobs : List StoredJob) → All (λ j. j.id ≤ n) jobs → All (λ j. j.id < suc n) jobs
All-below n [] a = tt
All-below n (j ∷ jobs) a = (omega (arith, a.0), All-below n jobs a.1)

Rising-weaken :
    (low high : ℕ) (jobs : List StoredJob) → low ≤ high → Rising high jobs → Rising low jobs
Rising-weaken low high [] h r = tt
Rising-weaken low high (j ∷ jobs) h r = (omega (arith, r.0), r.1)

take_from-Rising :
    (low id : ℕ) (jobs : List StoredJob) → Rising low jobs → Rising low (take_from id jobs).1
unfolding take_from
take_from-Rising low id [] r = tt
take_from-Rising low id (j ∷ jobs) r =
    ground (
      arith,
      take_from-Rising j.id id jobs r.1,
      Rising-weaken low j.id jobs (omega (arith, r.0)) r.1,
    )

take_from-All :
    (n id : ℕ) (jobs : List StoredJob)
    → All (λ j. j.id ≤ n) jobs
    → All (λ j. j.id ≤ n) (take_from id jobs).1
unfolding take_from
take_from-All n id [] a = tt
take_from-All n id (j ∷ jobs) a = ground (arith, take_from-All n id jobs a.1)

-- What is taken is what is found, and the rest is found as before.
take_from-find :
    (low id k : ℕ) (jobs : List StoredJob)
    → Rising low jobs
    → ((take_from id jobs).0 ≡ find id jobs)
      × (find k (take_from id jobs).1 ≡ (if id == k then none else find k jobs))
unfolding take_from find
take_from-find low id k [] r = ground arith
take_from-find low id k (j ∷ jobs) r =
    ground (arith, take_from-find j.id id k jobs r.1, find-above j.id k jobs r.1)

find_fresh : (n : ℕ) (jobs : List StoredJob) → All (λ j. j.id ≤ n) jobs → find (suc n) jobs ≡ none
unfolding find
find_fresh n [] a = refl
find_fresh n (j ∷ jobs) a = ground (arith, find_fresh n jobs a.1)

-- The store as a map. In a store whose numbers rise up to the counter, a job that is added gets a
-- number that was not in use, and the store after it is again such a store, with one entry more.
pub add_job-IsStore :
    (job : FailedJob) (s : MemoryStore) (k : ℕ)
    → IsStore s
    → let (item, s') = add_job job s in
      IsStore s'
      × (find item.id s.jobs ≡ none)
      × (find k s'.jobs ≡ (if item.id == k then some item else find k s.jobs))
unfolding add_job
add_job-IsStore job s k (rising, below) =
    let item = (add_job job s).0 in
    let smaller = All-below s.next s.jobs below in
    (
      (
        Rising-snoc 0 s.jobs item rising smaller (omega arith),
        All-snoc s.next s.jobs item below refl,
      ),
      find_fresh s.next s.jobs below,
      find-snoc k s.jobs item smaller,
    )

-- Taking a number gives what is stored under it, if anything, and removes that and nothing else;
-- and the numbers still rise up to the counter.
pub take_job-IsStore :
    (id k : ℕ) (s : MemoryStore)
    → IsStore s
    → let (found, s') = take_job id s in
      IsStore s'
      × (found ≡ find id s.jobs)
      × (find k s'.jobs ≡ (if id == k then none else find k s.jobs))
unfolding take_job
take_job-IsStore id k s (rising, below) =
    let same = take_from-find 0 id k s.jobs rising in
    ((take_from-Rising 0 id s.jobs rising, take_from-All s.next id s.jobs below), same.0, same.1)
