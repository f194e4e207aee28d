-- ===== src/Worker.antt =====
-- src/mbox-worker.c: the pool of worker threads, its queue and its binary semaphore. Each section
-- that a mutex guards is one step; jobs are numbered.
pub mod Sound
mod Tests
use libmbox.Base.{
  ℕ, zero, suc, ◌+◌, ◌-◌, ◌≡◌, Bool, true, false, List, [], ◌∷◌, ◌++◌, Option, none, some, ◌==◌,
  if◌then◌else◌,
}

-- Where a worker stands in the loop of `mboxWorkerPoolMain`: before the semaphore, behind it,
-- counted as active, with a job in hand, and with nothing left to do but to be counted off.
pub data Phase : Type 0 where
  waiting woken entered : Phase
  running : ℕ → Phase
  finished : Phase

-- `struct mboxWorkerPool`, as far as the workers use it.
pub record Pool : Type 0 where
  pub jobs : List ℕ
  pub sem : ℕ
  pub active_threads : ℕ

unfoldable pub semaphore_signal : Pool → Pool
semaphore_signal pool = record pool { sem = 1 }

-- `none`: the thread waits for the condition.
unfoldable pub semaphore_wait : Pool → Option Pool
semaphore_wait pool = if pool.sem == 1 then some (record pool { sem = 0 }) else none

unfoldable pub enqueue : Pool → ℕ → Pool
unfolding semaphore_signal
enqueue pool job = semaphore_signal (record pool { jobs = pool.jobs ++ job ∷ [] })

unfoldable pub dequeue : Pool → Option ℕ × Pool
unfolding semaphore_signal
dequeue pool = elim pool.jobs [
  | [] ↦ (none, pool)
  | job ∷ rest ↦ (some job, semaphore_signal (record pool { jobs = rest }))
]

-- One step of a worker.
unfoldable pub worker_step : Pool → Phase → Option (Pool × Phase)
unfolding semaphore_wait dequeue
worker_step pool waiting = elim (semaphore_wait pool) [
  | none ↦ none
  | some pool' ↦ some (pool', woken)
]
worker_step pool woken = some (record pool { active_threads = pool.active_threads + 1 }, entered)
worker_step pool entered =
    let (job, pool') = dequeue pool in
    some (pool', elim job [ none ↦ finished | some j ↦ running j ])
worker_step pool (running job) = some (pool, finished)
worker_step pool finished = some (record pool { active_threads = pool.active_threads - 1 }, waiting)

-- The condition on which `mboxWorkerPoolWait` returns; its two reads are one step here.
unfoldable pub wait_done : Pool → Bool
wait_done pool = elim pool.jobs [ [] ↦ pool.active_threads == 0 | _ ∷ _ ↦ false ]

-- The job whose callback a step of the worker runs.
unfoldable pub executed : Phase → List ℕ
executed waiting = []
executed woken = []
executed entered = []
executed (running job) = job ∷ []
executed finished = []

-- The pool, its workers, and which jobs have been submitted and run.
pub record System : Type 0 where
  pub pool : Pool
  pub workers : List Phase
  pub submitted : List ℕ
  pub completed : List ℕ

-- Any thread submits a job, or any worker that does not wait makes its step.
pub data Step : System → System → Type 0 where
  submit :
      (s : System) (job : ℕ)
      → Step s (record s { pool = enqueue s.pool job; submitted = s.submitted ++ job ∷ [] })
  work :
      (s : System) (ws vs : List Phase) (p p' : Phase) (pool : Pool)
      → s.workers ≡ ws ++ p ∷ vs
      → worker_step s.pool p ≡ some (pool, p')
      → Step s
          (record s { pool = pool; workers = ws ++ p' ∷ vs; completed = s.completed ++ executed p })

pub data Steps (s : System) : System → Type 0 where
  stay : Steps s s
  step : (t u : System) → Steps s t → Step t u → Steps s u

unfoldable pub all_waiting : ℕ → List Phase
all_waiting zero = []
all_waiting (suc n) = waiting ∷ all_waiting n

-- `mboxWorkerPoolNew`, once the workers have been started.
unfoldable pub start : ℕ → System
start worker_count = record {
  pool = record { jobs = []; sem = 0; active_threads = 0 };
  workers = all_waiting worker_count;
  submitted = [];
  completed = [];
}
