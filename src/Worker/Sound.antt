-- ===== src/Worker/Sound.antt =====
-- What holds in every state of the pool that can be reached.
use libmbox.Base.{
  ℕ, zero, suc, ◌+◌, ◌≤◌, ◌<◌, ◌≡◌, refl, ap, subst, ◌∙◌, ◌⊎◌, inl, inr, true, false, List, [], ◌∷◌,
  ◌++◌, Option, none, some, arith, ◌==◌, if◌then◌else◌, Bool-cases, ==→eq,
}
use libmbox.Worker.{
  Phase, waiting, woken, entered, running, finished, Pool, semaphore_signal, semaphore_wait,
  enqueue, dequeue, worker_step, executed, System, Step, submit, work, Steps, stay, step,
  all_waiting, start, wait_done,
}

unfoldable pub count : ℕ → List ℕ → ℕ
count j [] = 0
count j (x ∷ xs) = (if j == x then 1 else 0) + count j xs

count-append : (j : ℕ) (xs ys : List ℕ) → count j (xs ++ ys) ≡ count j xs + count j ys
unfolding count
count-append j [] ys = omega arith
count-append j (x ∷ xs) ys = omega (arith, count-append j xs ys)

unfoldable pub total : (Phase → ℕ) → List Phase → ℕ
total f [] = 0
total f (p ∷ ps) = f p + total f ps

total-append :
    (f : Phase → ℕ) (ws : List Phase) (p : Phase) (vs : List Phase)
    → total f (ws ++ p ∷ vs) ≡ total f ws + f p + total f vs
unfolding total
total-append f [] p vs = omega arith
total-append f (w ∷ ws) p vs = omega (arith, total-append f ws p vs)

-- Is the job in the worker's hand?
unfoldable pub in_hand : ℕ → Phase → ℕ
unfolding executed count
in_hand j p = count j (executed p)

-- Is the worker counted as active?
unfoldable pub is_active : Phase → ℕ
is_active waiting = 0
is_active woken = 0
is_active entered = 1
is_active (running job) = 1
is_active finished = 1

-- Is the worker on its way to the queue?
unfoldable pub is_coming : Phase → ℕ
is_coming waiting = 0
is_coming woken = 1
is_coming entered = 1
is_coming (running job) = 0
is_coming finished = 0

pub record IsSound (s : System) : Type 0 where
  -- Every job is in the queue, in a hand or done, as often as it was submitted.
  pub conserved :
      (j : ℕ)
      → count j s.submitted
        ≡ count j s.pool.jobs + total (in_hand j) s.workers + count j s.completed
  pub counted : s.pool.active_threads ≡ total is_active s.workers
  -- While there are jobs, the semaphore is up or a worker is coming.
  pub awake : (s.pool.jobs ≡ []) ⊎ (0 < s.pool.sem + total is_coming s.workers)

-- What a worker's step from `p` to `p'` does to the three sums.
record IsGood (pool : Pool) (p : Phase) (pool' : Pool) (p' : Phase) : Type 0 where
  same_jobs :
      (j : ℕ)
      → count j pool.jobs + in_hand j p ≡ count j pool'.jobs + in_hand j p' + count j (executed p)
  same_active : pool'.active_threads + is_active p ≡ pool.active_threads + is_active p'
  still :
      (pool'.jobs ≡ [])
      ⊎ ((0 < pool'.sem)
          ⊎ ((pool'.jobs ≡ pool.jobs) × (pool.sem + is_coming p ≤ pool'.sem + is_coming p')))

unfoldable GoodResult : Pool → Phase → Option (Pool × Phase) → Type 0
GoodResult pool p none = Unit {0}
GoodResult pool p (some (pool', p')) = IsGood pool p pool' p'

jobs_cases : (xs : List ℕ) → (xs ≡ []) ⊎ ((x : ℕ) × (rest : List ℕ) × (xs ≡ x ∷ rest))
jobs_cases [] = inl refl
jobs_cases (x ∷ rest) = inr (x, rest, refl)

worker_step-GoodResult :
    (pool : Pool) (p : Phase)
    → is_active p ≤ pool.active_threads
    → GoodResult pool p (worker_step pool p)
unfolding worker_step semaphore_wait dequeue semaphore_signal in_hand executed count is_active
    is_coming GoodResult
worker_step-GoodResult pool waiting le = elim (Bool-cases (pool.sem == 1)) [
  | inl e ↦
      rw (GoodResult, worker_step, semaphore_wait, e)
        (record {
          same_jobs = λ j. omega arith;
          same_active = omega arith;
          still = inr (inr (refl, omega (arith, ==→eq pool.sem 1 e)));
        })
  | inr e ↦ rw (GoodResult, worker_step, semaphore_wait, e) tt
]
worker_step-GoodResult pool woken le = record {
  same_jobs = λ j. omega arith;
  same_active = omega arith;
  still = inr (inr (refl, omega arith));
}
worker_step-GoodResult pool entered le = elim (jobs_cases pool.jobs) [
  | inl e ↦
      rw e (record { same_jobs = λ j. omega arith; same_active = omega arith; still = inl refl })
  | inr (job, rest, e) ↦ rw e (record {
    same_jobs = λ j. omega arith;
    same_active = omega arith;
    still = inr (inl (omega arith));
  })
]
worker_step-GoodResult pool (running job) le = record {
  same_jobs = λ j. omega arith;
  same_active = omega arith;
  still = inr (inr (refl, omega arith));
}
worker_step-GoodResult pool finished le = record {
  same_jobs = λ j. omega arith;
  same_active = omega arith;
  still = inr (inr (refl, omega arith));
}

submit-IsSound :
    (s : System) (job : ℕ)
    → IsSound s
    → IsSound (record s { pool = enqueue s.pool job; submitted = s.submitted ++ job ∷ [] })
unfolding enqueue semaphore_signal count
submit-IsSound s job i = record {
  conserved = λ j. omega (
    arith,
    i.conserved j,
    count-append j s.submitted (job ∷ []),
    count-append j s.pool.jobs (job ∷ []),
  );
  counted = i.counted;
  awake = inr (omega arith);
}

work-IsSound :
    (s : System) (ws vs : List Phase) (p p' : Phase) (pool : Pool)
    → IsSound s
    → s.workers ≡ ws ++ p ∷ vs
    → worker_step s.pool p ≡ some (pool, p')
    → IsSound
        (record s { pool = pool; workers = ws ++ p' ∷ vs; completed = s.completed ++ executed p })
unfolding GoodResult in_hand
work-IsSound s ws vs p p' pool i here run =
    let old : (f : Phase → ℕ) → total f s.workers ≡ total f ws + f p + total f vs =
      λ f. ap (total f) here ∙ total-append f ws p vs in
    let le : is_active p ≤ s.pool.active_threads = omega (arith, i.counted, old is_active) in
    let good : IsGood s.pool p pool p' =
      subst (GoodResult s.pool p) run (worker_step-GoodResult s.pool p le) in
    record {
      conserved = λ j. omega (
        arith,
        i.conserved j,
        good.same_jobs j,
        old (in_hand j),
        total-append (in_hand j) ws p' vs,
        count-append j s.completed (executed p),
      );
      counted =
          omega
            (arith, i.counted, good.same_active, old is_active, total-append is_active ws p' vs);
      awake = elim good.still [
        | inl e ↦ inl e
        | inr (inl up) ↦ inr (omega arith)
        | inr (inr (same, le)) ↦ elim i.awake [
          | inl e ↦ inl (same ∙ e)
          | inr up ↦ inr (omega (arith, old is_coming, total-append is_coming ws p' vs))
        ]
      ];
    }

total-all_waiting : (f : Phase → ℕ) → f waiting ≡ 0 → (n : ℕ) → total f (all_waiting n) ≡ 0
unfolding total all_waiting
total-all_waiting f e zero = refl
total-all_waiting f e (suc n) = omega (arith, e, total-all_waiting f e n)

start-IsSound : (n : ℕ) → IsSound (start n)
unfolding start count in_hand executed is_active
start-IsSound n = record {
  conserved = λ j. omega (arith, total-all_waiting (in_hand j) refl n);
  counted = omega (arith, total-all_waiting is_active refl n);
  awake = inl refl;
}

Step-IsSound : (s t : System) → Step s t → IsSound s → IsSound t
Step-IsSound s _ (submit _ job) i = submit-IsSound s job i
Step-IsSound s _ (work _ ws vs p p' pool here run) i = work-IsSound s ws vs p p' pool i here run

Steps-IsSound : (s t : System) → Steps s t → IsSound s → IsSound t
Steps-IsSound s _ stay i = i
Steps-IsSound s _ (step t u before last) i = Step-IsSound t u last (Steps-IsSound s t before i)

-- In every state that the pool reaches from its start, each job is in the queue, in the hand of a
-- worker or done, as often as it was submitted; `active_threads` counts the active workers; and
-- while there are jobs, the semaphore is up or a worker is on its way to the queue.
pub reachable-IsSound : (n : ℕ) (s : System) → Steps (start n) s → IsSound s
reachable-IsSound n s steps = Steps-IsSound (start n) s steps (start-IsSound n)

total-le : (j : ℕ) (ws : List Phase) → total is_active ws ≡ 0 → total (in_hand j) ws ≡ 0
unfolding total is_active in_hand executed count
total-le j [] e = refl
total-le j (waiting ∷ ws) e = omega (arith, total-le j ws (omega arith))
total-le j (woken ∷ ws) e = omega (arith, total-le j ws (omega arith))
total-le j (entered ∷ ws) e = absurd (omega arith)
total-le j (running job ∷ ws) e = absurd (omega arith)
total-le j (finished ∷ ws) e = absurd (omega arith)

at_rest : (pool : Pool) → wait_done pool ≡ true → (pool.jobs ≡ []) × (pool.active_threads ≡ 0)
unfolding wait_done
at_rest pool done = elim (jobs_cases pool.jobs) [
  | inl e ↦ (e, ==→eq pool.active_threads 0 (rw (← done, wait_done, e) refl))
  | inr (x, rest, e) ↦
      let busy : wait_done pool ≡ false = rw (wait_done, e) refl in absurd (cc (busy, done))
]

-- In every state that the pool reaches from its start and on which `mboxWorkerPoolWait` returns,
-- every job has run as often as it was submitted.
pub wait_done-completed :
    (n : ℕ) (s : System)
    → Steps (start n) s
    → wait_done s.pool ≡ true
    → (j : ℕ) → count j s.submitted ≡ count j s.completed
unfolding wait_done count
wait_done-completed n s steps done j =
    let i = reachable-IsSound n s steps in
    let (empty, idle) = at_rest s.pool done in
    let free = total-le j s.workers (omega (arith, i.counted)) in
    let none_queued : count j s.pool.jobs ≡ 0 = ap (count j) empty in omega (arith, i.conserved j)
