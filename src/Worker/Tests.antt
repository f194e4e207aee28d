-- ===== src/Worker/Tests.antt =====
-- A pool of one worker that runs one job, and the theorems about it.
use libmbox.Base.{ℕ, ◌≡◌, refl, List, [], ◌∷◌}
use libmbox.Worker.{
  Phase, waiting, woken, entered, running, finished, System, submit, work, Steps, stay, step, start,
  all_waiting, worker_step, semaphore_wait, semaphore_signal, dequeue, enqueue, executed, wait_done,
}
use libmbox.Worker.Sound.{IsSound, reachable-IsSound, wait_done-completed, count}

-- The states on the way: job 7 is submitted; the worker passes the semaphore, is counted, takes the
-- job, runs it, and is counted off.
abbrev at : List ℕ → ℕ → ℕ → Phase → List ℕ → System
at jobs sem active p done = record {
  pool = record { jobs = jobs; sem = sem; active_threads = active };
  workers = p ∷ [];
  submitted = 7 ∷ [];
  completed = done;
}

one_job : Steps (start 1) (at [] 1 0 waiting (7 ∷ []))
unfolding start all_waiting enqueue dequeue semaphore_signal semaphore_wait worker_step executed
one_job =
    let s1 = at (7 ∷ []) 1 0 waiting [] in
    let s2 = at (7 ∷ []) 0 0 woken [] in
    let s3 = at (7 ∷ []) 0 1 entered [] in
    let s4 = at [] 1 1 (running 7) [] in
    let s5 = at [] 1 1 finished (7 ∷ []) in
    let s6 = at [] 1 0 waiting (7 ∷ []) in
    step s5 s6
      (step s4 s5
        (step s3 s4
          (step s2 s3
            (step s1 s2 (step (start 1) s1 stay (submit (start 1) 7))
              (work s1 [] [] waiting woken s2.pool refl refl))
            (work s2 [] [] woken entered s3.pool refl refl))
          (work s3 [] [] entered (running 7) s4.pool refl refl))
        (work s4 [] [] (running 7) finished s5.pool refl refl))
      (work s5 [] [] finished waiting s6.pool refl refl)

reachable-IsSound_example : IsSound (at [] 1 0 waiting (7 ∷ []))
reachable-IsSound_example = reachable-IsSound 1 (at [] 1 0 waiting (7 ∷ [])) one_job

wait_done-completed_example : count 7 (7 ∷ []) ≡ count 7 (7 ∷ [])
unfolding wait_done
wait_done-completed_example = wait_done-completed 1 (at [] 1 0 waiting (7 ∷ [])) one_job refl 7
