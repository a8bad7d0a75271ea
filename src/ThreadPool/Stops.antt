-- ===== src/ThreadPool/Stops.antt =====
-- A thread that was told to stop does so.
use uvg_torrent.Base.{
  ℕ, suc, ◌≡◌, refl, ap, ◌∙◌, false, Option, none, some, List, [], ◌∷◌, ◌++◌, get_elem?,
}
use uvg_torrent.ThreadPool.{
  Pool, Thread, Job, Mutex, free, by_thread, Place, testing, locking, popping, exited, unlocking,
  holding, run_at, test_running, lock, pop, run_job, move, put,
}
use uvg_torrent.ThreadPool.Drain.{Runs, rest, more, run_found, get-put_same}

abbrev pub stopped : ℕ → Place → Thread
stopped id place = record { id = id; running = false; place = place }

-- After `n` steps the thread has left its loop.
abbrev pub Exited : ℕ → ℕ → ℕ → Pool → Type 0
Exited i id n pool =
    (last : Pool) × Runs i n pool last × (get_elem? last.threads i ≡ some (stopped id exited))

-- What the mutex is when a thread that stands there runs alone.
abbrev pub mutex_at : ℕ → Place → Mutex
mutex_at i testing = free
mutex_at i locking = free
mutex_at i exited = free
mutex_at i popping = by_thread i
mutex_at i (unlocking popped) = by_thread i
mutex_at i (holding popped) = free

abbrev pub steps_left : Place → ℕ
steps_left testing = 1
steps_left locking = 5
steps_left popping = 4
steps_left (unlocking popped) = 3
steps_left (holding popped) = 2
steps_left exited = 0

module _ (i id : ℕ) where
  Leaves : Place → Type 0
  Leaves place =
      (pool : Pool)
      → get_elem? pool.threads i ≡ some (stopped id place)
      → pool.jobs_mutex ≡ mutex_at i place
      → Exited i id (steps_left place) pool

  -- A step to a place from which the thread leaves.
  step_to :
      (place : Place) (n : ℕ) (pool next : Pool)
      → run_at i (stopped id place) place pool ≡ some next
      → get_elem? pool.threads i ≡ some (stopped id place)
      → Exited i id n next
      → Exited i id (suc n) pool
  step_to place n pool next moved found (last, runs, out) =
      (last, more (run_found i (stopped id place) pool found ∙ moved) runs, out)

  found_after :
      (place place' : Place) (pool : Pool)
      → get_elem? pool.threads i ≡ some (stopped id place)
      → get_elem? (put i (stopped id place') pool.threads) i ≡ some (stopped id place')
  found_after place place' pool found =
      get-put_same i (stopped id place) (stopped id place') pool.threads found

  testing-Leaves : Leaves testing
  unfolding Leaves run_at test_running move
  testing-Leaves pool found unlocked =
      let next : Pool = record pool { threads = put i (stopped id exited) pool.threads } in
      step_to testing 0 pool next refl found (next, rest, found_after testing exited pool found)

  holding-Leaves : (popped : Option Job) → Leaves (holding popped)
  unfolding Leaves run_at run_job move
  holding-Leaves none pool found unlocked =
      let next : Pool = record pool { threads = put i (stopped id testing) pool.threads } in
      step_to (holding none) 1 pool next refl found
        (testing-Leaves next (found_after (holding none) testing pool found) unlocked)
  holding-Leaves (some job) pool found unlocked =
      let next : Pool = record pool {
        threads = put i (stopped id testing) pool.threads;
        done = pool.done ++ job ∷ [];
      } in
      step_to (holding (some job)) 1 pool next refl found
        (testing-Leaves next (found_after (holding (some job)) testing pool found) unlocked)

  unlocking-Leaves : (popped : Option Job) → Leaves (unlocking popped)
  unfolding Leaves run_at move
  unlocking-Leaves popped pool found locked =
      let next : Pool = record pool {
        threads = put i (stopped id (holding popped)) pool.threads;
        jobs_mutex = free;
      } in
      step_to (unlocking popped) 2 pool next refl found (
        holding-Leaves popped next (found_after (unlocking popped) (holding popped) pool found)
          refl)

  popping-Leaves : Leaves popping
  unfolding Leaves run_at pop move
  popping-Leaves pool found locked = of_jobs pool.jobs refl
    where
      of_jobs : (jobs : List Job) → pool.jobs ≡ jobs → Exited i id 4 pool
      of_jobs [] e =
          let next : Pool = record pool {
            threads = put i (stopped id (unlocking none)) pool.threads;
          } in
          step_to popping 3 pool next (ap (λ js. some (pop i (stopped id popping) js pool)) e) found
            (unlocking-Leaves none next (found_after popping (unlocking none) pool found) locked)
      of_jobs (job ∷ jobs) e =
          let next : Pool = record pool {
            threads = put i (stopped id (unlocking (some job))) pool.threads;
            jobs = jobs;
            taken = pool.taken ++ job ∷ [];
          } in
          step_to popping 3 pool next (ap (λ js. some (pop i (stopped id popping) js pool)) e) found
            (unlocking-Leaves (some job) next
              (found_after popping (unlocking (some job)) pool found) locked)

  locking-Leaves : Leaves locking
  unfolding Leaves run_at lock move
  locking-Leaves pool found unlocked =
      let next : Pool = record pool {
        threads = put i (stopped id popping) pool.threads;
        jobs_mutex = by_thread i;
      } in
      step_to locking 4 pool next (ap (λ m. lock i (stopped id locking) m pool) unlocked) found
        (popping-Leaves next (found_after locking popping pool found) refl)

  place-Leaves : (place : Place) → Leaves place
  unfolding Leaves
  place-Leaves testing = testing-Leaves
  place-Leaves locking = locking-Leaves
  place-Leaves popping = popping-Leaves
  place-Leaves (unlocking popped) = unlocking-Leaves popped
  place-Leaves (holding popped) = holding-Leaves popped
  place-Leaves exited = λ pool found unlocked. (pool, rest, found)

-- A thread that was told to stop leaves its loop: scheduled alone, with the mutex its own between the
-- lock and the unlock and free elsewhere, it is never blocked, and after the steps that are left, five
-- at most, it has returned from `Thread_run`, wherever it stood.
pub stopped-Exited :
    (i id : ℕ) (place : Place) (pool : Pool)
    → get_elem? pool.threads i ≡ some (stopped id place)
    → pool.jobs_mutex ≡ mutex_at i place
    → Exited i id (steps_left place) pool
unfolding Leaves
stopped-Exited i id place pool found mutex = place-Leaves i id place pool found mutex
