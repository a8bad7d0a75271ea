-- ===== src/ThreadPool/Account.antt =====
-- Every job that was taken is run once, or still in the hands of a thread.
use uvg_torrent.Base.{
  ℕ, zero, suc, ◌+◌, ◌≡◌, refl, ap, Bool, false, Option, none, some, List, [], ◌∷◌, ◌++◌, get_elem?,
  arith, true,
}
use uvg_torrent.ThreadPool.{
  Pool, Thread, Job, Mutex, free, by_client, by_thread, Client, outside, leaving, calling, inside,
  stopping, waiting, emptying, dropping, closing, gone, Place, testing, locking, popping, exited,
  unlocking, holding, add_job, lock_client, stop, await, await_exit, lock_destroy, destroy, init,
  start_threads, thread_init, Reachable,
}
use uvg_torrent.ThreadPool.Fifo.{reachable-IsQueue}
use uvg_torrent.ThreadPool.Steps.{Holds, reachable_keeps}
use uvg_torrent.ThreadPool.Count.{
  count, in_hands, count-append, in_hands-append, in_hands-put, IsCounted, run_at-IsCounted,
}

module _ (p : Job → Bool) where
  lock_client-IsCounted :
      (job : Job) (mutex : Mutex) (pool : Pool)
      → IsCounted p pool
      → Holds (IsCounted p) (lock_client job mutex pool)
  unfolding lock_client
  lock_client-IsCounted job free pool h = record { sum = h.sum }
  lock_client-IsCounted job by_client pool h = tt
  lock_client-IsCounted job (by_thread i) pool h = tt

  add_job-IsCounted :
      (job : Job) (client : Client) (pool : Pool)
      → IsCounted p pool
      → Holds (IsCounted p) (add_job job client pool)
  unfolding add_job
  add_job-IsCounted job outside pool h = record { sum = h.sum }
  add_job-IsCounted job (calling job') pool h = lock_client-IsCounted job' pool.jobs_mutex pool h
  add_job-IsCounted job (inside job') pool h = record { sum = h.sum }
  add_job-IsCounted job leaving pool h = record { sum = h.sum }
  add_job-IsCounted job (stopping i) pool h = tt
  add_job-IsCounted job (waiting i) pool h = tt
  add_job-IsCounted job emptying pool h = tt
  add_job-IsCounted job dropping pool h = tt
  add_job-IsCounted job closing pool h = tt
  add_job-IsCounted job gone pool h = tt

  stop-IsCounted :
      (i : ℕ) (found : Option Thread) (pool : Pool)
      → get_elem? pool.threads i ≡ found
      → IsCounted p pool
      → IsCounted p (stop i found pool)
  unfolding stop
  stop-IsCounted i none pool found h = record { sum = h.sum }
  stop-IsCounted i (some thread) pool found h = record {
    sum = omega (
      arith,
      in_hands-put p i thread (record thread { running = false }) pool.threads found,
      h.sum,
    );
  }

  await_exit-IsCounted :
      (i : ℕ) (place : Place) (ended : Bool) (pool : Pool)
      → IsCounted p pool
      → Holds (IsCounted p) (await_exit i place ended pool)
  unfolding await_exit
  await_exit-IsCounted i exited true pool h = record { sum = h.sum }
  await_exit-IsCounted i exited false pool h = tt
  await_exit-IsCounted i testing ended pool h = tt
  await_exit-IsCounted i locking ended pool h = tt
  await_exit-IsCounted i popping ended pool h = tt
  await_exit-IsCounted i (unlocking popped) ended pool h = tt
  await_exit-IsCounted i (holding popped) ended pool h = tt

  await-IsCounted :
      (i : ℕ) (found : Option Thread) (ended : Bool) (pool : Pool)
      → IsCounted p pool
      → Holds (IsCounted p) (await i found ended pool)
  unfolding await
  await-IsCounted i none ended pool h = tt
  await-IsCounted i (some thread) ended pool h = await_exit-IsCounted i thread.place ended pool h

  lock_destroy-IsCounted :
      (mutex : Mutex) (pool : Pool)
      → IsCounted p pool
      → Holds (IsCounted p) (lock_destroy mutex pool)
  unfolding lock_destroy
  lock_destroy-IsCounted free pool h = record { sum = h.sum }
  lock_destroy-IsCounted by_client pool h = tt
  lock_destroy-IsCounted (by_thread i) pool h = tt

  destroy-IsCounted :
      (ended : Bool) (client : Client) (pool : Pool)
      → IsCounted p pool
      → Holds (IsCounted p) (destroy ended client pool)
  unfolding destroy
  destroy-IsCounted ended outside pool h = record { sum = h.sum }
  destroy-IsCounted ended (stopping i) pool h =
      stop-IsCounted i (get_elem? pool.threads i) pool refl h
  destroy-IsCounted ended (waiting i) pool h =
      await-IsCounted i (get_elem? pool.threads i) ended pool h
  destroy-IsCounted ended emptying pool h = lock_destroy-IsCounted pool.jobs_mutex pool h
  destroy-IsCounted ended dropping pool h = record { sum = h.sum }
  destroy-IsCounted ended closing pool h = record { sum = h.sum }
  destroy-IsCounted ended gone pool h = tt
  destroy-IsCounted ended leaving pool h = tt
  destroy-IsCounted ended (calling job) pool h = tt
  destroy-IsCounted ended (inside job) pool h = tt

  in_hands-start_threads :
      (n k : ℕ) (ts : List Thread) → in_hands p (start_threads n k ts) ≡ in_hands p ts
  unfolding start_threads thread_init
  in_hands-start_threads zero k ts = refl
  in_hands-start_threads (suc n) k ts = omega (
    arith,
    in_hands-start_threads n (k + 1) (ts ++ thread_init k ∷ []),
    in_hands-append p ts (thread_init k ∷ []),
  )

  reachable-IsCounted : (n : ℕ) (pool : Pool) → Reachable n pool → IsCounted p pool
  unfolding init
  reachable-IsCounted n pool reached =
      reachable_keeps (IsCounted p)
        (λ i thread q found h. run_at-IsCounted p i thread thread.place q found refl h)
        (λ job q h. add_job-IsCounted job q.client q h)
        (λ ended q h. destroy-IsCounted ended q.client q h) n
        (record { sum = omega (arith, in_hands-start_threads n 0 []) }) reached

-- In every reachable state each job stands where it should as often as it was added: the jobs that
-- have been run, those in the hands of threads, those in the queue and those that were destroyed in
-- it are together the jobs that were added, for the count of any kind `p` of jobs.
pub jobs_accounted :
    (p : Job → Bool) (n : ℕ) (pool : Pool)
    → Reachable n pool
    → count p pool.done + in_hands p pool.threads + count p pool.jobs + count p pool.dropped
      ≡ count p pool.added
jobs_accounted p n pool reached =
    let h = reachable-IsCounted p n pool reached in
    let q = reachable-IsQueue n pool reached in
    omega (
      arith,
      h.sum,
      count-append p pool.taken (pool.jobs ++ pool.dropped),
      count-append p pool.jobs pool.dropped,
      ap (count p) q.order,
    )
