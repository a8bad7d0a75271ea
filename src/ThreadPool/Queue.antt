-- ===== src/ThreadPool/Queue.antt =====
-- The queue of the pool, and what the steps of `Thread_run` keep of it.
use uvg_torrent.Base.{
  ℕ, ◌≡◌, refl, sym, ap, ◌∙◌, Bool, true, false, none, some, List, [], ◌∷◌, ◌++◌, append_assoc,
}
use uvg_torrent.ThreadPool.{
  Pool, Thread, Job, Mutex, free, by_client, by_thread, Client, outside, leaving, calling, inside,
  stopping, waiting, emptying, dropping, closing, gone, Place, testing, locking, popping, exited,
  unlocking, holding, run_at, test_running, lock, pop, run_job, move,
}
use uvg_torrent.ThreadPool.Steps.{Holds}

cons_not_nil : (job : Job) (jobs : List Job) → job ∷ jobs ≡ [] → ⊥
cons_not_nil job jobs e = cc

-- Behind the destruction of the queue.
abbrev pub has_dropped : Client → Bool
has_dropped outside = false
has_dropped leaving = false
has_dropped (calling job) = false
has_dropped (inside job) = false
has_dropped (stopping i) = false
has_dropped (waiting i) = false
has_dropped emptying = false
has_dropped dropping = false
has_dropped closing = true
has_dropped gone = true

-- The jobs that were taken, then those in the queue, then those destroyed in it are those that were
-- added; a queue that has been destroyed is empty, and only then have jobs been destroyed.
pub record IsQueue (pool : Pool) : Type 0 where
  pub order : pool.taken ++ (pool.jobs ++ pool.dropped) ≡ pool.added
  pub none_dropped : has_dropped pool.client ≡ false → pool.dropped ≡ []
  pub none_left : has_dropped pool.client ≡ true → pool.jobs ≡ []

-- A step that moves no job, and the client only before or only behind the destruction.
pub same_jobs :
    (pool next : Pool)
    → next.taken ≡ pool.taken
    → next.jobs ≡ pool.jobs
    → next.dropped ≡ pool.dropped
    → next.added ≡ pool.added
    → has_dropped next.client ≡ has_dropped pool.client
    → IsQueue pool
    → IsQueue next
same_jobs pool next t j d a c h = record {
  order = rw (t, j, d, a) h.order;
  none_dropped = λ e. d ∙ h.none_dropped (sym c ∙ e);
  none_left = λ e. j ∙ h.none_left (sym c ∙ e);
}

module _ (i : ℕ) (thread : Thread) where
  kept :
      (place : Place) (mutex : Mutex) (done : List Job) (pool : Pool)
      → IsQueue pool
      → IsQueue (record (move i thread place pool) { jobs_mutex = mutex; done = done })
  unfolding move
  kept place mutex done pool h =
      same_jobs pool (record (move i thread place pool) { jobs_mutex = mutex; done = done }) refl
        refl refl refl refl h

  pop-IsQueue : (pool : Pool) → IsQueue pool → IsQueue (pop i thread pool.jobs pool)
  unfolding pop move
  pop-IsQueue pool h = of_jobs pool.jobs refl
    where
      of_jobs : (jobs : List Job) → pool.jobs ≡ jobs → IsQueue (pop i thread jobs pool)
      of_jobs [] e = kept (unlocking none) pool.jobs_mutex pool.done pool h
      of_jobs (job ∷ jobs) e = record {
        order =
            append_assoc pool.taken (job ∷ []) (jobs ++ pool.dropped)
            ∙ ap (λ t. pool.taken ++ (t ++ pool.dropped)) (sym e)
            ∙ h.order;
        none_dropped = h.none_dropped;
        none_left = λ behind. absurd (cons_not_nil job jobs (sym e ∙ h.none_left behind));
      }

  lock-IsQueue :
      (mutex : Mutex) (pool : Pool) → IsQueue pool → Holds IsQueue (lock i thread mutex pool)
  unfolding lock move
  lock-IsQueue free pool h = kept popping (by_thread i) pool.done pool h
  lock-IsQueue by_client pool h = tt
  lock-IsQueue (by_thread j) pool h = tt

  test-IsQueue :
      (going : Bool) (pool : Pool) → IsQueue pool → IsQueue (test_running i thread going pool)
  unfolding test_running
  test-IsQueue true pool h = kept locking pool.jobs_mutex pool.done pool h
  test-IsQueue false pool h = kept exited pool.jobs_mutex pool.done pool h

  pub run_at-IsQueue :
      (place : Place) (pool : Pool) → IsQueue pool → Holds IsQueue (run_at i thread place pool)
  unfolding run_at run_job move
  run_at-IsQueue testing pool h = test-IsQueue thread.running pool h
  run_at-IsQueue locking pool h = lock-IsQueue pool.jobs_mutex pool h
  run_at-IsQueue popping pool h = pop-IsQueue pool h
  run_at-IsQueue (unlocking popped) pool h = kept (holding popped) free pool.done pool h
  run_at-IsQueue (holding none) pool h = kept testing pool.jobs_mutex pool.done pool h
  run_at-IsQueue (holding (some job)) pool h =
      kept testing pool.jobs_mutex (pool.done ++ job ∷ []) pool h
  run_at-IsQueue exited pool h = tt
