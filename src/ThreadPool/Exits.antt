-- ===== src/ThreadPool/Exits.antt =====
-- The exits that `Thread_Pool_destroy` has seen, and what the steps of `Thread_run` and
-- `Thread_Pool_add_job` keep of them.
use uvg_torrent.Base.{
  ℕ, ◌≡◌, ◌<◌, sym, ap, ◌∙◌, Bool, true, false, none, some, List, [], ◌∷◌, ◌++◌, get_elem?, inl,
  inr, eq_of_==,
}
use uvg_torrent.ThreadPool.{
  Pool, Thread, Job, Mutex, free, by_client, by_thread, Client, outside, leaving, calling, inside,
  stopping, waiting, emptying, dropping, closing, gone, Place, testing, locking, popping, exited,
  unlocking, holding, run_at, test_running, lock, pop, run_job, move, add_job, lock_client,
}
use uvg_torrent.ThreadPool.Steps.{Holds}
use uvg_torrent.ThreadPool.Section.{get-put}

-- The client has seen the exit of the `j`-th thread.
abbrev pub HasSeen : Client → ℕ → Type 0
HasSeen outside j = ⊥
HasSeen leaving j = ⊥
HasSeen (calling job) j = ⊥
HasSeen (inside job) j = ⊥
HasSeen (stopping i) j = j < i
HasSeen (waiting i) j = j < i
HasSeen emptying j = Unit
HasSeen dropping j = Unit
HasSeen closing j = Unit
HasSeen gone j = Unit

pub record IsEnding (pool : Pool) : Type 0 where
  pub seen :
      (j : ℕ) (t : Thread)
      → get_elem? pool.threads j ≡ some t
      → HasSeen pool.client j
      → t.place ≡ exited

abbrev is_exited : Place → Bool
is_exited testing = false
is_exited locking = false
is_exited popping = false
is_exited (unlocking popped) = false
is_exited (holding popped) = false
is_exited exited = true

module _ (i : ℕ) (thread : Thread) where
  -- A thread that still moves has not been seen to exit.
  moved-IsEnding :
      (place : Place) (mutex : Mutex) (jobs taken done : List Job) (pool : Pool)
      → get_elem? pool.threads i ≡ some thread
      → is_exited thread.place ≡ false
      → IsEnding pool
      → IsEnding (record (move i thread place pool) {
        jobs_mutex = mutex;
        jobs = jobs;
        taken = taken;
        done = done;
      })
  unfolding move
  moved-IsEnding place mutex jobs taken done pool found at h = record {
    seen = λ j t got seen. elim (get-put i j pool.threads (record thread { place = place }) t got) [
      | inl (same, e) ↦ absurd (still_there j (eq_of_== j i same) seen)
      | inr (other, old) ↦ h.seen j t old seen
    ];
  }
    where
      still_there : (j : ℕ) → j ≡ i → HasSeen pool.client j → ⊥
      still_there j e seen =
          let out : thread.place ≡ exited =
            h.seen j thread (ap (get_elem? pool.threads) e ∙ found) seen in
          let no : false ≡ true = sym at ∙ ap is_exited out in cc

  lock-IsEnding :
      (mutex : Mutex) (pool : Pool)
      → get_elem? pool.threads i ≡ some thread
      → is_exited thread.place ≡ false
      → IsEnding pool
      → Holds IsEnding (lock i thread mutex pool)
  unfolding lock
  lock-IsEnding free pool found at h =
      moved-IsEnding popping (by_thread i) pool.jobs pool.taken pool.done pool found at h
  lock-IsEnding by_client pool found at h = tt
  lock-IsEnding (by_thread j) pool found at h = tt

  pop-IsEnding :
      (jobs : List Job) (pool : Pool)
      → get_elem? pool.threads i ≡ some thread
      → is_exited thread.place ≡ false
      → IsEnding pool
      → IsEnding (pop i thread jobs pool)
  unfolding pop
  pop-IsEnding [] pool found at h =
      moved-IsEnding (unlocking none) pool.jobs_mutex pool.jobs pool.taken pool.done pool found at h
  pop-IsEnding (job ∷ jobs) pool found at h =
      moved-IsEnding (unlocking (some job)) pool.jobs_mutex jobs (pool.taken ++ job ∷ []) pool.done
        pool found at h

  test-IsEnding :
      (going : Bool) (pool : Pool)
      → get_elem? pool.threads i ≡ some thread
      → is_exited thread.place ≡ false
      → IsEnding pool
      → IsEnding (test_running i thread going pool)
  unfolding test_running
  test-IsEnding true pool found at h =
      moved-IsEnding locking pool.jobs_mutex pool.jobs pool.taken pool.done pool found at h
  test-IsEnding false pool found at h =
      moved-IsEnding exited pool.jobs_mutex pool.jobs pool.taken pool.done pool found at h

  pub run_at-IsEnding :
      (place : Place) (pool : Pool)
      → get_elem? pool.threads i ≡ some thread
      → is_exited thread.place ≡ is_exited place
      → IsEnding pool
      → Holds IsEnding (run_at i thread place pool)
  unfolding run_at run_job
  run_at-IsEnding testing pool found at h = test-IsEnding thread.running pool found at h
  run_at-IsEnding locking pool found at h = lock-IsEnding pool.jobs_mutex pool found at h
  run_at-IsEnding popping pool found at h = pop-IsEnding pool.jobs pool found at h
  run_at-IsEnding (unlocking popped) pool found at h =
      moved-IsEnding (holding popped) free pool.jobs pool.taken pool.done pool found at h
  run_at-IsEnding (holding none) pool found at h =
      moved-IsEnding testing pool.jobs_mutex pool.jobs pool.taken pool.done pool found at h
  run_at-IsEnding (holding (some job)) pool found at h =
      moved-IsEnding testing pool.jobs_mutex pool.jobs pool.taken (pool.done ++ job ∷ []) pool found
        at h
  run_at-IsEnding exited pool found at h = tt

-- A step of `Thread_Pool_add_job`, in front of which no exit has been seen.
lock_client-IsEnding :
    (job : Job) (mutex : Mutex) (pool : Pool) → Holds IsEnding (lock_client job mutex pool)
unfolding lock_client
lock_client-IsEnding job free pool = record { seen = λ j t got seen. absurd seen }
lock_client-IsEnding job by_client pool = tt
lock_client-IsEnding job (by_thread i) pool = tt

pub add_job-IsEnding :
    (job : Job) (client : Client) (pool : Pool) → Holds IsEnding (add_job job client pool)
unfolding add_job
add_job-IsEnding job outside pool = record { seen = λ j t got seen. absurd seen }
add_job-IsEnding job (calling job') pool = lock_client-IsEnding job' pool.jobs_mutex pool
add_job-IsEnding job (inside job') pool = record { seen = λ j t got seen. absurd seen }
add_job-IsEnding job leaving pool = record { seen = λ j t got seen. absurd seen }
add_job-IsEnding job (stopping i) pool = tt
add_job-IsEnding job (waiting i) pool = tt
add_job-IsEnding job emptying pool = tt
add_job-IsEnding job dropping pool = tt
add_job-IsEnding job closing pool = tt
add_job-IsEnding job gone pool = tt
