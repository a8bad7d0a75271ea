-- ===== src/ThreadPool/Section/Runs.antt =====
-- What the steps of `Thread_run` keep of the mutex.
use uvg_torrent.Base.{
  ℕ, ◌≡◌, refl, sym, ap, ◌∙◌, Bool, true, false, Option, none, some, List, [], ◌∷◌, ==_self,
}
use uvg_torrent.ThreadPool.{
  Pool, Thread, Job, Mutex, free, by_client, by_thread, Place, testing, locking, popping, exited,
  unlocking, holding, run_at, test_running, lock, pop, run_job, move,
}
use uvg_torrent.ThreadPool.Steps.{Holds}
use uvg_torrent.ThreadPool.Section.{
  in_section, owns, client_owns, put-Agree, IsExclusive, owner_only,
}

module _ (i : ℕ) (thread : Thread) where
  stays :
      (place : Place) (pool : Pool)
      → IsExclusive pool
      → in_section place ≡ owns i pool.jobs_mutex
      → IsExclusive (move i thread place pool)
  unfolding move
  stays place pool h section = record {
    agree =
        put-Agree i (record thread { place = place }) pool.threads pool.jobs_mutex pool.jobs_mutex
          h.agree section λ j other. refl;
    client_agrees = h.client_agrees;
  }

  lock-IsExclusive :
      (mutex : Mutex) (pool : Pool)
      → pool.jobs_mutex ≡ mutex
      → IsExclusive pool
      → Holds IsExclusive (lock i thread mutex pool)
  unfolding lock move
  lock-IsExclusive free pool e h = record {
    agree =
        put-Agree i (record thread { place = popping }) pool.threads free (by_thread i)
          (λ j t got. h.agree j t got ∙ ap (owns j) e) (sym (==_self i)) λ j other. sym other;
    client_agrees = h.client_agrees ∙ ap client_owns e;
  }
  lock-IsExclusive by_client pool e h = tt
  lock-IsExclusive (by_thread j) pool e h = tt

  unlock-IsExclusive :
      (popped : Option Job) (pool : Pool)
      → IsExclusive pool
      → true ≡ owns i pool.jobs_mutex
      → IsExclusive (record (move i thread (holding popped) pool) { jobs_mutex = free })
  unfolding move
  unlock-IsExclusive popped pool h section =
      let (others, no_client) = owner_only i pool.jobs_mutex section in
      record {
        agree =
            put-Agree i (record thread { place = holding popped }) pool.threads pool.jobs_mutex free
              h.agree refl others;
        client_agrees = h.client_agrees ∙ no_client;
      }

  pop-IsExclusive :
      (jobs : List Job) (pool : Pool)
      → IsExclusive pool
      → true ≡ owns i pool.jobs_mutex
      → IsExclusive (pop i thread jobs pool)
  unfolding pop move
  pop-IsExclusive [] pool h section = stays (unlocking none) pool h section
  pop-IsExclusive (job ∷ jobs) pool h section =
      let moved = stays (unlocking (some job)) pool h section in
      record { agree = moved.agree; client_agrees = moved.client_agrees }

  test-IsExclusive :
      (going : Bool) (pool : Pool)
      → IsExclusive pool
      → false ≡ owns i pool.jobs_mutex
      → IsExclusive (test_running i thread going pool)
  unfolding test_running
  test-IsExclusive true pool h section = stays locking pool h section
  test-IsExclusive false pool h section = stays exited pool h section

  pub run_at-IsExclusive :
      (place : Place) (pool : Pool)
      → IsExclusive pool
      → in_section place ≡ owns i pool.jobs_mutex
      → Holds IsExclusive (run_at i thread place pool)
  unfolding run_at run_job move
  run_at-IsExclusive testing pool h section = test-IsExclusive thread.running pool h section
  run_at-IsExclusive locking pool h section = lock-IsExclusive pool.jobs_mutex pool refl h
  run_at-IsExclusive popping pool h section = pop-IsExclusive pool.jobs pool h section
  run_at-IsExclusive (unlocking popped) pool h section = unlock-IsExclusive popped pool h section
  run_at-IsExclusive (holding none) pool h section = stays testing pool h section
  run_at-IsExclusive (holding (some job)) pool h section =
      let moved = stays testing pool h section in
      record { agree = moved.agree; client_agrees = moved.client_agrees }
  run_at-IsExclusive exited pool h section = tt
