-- ===== src/Tests/Pool.antt =====
-- The theorems on the pool of threads.
use uvg_torrent.Base.{ℕ, get_elem?, ◌+◌, ◌≡◌, refl, true, false, some, [], ◌∷◌, Bool}
use uvg_torrent.ThreadPool.{
  Pool, Thread, Job, by_run, by_add, by_destroy, gone, exited, destroy, stop, await, await_exit,
  lock_destroy, Reachable, start, after, init, start_threads, thread_init, add_job, lock_client,
  run, run_at, test_running, lock, pop, move, put, free, by_thread, outside, testing, unlocking,
  locking, waiting,
}
use uvg_torrent.ThreadPool.Queue.{IsQueue}
use uvg_torrent.ThreadPool.Fifo.{reachable-IsQueue}
use uvg_torrent.ThreadPool.Section.{client_in_section}
use uvg_torrent.ThreadPool.Exclusion.{section_alone}
use uvg_torrent.ThreadPool.Count.{count, in_hands}
use uvg_torrent.ThreadPool.Account.{jobs_accounted}
use uvg_torrent.ThreadPool.End.{destroyed_pool}
use uvg_torrent.ThreadPool.Stops.{stopped, Exited, stopped-Exited}
use uvg_torrent.ThreadPool.Drain.{going, Drained, queue-Drained}

abbrev job : Job
job = record { function = 1; arg = 2 }

-- A pool of two threads: a job was added, and the second thread is about to unlock with it in hand.
abbrev at_work : Pool
at_work = record {
  max_threads = 2;
  thread_count = 2;
  threads = going 0 testing ∷ going 1 (unlocking (some job)) ∷ [];
  jobs = [];
  jobs_mutex = by_thread 1;
  client = outside;
  added = job ∷ [];
  taken = job ∷ [];
  done = [];
  dropped = [];
}

at_work-Reachable : Reachable 2 at_work
unfolding init start_threads thread_init add_job lock_client run run_at test_running lock pop move
    put
at_work-Reachable =
    after
      (after
        (after
          (after (after (after (after start (by_add job refl)) (by_add job refl)) (by_add job refl))
            (by_add job refl))
          (by_run 1 refl))
        (by_run 1 refl))
      (by_run 1 refl)

reachable-IsQueue_example : IsQueue at_work
reachable-IsQueue_example = reachable-IsQueue 2 at_work at_work-Reachable

section_alone_example : ◌≡◌ {A = ℕ} 1 1 × (client_in_section at_work.client ≡ false)
section_alone_example =
    section_alone 2 at_work 1 1 (going 1 (unlocking (some job))) (going 1 (unlocking (some job)))
      at_work-Reachable refl refl refl refl

abbrev every_job : Job → Bool
every_job j = true

jobs_accounted_example :
    count every_job at_work.done
      + in_hands every_job at_work.threads
      + count every_job at_work.jobs
      + count every_job at_work.dropped
    ≡ count every_job at_work.added
jobs_accounted_example = jobs_accounted every_job 2 at_work at_work-Reachable

-- A pool of one thread with two jobs in its queue.
abbrev loaded : Pool
loaded = record {
  max_threads = 1;
  thread_count = 1;
  threads = going 0 testing ∷ [];
  jobs = job ∷ job ∷ [];
  jobs_mutex = free;
  client = outside;
  added = job ∷ job ∷ [];
  taken = [];
  done = [];
  dropped = [];
}

queue-Drained_example : Drained 0 10 (job ∷ job ∷ []) loaded
queue-Drained_example = queue-Drained 0 0 (job ∷ job ∷ []) loaded refl refl refl

-- A pool of one thread that was destroyed with a job in its queue.
abbrev destroyed : Pool
destroyed = record {
  max_threads = 1;
  thread_count = 1;
  threads = record { id = 0; running = false; place = exited } ∷ [];
  jobs = [];
  jobs_mutex = free;
  client = gone;
  added = job ∷ [];
  taken = [];
  done = [];
  dropped = job ∷ [];
}

abbrev added_to : Pool
added_to = record destroyed {
  threads = going 0 testing ∷ [];
  jobs = job ∷ [];
  client = outside;
  dropped = [];
}

added_to-Reachable : Reachable 1 added_to
unfolding init start_threads thread_init add_job lock_client
added_to-Reachable =
    after (after (after (after start (by_add job refl)) (by_add job refl)) (by_add job refl))
      (by_add job refl)

destroyed-Reachable : Reachable 1 destroyed
unfolding run run_at test_running move put destroy stop await await_exit lock_destroy
destroyed-Reachable =
    after
      (after
        (after
          (after
            (after
              (after
                (after (after added_to-Reachable (by_destroy true refl)) (by_destroy true refl))
                (by_run 0 refl))
              (by_destroy true refl))
            (by_destroy true refl))
          (by_destroy true refl))
        (by_destroy true refl))
      (by_destroy true refl)

destroyed_pool_example :
    ((j : ℕ) (t : Thread) → get_elem? destroyed.threads j ≡ some t → t.place ≡ exited)
    × (destroyed.jobs ≡ [])
    × (count every_job destroyed.done + count every_job destroyed.dropped
        ≡ count every_job destroyed.added)
destroyed_pool_example = destroyed_pool every_job 1 destroyed destroyed-Reachable refl

-- Its thread was told to stop, and stands in front of the lock.
abbrev told : Pool
told = record loaded { threads = stopped 0 locking ∷ []; client = waiting 0 }

stopped-Exited_example : Exited 0 0 5 told
stopped-Exited_example = stopped-Exited 0 0 locking told refl refl
