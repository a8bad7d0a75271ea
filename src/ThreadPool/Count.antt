-- ===== src/ThreadPool/Count.antt =====
-- How many jobs there are in a list and in the hands of threads, and what the steps of `Thread_run`
-- keep of it.
use uvg_torrent.Base.{
  ℕ, zero, suc, ◌+◌, ◌≡◌, ap, Bool, true, false, Option, none, some, List, [], ◌∷◌, ◌++◌, get_elem?,
  arith, if◌then◌else◌,
}
use uvg_torrent.ThreadPool.{
  Pool, Thread, Job, Mutex, free, by_client, by_thread, Place, testing, locking, popping, exited,
  unlocking, holding, run_at, test_running, lock, pop, run_job, move, put,
}
use uvg_torrent.ThreadPool.Steps.{Holds}

module _ (p : Job → Bool) where
  -- How many jobs of a list satisfy `p`.
  abbrev pub count : List Job → ℕ
  count [] = 0
  count (job ∷ jobs) = (if p job then 1 else 0) + count jobs

  abbrev pub in_hand : Option Job → ℕ
  in_hand none = 0
  in_hand (some job) = if p job then 1 else 0

  abbrev pub in_hands_at : Place → ℕ
  in_hands_at testing = 0
  in_hands_at locking = 0
  in_hands_at popping = 0
  in_hands_at exited = 0
  in_hands_at (unlocking popped) = in_hand popped
  in_hands_at (holding popped) = in_hand popped

  abbrev pub in_hands : List Thread → ℕ
  in_hands [] = 0
  in_hands (t ∷ ts) = in_hands_at t.place + in_hands ts

  pub count-append : (xs ys : List Job) → count (xs ++ ys) ≡ count xs + count ys
  count-append [] ys = omega arith
  count-append (x ∷ xs) ys = omega (arith, count-append xs ys)

  pub in_hands-append : (ts us : List Thread) → in_hands (ts ++ us) ≡ in_hands ts + in_hands us
  in_hands-append [] us = omega arith
  in_hands-append (t ∷ ts) us = omega (arith, in_hands-append ts us)

  -- A thread that moves changes what is in hands by what is in its own.
  pub in_hands-put :
      (i : ℕ) (t u : Thread) (ts : List Thread)
      → get_elem? ts i ≡ some t
      → in_hands (put i u ts) + in_hands_at t.place ≡ in_hands ts + in_hands_at u.place
  unfolding put
  in_hands-put i t u [] got = cc
  in_hands-put zero t u (x ∷ ts) got =
      let same : in_hands_at x.place ≡ in_hands_at t.place = ap of_found got in omega (arith, same)
    where
      of_found : Option Thread → ℕ
      of_found none = 0
      of_found (some y) = in_hands_at y.place
  in_hands-put (suc i) t u (x ∷ ts) got = omega (arith, in_hands-put i t u ts got)

  pub record IsCounted (pool : Pool) : Type 0 where
    pub sum : count pool.done + in_hands pool.threads ≡ count pool.taken

  module _ (i : ℕ) (thread : Thread) where
    -- A step to another place with the same in hand.
    moves :
        (place : Place) (pool : Pool)
        → get_elem? pool.threads i ≡ some thread
        → IsCounted pool
        → in_hands_at place ≡ in_hands_at thread.place
        → count pool.done + in_hands (put i (record thread { place = place }) pool.threads)
          ≡ count pool.taken
    moves place pool found h same = omega (
      arith,
      in_hands-put i thread (record thread { place = place }) pool.threads found,
      h.sum,
      same,
    )

    test-IsCounted :
        (going : Bool) (pool : Pool)
        → get_elem? pool.threads i ≡ some thread
        → 0 ≡ in_hands_at thread.place
        → IsCounted pool
        → IsCounted (test_running i thread going pool)
    unfolding test_running move
    test-IsCounted true pool found empty h = record { sum = moves locking pool found h empty }
    test-IsCounted false pool found empty h = record { sum = moves exited pool found h empty }

    lock-IsCounted :
        (mutex : Mutex) (pool : Pool)
        → get_elem? pool.threads i ≡ some thread
        → 0 ≡ in_hands_at thread.place
        → IsCounted pool
        → Holds IsCounted (lock i thread mutex pool)
    unfolding lock move
    lock-IsCounted free pool found empty h = record { sum = moves popping pool found h empty }
    lock-IsCounted by_client pool found empty h = tt
    lock-IsCounted (by_thread j) pool found empty h = tt

    pop-IsCounted :
        (jobs : List Job) (pool : Pool)
        → get_elem? pool.threads i ≡ some thread
        → 0 ≡ in_hands_at thread.place
        → IsCounted pool
        → IsCounted (pop i thread jobs pool)
    unfolding pop move
    pop-IsCounted [] pool found empty h = record { sum = moves (unlocking none) pool found h empty }
    pop-IsCounted (job ∷ jobs) pool found empty h = record {
      sum = omega (
        arith,
        in_hands-put i thread (record thread { place = unlocking (some job) }) pool.threads found,
        count-append pool.taken (job ∷ []),
        h.sum,
        empty,
      );
    }

    run_job-IsCounted :
        (popped : Option Job) (pool : Pool)
        → get_elem? pool.threads i ≡ some thread
        → in_hand popped ≡ in_hands_at thread.place
        → IsCounted pool
        → IsCounted (run_job i thread popped pool)
    unfolding run_job move
    run_job-IsCounted none pool found held h = record { sum = moves testing pool found h held }
    run_job-IsCounted (some job) pool found held h = record {
      sum = omega (
        arith,
        in_hands-put i thread (record thread { place = testing }) pool.threads found,
        count-append pool.done (job ∷ []),
        h.sum,
        held,
      );
    }

    pub run_at-IsCounted :
        (place : Place) (pool : Pool)
        → get_elem? pool.threads i ≡ some thread
        → in_hands_at place ≡ in_hands_at thread.place
        → IsCounted pool
        → Holds IsCounted (run_at i thread place pool)
    unfolding run_at move
    run_at-IsCounted testing pool found at h = test-IsCounted thread.running pool found at h
    run_at-IsCounted locking pool found at h = lock-IsCounted pool.jobs_mutex pool found at h
    run_at-IsCounted popping pool found at h = pop-IsCounted pool.jobs pool found at h
    run_at-IsCounted (unlocking popped) pool found at h = record {
      sum = moves (holding popped) pool found h at;
    }
    run_at-IsCounted (holding popped) pool found at h = run_job-IsCounted popped pool found at h
    run_at-IsCounted exited pool found at h = tt
