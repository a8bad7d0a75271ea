-- ===== src/ThreadPool/Steps.antt =====
-- What a step keeps, from what each kind of step keeps.
use uvg_torrent.Base.{ℕ, ◌≡◌, Option, none, some, get_elem?, Option-cases, inl, inr, Bool}
use uvg_torrent.ThreadPool.{
  Pool, Thread, Job, run, run_at, destroy, add_job, Step, by_run, by_destroy, by_add, init,
  Reachable, start, after,
}

-- `P` holds of the state behind a step, if the step is not blocked.
abbrev pub Holds : (Pool → Type 0) → Option Pool → Type 0
Holds P none = Unit
Holds P (some pool) = P pool

unblocked : (P : Pool → Type 0) (o : Option Pool) (next : Pool) → Holds P o → o ≡ some next → P next
unblocked P o next h e = rw e at h

abbrev pub KeptByRun : (Pool → Type 0) → Type 0
KeptByRun P =
    (i : ℕ) (thread : Thread) (pool : Pool)
    → get_elem? pool.threads i ≡ some thread
    → P pool
    → Holds P (run_at i thread thread.place pool)

abbrev pub KeptByAdd : (Pool → Type 0) → Type 0
KeptByAdd P = (job : Job) (pool : Pool) → P pool → Holds P (add_job job pool.client pool)

abbrev pub KeptByDestroy : (Pool → Type 0) → Type 0
KeptByDestroy P = (ended : Bool) (pool : Pool) → P pool → Holds P (destroy ended pool.client pool)

module _ (P : Pool → Type 0) (run_keeps : KeptByRun P) (add_keeps : KeptByAdd P)
    (destroy_keeps : KeptByDestroy P) where
  run-Holds : (i : ℕ) (pool : Pool) → P pool → Holds P (run i pool)
  unfolding run
  run-Holds i pool h = elim (Option-cases (get_elem? pool.threads i)) [
    | inl missing ↦ rw (Holds, missing) tt
    | inr (thread, found) ↦ rw (Holds, found) (run_keeps i thread pool found h)
  ]

  step_keeps : {pool next : Pool} → Step pool next → P pool → P next
  step_keeps {pool} {next} (by_run i e) h = unblocked P (run i pool) next (run-Holds i pool h) e
  step_keeps {pool} {next} (by_add job e) h =
      unblocked P (add_job job pool.client pool) next (add_keeps job pool h) e
  step_keeps {pool} {next} (by_destroy ended e) h =
      unblocked P (destroy ended pool.client pool) next (destroy_keeps ended pool h) e

  pub reachable_keeps : (n : ℕ) → P (init n) → {pool : Pool} → Reachable n pool → P pool
  reachable_keeps n h start = h
  reachable_keeps n h (after reached step) = step_keeps step (reachable_keeps n h reached)
