-- ===== src/ThreadPool/Drain.antt =====
-- A thread that is scheduled gets through the queue.
use uvg_torrent.Base.{
  ℕ, zero, suc, ◌*◌, ◌≡◌, refl, sym, ap, ◌∙◌, true, some, List, [], ◌∷◌, ◌++◌, append_assoc,
  append-nil, length, get_elem?, arith,
}
use mathlib.Core.Path.{subst}
use uvg_torrent.ThreadPool.{
  Pool, Thread, Job, free, by_thread, Place, testing, locking, popping, unlocking, holding, run,
  run_at, test_running, lock, pop, run_job, move, put,
}

-- `n` steps of the `i`-th thread, none of them blocked.
pub data Runs (i : ℕ) : ℕ → Pool → Pool → Type 0 where
  rest : {pool : Pool} → Runs i 0 pool pool
  more :
      {n : ℕ} {pool next last : Pool}
      → run i pool ≡ some next
      → Runs i n next last
      → Runs i (suc n) pool last

pub run_found :
    (i : ℕ) (t : Thread) (pool : Pool)
    → get_elem? pool.threads i ≡ some t
    → run i pool ≡ run_at i t t.place pool
unfolding run
run_found i t pool found = rw (run, found) refl

pub get-put_same :
    (i : ℕ) (t u : Thread) (ts : List Thread)
    → get_elem? ts i ≡ some t
    → get_elem? (put i u ts) i ≡ some u
unfolding put
get-put_same i t u [] found = cc
get-put_same zero t u (x ∷ ts) found = refl
get-put_same (suc i) t u (x ∷ ts) found = get-put_same i t u ts found

-- The thread in front of its loop, told to go on.
abbrev pub going : ℕ → Place → Thread
going id place = record { id = id; running = true; place = place }

-- What the five steps of a round leave.
abbrev pub Drained : ℕ → ℕ → List Job → Pool → Type 0
Drained i n jobs pool =
    (last : Pool) × Runs i n pool last × (last.jobs ≡ []) × (last.done ≡ pool.done ++ jobs)

-- One round: the five steps that take and run the first job.
round :
    (i id n : ℕ) (pool : Pool) (job : Job) (jobs : List Job)
    → get_elem? pool.threads i ≡ some (going id testing)
    → pool.jobs_mutex ≡ free
    → pool.jobs ≡ job ∷ jobs
    → ((next : Pool)
        → get_elem? next.threads i ≡ some (going id testing)
        → next.jobs_mutex ≡ free
        → next.jobs ≡ jobs
        → Drained i n jobs next)
    → Drained i (suc (suc (suc (suc (suc n))))) (job ∷ jobs) pool
unfolding run_at test_running lock pop run_job move
round i id n pool job jobs found unlocked queue on =
    let ts1 = put i (going id locking) pool.threads in
    let ts2 = put i (going id popping) ts1 in
    let ts3 = put i (going id (unlocking (some job))) ts2 in
    let ts4 = put i (going id (holding (some job))) ts3 in
    let ts5 = put i (going id testing) ts4 in
    let p1 : Pool = record pool { threads = ts1 } in
    let p2 : Pool = record p1 { threads = ts2; jobs_mutex = by_thread i } in
    let p3 : Pool = record p2 { threads = ts3; jobs = jobs; taken = p2.taken ++ job ∷ [] } in
    let p4 : Pool = record p3 { threads = ts4; jobs_mutex = free } in
    let p5 : Pool = record p4 { threads = ts5; done = p4.done ++ job ∷ [] } in
    let f1 : get_elem? ts1 i ≡ some (going id locking) =
      get-put_same i (going id testing) (going id locking) pool.threads found in
    let f2 : get_elem? ts2 i ≡ some (going id popping) =
      get-put_same i (going id locking) (going id popping) ts1 f1 in
    let f3 : get_elem? ts3 i ≡ some (going id (unlocking (some job))) =
      get-put_same i (going id popping) (going id (unlocking (some job))) ts2 f2 in
    let f4 : get_elem? ts4 i ≡ some (going id (holding (some job))) =
      get-put_same i (going id (unlocking (some job))) (going id (holding (some job))) ts3 f3 in
    let f5 : get_elem? ts5 i ≡ some (going id testing) =
      get-put_same i (going id (holding (some job))) (going id testing) ts4 f4 in
    let e1 : run i pool ≡ some p1 = run_found i (going id testing) pool found in
    let e2 : run i p1 ≡ some p2 =
      run_found i (going id locking) p1 f1 ∙ ap (λ m. lock i (going id locking) m p1) unlocked in
    let e3 : run i p2 ≡ some p3 =
      run_found i (going id popping) p2 f2
      ∙ ap (λ js. some (pop i (going id popping) js p2)) queue in
    let e4 : run i p3 ≡ some p4 = run_found i (going id (unlocking (some job))) p3 f3 in
    let e5 : run i p4 ≡ some p5 = run_found i (going id (holding (some job))) p4 f4 in
    let (last, runs, empty, done) = on p5 f5 refl refl in
    (
      last,
      more e1 (more e2 (more e3 (more e4 (more e5 runs)))),
      empty,
      done ∙ append_assoc pool.done (job ∷ []) jobs,
    )

-- A thread in front of its loop that is told to go on, with the mutex free, and that is scheduled alone,
-- is never blocked: after five steps for each job the queue is empty and its jobs have been run, in order.
pub queue-Drained :
    (i id : ℕ) (jobs : List Job) (pool : Pool)
    → get_elem? pool.threads i ≡ some (going id testing)
    → pool.jobs_mutex ≡ free
    → pool.jobs ≡ jobs
    → Drained i (length jobs * 5) jobs pool
queue-Drained i id [] pool found unlocked queue = (pool, rest, queue, sym (append-nil pool.done))
queue-Drained i id (job ∷ jobs) pool found unlocked queue =
    subst (λ n. Drained i n (job ∷ jobs) pool) (omega arith)
      (round i id (length jobs * 5) pool job jobs found unlocked queue
        λ next f m q. queue-Drained i id jobs next f m q)
