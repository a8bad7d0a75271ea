-- ===== src/ThreadPool.antt =====
-- utils/thread_pool: a queue of jobs behind a mutex, and threads that take jobs from it. The queue
-- is the list that the linked list holds (see LinkedList). What a thread does between two accesses
-- to shared memory is one step; a step that the mutex blocks is none.
pub mod Steps
pub mod Queue
pub mod Fifo
pub mod Section
pub mod Exclusion
pub mod Count
pub mod Account
pub mod Drain
pub mod Exits
pub mod End
pub mod Stops
use uvg_torrent.Base.{
  ℕ, zero, suc, ◌+◌, ◌≡◌, Bool, true, false, Option, none, some, List, [], ◌∷◌, ◌++◌, get_elem?,
}

-- The function and the argument, as the pointers that they are.
pub record Job : Type 0 where
  pub function : ℕ
  pub arg : ℕ

-- Where a thread stands in `Thread_run`: before the test of `running`, before the lock, between the
-- lock and `pop`, before the unlock, before the job, behind the loop.
pub data Place : Type 0 where
  testing locking popping exited : Place
  unlocking holding : Option Job → Place

pub record Thread : Type 0 where
  pub id : ℕ
  pub running : Bool
  pub place : Place

-- Where the client stands in `Thread_Pool_add_job`: outside, before the lock, between the lock and
-- `append`, before the unlock; or in `Thread_Pool_destroy`: before the `i`-th thread is told to stop,
-- in the wait for its exit, before the lock, before the jobs are destroyed, before the unlock, behind.
pub data Client : Type 0 where
  outside leaving emptying dropping closing gone : Client
  calling inside : Job → Client
  stopping waiting : ℕ → Client

-- `added`, `taken`, `done` and `dropped` log the jobs that `append` has stored, that `pop` has
-- returned, that have been run and that were destroyed in the queue.
pub data Mutex : Type 0 where
  free by_client : Mutex
  by_thread : ℕ → Mutex

pub record Pool : Type 0 where
  pub max_threads : ℕ
  pub thread_count : ℕ
  pub threads : List Thread
  pub jobs : List Job
  pub jobs_mutex : Mutex
  pub client : Client
  pub added : List Job
  pub taken : List Job
  pub done : List Job
  pub dropped : List Job

-- `Thread_init` and `_start`.
unfoldable pub thread_init : ℕ → Thread
thread_init id = record { id = id; running = true; place = testing }

-- The loop of `Thread_Pool_init`: `n` more threads.
unfoldable pub start_threads : ℕ → ℕ → List Thread → List Thread
unfolding thread_init
start_threads zero thread_count threads = threads
start_threads (suc n) thread_count threads =
    start_threads n (thread_count + 1) (threads ++ thread_init thread_count ∷ [])

unfoldable pub init : ℕ → Pool
unfolding start_threads
init max_threads = record {
  max_threads = max_threads;
  thread_count = max_threads;
  threads = start_threads max_threads 0 [];
  jobs = [];
  jobs_mutex = free;
  client = outside;
  added = [];
  taken = [];
  done = [];
  dropped = [];
}

unfoldable pub put : ℕ → Thread → List Thread → List Thread
put i thread [] = []
put zero thread (t ∷ ts) = thread ∷ ts
put (suc i) thread (t ∷ ts) = t ∷ put i thread ts

unfoldable pub move : ℕ → Thread → Place → Pool → Pool
unfolding put
move i thread place pool = record pool {
  threads = put i (record thread { place = place }) pool.threads;
}

-- `pop`: the first job, if there is one.
unfoldable pub pop : ℕ → Thread → List Job → Pool → Pool
unfolding move
pop i thread [] pool = move i thread (unlocking none) pool
pop i thread (job ∷ jobs) pool = record (move i thread (unlocking (some job)) pool) {
  jobs = jobs;
  taken = pool.taken ++ job ∷ [];
}

unfoldable pub lock : ℕ → Thread → Mutex → Pool → Option Pool
unfolding move
lock i thread free pool = some (record (move i thread popping pool) { jobs_mutex = by_thread i })
lock i thread by_client pool = none
lock i thread (by_thread j) pool = none

unfoldable pub test_running : ℕ → Thread → Bool → Pool → Pool
unfolding move
test_running i thread true pool = move i thread locking pool
test_running i thread false pool = move i thread exited pool

-- The job is run and destroyed, the node destroyed.
unfoldable pub run_job : ℕ → Thread → Option Job → Pool → Pool
unfolding move
run_job i thread none pool = move i thread testing pool
run_job i thread (some job) pool = record (move i thread testing pool) {
  done = pool.done ++ job ∷ [];
}

-- One step of the `i`-th thread in `Thread_run`.
unfoldable pub run_at : ℕ → Thread → Place → Pool → Option Pool
unfolding test_running lock pop run_job move
run_at i thread testing pool = some (test_running i thread thread.running pool)
run_at i thread locking pool = lock i thread pool.jobs_mutex pool
run_at i thread popping pool = some (pop i thread pool.jobs pool)
run_at i thread (unlocking node) pool =
    some (record (move i thread (holding node) pool) { jobs_mutex = free })
run_at i thread (holding node) pool = some (run_job i thread node pool)
run_at i thread exited pool = none

unfoldable pub run : ℕ → Pool → Option Pool
unfolding run_at
run i pool = elim (get_elem? pool.threads i) [
  | none ↦ none
  | some thread ↦ run_at i thread thread.place pool
]

-- One step of the client in `Thread_Pool_add_job`; `job` is the argument of a new call.
unfoldable pub lock_client : Job → Mutex → Pool → Option Pool
lock_client job free pool = some (record pool { client = inside job; jobs_mutex = by_client })
lock_client job by_client pool = none
lock_client job (by_thread i) pool = none

unfoldable pub add_job : Job → Client → Pool → Option Pool
unfolding lock_client
add_job job outside pool = some (record pool { client = calling job })
add_job job (calling job') pool = lock_client job' pool.jobs_mutex pool
add_job job (inside job') pool = some (record pool {
  client = leaving;
  jobs = pool.jobs ++ job' ∷ [];
  added = pool.added ++ job' ∷ [];
})
add_job job leaving pool = some (record pool { client = outside; jobs_mutex = free })
add_job job (stopping i) pool = none
add_job job (waiting i) pool = none
add_job job emptying pool = none
add_job job dropping pool = none
add_job job closing pool = none
add_job job gone pool = none

-- `running = 0` for the `i`-th thread; behind the last one the list of threads is destroyed.
unfoldable pub stop : ℕ → Option Thread → Pool → Pool
unfolding put
stop i none pool = record pool { client = emptying }
stop i (some thread) pool = record pool {
  threads = put i (record thread { running = false }) pool.threads;
  client = waiting i;
}

-- One round of the wait of `Thread_destroy`. `pthread_kill` answers 0 for a thread in its loop, and the
-- client stays where it is. What it answers for a thread that was detached and has left is up to the
-- platform: `ended` says whether that is an error, which ends the wait. The `pthread_join` behind the
-- wait is taken to return, with or without an error.
unfoldable pub await_exit : ℕ → Place → Bool → Pool → Option Pool
await_exit i exited true pool = some (record pool { client = stopping (i + 1) })
await_exit i exited false pool = none
await_exit i testing ended pool = none
await_exit i locking ended pool = none
await_exit i popping ended pool = none
await_exit i (unlocking popped) ended pool = none
await_exit i (holding popped) ended pool = none

unfoldable pub await : ℕ → Option Thread → Bool → Pool → Option Pool
unfolding await_exit
await i none ended pool = none
await i (some thread) ended pool = await_exit i thread.place ended pool

unfoldable pub lock_destroy : Mutex → Pool → Option Pool
lock_destroy free pool = some (record pool { client = dropping; jobs_mutex = by_client })
lock_destroy by_client pool = none
lock_destroy (by_thread i) pool = none

-- One step of the client in `Thread_Pool_destroy`.
unfoldable pub destroy : Bool → Client → Pool → Option Pool
unfolding stop await lock_destroy
destroy ended outside pool = some (record pool { client = stopping 0 })
destroy ended (stopping i) pool = some (stop i (get_elem? pool.threads i) pool)
destroy ended (waiting i) pool = await i (get_elem? pool.threads i) ended pool
destroy ended emptying pool = lock_destroy pool.jobs_mutex pool
destroy ended dropping pool =
    some (record pool { client = closing; jobs = []; dropped = pool.dropped ++ pool.jobs })
destroy ended closing pool = some (record pool { client = gone; jobs_mutex = free })
destroy ended gone pool = none
destroy ended leaving pool = none
destroy ended (calling job) pool = none
destroy ended (inside job) pool = none

-- Any of them, in any order. The platform may answer differently from round to round.
pub data Step (pool : Pool) : Pool → Type 0 where
  by_run : (i : ℕ) {next : Pool} → run i pool ≡ some next → Step pool next
  by_add : (job : Job) {next : Pool} → add_job job pool.client pool ≡ some next → Step pool next
  by_destroy :
      (ended : Bool) {next : Pool} → destroy ended pool.client pool ≡ some next → Step pool next

pub data Reachable (n : ℕ) : Pool → Type 0 where
  start : Reachable n (init n)
  after : {pool next : Pool} → Reachable n pool → Step pool next → Reachable n next
