-- ===== src/ThreadPool/Fifo.antt =====
-- The queue of the pool is first in, first out, and loses no job.
use uvg_torrent.Base.{
  Bool, ℕ, ◌+◌, ◌≡◌, refl, sym, ap, ◌∙◌, false, Option, none, some, List, [], ◌∷◌, ◌++◌,
  append_assoc, append-nil, get_elem?, true,
}
use uvg_torrent.ThreadPool.{
  Pool, Thread, Job, Mutex, free, by_client, by_thread, Client, outside, leaving, calling, inside,
  stopping, waiting, emptying, dropping, closing, gone, Place, testing, locking, popping, exited,
  unlocking, holding, put, add_job, lock_client, stop, await, await_exit, lock_destroy, destroy,
  init, Reachable,
}
use uvg_torrent.ThreadPool.Steps.{Holds, reachable_keeps}
use uvg_torrent.ThreadPool.Queue.{has_dropped, IsQueue, same_jobs, run_at-IsQueue}

-- A step of the client that moves no job.
client_kept :
    (client : Client) (mutex : Mutex) (threads : List Thread) (pool : Pool)
    → has_dropped client ≡ has_dropped pool.client
    → IsQueue pool
    → IsQueue (record pool { client = client; jobs_mutex = mutex; threads = threads })
client_kept client mutex threads pool same h =
    same_jobs pool (record pool { client = client; jobs_mutex = mutex; threads = threads }) refl
      refl refl refl same h

lock_client-IsQueue :
    (job : Job) (mutex : Mutex) (pool : Pool)
    → has_dropped pool.client ≡ false
    → IsQueue pool
    → Holds IsQueue (lock_client job mutex pool)
unfolding lock_client
lock_client-IsQueue job free pool at h =
    client_kept (inside job) by_client pool.threads pool (sym at) h
lock_client-IsQueue job by_client pool at h = tt
lock_client-IsQueue job (by_thread i) pool at h = tt

add_job-IsQueue :
    (job : Job) (client : Client) (pool : Pool)
    → has_dropped pool.client ≡ has_dropped client
    → IsQueue pool
    → Holds IsQueue (add_job job client pool)
unfolding add_job
add_job-IsQueue job outside pool at h =
    client_kept (calling job) pool.jobs_mutex pool.threads pool (sym at) h
add_job-IsQueue job (calling job') pool at h = lock_client-IsQueue job' pool.jobs_mutex pool at h
add_job-IsQueue job (inside job') pool at h =
    let empty = h.none_dropped at in
    record {
      order =
          ap (λ d. pool.taken ++ ((pool.jobs ++ job' ∷ []) ++ d)) empty
          ∙ ap (λ t. pool.taken ++ t) (append-nil (pool.jobs ++ job' ∷ []))
          ∙ sym (append_assoc pool.taken pool.jobs (job' ∷ []))
          ∙ ap (λ t. t ++ job' ∷ [])
              (ap (λ t. pool.taken ++ t) (sym (append-nil pool.jobs))
                ∙ ap (λ d. pool.taken ++ (pool.jobs ++ d)) (sym empty)
                ∙ h.order);
      none_dropped = λ e. empty;
      none_left = λ e. absurd cc;
    }
add_job-IsQueue job leaving pool at h = client_kept outside free pool.threads pool (sym at) h
add_job-IsQueue job (stopping i) pool at h = tt
add_job-IsQueue job (waiting i) pool at h = tt
add_job-IsQueue job emptying pool at h = tt
add_job-IsQueue job dropping pool at h = tt
add_job-IsQueue job closing pool at h = tt
add_job-IsQueue job gone pool at h = tt

stop-IsQueue :
    (i : ℕ) (found : Option Thread) (pool : Pool)
    → has_dropped pool.client ≡ false
    → IsQueue pool
    → IsQueue (stop i found pool)
unfolding stop
stop-IsQueue i none pool at h = client_kept emptying pool.jobs_mutex pool.threads pool (sym at) h
stop-IsQueue i (some thread) pool at h =
    client_kept (waiting i) pool.jobs_mutex (put i (record thread { running = false }) pool.threads)
      pool (sym at) h

await-IsQueue :
    (i : ℕ) (place : Place) (ended : Bool) (pool : Pool)
    → has_dropped pool.client ≡ false
    → IsQueue pool
    → Holds IsQueue (await_exit i place ended pool)
unfolding await_exit
await-IsQueue i exited true pool at h =
    client_kept (stopping (i + 1)) pool.jobs_mutex pool.threads pool (sym at) h
await-IsQueue i exited false pool at h = tt
await-IsQueue i testing ended pool at h = tt
await-IsQueue i locking ended pool at h = tt
await-IsQueue i popping ended pool at h = tt
await-IsQueue i (unlocking popped) ended pool at h = tt
await-IsQueue i (holding popped) ended pool at h = tt

await_thread-IsQueue :
    (i : ℕ) (found : Option Thread) (ended : Bool) (pool : Pool)
    → has_dropped pool.client ≡ false
    → IsQueue pool
    → Holds IsQueue (await i found ended pool)
unfolding await
await_thread-IsQueue i none ended pool at h = tt
await_thread-IsQueue i (some thread) ended pool at h = await-IsQueue i thread.place ended pool at h

lock_destroy-IsQueue :
    (mutex : Mutex) (pool : Pool)
    → has_dropped pool.client ≡ false
    → IsQueue pool
    → Holds IsQueue (lock_destroy mutex pool)
unfolding lock_destroy
lock_destroy-IsQueue free pool at h = client_kept dropping by_client pool.threads pool (sym at) h
lock_destroy-IsQueue by_client pool at h = tt
lock_destroy-IsQueue (by_thread i) pool at h = tt

destroy-IsQueue :
    (ended : Bool) (client : Client) (pool : Pool)
    → has_dropped pool.client ≡ has_dropped client
    → IsQueue pool
    → Holds IsQueue (destroy ended client pool)
unfolding destroy
destroy-IsQueue ended outside pool at h =
    client_kept (stopping 0) pool.jobs_mutex pool.threads pool (sym at) h
destroy-IsQueue ended (stopping i) pool at h = stop-IsQueue i (get_elem? pool.threads i) pool at h
destroy-IsQueue ended (waiting i) pool at h =
    await_thread-IsQueue i (get_elem? pool.threads i) ended pool at h
destroy-IsQueue ended emptying pool at h = lock_destroy-IsQueue pool.jobs_mutex pool at h
destroy-IsQueue ended dropping pool at h = record {
  order =
      ap (λ d. pool.taken ++ (d ++ pool.jobs)) (h.none_dropped at)
      ∙ ap (λ t. pool.taken ++ t) (sym (append-nil pool.jobs))
      ∙ ap (λ d. pool.taken ++ (pool.jobs ++ d)) (sym (h.none_dropped at))
      ∙ h.order;
  none_dropped = λ e. absurd cc;
  none_left = λ e. refl;
}
destroy-IsQueue ended closing pool at h = client_kept gone free pool.threads pool (sym at) h
destroy-IsQueue ended gone pool at h = tt
destroy-IsQueue ended leaving pool at h = tt
destroy-IsQueue ended (calling job) pool at h = tt
destroy-IsQueue ended (inside job) pool at h = tt

init-IsQueue : (n : ℕ) → IsQueue (init n)
unfolding init
init-IsQueue n = record { order = refl; none_dropped = λ e. refl; none_left = λ e. refl }

-- In every state that the client and the threads can reach, in whatever order their steps come, the
-- jobs that threads have taken from the queue, then those in it and then those that were destroyed
-- in it are the jobs that were added, in the order in which they were added: none is lost, taken
-- twice or overtaken. Jobs are destroyed only at the end of the pool, which leaves the queue empty.
pub reachable-IsQueue : (n : ℕ) (pool : Pool) → Reachable n pool → IsQueue pool
reachable-IsQueue n pool reached =
    reachable_keeps IsQueue (λ i thread p found h. run_at-IsQueue i thread thread.place p h)
      (λ job p h. add_job-IsQueue job p.client p refl h)
      (λ ended p h. destroy-IsQueue ended p.client p refl h) n (init-IsQueue n) reached
