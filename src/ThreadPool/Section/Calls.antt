-- ===== src/ThreadPool/Section/Calls.antt =====
-- What the steps of `Thread_Pool_add_job` and `Thread_Pool_destroy` keep of the mutex.
use uvg_torrent.Base.{ℕ, ◌≡◌, refl, ap, ◌∙◌, true, false, Option, none, some, get_elem?, Bool}
use uvg_torrent.ThreadPool.{
  Pool, Thread, Job, Mutex, free, by_client, by_thread, Client, outside, leaving, calling, inside,
  stopping, waiting, emptying, dropping, closing, gone, Place, testing, locking, popping, exited,
  unlocking, holding, add_job, lock_client, stop, await, await_exit, lock_destroy, destroy,
}
use uvg_torrent.ThreadPool.Steps.{Holds}
use uvg_torrent.ThreadPool.Section.{client_in_section, owns, client_owns, put-Agree, IsExclusive}

client_locks :
    (client : Client) (pool : Pool)
    → pool.jobs_mutex ≡ free
    → client_in_section client ≡ true
    → IsExclusive pool
    → IsExclusive (record pool { client = client; jobs_mutex = by_client })
client_locks client pool e at h = record {
  agree = λ j t got. h.agree j t got ∙ ap (owns j) e;
  client_agrees = at;
}

lock_client-IsExclusive :
    (job : Job) (mutex : Mutex) (pool : Pool)
    → pool.jobs_mutex ≡ mutex
    → IsExclusive pool
    → Holds IsExclusive (lock_client job mutex pool)
unfolding lock_client
lock_client-IsExclusive job free pool e h = client_locks (inside job) pool e refl h
lock_client-IsExclusive job by_client pool e h = tt
lock_client-IsExclusive job (by_thread i) pool e h = tt

client_only : (mutex : Mutex) → true ≡ client_owns mutex → (j : ℕ) → owns j mutex ≡ false
client_only free e j = refl
client_only by_client e j = refl
client_only (by_thread k) e j = absurd cc

client_unlocks :
    (client : Client) (pool : Pool)
    → client_in_section client ≡ false
    → true ≡ client_owns pool.jobs_mutex
    → IsExclusive pool
    → IsExclusive (record pool { client = client; jobs_mutex = free })
client_unlocks client pool at section h = record {
  agree = λ j t got. h.agree j t got ∙ client_only pool.jobs_mutex section j;
  client_agrees = at;
}

pub add_job-IsExclusive :
    (job : Job) (client : Client) (pool : Pool)
    → IsExclusive pool
    → client_in_section client ≡ client_owns pool.jobs_mutex
    → Holds IsExclusive (add_job job client pool)
unfolding add_job
add_job-IsExclusive job outside pool h section = record { agree = h.agree; client_agrees = section }
add_job-IsExclusive job (calling job') pool h section =
    lock_client-IsExclusive job' pool.jobs_mutex pool refl h
add_job-IsExclusive job (inside job') pool h section = record {
  agree = h.agree;
  client_agrees = section;
}
add_job-IsExclusive job leaving pool h section = client_unlocks outside pool refl section h
add_job-IsExclusive job (stopping i) pool h section = tt
add_job-IsExclusive job (waiting i) pool h section = tt
add_job-IsExclusive job emptying pool h section = tt
add_job-IsExclusive job dropping pool h section = tt
add_job-IsExclusive job closing pool h section = tt
add_job-IsExclusive job gone pool h section = tt

stop-IsExclusive :
    (i : ℕ) (found : Option Thread) (pool : Pool)
    → get_elem? pool.threads i ≡ found
    → IsExclusive pool
    → false ≡ client_owns pool.jobs_mutex
    → IsExclusive (stop i found pool)
unfolding stop
stop-IsExclusive i none pool found h section = record { agree = h.agree; client_agrees = section }
stop-IsExclusive i (some thread) pool found h section = record {
  agree =
      put-Agree i (record thread { running = false }) pool.threads pool.jobs_mutex pool.jobs_mutex
        h.agree (h.agree i thread found) λ j other. refl;
  client_agrees = section;
}

await_exit-IsExclusive :
    (i : ℕ) (place : Place) (ended : Bool) (pool : Pool)
    → IsExclusive pool
    → false ≡ client_owns pool.jobs_mutex
    → Holds IsExclusive (await_exit i place ended pool)
unfolding await_exit
await_exit-IsExclusive i exited true pool h section = record {
  agree = h.agree;
  client_agrees = section;
}
await_exit-IsExclusive i exited false pool h section = tt
await_exit-IsExclusive i testing ended pool h section = tt
await_exit-IsExclusive i locking ended pool h section = tt
await_exit-IsExclusive i popping ended pool h section = tt
await_exit-IsExclusive i (unlocking popped) ended pool h section = tt
await_exit-IsExclusive i (holding popped) ended pool h section = tt

await-IsExclusive :
    (i : ℕ) (found : Option Thread) (ended : Bool) (pool : Pool)
    → IsExclusive pool
    → false ≡ client_owns pool.jobs_mutex
    → Holds IsExclusive (await i found ended pool)
unfolding await
await-IsExclusive i none ended pool h section = tt
await-IsExclusive i (some thread) ended pool h section =
    await_exit-IsExclusive i thread.place ended pool h section

lock_destroy-IsExclusive :
    (mutex : Mutex) (pool : Pool)
    → pool.jobs_mutex ≡ mutex
    → IsExclusive pool
    → Holds IsExclusive (lock_destroy mutex pool)
unfolding lock_destroy
lock_destroy-IsExclusive free pool e h = client_locks dropping pool e refl h
lock_destroy-IsExclusive by_client pool e h = tt
lock_destroy-IsExclusive (by_thread i) pool e h = tt

pub destroy-IsExclusive :
    (ended : Bool) (client : Client) (pool : Pool)
    → IsExclusive pool
    → client_in_section client ≡ client_owns pool.jobs_mutex
    → Holds IsExclusive (destroy ended client pool)
unfolding destroy
destroy-IsExclusive ended outside pool h section = record {
  agree = h.agree;
  client_agrees = section;
}
destroy-IsExclusive ended (stopping i) pool h section =
    stop-IsExclusive i (get_elem? pool.threads i) pool refl h section
destroy-IsExclusive ended (waiting i) pool h section =
    await-IsExclusive i (get_elem? pool.threads i) ended pool h section
destroy-IsExclusive ended emptying pool h section =
    lock_destroy-IsExclusive pool.jobs_mutex pool refl h
destroy-IsExclusive ended dropping pool h section = record {
  agree = h.agree;
  client_agrees = section;
}
destroy-IsExclusive ended closing pool h section = client_unlocks gone pool refl section h
destroy-IsExclusive ended gone pool h section = tt
destroy-IsExclusive ended leaving pool h section = tt
destroy-IsExclusive ended (calling job) pool h section = tt
destroy-IsExclusive ended (inside job) pool h section = tt
