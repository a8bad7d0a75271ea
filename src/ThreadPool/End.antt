-- ===== src/ThreadPool/End.antt =====
-- The end of the pool: `Thread_Pool_destroy` leaves no thread and no job behind.
use uvg_torrent.Base.{
  ℕ, zero, suc, ◌+◌, ◌≡◌, ◌<◌, refl, sym, ap, ◌∙◌, Bool, false, Option, none, some, List, [], ◌∷◌,
  get_elem?, ◌==◌, inl, inr, eq_of_==, Bool-cases, arith, true,
}
use uvg_torrent.ThreadPool.{
  Pool, Thread, Job, Mutex, free, by_client, by_thread, Client, outside, leaving, calling, inside,
  stopping, waiting, emptying, dropping, closing, gone, Place, testing, locking, popping, exited,
  unlocking, holding, stop, await, await_exit, lock_destroy, destroy, init, Reachable,
}
use mathlib.Core.Path.{subst}
use uvg_torrent.ThreadPool.Steps.{Holds, reachable_keeps}
use uvg_torrent.ThreadPool.Queue.{has_dropped}
use uvg_torrent.ThreadPool.Fifo.{reachable-IsQueue}
use uvg_torrent.ThreadPool.Section.{get-put}
use uvg_torrent.ThreadPool.Count.{count, in_hands, in_hands_at}
use uvg_torrent.ThreadPool.Account.{jobs_accounted}
use uvg_torrent.ThreadPool.Exits.{HasSeen, IsEnding, run_at-IsEnding, add_job-IsEnding}

-- Behind the last thread there is none.
in_front :
    (i j : ℕ) (t : Thread) (ts : List Thread)
    → get_elem? ts i ≡ none
    → get_elem? ts j ≡ some t
    → j < i
in_front i j t [] missing got = cc
in_front zero j t (u ∷ ts) missing got = cc
in_front (suc i) zero t (u ∷ ts) missing got = omega arith
in_front (suc i) (suc j) t (u ∷ ts) missing got = omega (arith, in_front i j t ts missing got)

stop-IsEnding :
    (i : ℕ) (found : Option Thread) (pool : Pool)
    → get_elem? pool.threads i ≡ found
    → pool.client ≡ stopping i
    → IsEnding pool
    → IsEnding (stop i found pool)
unfolding stop
stop-IsEnding i none pool found at h = record {
  seen = λ j t got seen.
      h.seen j t got (subst (λ c. HasSeen c j) (sym at) (in_front i j t pool.threads found got));
}
stop-IsEnding i (some thread) pool found at h = record {
  seen = λ j t got seen. elim (get-put i j pool.threads (record thread { running = false }) t got) [
    | inl (same, e) ↦ absurd (not_before i j (eq_of_== j i same) seen)
    | inr (other, old) ↦ h.seen j t old (subst (λ c. HasSeen c j) (sym at) seen)
  ];
}
  where
    not_before : (i j : ℕ) → j ≡ i → j < i → ⊥
    not_before i j e lt = omega arith

await_exit-IsEnding :
    (i : ℕ) (thread : Thread) (place : Place) (ended : Bool) (pool : Pool)
    → get_elem? pool.threads i ≡ some thread
    → thread.place ≡ place
    → pool.client ≡ waiting i
    → IsEnding pool
    → Holds IsEnding (await_exit i place ended pool)
unfolding await_exit
await_exit-IsEnding i thread exited true pool found out at h = record {
  seen = λ j t got seen. elim (Bool-cases (j == i)) [
    | inl same ↦
        ap (λ o. place_of o) (sym got ∙ ap (get_elem? pool.threads) (eq_of_== j i same) ∙ found)
        ∙ out
    | inr other ↦ h.seen j t got (subst (λ c. HasSeen c j) (sym at) (before i j other seen))
  ];
}
  where
    place_of : Option Thread → Place
    place_of none = exited
    place_of (some t) = t.place

    before : (i j : ℕ) → (j == i) ≡ false → j < i + 1 → j < i
    before i j other lt = ground arith
await_exit-IsEnding i thread exited false pool found out at h = tt
await_exit-IsEnding i thread testing ended pool found out at h = tt
await_exit-IsEnding i thread locking ended pool found out at h = tt
await_exit-IsEnding i thread popping ended pool found out at h = tt
await_exit-IsEnding i thread (unlocking popped) ended pool found out at h = tt
await_exit-IsEnding i thread (holding popped) ended pool found out at h = tt

await-IsEnding :
    (i : ℕ) (found : Option Thread) (ended : Bool) (pool : Pool)
    → get_elem? pool.threads i ≡ found
    → pool.client ≡ waiting i
    → IsEnding pool
    → Holds IsEnding (await i found ended pool)
unfolding await
await-IsEnding i none ended pool found at h = tt
await-IsEnding i (some thread) ended pool found at h =
    await_exit-IsEnding i thread thread.place ended pool found refl at h

lock_destroy-IsEnding :
    (mutex : Mutex) (pool : Pool)
    → pool.client ≡ emptying
    → IsEnding pool
    → Holds IsEnding (lock_destroy mutex pool)
unfolding lock_destroy
lock_destroy-IsEnding free pool at h = record {
  seen = λ j t got seen. h.seen j t got (subst (λ c. HasSeen c j) (sym at) tt);
}
lock_destroy-IsEnding by_client pool at h = tt
lock_destroy-IsEnding (by_thread i) pool at h = tt

pub destroy-IsEnding :
    (ended : Bool) (client : Client) (pool : Pool)
    → pool.client ≡ client
    → IsEnding pool
    → Holds IsEnding (destroy ended client pool)
unfolding destroy
destroy-IsEnding ended outside pool at h = record { seen = λ j t got seen. absurd (omega arith) }
destroy-IsEnding ended (stopping i) pool at h =
    stop-IsEnding i (get_elem? pool.threads i) pool refl at h
destroy-IsEnding ended (waiting i) pool at h =
    await-IsEnding i (get_elem? pool.threads i) ended pool refl at h
destroy-IsEnding ended emptying pool at h = lock_destroy-IsEnding pool.jobs_mutex pool at h
destroy-IsEnding ended dropping pool at h = record {
  seen = λ j t got seen. h.seen j t got (subst (λ c. HasSeen c j) (sym at) tt);
}
destroy-IsEnding ended closing pool at h = record {
  seen = λ j t got seen. h.seen j t got (subst (λ c. HasSeen c j) (sym at) tt);
}
destroy-IsEnding ended gone pool at h = tt
destroy-IsEnding ended leaving pool at h = tt
destroy-IsEnding ended (calling job) pool at h = tt
destroy-IsEnding ended (inside job) pool at h = tt

reachable-IsEnding : (n : ℕ) (pool : Pool) → Reachable n pool → IsEnding pool
unfolding init
reachable-IsEnding n pool reached =
    reachable_keeps IsEnding
      (λ i thread p found h. run_at-IsEnding i thread thread.place p found refl h)
      (λ job p h. add_job-IsEnding job p.client p)
      (λ ended p h. destroy-IsEnding ended p.client p refl h) n
      (record { seen = λ j t got seen. absurd seen }) reached

-- Threads that have exited have nothing in hand.
in_hands-exited :
    (p : Job → Bool) (ts : List Thread)
    → ((j : ℕ) (t : Thread) → get_elem? ts j ≡ some t → t.place ≡ exited)
    → in_hands p ts ≡ 0
in_hands-exited p [] out = refl
in_hands-exited p (t ∷ ts) out =
    omega (
      arith,
      ap (in_hands_at p) (out 0 t refl),
      in_hands-exited p ts (λ j u got. out (suc j) u got),
    )

-- When `Thread_Pool_destroy` has returned, in whatever order the steps came, every thread has left
-- its loop, the queue is empty, and each job that was added has been either run or destroyed in the
-- queue, as often as it was added: for the count of any kind `p` of jobs.
pub destroyed_pool :
    (p : Job → Bool) (n : ℕ) (pool : Pool)
    → Reachable n pool
    → pool.client ≡ gone
    → ((j : ℕ) (t : Thread) → get_elem? pool.threads j ≡ some t → t.place ≡ exited)
      × (pool.jobs ≡ [])
      × (count p pool.done + count p pool.dropped ≡ count p pool.added)
destroyed_pool p n pool reached over =
    let h = reachable-IsEnding n pool reached in
    let out : (j : ℕ) (t : Thread) → get_elem? pool.threads j ≡ some t → t.place ≡ exited =
      λ j t got. h.seen j t got (subst (λ c. HasSeen c j) (sym over) tt) in
    let empty : pool.jobs ≡ [] =
      (reachable-IsQueue n pool reached).none_left (ap has_dropped over) in
    (
      out,
      empty,
      omega (
        arith,
        jobs_accounted p n pool reached,
        in_hands-exited p pool.threads out,
        ap (count p) empty,
      ),
    )
