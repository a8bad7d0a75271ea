-- ===== src/ThreadPool/Section.antt =====
-- Who is between the lock and the unlock of the mutex of the pool.
pub mod Runs
pub mod Calls
use uvg_torrent.Base.{
  ℕ, zero, suc, ◌+◌, ◌++◌, ◌≡◌, refl, sym, ap, ◌∙◌, Bool, true, false, Option, none, some, List, [],
  ◌∷◌, All, All-append, get_elem?, inl, inr, ◌⊎◌, ◌==◌, ==_self, eq_of_==, arith,
}
use uvg_torrent.ThreadPool.{
  Pool, Thread, Job, Mutex, free, by_client, by_thread, Client, outside, leaving, calling, inside,
  stopping, waiting, emptying, dropping, closing, gone, Place, testing, locking, popping, exited,
  unlocking, holding, run_at, test_running, lock, pop, run_job, move, put, add_job, lock_client,
  stop, await, await_exit, lock_destroy, destroy, init, start_threads, thread_init, Reachable,
}
use uvg_torrent.ThreadPool.Steps.{Holds, reachable_keeps}

-- Between the lock and the unlock.
abbrev pub in_section : Place → Bool
in_section testing = false
in_section locking = false
in_section popping = true
in_section exited = false
in_section (unlocking popped) = true
in_section (holding popped) = false

abbrev pub client_in_section : Client → Bool
client_in_section outside = false
client_in_section leaving = true
client_in_section (calling job) = false
client_in_section (inside job) = true
client_in_section (stopping i) = false
client_in_section (waiting i) = false
client_in_section emptying = false
client_in_section dropping = true
client_in_section closing = true
client_in_section gone = false

abbrev pub owns : ℕ → Mutex → Bool
owns j free = false
owns j by_client = false
owns j (by_thread i) = j == i

abbrev pub client_owns : Mutex → Bool
client_owns free = false
client_owns by_client = true
client_owns (by_thread i) = false

pub get-put :
    (i j : ℕ) (ts : List Thread) (u v : Thread)
    → get_elem? (put i u ts) j ≡ some v
    → ((j == i) ≡ true × (v ≡ u)) ⊎ ((j == i) ≡ false × (get_elem? ts j ≡ some v))
unfolding put
get-put i j [] u v e = cc
get-put zero zero (t ∷ ts) u v e = inl (refl, cc)
get-put zero (suc j) (t ∷ ts) u v e = inr (ground arith, e)
get-put (suc i) zero (t ∷ ts) u v e = inr (ground arith, e)
get-put (suc i) (suc j) (t ∷ ts) u v e = shift (get-put i j ts u v e)
  where
    shift :
        ((j == i) ≡ true × (v ≡ u)) ⊎ ((j == i) ≡ false × (get_elem? ts j ≡ some v))
        → ((suc j == suc i) ≡ true × (v ≡ u))
          ⊎ ((suc j == suc i) ≡ false × (get_elem? ts j ≡ some v))
    shift (inl (same, got)) = inl (ground arith, got)
    shift (inr (other, got)) = inr (ground arith, got)

-- Each thread is in its section exactly when it owns the mutex.
abbrev pub Agree : List Thread → Mutex → Type 0
Agree ts mutex = (j : ℕ) (t : Thread) → get_elem? ts j ≡ some t → in_section t.place ≡ owns j mutex

pub put-Agree :
    (i : ℕ) (u : Thread) (ts : List Thread) (was is : Mutex)
    → Agree ts was
    → in_section u.place ≡ owns i is
    → ((j : ℕ) → (j == i) ≡ false → owns j was ≡ owns j is)
    → Agree (put i u ts) is
put-Agree i u ts was is agree moved others j v got = elim (get-put i j ts u v got) [
  | inl (same, e) ↦ rw (e, eq_of_== j i same) moved
  | inr (other, old) ↦ agree j v old ∙ others j other
]

pub record IsExclusive (pool : Pool) : Type 0 where
  pub agree : Agree pool.threads pool.jobs_mutex
  pub client_agrees : client_in_section pool.client ≡ client_owns pool.jobs_mutex

pub owner_only :
    (i : ℕ) (mutex : Mutex)
    → true ≡ owns i mutex
    → ((j : ℕ) → (j == i) ≡ false → owns j mutex ≡ false) × (client_owns mutex ≡ false)
owner_only i free e = absurd cc
owner_only i by_client e = absurd cc
owner_only i (by_thread k) e = (λ j other. ground arith, refl)
