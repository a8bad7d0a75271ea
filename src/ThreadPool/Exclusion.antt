-- ===== src/ThreadPool/Exclusion.antt =====
-- The mutex of the pool keeps the threads and the client apart.
use uvg_torrent.Base.{
  ℕ, zero, suc, ◌+◌, ◌++◌, ◌≡◌, refl, sym, ap, ◌∙◌, Bool, true, false, Option, none, some, List, [],
  ◌∷◌, All, All-append, get_elem?, eq_of_==,
}
use uvg_torrent.ThreadPool.{
  Pool, Thread, Mutex, free, by_client, by_thread, init, start_threads, thread_init, Reachable,
}
use uvg_torrent.ThreadPool.Steps.{reachable_keeps}
use uvg_torrent.ThreadPool.Section.{
  in_section, client_in_section, owns, client_owns, Agree, IsExclusive, owner_only,
}
use uvg_torrent.ThreadPool.Section.Runs.{run_at-IsExclusive}
use uvg_torrent.ThreadPool.Section.Calls.{add_job-IsExclusive, destroy-IsExclusive}

-- New threads stand in front of the loop.
AllOutside : List Thread → Type 0
AllOutside ts = All (λ t. in_section t.place ≡ false) ts

start_threads-AllOutside :
    (n count : ℕ) (ts : List Thread) → AllOutside ts → AllOutside (start_threads n count ts)
unfolding start_threads thread_init AllOutside
start_threads-AllOutside zero count ts out = out
start_threads-AllOutside (suc n) count ts out =
    start_threads-AllOutside n (count + 1) (ts ++ thread_init count ∷ [])
      (All-append (λ t. in_section t.place ≡ false) ts (thread_init count ∷ []) out (refl, tt))

place_in : Option Thread → Bool
place_in none = false
place_in (some t) = in_section t.place

outside_at : (ts : List Thread) → AllOutside ts → Agree ts free
unfolding AllOutside place_in
outside_at [] out j t got = cc
outside_at (x ∷ ts) out zero t got = ap (λ o. place_in o) (sym got) ∙ out.0
outside_at (x ∷ ts) out (suc j) t got = outside_at ts out.1 j t got

reachable-IsExclusive : (n : ℕ) (pool : Pool) → Reachable n pool → IsExclusive pool
unfolding init AllOutside
reachable-IsExclusive n pool reached =
    reachable_keeps IsExclusive
      (λ i thread p found h. run_at-IsExclusive i thread thread.place p h (h.agree i thread found))
      (λ job p h. add_job-IsExclusive job p.client p h h.client_agrees)
      (λ ended p h. destroy-IsExclusive ended p.client p h h.client_agrees) n
      (record {
        agree = outside_at (start_threads n 0 []) (start_threads-AllOutside n 0 [] tt);
        client_agrees = refl;
      })
      reached

owner_alone : (i j : ℕ) (mutex : Mutex) → owns i mutex ≡ true → owns j mutex ≡ true → i ≡ j
owner_alone i j free e f = absurd cc
owner_alone i j by_client e f = absurd cc
owner_alone i j (by_thread k) e f = eq_of_== i k e ∙ sym (eq_of_== j k f)

owner_not_client : (i : ℕ) (mutex : Mutex) → owns i mutex ≡ true → client_owns mutex ≡ false
owner_not_client i mutex e = (owner_only i mutex (sym e)).1

-- In every reachable state the code between the lock and the unlock has at most one party in it: two
-- threads there are the same thread, and while a thread is there the client is not.
pub section_alone :
    (n : ℕ) (pool : Pool) (i j : ℕ) (t u : Thread)
    → Reachable n pool
    → get_elem? pool.threads i ≡ some t
    → get_elem? pool.threads j ≡ some u
    → in_section t.place ≡ true
    → in_section u.place ≡ true
    → (i ≡ j) × (client_in_section pool.client ≡ false)
section_alone n pool i j t u reached at_i at_j first second =
    let h = reachable-IsExclusive n pool reached in
    let owner = sym (h.agree i t at_i) ∙ first in
    (
      owner_alone i j pool.jobs_mutex owner (sym (h.agree j u at_j) ∙ second),
      h.client_agrees ∙ owner_not_client i pool.jobs_mutex owner,
    )
