-- ===== src/Torrent/Trackers.antt =====
-- `Torrent_connect` of torrent/torrent.c over all trackers of a torrent.
use uvg_torrent.Base.{
  ℕ, ◌+◌, ◌-◌, ◌≤◌, ◌<◌, ◌≡◌, refl, ap₂, some, List, [], ◌∷◌, arith, if◌then◌else◌, bit_or, length,
  All, Exit, exit_success, exit_failure,
}
use uvg_torrent.Words.{Host}
use uvg_torrent.Os.{Os, World, pure, and_then, sent_count, Finishes, Finishes-bind}
use uvg_torrent.Tracker.State.{Tracker}
use uvg_torrent.Tracker.Connect
use uvg_torrent.Tracker.Bounds.{Connected, connect-Connected}
use uvg_torrent.Torrent.{Torrent, Round, keep, each_tracker, connect, exit_code, count_success}

-- The trackers that are marked as connected.
abbrev pub connected_count : List Tracker → ℕ
connected_count [] = 0
connected_count (t ∷ ts) = (if t.connected then 1 else 0) + connected_count ts

-- One datagram for each attempt that a tracker has left, and one more.
abbrev pub requests : List Tracker → ℕ
requests [] = 0
requests (t ∷ ts) = t.max_attempts - t.attempts + 1 + requests ts

abbrev pub maxima : List Tracker → List ℕ
maxima [] = []
maxima (t ∷ ts) = t.max_attempts ∷ maxima ts

-- No attempts are used, and the bounds are those of `ts`.
abbrev pub AreReset : List Tracker → List Tracker → Type 0
AreReset ts ts' = All (λ t. t.attempts ≡ 0) ts' × (maxima ts' ≡ maxima ts)

abbrev pub Counted : List Tracker → ℕ → ℕ → Round → World → Type 0
Counted ts count n r w =
    (r.success ≡ 1)
    × (length r.trackers ≡ length ts)
    × (r.connected_trackers ≤ count + connected_count r.trackers)
    × (sent_count w.log ≤ n)
    × AreReset ts r.trackers

module _ (os : Os) (host : Host) (fuel : ℕ) where
  each_tracker-Counted :
      (n count : ℕ) (ts : List Tracker) (w : World)
      → All (λ t. t.max_attempts - t.attempts < fuel) ts
      → sent_count w.log + requests ts ≤ n
      → Finishes (Counted ts count n) (each_tracker (Connect.connect os host fuel) 1 count ts w)
  unfolding each_tracker
  each_tracker-Counted n count [] w enough sends =
      (refl, refl, omega arith, omega arith, (tt, refl))
  each_tracker-Counted n count (t ∷ ts) w enough sends =
      Finishes-bind
        (Connected t.connected t.connection_id t.max_attempts
          (sent_count w.log + (t.max_attempts - t.attempts + 1)))
        (Counted (t ∷ ts) count n) (Connect.connect os host fuel t w) _
        (connect-Connected os host fuel t w enough.0)
        (next λ count' w'. each_tracker-Counted n count' ts w' enough.1)
    where
      next :
          ((count' : ℕ) (w' : World)
            → sent_count w'.log + requests ts ≤ n
            → Finishes
                (Counted ts count' n)
                (each_tracker (Connect.connect os host fuel) 1 count' ts w'))
          → (r : Exit × Tracker) (w' : World)
          → Connected t.connected t.connection_id t.max_attempts
              (sent_count w.log + (t.max_attempts - t.attempts + 1))
              r
              w'
          → Finishes (Counted (t ∷ ts) count n) (
              and_then
                (each_tracker
                  (Connect.connect os host fuel)
                  (bit_or 1 (exit_code r.0))
                  (count_success r.0 count)
                  ts
                  w')
                λ round. pure (keep r.1 round))
      next again (exit_success, t') w' done =
          Finishes-bind (Counted ts (count + 1) n) (Counted (t ∷ ts) count n) _ _
            (again (count + 1) w' (omega arith))
            λ round w'' c. (
              c.0,
              omega arith,
              rw done.3 (omega arith),
              c.3,
              ((done.0, c.4.0), ap₂ (λ m ms. m ∷ ms) done.1 c.4.1),
            )
      next again (exit_failure, t') w' done =
          Finishes-bind (Counted ts count n) (Counted (t ∷ ts) count n) _ _
            (again count w' (omega arith))
            λ round w'' c. (
              c.0,
              omega arith,
              omega arith,
              c.3,
              ((done.0, c.4.0), ap₂ (λ m ms. m ∷ ms) done.1 c.4.1),
            )

-- What `Torrent_connect` leaves in the torrent.
abbrev pub TriedAll : List Tracker → ℕ → Exit × Torrent → World → Type 0
TriedAll ts n (e, this) w =
    (e ≡ exit_success)
    × ((ts' : List Tracker) × (this.trackers ≡ some ts')
        × (length ts' ≡ length ts)
        × (this.connected_trackers ≤ connected_count ts')
        × AreReset ts ts')
    × (sent_count w.log ≤ n)

-- Connecting a torrent does not run out of fuel, with fuel for the attempts of each tracker. When it
-- returns, it reports success whether
-- or not a tracker answered; all trackers are kept, with no attempts used up, it counts no more of them than are connected,
-- and it sends each at most one datagram for every attempt left and one more.
pub connect-TriedAll :
    (os : Os) (host : Host) (fuel : ℕ) (this : Torrent) (ts : List Tracker) (w : World)
    → this.trackers ≡ some ts
    → All (λ t. t.max_attempts - t.attempts < fuel) ts
    → Finishes (TriedAll ts (sent_count w.log + requests ts)) (connect os host fuel this w)
unfolding connect
connect-TriedAll os host fuel this ts w parsed enough = rw parsed (
    Finishes-bind (Counted ts 0 (sent_count w.log + requests ts))
      (TriedAll ts (sent_count w.log + requests ts))
      (each_tracker (Connect.connect os host fuel) 1 0 ts w) _
      (each_tracker-Counted os host fuel _ 0 ts w enough (omega arith))
      λ round w' c. rw c.0 (refl, (round.trackers, refl, c.1, omega arith, c.4), c.3))
