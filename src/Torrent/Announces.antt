-- ===== src/Torrent/Announces.antt =====
-- `Torrent_announce` of torrent/torrent.c over all trackers of a torrent.
use uvg_torrent.Base.{
  ℕ, ◌+◌, ◌-◌, ◌≤◌, ◌<◌, ◌≡◌, refl, ap₂, some, List, [], ◌∷◌, arith, if◌then◌else◌, bit_or, length,
  All, Exit, exit_success, Option,
}
use uvg_torrent.Libc.{CString}
use uvg_torrent.Words.{Host}
use uvg_torrent.Os.{Os, Cmd, World, Finishes, Finishes-bind}
use uvg_torrent.Peer.{Peer}
use uvg_torrent.Tracker.State.{Tracker}
use uvg_torrent.Tracker.AnnouncePacket.{PeerAddress}
use uvg_torrent.Tracker.Announce
use uvg_torrent.Tracker.Ends.{Held, ContactEnds, announce-Held}
use uvg_torrent.Torrent.{Torrent, each_tracker, announce, exit_code, count_success}
use uvg_torrent.Torrent.Trackers.{connected_count}

-- The attempts are within their bound, and the fuel is enough for the rest of them.
abbrev pub IsReady : ℕ → Tracker → Type 0
IsReady fuel t = (t.attempts ≤ t.max_attempts) × (t.max_attempts - t.attempts < fuel)

abbrev pub SameTrackers : List Tracker → List Tracker → Type 0
SameTrackers ts ts' = (length ts' ≡ length ts) × (connected_count ts' ≡ connected_count ts)

module _ (os : Os) (host : Host) (contact : CString → PeerAddress → Cmd Peer)
    (ends : ContactEnds contact) (fuel : ℕ) (hash : Option CString) where
  each_tracker-SameTrackers :
      (success count : ℕ) (ts : List Tracker) (w : World)
      → All (IsReady fuel) ts
      → Finishes
          (λ r w'. SameTrackers ts r.trackers)
          (each_tracker (Announce.announce os host contact fuel hash) success count ts w)
  unfolding each_tracker
  each_tracker-SameTrackers success count [] w ready = (refl, refl)
  each_tracker-SameTrackers success count (t ∷ ts) w ready =
      Finishes-bind (Held t.connected t.connection_id t.max_attempts) _
        (Announce.announce os host contact fuel hash t w) _
        (announce-Held os host contact fuel hash t w ends ready.0.0 ready.0.1)
        λ r w' held.
          Finishes-bind (λ round w''. SameTrackers ts round.trackers)
            (λ round w''. SameTrackers (t ∷ ts) round.trackers) _ _
            (each_tracker-SameTrackers (bit_or success (exit_code r.0)) (count_success r.0 count) ts
              w' ready.1)
            λ round w'' same.
              (omega (arith, same.0), ap₂ (λ b n. (if b then 1 else 0) + n) held.0 same.1)

-- What `Torrent_announce` leaves in the torrent.
abbrev pub AnnouncedAll : List Tracker → Exit × Torrent → World → Type 0
AnnouncedAll ts (e, this) w =
    (e ≡ exit_success) × ((ts' : List Tracker) × (this.trackers ≡ some ts') × SameTrackers ts ts')

-- Announcing a torrent does not run out of fuel, if the contact with every peer does not and the trackers have their attempts
-- within bounds and fuel. When it returns, it reports success, keeps all trackers, and as many of them are connected
-- as before.
pub announce-AnnouncedAll :
    (os : Os) (host : Host) (contact : CString → PeerAddress → Cmd Peer) (fuel : ℕ) (this : Torrent)
    (ts : List Tracker) (w : World)
    → ContactEnds contact
    → this.trackers ≡ some ts
    → All (IsReady fuel) ts
    → Finishes (AnnouncedAll ts) (announce os host contact fuel this w)
unfolding announce
announce-AnnouncedAll os host contact fuel this ts w ends parsed ready = rw parsed (
    Finishes-bind (λ r w'. SameTrackers ts r.trackers) (AnnouncedAll ts)
      (each_tracker (Announce.announce os host contact fuel this.hash) 1 0 ts w) _
      (each_tracker-SameTrackers os host contact ends fuel this.hash 1 0 ts w ready)
      λ round w' same. (refl, (round.trackers, refl, same)))
