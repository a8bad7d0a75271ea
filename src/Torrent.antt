-- ===== src/Torrent.antt =====
-- torrent/torrent.c, and torrent/torrent.h: the struct, `Torrent_init`, `Torrent_connect`,
-- `Torrent_announce` and `Torrent_destroy`; `Torrent_parse` is in Torrent/Parse. The linked list of trackers is the list
-- of its values, NULL before `Torrent_parse`. Allocations succeed; what is printed is left out.
pub mod Parse
pub mod Trackers
pub mod Announces
use uvg_torrent.Base.{
  ℕ, zero, suc, ◌+◌, bit_or, Bool, true, false, Option, none, some, List, [], ◌∷◌, ◌==◌,
  if◌then◌else◌, Run, ok, fault, out_of_fuel, Exit, exit_success, exit_failure,
}
use uvg_torrent.Libc.{CString}
use uvg_torrent.Words.{Host}
use uvg_torrent.Os.{Os, Cmd, World, pure, ◌>>=◌, and_then}
use uvg_torrent.Peer.{Peer}
use uvg_torrent.Tracker.State
use uvg_torrent.Tracker.State.{Tracker}
use uvg_torrent.Tracker.Connect
use uvg_torrent.Tracker.Announce
use uvg_torrent.Tracker.AnnouncePacket.{PeerAddress}

pub record Torrent : Type 0 where
  pub path : CString
  pub name : Option CString
  pub hash : Option CString
  pub connected_trackers : ℕ
  pub trackers : Option (List Tracker)

-- `Torrent_init`.
unfoldable pub init : CString → Torrent
init path = record {
  path = path;
  name = none;
  hash = none;
  connected_trackers = 0;
  trackers = none;
}

abbrev pub exit_code : Exit → ℕ
exit_code exit_success = 0
exit_code exit_failure = 1

abbrev pub count_success : Exit → ℕ → ℕ
count_success exit_success n = n + 1
count_success exit_failure n = n

-- What the loops over the trackers come to.
pub record Round : Type 0 where
  pub success : ℕ
  pub connected_trackers : ℕ
  pub trackers : List Tracker

abbrev pub keep : Tracker → Round → Round
keep tracker round = record round { trackers = tracker ∷ round.trackers }

-- The loop of both: `success |= status`, and the count of the trackers that succeeded.
unfoldable pub each_tracker : (Tracker → Cmd (Exit × Tracker)) → ℕ → ℕ → List Tracker → Cmd Round
each_tracker act success count [] =
    pure (record { success = success; connected_trackers = count; trackers = [] })
each_tracker act success count (tracker ∷ trackers) = do
  (status, tracker') ← act tracker
  round ← each_tracker act (bit_or success (exit_code status)) (count_success status count) trackers
  pure (keep tracker' round)

module _ (os : Os) (host : Host) where
  -- `Torrent_connect`; the test is the macro `assert` of debug/debug.h. `fuel` is for each tracker.
  unfoldable pub connect : ℕ → Torrent → Cmd (Exit × Torrent)
  unfolding each_tracker
  connect fuel this = elim this.trackers [
    | none ↦ λ w. fault
    | some trackers ↦ do
      round ← each_tracker (Connect.connect os host fuel) 1 0 trackers
      let this' = record this {
        connected_trackers = round.connected_trackers;
        trackers = some round.trackers;
      }
      pure (if round.success == 1 then (exit_success, this') else (exit_failure, this'))
  ]

  -- `Torrent_announce`, which reads the hash of the torrent for each tracker that is connected.
  unfoldable pub announce : (CString → PeerAddress → Cmd Peer) → ℕ → Torrent → Cmd (Exit × Torrent)
  unfolding each_tracker
  announce contact fuel this = elim this.trackers [
    | none ↦ λ w. fault
    | some trackers ↦ do
      round ← each_tracker (Announce.announce os host contact fuel this.hash) 1 0 trackers
      pure (exit_success, record this { trackers = some round.trackers })
  ]

  unfoldable pub destroy_trackers : List Tracker → Cmd (Unit {0})
  destroy_trackers [] = pure tt
  destroy_trackers (tracker ∷ trackers) =
      State.destroy os tracker >>= λ done. destroy_trackers trackers

  -- `Torrent_destroy`, which goes through the trackers without a look at whether there is a list.
  unfoldable pub destroy : Torrent → Cmd (Unit {0})
  unfolding destroy_trackers
  destroy this = elim this.trackers [
    | none ↦ λ w. fault
    | some trackers ↦ destroy_trackers trackers
  ]
