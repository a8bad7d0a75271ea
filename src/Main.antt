-- ===== src/Main.antt =====
-- `main` of src/uvgTorrent.c. The arguments are those of the command line, the program's name first;
-- `file` is what the file of the magnet link holds. Printing is left out.
use uvg_torrent.Base.{ℕ, Option, List, [], ◌∷◌, Exit, exit_success, exit_failure}
use uvg_torrent.Libc.{CString}
use uvg_torrent.Words.{Host}
use uvg_torrent.Os.{Os, Cmd, pure, ◌>>=◌}
use uvg_torrent.Peer.{Peer}
use uvg_torrent.Peer.Session.{contact}
use uvg_torrent.Peer.Described.{Described}
use uvg_torrent.Tracker.State
use uvg_torrent.Tracker.State.{Tracker}
use uvg_torrent.Tracker.AnnouncePacket.{PeerAddress}
use uvg_torrent.Torrent
use uvg_torrent.Torrent.{Torrent}
use uvg_torrent.Torrent.Parse.{parse}

module _ (os : Os) (host : Host) (contact : CString → PeerAddress → Cmd Peer) (fuel : ℕ) where
  -- After `connect`; the failure is the label `error`.
  unfoldable pub after_connect : Exit × Torrent → Cmd Exit
  after_connect (exit_failure, torrent) = do
    done ← Torrent.destroy os host torrent
    pure exit_failure
  after_connect (exit_success, torrent) = do
    (ignored, announced) ← Torrent.announce os host contact fuel torrent
    done ← Torrent.destroy os host announced
    pure exit_success

  -- A torrent that cannot be parsed is no failure of the program.
  unfoldable pub after_parse : Exit × Torrent → Cmd Exit
  unfolding after_connect
  after_parse (exit_failure, torrent) = do done ← Torrent.destroy os host torrent; pure exit_success
  after_parse (exit_success, torrent) = Torrent.connect os host fuel torrent >>= after_connect

  unfoldable pub main : List CString → Option (List ℕ) → Cmd Exit
  unfolding after_parse
  main (name ∷ path ∷ []) file = parse os fuel file (Torrent.init path) >>= after_parse
  main [] file = pure exit_failure
  main (name ∷ []) file = pure exit_failure
  main (name ∷ path ∷ more ∷ rest) file = pure exit_failure
