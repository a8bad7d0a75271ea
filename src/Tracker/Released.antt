-- ===== src/Tracker/Released.antt =====
-- The end of `Tracker_announce` (tracker/tracker.c): the destruction of the announce packet closes
-- the sockets of the peers.
use uvg_torrent.Base.{
  ℕ, ◌≡◌, refl, sym, ap, true, ◌&&◌, Option, none, some, List, [], ◌∷◌, ◌++◌, ◌==◌, ok,
  exit_success, append_assoc, append-nil, Option-cases, inl, inr,
}
use uvg_torrent.Libc.{CString}
use uvg_torrent.Words.{Host}
use uvg_torrent.Os.{Os, Cmd, World, Event, closed, emit}
use uvg_torrent.Socket
use uvg_torrent.Peer
use uvg_torrent.Peer.{Peer}
use uvg_torrent.Tracker.AnnouncePacket.{Response, PeerAddress}
use uvg_torrent.Tracker.State.{Tracker}
use uvg_torrent.Tracker.Announce.{contact_all, destroy_peers, check_announce}

-- A socket that is open is closed.
abbrev pub closing : Option ℕ → List Event
closing none = []
closing (some fd) = closed fd ∷ []

abbrev pub closings : List Peer → List Event
closings [] = []
closings (p ∷ ps) = closing p.socket.sock_desc ++ closings ps

abbrev pub logged : World → List Event → World
logged w events = record w { log = w.log ++ events }

socket_destroy-closing :
    (os : Os) (s : Socket.Socket) (w : World)
    → Socket.destroy os s w ≡ ok (tt, logged w (closing s.sock_desc))
unfolding Socket.destroy emit
socket_destroy-closing os s w = elim (Option-cases s.sock_desc) [
  | inl shut ↦ rw shut (ap (λ l. ok (tt, record w { log = l })) (sym (append-nil w.log)))
  | inr (fd, is_open) ↦ rw is_open refl
]

module _ (os : Os) (host : Host) (contact : CString → PeerAddress → Cmd Peer) where
  destroy_peers-closings :
      (ps : List Peer) (w : World)
      → destroy_peers os host contact ps w ≡ ok (tt, logged w (closings ps))
  unfolding destroy_peers Peer.destroy
  destroy_peers-closings [] w = ap (λ l. ok (tt, record w { log = l })) (sym (append-nil w.log))
  destroy_peers-closings (p ∷ ps) w =
      rw
        (
          socket_destroy-closing os p.socket w,
          destroy_peers-closings ps (logged w (closing p.socket.sock_desc)),
        )
        (ap (λ l. ok (tt, record w { log = l }))
          (append_assoc w.log (closing p.socket.sock_desc) (closings ps)))

  -- When the response has action 1 and echoes the transaction id, and the contact with its peers
  -- returns, the announce succeeds with the attempts reset, and the sockets that the peers hold then
  -- are closed, each once and in the order of the peers: nothing else is sent, opened or closed.
  pub check_announce-closings :
      (t : Tracker) (text : CString) (r : Response) (peers : List Peer) (w w' : World)
      → (r.action == 1 && t.last_transaction_id == r.transaction_id) ≡ true
      → contact_all os host contact text r.peers w ≡ ok (peers, w')
      → check_announce os host contact t text (some r) w
        ≡ ok ((exit_success, record t { attempts = 0 }), logged w' (closings peers))
  unfolding check_announce
  check_announce-closings t text r peers w w' good met =
      rw (good, met, destroy_peers-closings peers w') refl
