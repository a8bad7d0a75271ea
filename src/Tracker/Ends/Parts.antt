-- ===== src/Tracker/Ends/Parts.antt =====
-- The parts of `Tracker_announce` that take no fuel come to an end.
use uvg_torrent.Base.{
  ℕ, zero, suc, ◌+◌, ◌-◌, ◌*◌, ◌%◌, ◌≤◌, ◌<◌, ◌≡◌, refl, Bool, true, false, ◌&&◌, Option, none,
  some, List, [], ◌∷◌, arith, ◌==◌, ltb, if◌then◌else◌, inl, inr, Bool-cases, Option-cases, Run, ok,
  fault, halted, out_of_fuel, Returns, Exit, exit_success, exit_failure, length, length-take, take,
  drop,
}
use mathlib.Core.Option
use uvg_torrent.Base
use uvg_torrent.Libc.{CString}
use uvg_torrent.Words.{Host}
use uvg_torrent.Str.Split.{pieces, all_short, split-pieces}
use uvg_torrent.LinkedList.View.{list_get, get_from}
use uvg_torrent.Os.{Os, World, lift, emit, received_into, Finishes, Finishes-bind}
use uvg_torrent.Os.Ends.{Any, Ends, Ends-bind}
use uvg_torrent.Socket
use uvg_torrent.Socket.{Socket}
use uvg_torrent.Tracker.AnnouncePacket
use uvg_torrent.Tracker.AnnouncePacket.{Packet, PeerAddress}
use uvg_torrent.Tracker.Peers.{OnlyLoopback, response_init-OnlyLoopback}
use uvg_torrent.Tracker.State.{at_pointer}
use uvg_torrent.Tracker.Announce.{info_hash_of, hash_bytes}

lift-Returns :
    {A : Type 0} (P : A → Type 0) (r : Run A) (w : World) → Returns P r → Finishes Any (lift r w)
lift-Returns P (ok a) w h = tt
lift-Returns P fault w h = tt
lift-Returns P halted w h = tt
lift-Returns P out_of_fuel w h = elim h [ ]

get_from-Ends : (ss : List CString) (i : ℕ) → Ends (get_from ss i)
unfolding get_from
get_from-Ends [] zero = tt
get_from-Ends [] (suc i) = tt
get_from-Ends (s ∷ ss) zero = tt
get_from-Ends (s ∷ ss) (suc i) = get_from-Ends ss i

pick-Ends : (r : Run (Option CString)) → Ends r → Ends (Base.◌>>=◌ r at_pointer)
unfolding at_pointer
pick-Ends (ok none) h = tt
pick-Ends (ok (some s)) h = tt
pick-Ends fault h = tt
pick-Ends halted h = tt
pick-Ends out_of_fuel h = h

list_get-Ends : (ss : List CString) (i : ℕ) → Ends (list_get ss i)
unfolding list_get
list_get-Ends [] i = tt
list_get-Ends (s ∷ ss) i = get_from-Ends (s ∷ ss) i

pub info_hash_of-Ends : (hash : Option CString) → Ends (info_hash_of hash)
unfolding info_hash_of
info_hash_of-Ends none = tt
info_hash_of-Ends (some hash) =
    rw (split-pieces hash b':') (elim (Bool-cases (all_short (pieces hash))) [
      | inl short ↦ rw short (pick-Ends (list_get (pieces hash) 2) (list_get-Ends (pieces hash) 2))
      | inr long ↦ rw long tt
    ])

pub hash_bytes-Ends :
    (n i : ℕ) (garbage : ℕ → ℕ) (text : CString) → Ends (hash_bytes n i garbage text)
unfolding hash_bytes
hash_bytes-Ends zero i garbage text = tt
hash_bytes-Ends (suc n) i garbage text = elim (Bool-cases (ltb (length text) (2 * i))) [
  | inl short ↦ rw short tt
  | inr enough ↦ rw enough (
      Ends-bind (hash_bytes n (i + 1) garbage text) _ (hash_bytes-Ends n (i + 1) garbage text)
        λ bytes. tt)
]

module _ (os : Os) (host : Host) where
  pub packet_send-Any :
      (p : Packet) (s : Socket) (w : World) → Finishes Any (AnnouncePacket.send os host p s w)
  unfolding AnnouncePacket.send Socket.send
  packet_send-Any p s w = elim (Option-cases s.sock_desc) [
    | inl none_open ↦ rw none_open tt
    | inr (fd, is_open) ↦
        rw is_open
          (elim (Bool-cases (os.send w.now)) [ inl done ↦ rw done tt | inr failed ↦ rw failed tt ])
  ]

  answered-Any :
      (p : Packet) (bytes : Option (List ℕ)) (w : World)
      → Finishes Any (AnnouncePacket.answered os host p (Option.map (take 2048) bytes) w)
  unfolding AnnouncePacket.answered
  answered-Any p none w = tt
  answered-Any p (some bytes) w =
      let short = take 2048 bytes in
      let read =
        AnnouncePacket.response_init host (received_into (os.stack w.now) 2048 short)
          (length short) in
      Finishes-bind Any Any (lift read w) _
        (lift-Returns (λ r. OnlyLoopback r.peers) read w
          (response_init-OnlyLoopback host _ (length short)
            (omega (arith, length-take 2048 bytes))))
        λ r w' h. tt

  pub packet_receive-Any :
      (p : Packet) (s : Socket) (w : World) → Finishes Any (AnnouncePacket.receive os host p s w)
  unfolding AnnouncePacket.receive Socket.receive
  packet_receive-Any p s w = elim (Option-cases s.sock_desc) [
    | inl none_open ↦ rw none_open tt
    | inr (fd, is_open) ↦ rw is_open (answered-Any p (os.recv w.now) (record w { now = w.now + 1 }))
  ]

-- The destruction of a socket comes to an end.
pub socket_destroy-Any : (os : Os) (s : Socket) (w : World) → Finishes Any (Socket.destroy os s w)
unfolding Socket.destroy emit
socket_destroy-Any os s w = elim (Option-cases s.sock_desc) [
  | inl closed ↦ rw closed tt
  | inr (fd, is_open) ↦ rw is_open tt
]
