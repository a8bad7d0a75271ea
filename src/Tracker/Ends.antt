-- ===== src/Tracker/Ends.antt =====
-- `Tracker_announce` comes to an end, whatever the network answers.
pub mod Parts
use uvg_torrent.Base.{
  ℕ, zero, suc, ◌+◌, ◌-◌, ◌*◌, ◌%◌, ◌≤◌, ◌<◌, ◌≡◌, refl, Bool, true, false, ◌&&◌, Option, none,
  some, List, [], ◌∷◌, arith, ◌==◌, ltb, if◌then◌else◌, inl, inr, Bool-cases, Option-cases, Run, ok,
  fault, halted, out_of_fuel, Returns, Exit, exit_success, exit_failure, length, length-take, take,
  drop,
}
use mathlib.Core.Option
use uvg_torrent.Base
use uvg_torrent.Libc.{CString}
use uvg_torrent.Words.{Host}
use uvg_torrent.Str.Split.{pieces, all_short, split-pieces}
use uvg_torrent.Str.{split}
use uvg_torrent.LinkedList.View.{list_get, get_from}
use uvg_torrent.Os.{
  Os, Cmd, World, pure, ◌>>=◌, ◌>>◌, and_then, lift, received_into, uninitialised, sent_count,
  Finishes, Finishes-bind,
}
use uvg_torrent.Socket
use uvg_torrent.Peer.{Peer}
use uvg_torrent.Socket.{Socket}
use uvg_torrent.Socket.Counts.{send_one}
use uvg_torrent.Tracker.AnnouncePacket
use uvg_torrent.Tracker.AnnouncePacket.{Packet, PeerAddress}
use uvg_torrent.Tracker.Peers.{OnlyLoopback, response_init-OnlyLoopback}
use uvg_torrent.Tracker.State.{Tracker, at_pointer, generate_trans_id}
use uvg_torrent.Tracker.Announce.{
  our_peer_id, info_hash_of, hash_bytes, contact_all, destroy_peers, fresh_peers, check_announce,
  after_receive, request_announce, announce_connected, announce,
}
use uvg_torrent.Os.Ends.{Any, Any-bind, lift-Ends}
use Parts.{
  info_hash_of-Ends, hash_bytes-Ends, socket_destroy-Any, packet_send-Any, packet_receive-Any,
}

either_way :
    {A : Type 0} (P : A → World → Type 0) (b : Bool) (m n : Cmd A) (w : World)
    → Finishes P (m w)
    → Finishes P (n w)
    → Finishes P ((if b then m else n) w)
either_way P true m n w then_side else_side = then_side
either_way P false m n w then_side else_side = else_side

-- What a call of `announce` keeps: the connection, and the attempts within their bound.
abbrev pub Held : Bool → ℕ → ℕ → Exit × Tracker → World → Type 0
Held was id max (e, t) w =
    (t.connected ≡ was) × (t.connection_id ≡ id) × (t.max_attempts ≡ max) × (t.attempts ≤ max)

abbrev pub ContactEnds : (CString → PeerAddress → Cmd Peer) → Type 0
ContactEnds contact =
    (text : CString) (p : PeerAddress) (w : World) → Finishes Any (contact text p w)

module _ (os : Os) (host : Host) (contact : CString → PeerAddress → Cmd Peer)
    (ends : ContactEnds contact) (was : Bool) (id max : ℕ) where
  abbrev Same : Tracker → Type 0
  Same t =
      (t.connected ≡ was) × (t.connection_id ≡ id) × (t.max_attempts ≡ max) × (t.attempts ≤ max)

  contact_all-Any :
      (text : CString) (ps : List PeerAddress) (w : World)
      → Finishes Any (contact_all os host contact text ps w)
  unfolding contact_all
  contact_all-Any text [] w = tt
  contact_all-Any text (p ∷ ps) w =
      Finishes-bind Any Any (contact text p w) _ (ends text p w)
        λ peer w' h. Any-bind _ _ (contact_all-Any text ps w') λ peers w₂. tt

  destroy_peers-Any :
      (ps : List Peer) (w : World) → Finishes Any (destroy_peers os host contact ps w)
  unfolding destroy_peers
  destroy_peers-Any [] w = tt
  destroy_peers-Any (p ∷ ps) w =
      Any-bind _ _ (socket_destroy-Any os p.socket w) λ done w'. destroy_peers-Any ps w'

  check_announce-Held :
      (t : Tracker) (text : CString) (r : Option AnnouncePacket.Response) (w : World)
      → Same t
      → Finishes (Held was id max) (check_announce os host contact t text r w)
  unfolding check_announce
  check_announce-Held t text none w same = tt
  check_announce-Held t text (some r) w same =
      elim (Bool-cases (r.action == 1 && t.last_transaction_id == r.transaction_id)) [
        | inl good ↦ rw good (
            Finishes-bind Any (Held was id max) (contact_all os host contact text r.peers w) _
              (contact_all-Any text r.peers w)
              λ peers w' h.
                Finishes-bind Any (Held was id max) (destroy_peers os host contact peers w') _
                  (destroy_peers-Any peers w') λ u w₂ done. (same.0, same.1, same.2, omega arith))
        | inr bad ↦ rw bad (
            let fresh = fresh_peers os host contact r.peers in
            Finishes-bind Any (Held was id max) (destroy_peers os host contact fresh w) _
              (destroy_peers-Any fresh w) λ u w' done. (same.0, same.1, same.2, omega arith))
      ]

  abbrev Keeps : ℕ → (Tracker → Cmd (Exit × Tracker)) → Type 0
  Keeps fuel again =
      (t : Tracker) (w : World)
      → Same t
      → t.max_attempts - t.attempts < fuel
      → Finishes (Held was id max) (again t w)

  module _ (fuel : ℕ) (again : Tracker → Cmd (Exit × Tracker)) (keeps : Keeps fuel again) where
    after_receive-Held :
        (t : Tracker) (text : CString) (r : Exit) (p : Packet) (w : World)
        → Same t
        → t.max_attempts - t.attempts < suc fuel
        → Finishes (Held was id max) (after_receive os host contact again t text r p w)
    unfolding after_receive
    after_receive-Held t text exit_success p w same left =
        check_announce-Held t text p.response w same
    after_receive-Held t text exit_failure p w same left =
        elim (Bool-cases (ltb t.attempts t.max_attempts)) [
          | inl more ↦ rw more (
              Finishes-bind (Held was id max) (Held was id max)
                (again (record t { attempts = t.attempts + 1 }) w) _
                (keeps (record t { attempts = t.attempts + 1 }) w
                  (same.0, same.1, same.2, ground arith) (ground arith))
                λ r w' h. h)
          | inr last ↦ rw last same
        ]

    request-Held :
        (t : Tracker) (text : CString) (bytes : List ℕ) (s : Option Socket) (w : World)
        → Same t
        → t.max_attempts - t.attempts < suc fuel
        → Finishes (Held was id max) (request_announce os host contact again t text bytes s w)
    unfolding request_announce
    request-Held t text bytes none w same left = tt
    request-Held t text bytes (some s) w same left =
        let p : Packet =
          AnnouncePacket.packet_init host (uninitialised (os.stack w.now) 20 20)
            (uninitialised (os.stack w.now) 40 20) t.connection_id t.last_transaction_id bytes
            our_peer_id in
        Finishes-bind Any (Held was id max) (AnnouncePacket.send os host p s w) _
          (packet_send-Any os host p s w)
          λ sent w₁ h₁.
            Finishes-bind Any (Held was id max) (AnnouncePacket.receive os host p s w₁) _
              (packet_receive-Any os host p s w₁)
              λ r w₂ h₂. after_receive-Held t text r.0 r.1 w₂ same left

    connected-Held :
        (t : Tracker) (hash : Option CString) (w : World)
        → Same t
        → t.max_attempts - t.attempts < suc fuel
        → Finishes (Held was id max) (announce_connected os host contact again t hash w)
    unfolding announce_connected generate_trans_id
    connected-Held t hash w same left =
        let w₁ : World = record w { now = w.now + 1 } in
        let t₁ : Tracker = record t { last_transaction_id = os.rand w.now % 1000000 } in
        Finishes-bind Any (Held was id max) (lift (info_hash_of hash) w₁) _
          (lift-Ends (info_hash_of hash) w₁ (info_hash_of-Ends hash))
          λ text w₂ h₂.
            Finishes-bind Any (Held was id max) (lift (hash_bytes 20 0 (os.stack w.now) text) w₂) _
              (lift-Ends _ w₂ (hash_bytes-Ends 20 0 (os.stack w.now) text))
              λ bytes w₃ h₃. request-Held t₁ text bytes t₁.tracker_socket w₃ same left

  announce-Keeps :
      (fuel : ℕ) (hash : Option CString) → Keeps fuel (announce os host contact fuel hash)
  unfolding announce
  announce-Keeps zero hash t w same left = absurd (omega arith)
  announce-Keeps (suc fuel) hash t w same left =
      either_way (Held was id max) t.connected _ _ w
        (connected-Held fuel (announce os host contact fuel hash) (announce-Keeps fuel hash) t hash
          w same left)
        same

-- With fuel for the attempts left `announce` does not run out of it, if the contact with every peer
-- does not. When it returns, it has kept the connection, and the attempts stay within their bound.
pub announce-Held :
    (os : Os) (host : Host) (contact : CString → PeerAddress → Cmd Peer) (fuel : ℕ)
    (hash : Option CString) (t : Tracker) (w : World)
    → ContactEnds contact
    → t.attempts ≤ t.max_attempts
    → t.max_attempts - t.attempts < fuel
    → Finishes
        (Held t.connected t.connection_id t.max_attempts)
        (announce os host contact fuel hash t w)
announce-Held os host contact fuel hash t w ends few enough =
    announce-Keeps os host contact ends t.connected t.connection_id t.max_attempts fuel hash t w
      (refl, refl, refl, few) enough
