-- ===== src/Tracker/Announce.antt =====
-- `Tracker_announce` of tracker/tracker.c. It calls itself when no response comes. What the client
-- does with a peer of the response (the handshake, the metadata, a piece; peer/peer.c) is the
-- argument `contact`, given the text of the info hash; it answers the peer as it is then. What is printed is left out.
use uvg_torrent.Base.{
  ℕ, zero, suc, ◌+◌, ◌-◌, ◌*◌, ◌%◌, Bool, true, false, ◌&&◌, ◌||◌, Option, none, some, List, [],
  ◌∷◌, ◌==◌, leb, ltb, if◌then◌else◌, Run, ok, fault, out_of_fuel, Exit, exit_success, exit_failure,
  length, drop,
}
use uvg_torrent.Base
use uvg_torrent.Libc.{CString, is_digit, to_lower}
use uvg_torrent.Words.{Host}
use uvg_torrent.Str.{split}
use uvg_torrent.LinkedList.View.{list_get}
use uvg_torrent.Os.{Os, Cmd, pure, ◌>>=◌, ◌>>◌, lift, uninitialised}
use uvg_torrent.Socket.{Socket}
use uvg_torrent.Peer
use uvg_torrent.Peer.{Peer}
use uvg_torrent.Tracker.AnnouncePacket
use uvg_torrent.Tracker.AnnouncePacket.{Packet, Response, PeerAddress, packet_init}
use uvg_torrent.Tracker.State.{Tracker, at_pointer, generate_trans_id}

abbrev pub is_hex : ℕ → Bool
is_hex c = is_digit c || (leb 97 (to_lower c) && leb (to_lower c) 102)

abbrev pub hex_digit : ℕ → ℕ
hex_digit c = if is_digit c then c - 48 else to_lower c - 87

-- `sscanf(s, "%2hhx", &byte)` where the text starts with a hexadecimal digit; elsewhere the byte
-- keeps what it held (white space, a sign and the prefix 0x are not followed further).
unfoldable pub scan_byte : ℕ → CString → ℕ
scan_byte held [] = held
scan_byte held (a ∷ []) = if is_hex a then hex_digit a else held
scan_byte held (a ∷ b ∷ s) =
    if is_hex a then (if is_hex b then 16 * hex_digit a + hex_digit b else hex_digit a) else held

-- The loop over `info_hash_bytes`, from byte `i` on. Text past the terminating zero is not read.
unfoldable pub hash_bytes : ℕ → ℕ → (ℕ → ℕ) → CString → Run (List ℕ)
unfolding scan_byte
hash_bytes zero i garbage info_hash = ok []
hash_bytes (suc n) i garbage info_hash =
    let byte = scan_byte (garbage i % 256) (drop (2 * i) info_hash) in
    let cons = λ (bytes : List ℕ). ok (byte ∷ bytes) in
    let rest = Base.◌>>=◌ (hash_bytes n (i + 1) garbage info_hash) cons in
    if ltb (length info_hash) (2 * i) then fault else rest

-- The text behind "urn:btih:" of `torrent->hash`, which may be NULL.
unfoldable pub info_hash_of : Option CString → Run CString
unfolding at_pointer
info_hash_of none = fault
info_hash_of (some hash) =
    Base.◌>>=◌ (split hash b':') λ info_hash_list. Base.◌>>=◌ (list_get info_hash_list 2) at_pointer

-- "UVG01234567891234567".
abbrev pub our_peer_id : CString
our_peer_id =
    b'U' ∷ b'V' ∷ b'G' ∷ b'0' ∷ b'1' ∷ b'2' ∷ b'3' ∷ b'4' ∷ b'5' ∷ b'6' ∷ b'7' ∷ b'8' ∷ b'9' ∷ b'1'
    ∷ b'2' ∷ b'3' ∷ b'4' ∷ b'5' ∷ b'6' ∷ b'7' ∷ []

module _ (os : Os) (host : Host) (contact : CString → PeerAddress → Cmd Peer) where
  -- The loop over the peers; what they answer is not looked at.
  unfoldable pub contact_all : CString → List PeerAddress → Cmd (List Peer)
  contact_all info_hash [] = pure []
  contact_all info_hash (address ∷ addresses) = do
    peer ← contact info_hash address
    peers ← contact_all info_hash addresses
    pure (peer ∷ peers)

  -- `Tracker_Announce_Response_destroy`: the memory apart, the destruction of the peers, which
  -- closes the sockets that they hold.
  unfoldable pub destroy_peers : List Peer → Cmd (Unit {0})
  unfolding Peer.destroy
  destroy_peers [] = pure tt
  destroy_peers (peer ∷ peers) = Peer.destroy os peer >> destroy_peers peers

  -- The peers of a response that nobody was in contact with.
  unfoldable pub fresh_peers : List PeerAddress → List Peer
  unfolding Peer.new
  fresh_peers [] = []
  fresh_peers (address ∷ addresses) = Peer.new address.ip address.port ∷ fresh_peers addresses

  -- The two ways on from a response; the second is the label `error`. On both `announce_req` is
  -- destroyed, and with it the peers of the response.
  unfoldable pub check_announce : Tracker → CString → Option Response → Cmd (Exit × Tracker)
  unfolding contact_all destroy_peers fresh_peers
  check_announce this info_hash none = λ w. fault
  check_announce this info_hash (some response) =
      if response.action == 1 && this.last_transaction_id == response.transaction_id
      then (do
        peers ← contact_all info_hash response.peers
        destroyed ← destroy_peers peers
        pure (exit_success, record this { attempts = 0 }))
      else (do
        destroyed ← destroy_peers (fresh_peers response.peers)
        pure (exit_failure, record this { attempts = 0 }))

  -- After `receive`: the result of the call that `again` makes is dropped.
  unfoldable pub after_receive :
      (Tracker → Cmd (Exit × Tracker)) → Tracker → CString → Exit → Packet → Cmd (Exit × Tracker)
  unfolding check_announce
  after_receive again this info_hash exit_success packet =
      check_announce this info_hash packet.response
  after_receive again this info_hash exit_failure packet =
      if ltb this.attempts this.max_attempts
      then (again (record this { attempts = this.attempts + 1 }) >>= λ announced.
          pure (exit_success, announced.1))
      else pure (exit_success, this)

  -- The request to an open socket; a tracker without one is a NULL pointer.
  unfoldable pub request_announce :
      (Tracker → Cmd (Exit × Tracker))
      → Tracker
      → CString
      → List ℕ
      → Option Socket
      → Cmd (Exit × Tracker)
  unfolding after_receive
  request_announce again this info_hash bytes none = λ w. fault
  request_announce again this info_hash bytes (some s) = λ w.
      let slots = uninitialised (os.stack w.now) in
      let packet =
        packet_init host (slots 20 20) (slots 40 20) this.connection_id this.last_transaction_id
          bytes our_peer_id in
      (do
        ignored ← AnnouncePacket.send os host packet s
        (result, received) ← AnnouncePacket.receive os host packet s
        after_receive again this info_hash result received)
        w

  unfoldable pub announce_connected :
      (Tracker → Cmd (Exit × Tracker)) → Tracker → Option CString → Cmd (Exit × Tracker)
  unfolding request_announce
  announce_connected again this hash w =
      (do
        drawn ← generate_trans_id os this
        info_hash ← lift (info_hash_of hash)
        bytes ← lift (hash_bytes 20 0 (os.stack w.now) info_hash)
        request_announce again drawn info_hash bytes drawn.tracker_socket)
        w

  unfoldable pub announce : ℕ → Option CString → Tracker → Cmd (Exit × Tracker)
  unfolding announce_connected
  announce zero hash this = λ w. out_of_fuel
  announce (suc fuel) hash this =
      if this.connected
      then announce_connected (announce fuel hash) this hash
      else pure (exit_success, this)
