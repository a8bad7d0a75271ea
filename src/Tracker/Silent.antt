-- ===== src/Tracker/Silent.antt =====
-- `Tracker_announce` against a tracker that never answers.
use uvg_torrent.Base.{
  ℕ, zero, suc, ◌+◌, ◌-◌, ◌*◌, ◌%◌, ◌≤◌, ◌<◌, ◌≡◌, refl, sym, ap, ◌∙◌, true, Option, none, some,
  List, [], ◌∷◌, ◌++◌, arith, ltb, le→ltb, if◌then◌else◌, inl, inr, Bool-cases, Run, ok, fault,
  halted, out_of_fuel, Exit, exit_success, exit_failure, length, drop, Returns,
}
use mathlib.Core.Path.{subst}
use uvg_torrent.Libc.{CString}
use uvg_torrent.Words.{Host}
use uvg_torrent.Os.{
  Os, Cmd, World, sent, pure, and_then, lift, uninitialised, sent_count, sent_count-append,
}
use uvg_torrent.Socket
use uvg_torrent.Peer.{Peer}
use uvg_torrent.Socket.{Socket}
use uvg_torrent.Tracker.AnnouncePacket
use uvg_torrent.Tracker.AnnouncePacket.{Packet, PeerAddress}
use uvg_torrent.Tracker.State.{Tracker, generate_trans_id}
use uvg_torrent.Tracker.Announce.{
  our_peer_id, info_hash_of, hash_bytes, scan_byte, after_receive, request_announce,
  announce_connected, announce,
}

-- An info hash of 38 characters is read to the end.
pub hash_bytes-ok :
    (n i : ℕ) (garbage : ℕ → ℕ) (info_hash : CString)
    → 2 * (i + n) ≤ length info_hash + 2
    → (bytes : List ℕ) × (hash_bytes n i garbage info_hash ≡ ok bytes)
unfolding hash_bytes
hash_bytes-ok zero i garbage info_hash h = ([], refl)
hash_bytes-ok (suc n) i garbage info_hash h =
    let (bytes, read) = hash_bytes-ok n (i + 1) garbage info_hash (omega arith) in
    (
      scan_byte (garbage i % 256) (drop (2 * i) info_hash) ∷ bytes,
      rw (le→ltb (length info_hash) (2 * i) (omega arith), read) refl,
    )

-- Every datagram is taken, and none comes back.
pub record IsSilent (os : Os) : Type 0 where
  pub takes : (n : ℕ) → os.send n ≡ true
  pub silent : (n : ℕ) → os.recv n ≡ none

module _ (os : Os) (host : Host) (quiet : IsSilent os) (s : Socket) (fd : ℕ)
    (is_open : s.sock_desc ≡ some fd) where
  packet_sent :
      (p : Packet) (w : World)
      → AnnouncePacket.send os host p s w
        ≡ ok (exit_success, record { now = w.now + 1; log = w.log ++ sent fd p.request.bytes ∷ [] })
  unfolding AnnouncePacket.send Socket.send
  packet_sent p w = rw (is_open, quiet.takes w.now) refl

  nothing_received :
      (p : Packet) (w : World)
      → AnnouncePacket.receive os host p s w ≡ ok ((exit_failure, p), record w { now = w.now + 1 })
  unfolding AnnouncePacket.receive AnnouncePacket.answered Socket.receive
  nothing_received p w = rw (is_open, quiet.silent w.now) refl

-- A connected tracker comes to its request.
announce_request :
    (os : Os) (host : Host) (contact : CString → PeerAddress → Cmd Peer) (fuel : ℕ)
    (hash : Option CString) (info_hash : CString) (bytes : List ℕ) (t : Tracker) (s : Option Socket)
    (w : World)
    → t.connected ≡ true
    → info_hash_of hash ≡ ok info_hash
    → hash_bytes 20 0 (os.stack w.now) info_hash ≡ ok bytes
    → t.tracker_socket ≡ s
    → announce os host contact (suc fuel) hash t w
      ≡ request_announce os host contact
          (announce os host contact fuel hash)
          (record t { last_transaction_id = os.rand w.now % 1000000 })
          info_hash
          bytes
          s
          (record w { now = w.now + 1 })
unfolding announce announce_connected generate_trans_id
announce_request os host contact fuel hash info_hash bytes t s w connected known read socket =
    let drawn = record t { last_transaction_id = os.rand w.now % 1000000 } in
    let again = announce os host contact fuel hash in
    let later = record w { now = w.now + 1 } in
    ap
      (λ b.
        (if b then announce_connected os host contact again t hash else pure (exit_success, t)) w)
      connected
    ∙ ap
        (λ r. and_then (lift r later) λ i w'.
          and_then (lift (hash_bytes 20 0 (os.stack w.now) i) w')
            λ bs. request_announce os host contact again drawn i bs t.tracker_socket)
        known
    ∙ ap
        (λ r.
          and_then (lift r later)
            λ bs. request_announce os host contact again drawn info_hash bs t.tracker_socket)
        read
    ∙ ap (λ o. request_announce os host contact again drawn info_hash bytes o later) socket

-- What is left of the attempts, and the requests that they come to.
abbrev pub GivesUp : ℕ → ℕ → (Exit × Tracker) × World → Type 0
GivesUp max n ((e, t), w) =
    (e ≡ exit_success) × (t.attempts ≡ max) × (t.connected ≡ true) × (sent_count w.log ≡ n)

dropped :
    (max n : ℕ) (r : Run ((Exit × Tracker) × World))
    → Returns (GivesUp max n) r
    → Returns (GivesUp max n) (and_then r λ announced. pure (exit_success, announced.1))
dropped max n (ok ((e, t), w)) h = (refl, h.1, h.2, h.3)
dropped max n fault h = h
dropped max n halted h = h
dropped max n out_of_fuel h = h

module _ (os : Os) (host : Host) (contact : CString → PeerAddress → Cmd Peer) (quiet : IsSilent os)
    (s : Socket) (fd : ℕ) (is_open : s.sock_desc ≡ some fd) (max : ℕ) where
  after_silence :
      (n : ℕ) (again : Tracker → Cmd (Exit × Tracker)) (t : Tracker) (info_hash : CString)
      (p : Packet) (w : World)
      → t.max_attempts ≡ max
      → t.attempts ≤ max
      → t.connected ≡ true
      → sent_count w.log + (max - t.attempts) ≡ n
      → (t.attempts < max
          → Returns (GivesUp max n) (again (record t { attempts = t.attempts + 1 }) w))
      → Returns (GivesUp max n) (after_receive os host contact again t info_hash exit_failure p w)
  unfolding after_receive
  after_silence n again t info_hash p w limit few connected count retry =
      elim (Bool-cases (ltb t.attempts t.max_attempts)) [
        | inl more ↦ rw more (
            dropped max n (again (record t { attempts = t.attempts + 1 }) w) (retry (ground arith)))
        | inr last ↦ rw last (refl, ground arith, connected, ground arith)
      ]

  request_silence :
      (n : ℕ) (again : Tracker → Cmd (Exit × Tracker)) (t : Tracker) (info_hash : CString)
      (bytes : List ℕ) (w : World)
      → t.max_attempts ≡ max
      → t.attempts ≤ max
      → t.connected ≡ true
      → sent_count w.log + (max - t.attempts) + 1 ≡ n
      → ((w' : World)
          → sent_count w'.log ≡ sent_count w.log + 1
          → t.attempts < max
          → Returns (GivesUp max n) (again (record t { attempts = t.attempts + 1 }) w'))
      → Returns
          (GivesUp max n)
          (request_announce os host contact again t info_hash bytes (some s) w)
  unfolding request_announce sent_count
  request_silence n again t info_hash bytes w limit few connected count retry =
      let p : Packet =
        AnnouncePacket.packet_init host (uninitialised (os.stack w.now) 20 20)
          (uninitialised (os.stack w.now) 40 20) t.connection_id t.last_transaction_id bytes
          our_peer_id in
      rw
        (
          packet_sent os host quiet s fd is_open p w,
          nothing_received os host quiet s fd is_open p _,
        )
        (let one : sent_count (w.log ++ sent fd p.request.bytes ∷ []) ≡ sent_count w.log + 1 =
            sent_count-append w.log (sent fd p.request.bytes ∷ []) in
          after_silence n again t info_hash p _ limit few connected (omega (arith, one, count))
            λ more. retry _ one more)

  announce_exhausted :
      (fuel n : ℕ) (hash : Option CString) (info_hash : CString) (t : Tracker) (w : World)
      → info_hash_of hash ≡ ok info_hash
      → 38 ≤ length info_hash
      → t.tracker_socket ≡ some s
      → t.max_attempts ≡ max
      → t.attempts ≤ max
      → t.connected ≡ true
      → max - t.attempts < fuel
      → sent_count w.log + (max - t.attempts) + 1 ≡ n
      → Returns (GivesUp max n) (announce os host contact fuel hash t w)
  announce_exhausted zero n hash info_hash t w known long socket limit few connected enough count =
      absurd (omega arith)
  announce_exhausted (suc fuel) n hash info_hash t w known long socket limit few connected enough
        count =
      let (bytes, read) = hash_bytes-ok 20 0 (os.stack w.now) info_hash (omega arith) in
      subst (Returns (GivesUp max n))
        (sym (
          announce_request os host contact fuel hash info_hash bytes t (some s) w connected known
            read socket))
        (request_silence n (announce os host contact fuel hash)
          (record t { last_transaction_id = os.rand w.now % 1000000 }) info_hash bytes
          (record w { now = w.now + 1 }) limit few connected (omega (arith, count))
          λ w' one more.
            announce_exhausted fuel n hash info_hash _ w' known long socket limit (omega arith)
              connected (omega arith) (omega (arith, one, more, few, count)))

-- A connected tracker with an open socket that never answers, of a torrent whose hash has 38 characters
-- or more, is sent its request once for every attempt left and once more, with fuel for them. Then `announce` reports success, and the attempts stay used up.
pub announce-GivesUp :
    (os : Os) (host : Host) (contact : CString → PeerAddress → Cmd Peer) (s : Socket) (fd fuel : ℕ)
    (hash : Option CString) (info_hash : CString) (t : Tracker) (w : World)
    → IsSilent os
    → t.tracker_socket ≡ some s
    → s.sock_desc ≡ some fd
    → t.connected ≡ true
    → t.attempts ≤ t.max_attempts
    → info_hash_of hash ≡ ok info_hash
    → 38 ≤ length info_hash
    → t.max_attempts - t.attempts < fuel
    → Returns
        (GivesUp t.max_attempts (sent_count w.log + (t.max_attempts - t.attempts) + 1))
        (announce os host contact fuel hash t w)
announce-GivesUp os host contact s fd fuel hash info_hash t w quiet socket is_open connected few
      known long enough =
    announce_exhausted os host contact quiet s fd is_open t.max_attempts fuel _ hash info_hash t w
      known long socket refl few connected enough refl
