-- ===== src/Peer/Handshake.antt =====
-- peer/packets/peer_handshake_packet.c. Allocations succeed.
use uvg_torrent.Base.{
  ℕ, zero, suc, ◌+◌, Option, none, some, List, [], ◌∷◌, ◌++◌, take, drop, length, ◌==◌, ltb,
  if◌then◌else◌, Run, ok, fault, Exit, exit_success, exit_failure,
}
use uvg_torrent.Base
use uvg_torrent.Libc.{CString}
use uvg_torrent.Words.{load_le}
use uvg_torrent.Os.{Os, Cmd, pure, ◌>>=◌, received_into}
use uvg_torrent.Socket
use uvg_torrent.Socket.{Socket}
use uvg_torrent.Tracker.Announce.{hash_bytes}

pub record Request : Type 0 where
  pub bytes : List ℕ

pub record Response : Type 0 where
  pub pstrlen : ℕ
  pub pstr : List ℕ
  pub peer_id : List ℕ

pub record Packet : Type 0 where
  pub request : Request
  pub response : Option Response

-- "BitTorrent protocol".
abbrev pub pstr : CString
pstr =
    b'B' ∷ b'i' ∷ b't' ∷ b'T' ∷ b'o' ∷ b'r' ∷ b'r' ∷ b'e' ∷ b'n' ∷ b't' ∷ b' ' ∷ b'p' ∷ b'r' ∷ b'o'
    ∷ b't' ∷ b'o' ∷ b'c' ∷ b'o' ∷ b'l' ∷ []

-- The loop over the 8 reserved bytes, from byte `i` on.
unfoldable pub reserved : ℕ → ℕ → List ℕ
reserved zero i = []
reserved (suc n) i = (if i == 5 then 16 else 0) ∷ reserved n (i + 1)

-- What is written at the start of `bytes`, in an object with `slack` bytes behind that array; `heap`
-- is what a fresh object holds.
unfoldable pub fill_bytes : (slack : ℕ) (heap : ℕ → ℕ) (written : List ℕ) → Run Request
unfolding received_into
fill_bytes slack heap written =
    if ltb (68 + slack) (length written)
    then fault
    else ok (record { bytes = take 68 (received_into heap 68 written) })

-- `garbage` is what `info_hash_bytes` holds. `strcpy` writes the terminating zero as well.
unfoldable pub request_init :
    (slack : ℕ) (heap garbage : ℕ → ℕ) (info_hash peer_id : CString) → Run Request
unfolding hash_bytes reserved fill_bytes
request_init slack heap garbage info_hash peer_id =
    Base.◌>>=◌ (hash_bytes 20 0 garbage info_hash) λ info_hash_bytes.
      fill_bytes slack heap
        (19 ∷ (pstr ++ (reserved 8 0 ++ (info_hash_bytes ++ (peer_id ++ 0 ∷ [])))))

unfoldable pub response_init : List ℕ → Response
response_init raw_response = record {
  pstrlen = load_le (take 1 raw_response);
  pstr = take 19 (drop 1 raw_response);
  peer_id = take 20 (drop 48 raw_response);
}

unfoldable pub packet_init :
    (slack : ℕ) (heap garbage : ℕ → ℕ) (info_hash peer_id : CString) → Run Packet
unfolding request_init
packet_init slack heap garbage info_hash peer_id =
    Base.◌>>=◌ (request_init slack heap garbage info_hash peer_id)
      λ request. ok (record { request = request; response = none })

-- What `recv` gave, in an array of 2048 bytes.
unfoldable pub answered : (ℕ → ℕ) → Packet → Option (List ℕ) → Exit × Packet
unfolding response_init received_into
answered garbage this none = (exit_failure, this)
answered garbage this (some bytes) =
    if ltb 0 (length bytes)
    then (
      exit_success,
      record this { response = some (response_init (received_into garbage 2048 bytes)) },
    )
    else (exit_failure, this)

module _ (os : Os) where
  unfoldable pub send : Packet → Socket → Cmd Exit
  send this socket = Socket.send os socket this.request.bytes

  unfoldable pub receive : Packet → Socket → Cmd (Exit × Packet)
  unfolding answered
  receive this socket =
      λ w. (do out ← Socket.receive os socket 2048; pure (answered (os.stack w.now) this out)) w
