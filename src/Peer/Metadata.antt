-- ===== src/Peer/Metadata.antt =====
-- peer/packets/peer_metadata_packet.c.
use uvg_torrent.Base.{
  ℕ, ◌+◌, ◌-◌, ◌%◌, ◌^◌, true, false, Option, none, some, List, [], ◌∷◌, ◌++◌, take, drop, length,
  ltb, leb, if◌then◌else◌, Run, ok, fault, Exit, exit_success, exit_failure,
}
use uvg_torrent.Base
use uvg_torrent.Libc.{CString}
use uvg_torrent.Libc.Search.{strstr, distance}
use uvg_torrent.Libc.Decimal.{decimal}
use uvg_torrent.Words.{Host, store, load}
use uvg_torrent.Net
use uvg_torrent.Os.{Os, Cmd, ◌>>=◌, lift, received_into}
use uvg_torrent.Socket
use uvg_torrent.Socket.{Socket}
use uvg_torrent.Peer.Stream.{Message, buffer_size, zeros, is_positive, receive_message}

pub record Request : Type 0 where
  pub bytes : List ℕ

pub record Response : Type 0 where
  pub response : List ℕ
  pub response_len : ℕ

pub record Packet : Type 0 where
  pub request : Request
  pub response : Option Response

-- How many bytes the platform leaves behind `bencoded_message[25]` and behind `bytes[31]`.
pub record Slack : Type 0 where
  pub message : ℕ
  pub bytes : ℕ

-- "d8:msg_typei0e5:piecei", the number, and "ee".
unfoldable pub bencoded_message : ℕ → CString
bencoded_message piece_num =
    b'd'
    ∷ b'8'
    ∷ b':'
    ∷ b'm'
    ∷ b's'
    ∷ b'g'
    ∷ b'_'
    ∷ b't'
    ∷ b'y'
    ∷ b'p'
    ∷ b'e'
    ∷ b'i'
    ∷ b'0'
    ∷ b'e'
    ∷ b'5'
    ∷ b':'
    ∷ b'p'
    ∷ b'i'
    ∷ b'e'
    ∷ b'c'
    ∷ b'e'
    ∷ b'i'
    ∷ (decimal piece_num ++ b'e' ∷ b'e' ∷ [])

-- What is written at the start of `bytes`; `heap` is what a fresh object holds.
unfoldable pub fill_bytes : Slack → (heap : ℕ → ℕ) → (written : List ℕ) → Run Request
fill_bytes slack heap written =
    if ltb (31 + slack.bytes) (length written)
    then fault
    else ok (record { bytes = take 31 (received_into heap 31 written) })

-- `sprintf` writes the terminating zero as well.
unfoldable pub request_init :
    Host → Slack → (heap : ℕ → ℕ) → (piece_num ut_metadata : ℕ) → Run Request
request_init host slack heap piece_num ut_metadata =
    let message = bencoded_message piece_num in
    let header = store host 4 (Net.htonl host (length message + 2)) in
    if ltb (25 + slack.message) (length message + 1)
    then fault
    else fill_bytes slack heap (header ++ 20 ∷ ut_metadata % 256 ∷ message)

-- `raw_response` holds zeros behind what was written. The text is copied to the address `frame`;
-- `msg_pos` runs past it unless "ee" stands in it (or the address of the text is tiny).
unfoldable pub response_init : Host → ℕ → (heap : ℕ → ℕ) → List ℕ → Run Response
response_init host frame heap raw_response =
    let length = (Net.ntohl host (load host (take 4 raw_response)) + (2 ^ 32 - 2)) % 2 ^ 32 in
    let bencoded_response = take length (drop 6 (raw_response ++ zeros (6 + length))) in
    if ltb buffer_size (6 + length)
    then fault
    else (Base.◌>>=◌ (strstr 0 (bencoded_response ++ 0 ∷ []) (b'e' ∷ b'e' ∷ [])) λ result.
        let msg_pos = (distance frame result + 2) % 2 ^ 32 in
        if ltb length msg_pos
        then fault
        else ok (record {
          response = received_into heap (length + 1) (drop msg_pos bencoded_response);
          response_len = length;
        }))

unfoldable pub packet_init :
    Host → Slack → (heap : ℕ → ℕ) → (piece_num ut_metadata : ℕ) → Run Packet
packet_init host slack heap piece_num ut_metadata =
    Base.◌>>=◌ (request_init host slack heap piece_num ut_metadata)
      λ request. ok (record { request = request; response = none })

-- Behind the loop of `receive`.
unfoldable pub answered : Host → ℕ → (heap : ℕ → ℕ) → Packet → Message → Run (Exit × Packet)
answered host frame heap this message =
    if is_positive message.bytes_received
    then (Base.◌>>=◌ (response_init host frame heap message.out)
        λ response. ok (exit_success, record this { response = some response }))
    else ok (exit_failure, this)

module _ (os : Os) (host : Host) (fuel : ℕ) where
  unfoldable pub send : Packet → Socket → Cmd Exit
  send this socket = Socket.send os socket this.request.bytes

  unfoldable pub receive : Packet → Socket → Cmd (Exit × Packet)
  receive this socket = λ w.
      (do
        message ← receive_message os host fuel socket
        lift (answered host (os.frame w.now) (os.stack w.now) this message))
        w
