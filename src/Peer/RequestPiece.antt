-- ===== src/Peer/RequestPiece.antt =====
-- peer/packets/peer_request_piece_packet.c.
use uvg_torrent.Base.{
  ℕ, ◌+◌, Option, none, some, List, ◌∷◌, ◌++◌, if◌then◌else◌, Exit, exit_success, exit_failure,
}
use uvg_torrent.Libc.{CString}
use uvg_torrent.Words.{Host, store}
use uvg_torrent.Net.{htonl}
use uvg_torrent.Os.{Os, Cmd, pure, ◌>>=◌}
use uvg_torrent.Socket
use uvg_torrent.Socket.{Socket}
use uvg_torrent.Peer.Stream.{Message, is_positive, receive_message}

pub record Request : Type 0 where
  pub bytes : List ℕ

-- `response` is NULL; `response_len` stays as it was allocated.
pub data Response : Type 0 where
  unread : Response

pub record Packet : Type 0 where
  pub request : Request
  pub response : Option Response

-- The index, the offset and the length are not turned into network order, and no argument is used.
unfoldable pub request_init : Host → (piece_num piece_size : ℕ) → Request
request_init host piece_num piece_size = record {
  bytes =
      store host 4 (htonl host 13) ++ 6 ∷ (store host 4 0 ++ (store host 4 0 ++ store host 4 32));
}

unfoldable pub response_init : List ℕ → ℕ → Response
response_init raw_response res_size = unread

unfoldable pub packet_init : Host → (piece_num piece_size : ℕ) → (filepath : CString) → Packet
unfolding request_init
packet_init host piece_num piece_size filepath = record {
  request = request_init host piece_num piece_size;
  response = none;
}

-- Behind the loop of `receive`.
unfoldable pub answered : Packet → Message → Exit × Packet
unfolding is_positive response_init
answered this message =
    if is_positive message.bytes_received
    then (
      exit_success,
      record this { response = some (response_init message.out (message.size + 4)) },
    )
    else (exit_failure, this)

module _ (os : Os) (host : Host) (fuel : ℕ) where
  unfoldable pub send : Packet → Socket → Cmd Exit
  send this socket = Socket.send os socket this.request.bytes

  unfoldable pub receive : Packet → Socket → Cmd (Exit × Packet)
  unfolding answered
  receive this socket = do
    message ← receive_message os host fuel socket
    pure (answered this message)
