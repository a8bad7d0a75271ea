-- ===== src/Tracker/ConnectPacket.antt =====
-- tracker/packets/tracker_connect_packet.c. 32 and 64-bit integers are their bit patterns.
-- Allocations succeed.
use uvg_torrent.Base.{
  ℕ, Option, none, some, List, ◌++◌, take, drop, Exit, exit_success, exit_failure,
}
use uvg_torrent.Words.{Host, store, load}
use uvg_torrent.Net.{htonll, htonl, ntohll, ntohl}
use uvg_torrent.Os.{Os, Cmd, pure, ◌>>=◌, received_into}
use uvg_torrent.Socket
use uvg_torrent.Socket.{Socket}

pub record Request : Type 0 where
  pub connection_id : ℕ
  pub action : ℕ
  pub transaction_id : ℕ
  pub bytes : List ℕ

pub record Response : Type 0 where
  pub action : ℕ
  pub transaction_id : ℕ
  pub connection_id : ℕ

pub record Packet : Type 0 where
  pub request : Request
  pub response : Option Response

unfoldable pub request_init : Host → ℕ → Request
request_init host transaction_id =
    let connection_id = htonll host 0x41727101980 in
    let action = htonl host 0 in
    record {
      connection_id = connection_id;
      action = action;
      transaction_id = transaction_id;
      bytes = store host 8 connection_id ++ (store host 4 action ++ store host 4 transaction_id);
    }

unfoldable pub response_init : Host → List ℕ → Response
response_init host raw_response = record {
  action = ntohl host (load host (take 4 raw_response));
  transaction_id = load host (take 4 (drop 4 raw_response));
  connection_id = ntohll host (load host (take 8 (drop 8 raw_response)));
}

unfoldable pub packet_init : Host → ℕ → Packet
unfolding request_init
packet_init host transaction_id = record {
  request = request_init host transaction_id;
  response = none;
}

module _ (os : Os) (host : Host) where
  unfoldable pub send : Packet → Socket → Cmd Exit
  send this socket = Socket.send os socket this.request.bytes

  -- The buffer is not cleared, and the size received is not compared with the size of a response.
  unfoldable pub answered : Packet → Option (List ℕ) → Cmd (Exit × Packet)
  unfolding response_init
  answered this none w = pure (exit_failure, this) w
  answered this (some bytes) w =
      let out = received_into (os.stack w.now) 2048 bytes in
      pure (exit_success, record this { response = some (response_init host out) }) w

  unfoldable pub receive : Packet → Socket → Cmd (Exit × Packet)
  unfolding answered
  receive this socket = do packet ← Socket.receive os socket 2048; answered this packet
