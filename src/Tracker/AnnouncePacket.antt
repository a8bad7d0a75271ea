-- ===== src/Tracker/AnnouncePacket.antt =====
-- tracker/packets/tracker_announce_packet.c. Integers are their bit patterns, allocations succeed.
use uvg_torrent.Base.{
  ℕ, zero, suc, ◌+◌, Bool, true, false, Option, none, some, List, [], ◌∷◌, ◌++◌, take, drop, length,
  ◌==◌, ltb, leb, if◌then◌else◌, Run, ok, fault, out_of_fuel, Exit, exit_success, exit_failure,
}
use uvg_torrent.Base
use uvg_torrent.Libc.{CString}
use uvg_torrent.Words.{Host, store, load}
use uvg_torrent.Net.{htonll, htonl, htons, ntohl}
use uvg_torrent.Os.{Os, Cmd, pure, ◌>>=◌, lift, received_into}
use uvg_torrent.Socket
use uvg_torrent.Socket.{Socket}

pub record Request : Type 0 where
  pub connection_id : ℕ
  pub action : ℕ
  pub transaction_id : ℕ
  pub info_hash : List ℕ
  pub peer_id : List ℕ
  pub downloaded : ℕ
  pub left : ℕ
  pub uploaded : ℕ
  pub event : ℕ
  pub ip : ℕ
  pub key : ℕ
  pub num_want : ℕ
  pub port : ℕ
  pub extensions : ℕ
  pub bytes : List ℕ

-- What `Peer_new` is told of a peer.
pub record PeerAddress : Type 0 where
  pub ip : CString
  pub port : ℕ

pub record Response : Type 0 where
  pub action : ℕ
  pub transaction_id : ℕ
  pub interval : ℕ
  pub leechers : ℕ
  pub seeders : ℕ
  pub peers : List PeerAddress

pub record Packet : Type 0 where
  pub request : Request
  pub response : Option Response

-- `hash_slot` and `id_slot` are the memory at the parameters `info_hash_bytes` and `peer_id`
-- themselves: two copies take the address of the parameter, and so its own bytes.
unfoldable pub request_init :
    Host → (hash_slot id_slot : List ℕ) → ℕ → ℕ → (info_hash_bytes peer_id : List ℕ) → Request
request_init host hash_slot id_slot connection_id transaction_id info_hash_bytes peer_id =
    let action = htonl host 1 in
    let downloaded = htonll host 0 in
    let left = htonll host 0 in
    let uploaded = htonll host 0 in
    let event = htonl host 2 in
    let ip = htonl host 0 in
    let key = htonl host 1 in
    let num_want = htonl host 1 in
    let port = htons host 0 in
    let extensions = htons host 0 in
    let conn_id = htonll host connection_id in
    record {
      connection_id = conn_id;
      action = action;
      transaction_id = transaction_id;
      info_hash = take 20 hash_slot;
      peer_id = take 20 id_slot;
      downloaded = downloaded;
      left = left;
      uploaded = uploaded;
      event = event;
      ip = ip;
      key = key;
      num_want = num_want;
      port = port;
      extensions = extensions;
      bytes =
          store host 8 conn_id
          ++ (store host 4 action
              ++ (store host 4 transaction_id
                  ++ (take 20 info_hash_bytes
                      ++ (take 20 peer_id
                          ++ (store host 8 downloaded
                              ++ (store host 8 left
                                  ++ (store host 8 uploaded
                                      ++ (store host 4 event
                                          ++ (store host 4 ip
                                              ++ (store host 4 key
                                                  ++ (store host 4 num_want
                                                      ++ (store host 2 port
                                                          ++ store host 2 extensions))))))))))));
    }

-- `NEW(Peer, "127.0.0.1", 51413)`.
abbrev pub loopback : PeerAddress
loopback = record {
  ip = b'1' ∷ b'2' ∷ b'7' ∷ b'.' ∷ b'0' ∷ b'.' ∷ b'0' ∷ b'.' ∷ b'1' ∷ [];
  port = 51413;
}

-- The loop over the peers from `offset` on: it stops at the end of the response, or at an address
-- that prints as 0.0.0.0. A read past the 2048 bytes of the buffer faults.
unfoldable pub peers_loop : ℕ → Host → List ℕ → ℕ → ℕ → List PeerAddress → Run (List PeerAddress)
peers_loop zero host raw res_size offset peers = out_of_fuel
peers_loop (suc fuel) host raw res_size offset peers =
    let int_ip = ntohl host (load host (take 4 (drop offset raw))) in
    let more = peers_loop fuel host raw res_size (offset + 6) (peers ++ loopback ∷ []) in
    if leb res_size offset
    then ok peers
    else if ltb 2048 (offset + 6)
    then fault
    else if int_ip == 0
    then ok peers
    else more

-- Each round moves 6 bytes on, so that many rounds and one more are enough.
unfoldable pub response_init : Host → List ℕ → ℕ → Run Response
unfolding peers_loop
response_init host raw_response res_size =
    let with_peers = λ (peers : List PeerAddress). ok (record {
      action = ntohl host (load host (take 4 raw_response));
      transaction_id = load host (take 4 (drop 4 raw_response));
      interval = ntohl host (load host (take 4 (drop 8 raw_response)));
      leechers = ntohl host (load host (take 4 (drop 12 raw_response)));
      seeders = ntohl host (load host (take 4 (drop 16 raw_response)));
      peers = peers;
    }) in
    Base.◌>>=◌ (peers_loop (res_size + 1) host raw_response res_size 20 []) with_peers

unfoldable pub packet_init :
    Host → (hash_slot id_slot : List ℕ) → ℕ → ℕ → (info_hash_bytes peer_id : List ℕ) → Packet
unfolding request_init
packet_init host hash_slot id_slot connection_id transaction_id info_hash_bytes peer_id = record {
  request =
      request_init host hash_slot id_slot connection_id transaction_id info_hash_bytes peer_id;
  response = none;
}

module _ (os : Os) (host : Host) where
  unfoldable pub send : Packet → Socket → Cmd Exit
  send this socket = Socket.send os socket this.request.bytes

  unfoldable pub answered : Packet → Option (List ℕ) → Cmd (Exit × Packet)
  unfolding response_init
  answered this none w = pure (exit_failure, this) w
  answered this (some bytes) w =
      let out = received_into (os.stack w.now) 2048 bytes in
      (do
        response ← lift (response_init host out (length bytes))
        pure (exit_success, record this { response = some response }))
        w

  unfoldable pub receive : Packet → Socket → Cmd (Exit × Packet)
  unfolding answered
  receive this socket = do packet ← Socket.receive os socket 2048; answered this packet
