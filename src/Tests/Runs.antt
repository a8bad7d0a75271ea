-- ===== src/Tests/Runs.antt =====
-- The theorems on the torrent and its trackers.
use uvg_torrent.Base.{
  ◌≡◌, refl, true, false, Option, some, [], ◌∷◌, ◌++◌, arith, ok, Returns, exit_success,
  exit_failure, length,
}
use uvg_torrent.Libc.{CString}
use uvg_torrent.Words.{Host, store, store_be}
use uvg_torrent.Hashmap
use uvg_torrent.Os.{Cmd, pure, Finishes, sent_count}
use uvg_torrent.Str.{
  urlencode, encode_char, is_unreserved, to_hex, shift_right_4, split, split_loop, append_buffer,
}
use uvg_torrent.Tracker.ConnectPacket
use uvg_torrent.Tracker.AnnouncePacket
use uvg_torrent.Tracker.AnnouncePacket.{loopback}
use uvg_torrent.Tracker.Layout.{announce_request_layout}
use uvg_torrent.Tracker.Connect
use uvg_torrent.Tracker.Bounds.{Connected, connect-Connected}
use uvg_torrent.Tracker.Accept.{read_answer, connect_response, read_answer-response}
use uvg_torrent.Tracker.Peers.{
  OnlyLoopback, peer_entries, announce_header, response_init-OnlyLoopback, response_init-entries,
}
use uvg_torrent.Tracker.State.{at_pointer}
use uvg_torrent.LinkedList.View.{list_get, get_from}
use uvg_torrent.Tracker.Announce
use uvg_torrent.Tracker.Announce.{info_hash_of}
use uvg_torrent.Tracker.Silent.{GivesUp, announce-GivesUp}
use uvg_torrent.Torrent
use uvg_torrent.Torrent.Trackers.{TriedAll, connect-TriedAll}
use uvg_torrent.Peer
use uvg_torrent.Peer.{Peer}
use uvg_torrent.Tracker.Released.{logged, closings, check_announce-closings}
use uvg_torrent.Tracker.AnnouncePacket.{PeerAddress, Response, loopback}
use uvg_torrent.Tests.Peers.{small_peer}
use uvg_torrent.Torrent.Parse.{parse, parse_chars, key_xt}
use uvg_torrent.Torrent.Parse.Pairs.{print_query, start, store_all, parse_chars-print_query}
use uvg_torrent.Torrent.Parse.Link.{Address, IsAddress, trackers_at, later}
use uvg_torrent.Torrent.Parse.Magnet.{IsName, magnet, parse-magnet}
use uvg_torrent.Tests.{
  quiet_os, quiet_os-IsSilent, outset, open_socket, new_tracker, connected_tracker,
}

abbrev letter_a : CString
letter_a = b'a' ∷ []

abbrev letter_b : CString
letter_b = b'b' ∷ []

abbrev tracker_address : Address
tracker_address = (letter_a, letter_b, letter_a)

tracker_address-IsAddress : IsAddress tracker_address
unfolding urlencode encode_char is_unreserved to_hex shift_right_4
tracker_address-IsAddress = (
  (((omega arith, omega arith), tt), refl, omega arith),
  (((omega arith, omega arith), tt), refl, omega arith),
  (((omega arith, omega arith), tt), refl, omega arith),
  omega arith,
)

letter_b-IsName : IsName letter_b
unfolding urlencode encode_char is_unreserved to_hex shift_right_4
letter_b-IsName = (((omega arith, omega arith), tt), omega arith, omega arith)

parse-magnet_example :
    parse quiet_os 1
      (some (magnet letter_a letter_b (tracker_address ∷ [])))
      (Torrent.init [])
      outset
    ≡ ok (
      (
        exit_success,
        record (Torrent.init []) {
          name = some letter_b;
          hash = some letter_a;
          trackers = some (trackers_at quiet_os 0 (tracker_address ∷ []));
        },
      ),
      later outset 1,
    )
parse-magnet_example =
    parse-magnet quiet_os 0 (Torrent.init []) letter_a letter_b (tracker_address ∷ []) outset
      (refl, omega arith, omega arith) letter_b-IsName (tracker_address-IsAddress, tt)

parse_chars-print_query_example :
    parse_chars quiet_os (print_query ((key_xt, letter_a) ∷ [])) (start Hashmap.new []) outset
    ≡ store_all quiet_os ((key_xt, letter_a) ∷ []) (start Hashmap.new []) outset
parse_chars-print_query_example =
    parse_chars-print_query quiet_os (key_xt, letter_a) [] Hashmap.new [] outset
      (((refl, omega arith), (refl, omega arith, omega arith)), tt)

connect-Connected_example :
    Finishes (Connected false 0 5 6) (Connect.connect quiet_os Host.little 6 new_tracker outset)
unfolding sent_count
connect-Connected_example =
    connect-Connected quiet_os Host.little 6 new_tracker outset (omega arith)

connect-TriedAll_example : Finishes (TriedAll (new_tracker ∷ []) 6) (
    Torrent.connect quiet_os Host.little 6
      (record (Torrent.init []) { trackers = some (new_tracker ∷ []) })
      outset)
unfolding sent_count
connect-TriedAll_example =
    connect-TriedAll quiet_os Host.little 6
      (record (Torrent.init []) { trackers = some (new_tracker ∷ []) }) (new_tracker ∷ []) outset
      refl (omega arith, tt)

read_answer-response_example :
    read_answer quiet_os Host.big
      (λ t. pure (exit_failure, t))
      new_tracker
      (ConnectPacket.packet_init Host.big 7)
      (some (connect_response Host.big 0 7 99))
      outset
    ≡ ok ((exit_success, record new_tracker { connected = true; connection_id = 99 }), outset)
read_answer-response_example =
    read_answer-response quiet_os Host.big (λ t. pure (exit_failure, t)) new_tracker
      (ConnectPacket.packet_init Host.big 7) 0 7 99 outset (omega arith) (omega arith) (omega arith)

-- Thirty-eight zeros.
abbrev zeros : CString
zeros =
    b'0' ∷ b'0' ∷ b'0' ∷ b'0' ∷ b'0' ∷ b'0' ∷ b'0' ∷ b'0' ∷ b'0' ∷ b'0' ∷ b'0' ∷ b'0' ∷ b'0' ∷ b'0'
    ∷ b'0' ∷ b'0' ∷ b'0' ∷ b'0' ∷ b'0' ∷ b'0' ∷ b'0' ∷ b'0' ∷ b'0' ∷ b'0' ∷ b'0' ∷ b'0' ∷ b'0'
    ∷ b'0' ∷ b'0' ∷ b'0' ∷ b'0' ∷ b'0' ∷ b'0' ∷ b'0' ∷ b'0' ∷ b'0' ∷ b'0' ∷ b'0' ∷ []

abbrev torrent_hash : Option CString
torrent_hash = some (b'u' ∷ b':' ∷ b'b' ∷ b':' ∷ zeros)

hash_known : info_hash_of torrent_hash ≡ ok zeros
unfolding info_hash_of split split_loop append_buffer list_get get_from at_pointer
hash_known = refl

abbrev fresh_contact : CString → PeerAddress → Cmd Peer
fresh_contact hash address = pure (Peer.new address.ip address.port)

announce-GivesUp_example :
    Returns
      (GivesUp 5 3)
      (Announce.announce quiet_os Host.little fresh_contact 3 torrent_hash connected_tracker outset)
unfolding sent_count
announce-GivesUp_example =
    announce-GivesUp quiet_os Host.little fresh_contact open_socket 3 3 torrent_hash zeros
      connected_tracker outset quiet_os-IsSilent refl refl refl (omega arith) hash_known
      (omega arith) (omega arith)

response_init-OnlyLoopback_example :
    Returns (λ r. OnlyLoopback r.peers) (AnnouncePacket.response_init Host.little (0 ∷ 1 ∷ []) 2)
response_init-OnlyLoopback_example =
    response_init-OnlyLoopback Host.little (0 ∷ 1 ∷ []) 2 (omega arith)

response_init-entries_example :
    AnnouncePacket.response_init Host.little
      (announce_header Host.little 1 7 60 2 3 (peer_entries ((0x01020304, 80) ∷ []) ++ []))
      26
    ≡ ok (record {
      action = 1;
      transaction_id = 7;
      interval = 60;
      leechers = 2;
      seeders = 3;
      peers = loopback ∷ [];
    })
response_init-entries_example =
    response_init-entries Host.little 1 7 60 2 3 ((0x01020304, 80) ∷ []) [] (omega arith)
      (omega arith) (omega arith) (omega arith) (omega arith) ((omega arith, omega arith), tt)
      (omega arith)

abbrev twenty : CString
twenty =
    b'0' ∷ b'0' ∷ b'0' ∷ b'0' ∷ b'0' ∷ b'0' ∷ b'0' ∷ b'0' ∷ b'0' ∷ b'0' ∷ b'0' ∷ b'0' ∷ b'0' ∷ b'0'
    ∷ b'0' ∷ b'0' ∷ b'0' ∷ b'0' ∷ b'0' ∷ b'0' ∷ []

announce_request_layout_example :
    let bytes = (AnnouncePacket.request_init Host.little [] [] 99 7 twenty twenty).bytes in
    (bytes
      ≡ store_be 8 99
        ++ (store_be 4 1
            ++ (store Host.little 4 7
                ++ (twenty
                    ++ (twenty
                        ++ (store_be 8 0
                            ++ (store_be 8 0
                                ++ (store_be 8 0
                                    ++ (store_be 4 2
                                        ++ (store_be 4 0
                                            ++ (store_be 4 1
                                                ++ (store_be 4 1
                                                    ++ (store_be 2 0 ++ store_be 2 0)))))))))))))
    × (length bytes ≡ 100)
announce_request_layout_example =
    announce_request_layout Host.little [] [] 99 7 twenty twenty (omega arith) refl refl

-- Two peers, each with an open socket.
abbrev open_contact : CString → PeerAddress → Cmd Peer
open_contact hash address = pure small_peer

abbrev two_peers : Response
two_peers = record {
  action = 1;
  transaction_id = connected_tracker.last_transaction_id;
  interval = 5;
  leechers = 1;
  seeders = 1;
  peers = loopback ∷ loopback ∷ [];
}

check_announce-closings_example :
    Announce.check_announce quiet_os Host.little open_contact connected_tracker []
      (some two_peers)
      outset
    ≡ ok (
      (exit_success, record connected_tracker { attempts = 0 }),
      logged outset (closings (small_peer ∷ small_peer ∷ [])),
    )
unfolding Announce.contact_all
check_announce-closings_example =
    check_announce-closings quiet_os Host.little open_contact connected_tracker [] two_peers
      (small_peer ∷ small_peer ∷ []) outset outset refl refl
