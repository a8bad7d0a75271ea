-- ===== src/Tests/Fetching.antt =====
-- The theorem on the fetching of the metadata.
use uvg_torrent.Base.{
  ℕ, zero, suc, ◌≡◌, refl, true, none, some, Option, List, [], ◌∷◌, arith, ok, exit_success,
}
use uvg_torrent.Words.{little, store_be}
use uvg_torrent.Libc.Search.{is_absent, starts_with}
use uvg_torrent.Libc.Decimal.{decimal, digits}
use uvg_torrent.Os.{Os}
use uvg_torrent.Bencode.Documents.{dict}
use uvg_torrent.Peer.{Peer}
use uvg_torrent.Peer.Session.{get_metadata}
use uvg_torrent.Peer.Fetch.{Answer, AllServed, all_served, all_fetched, get_metadata-all_fetched}
use uvg_torrent.Tests.{quiet_os, outset, open_socket}
use uvg_torrent.Tests.Peers.{usual_layout, seven}
use uvg_torrent.Tests.Documents.{documents, one_file_metadata, one_file_shown}

-- Two answers of seven bytes each, which come whole.
abbrev answer : Answer
answer = record {
  id = 20;
  ut = 3;
  front = b'd' ∷ [];
  piece = 1 ∷ 2 ∷ [];
  chunks = (20 ∷ 3 ∷ b'd' ∷ b'e' ∷ b'e' ∷ 1 ∷ 2 ∷ []) ∷ [];
}

abbrev answering : ℕ → Option (List ℕ)
answering zero = none
answering (suc zero) = some (store_be 4 7)
answering (suc (suc zero)) = some (20 ∷ 3 ∷ b'd' ∷ b'e' ∷ b'e' ∷ 1 ∷ 2 ∷ [])
answering (suc (suc (suc zero))) = none
answering (suc (suc (suc (suc zero)))) = some (store_be 4 7)
answering (suc (suc (suc (suc (suc n))))) = some (20 ∷ 3 ∷ b'd' ∷ b'e' ∷ b'e' ∷ 1 ∷ 2 ∷ [])

abbrev serving_os : Os
serving_os = record quiet_os { recv = answering; send = λ n. true }

abbrev asked : Peer
asked = record {
  ip = b'1' ∷ [];
  port = 80;
  socket = open_socket;
  ut_metadata = some 3;
  metadata_size = some 10;
  num_pieces = some 2;
  piece_size = some 16384;
}

both_served : AllServed serving_os little usual_layout 9 3 3 0 (answer ∷ answer ∷ []) outset
unfolding decimal digits is_absent starts_with
both_served = (
  record {
    sends = refl;
    text = refl;
    announced = refl;
    delivers = (refl, tt);
    whole = (omega arith, tt);
    small = omega arith;
    absent = refl;
    enough = omega arith;
    message_room = omega arith;
    bytes_room = omega arith;
  },
  (
    record {
      sends = refl;
      text = refl;
      announced = refl;
      delivers = (refl, tt);
      whole = (omega arith, tt);
      small = omega arith;
      absent = refl;
      enough = omega arith;
      message_room = omega arith;
      bytes_room = omega arith;
    },
    tt,
  ),
)

get_metadata-all_fetched_example :
    get_metadata serving_os little usual_layout 9
      (documents (dict one_file_metadata))
      asked
      10
      outset
    ≡ ok (
      exit_success,
      all_served serving_os little usual_layout 9 3 3 0 (answer ∷ answer ∷ []) outset,
    )
get_metadata-all_fetched_example =
    get_metadata-all_fetched serving_os little usual_layout 9 3 3
      (documents (dict one_file_metadata)) asked (answer ∷ answer ∷ []) 10 ((seven, 5) ∷ []) outset
      refl refl refl (omega arith) (omega arith) (omega arith) (omega arith) both_served
      (one_file_shown
        (all_fetched serving_os little usual_layout 9 3 3 0 (answer ∷ answer ∷ []) outset))
