-- ===== src/Tests/Peers.antt =====
-- The theorems on the peers, the pool of threads and the random numbers.
use uvg_torrent.Base.{
  ℕ, zero, suc, Bool, ◌&&◌, ◌+◌, ◌≤◌, ◌≡◌, refl, true, false, none, some, Option, List, [], ◌∷◌,
  ◌++◌, drop, arith, if◌then◌else◌, ◌==◌, ok, fault, out_of_fuel, All, exit_success,
}
use uvg_torrent.Libc.{CString}
use uvg_torrent.Libc.Search.{is_absent, starts_with}
use uvg_torrent.Libc.Decimal.{decimal, digits}
use uvg_torrent.Words.{little, store_be}
use uvg_torrent.Os.{Os, closed, received_into, uninitialised}
use uvg_torrent.Str.Hex.{hex_bytes}
use uvg_torrent.Peer.{Peer, destroy, Layout, our_peer_id}
use uvg_torrent.Peer.Stream.{receive_message}
use uvg_torrent.Peer.Reassembly.{receive_message-joined, receive_message_stuck}
use uvg_torrent.Peer.Handshake
use uvg_torrent.Peer.ExtendedHandshake
use uvg_torrent.Peer.ExtendedHandshake.{metadata_size_key, ut_metadata_key}
use uvg_torrent.Peer.Numbers.{IsShown, response_init-numbers}
use uvg_torrent.Peer.Wire.{handshake_bytes, handshake_layout}
use uvg_torrent.Peer.Session.{contact, after_handshake}
use uvg_torrent.Bencode.{Reader}
use uvg_torrent.Peer.Ends.{IsTalking}
use uvg_torrent.Peer.Refused.{contact_refused, arrived, metadata_small}
use uvg_torrent.Tracker.Announce.{is_hex}
use uvg_torrent.Tracker.AnnouncePacket.{loopback}
use uvg_torrent.Tests.{quiet_os, outset, open_socket}

-- A message of two bytes that comes byte by byte.
abbrev chunks : List (List ℕ)
chunks = (5 ∷ []) ∷ (6 ∷ []) ∷ []

abbrev arriving : ℕ → Option (List ℕ)
arriving zero = some (store_be 4 2)
arriving (suc zero) = some (5 ∷ [])
arriving (suc (suc n)) = some (6 ∷ [])

receive_message-joined_example :
    receive_message (record quiet_os { recv = arriving }) little 3 open_socket outset
    ≡ ok (
      record { size = 2; bytes_received = some 2; out = store_be 4 2 ++ 5 ∷ 6 ∷ [] },
      record outset { now = 3 },
    )
receive_message-joined_example =
    receive_message-joined (record quiet_os { recv = arriving }) little 3 open_socket 3 chunks
      outset refl refl (refl, (refl, tt)) (omega arith, (omega arith, tt)) (omega arith)
      (omega arith)

-- A length, and then nothing more.
abbrev closing : ℕ → Option (List ℕ)
closing zero = some (store_be 4 2)
closing (suc n) = some []

closing-later : (n : ℕ) → 0 + 1 ≤ n → closing n ≡ some []
closing-later zero h = absurd (omega arith)
closing-later (suc n) h = refl

receive_message_stuck_example :
    receive_message (record quiet_os { recv = closing }) little 1000 open_socket outset
    ≡ out_of_fuel
receive_message_stuck_example =
    receive_message_stuck (record quiet_os { recv = closing }) little 1000 open_socket 3 2 outset
      refl (omega arith) (omega arith) refl closing-later

abbrev pub talking_os : Os
talking_os = record quiet_os { recv = λ n. some (0 ∷ []) }

pub talking_os-IsTalking : IsTalking talking_os
talking_os-IsTalking = record { talks = λ n. (0 ∷ [], refl, omega arith) }

abbrev pub usual_layout : Layout
usual_layout = record {
  handshake = 4;
  metadata = record { message = 7; bytes = 5 };
  dict_key = λ n. 16;
  unset_long = 0;
  mistaken = record {
    table_int = 4096;
    list_int = 8192;
    table_text = 16 ∷ [];
    table_list = λ t. ok [];
    destroyed = λ t. ok tt;
  };
}

-- A reader that finds neither a dictionary nor anything else.
abbrev pub no_files : Reader
no_files = record {
  Bencode = List ℕ;
  init = λ bytes. bytes;
  is_dict = λ be. false;
  is_int = λ be. false;
  is_string = λ be. false;
  is_list = λ be. false;
  dict_has_next = λ be. false;
  dict_get_next = λ be. none;
  int_value = λ be. none;
  string_value = λ be. none;
  list_has_next = λ be. (false, be);
  list_get_next = λ be. (none, be);
}

-- "d1:md11:ut_metadatai3ee13:metadata_sizei20000ee", behind its length and its two ids.
abbrev raw_handshake : List ℕ
raw_handshake =
    0 ∷ 0 ∷ 0 ∷ 50 ∷ 20 ∷ 0 ∷ b'd' ∷ b'1' ∷ b':' ∷ b'm' ∷ b'd' ∷ b'1' ∷ b'1' ∷ b':' ∷ b'u' ∷ b't'
    ∷ b'_' ∷ b'm' ∷ b'e' ∷ b't' ∷ b'a' ∷ b'd' ∷ b'a' ∷ b't' ∷ b'a' ∷ b'i' ∷ b'3' ∷ b'e' ∷ b'e'
    ∷ b'1' ∷ b'3' ∷ b':' ∷ b'm' ∷ b'e' ∷ b't' ∷ b'a' ∷ b'd' ∷ b'a' ∷ b't' ∷ b'a' ∷ b'_' ∷ b's'
    ∷ b'i' ∷ b'z' ∷ b'e' ∷ b'i' ∷ b'2' ∷ b'0' ∷ b'0' ∷ b'0' ∷ b'0' ∷ b'e' ∷ b'e' ∷ 0 ∷ []

size-IsShown : IsShown metadata_size_key 20000 53 (drop 6 raw_handshake)
unfolding is_absent starts_with decimal digits
size-IsShown = record {
  front =
      b'd' ∷ b'1' ∷ b':' ∷ b'm' ∷ b'd' ∷ b'1' ∷ b'1' ∷ b':' ∷ b'u' ∷ b't' ∷ b'_' ∷ b'm' ∷ b'e'
      ∷ b't' ∷ b'a' ∷ b'd' ∷ b'a' ∷ b't' ∷ b'a' ∷ b'i' ∷ b'3' ∷ b'e' ∷ b'e' ∷ b'1' ∷ b'3' ∷ b':'
      ∷ [];
  rest = b'e' ∷ 0 ∷ [];
  split = refl;
  absent = refl;
  inside = omega arith;
  small = omega arith;
}

ut-IsShown : IsShown ut_metadata_key 3 53 (drop 6 raw_handshake)
unfolding is_absent starts_with decimal digits
ut-IsShown = record {
  front = b'd' ∷ b'1' ∷ b':' ∷ b'm' ∷ b'd' ∷ b'1' ∷ b'1' ∷ b':' ∷ [];
  rest =
      b'e' ∷ b'1' ∷ b'3' ∷ b':' ∷ b'm' ∷ b'e' ∷ b't' ∷ b'a' ∷ b'd' ∷ b'a' ∷ b't' ∷ b'a' ∷ b'_'
      ∷ b's' ∷ b'i' ∷ b'z' ∷ b'e' ∷ b'i' ∷ b'2' ∷ b'0' ∷ b'0' ∷ b'0' ∷ b'0' ∷ b'e' ∷ b'e' ∷ 0 ∷ [];
  split = refl;
  absent = refl;
  inside = omega arith;
  small = omega arith;
}

response_init-numbers_example :
    ExtendedHandshake.response_init 4096 raw_handshake 53
    ≡ ok (record {
      ut_metadata = 3;
      metadata_size = 20000;
      num_pieces = some 1;
      piece_size = some 16384;
    })
response_init-numbers_example =
    response_init-numbers 4096 20000 3 53 raw_handshake size-IsShown ut-IsShown (omega arith)

abbrev info_hash : CString
info_hash =
    b'0' ∷ b'1' ∷ b'2' ∷ b'3' ∷ b'4' ∷ b'5' ∷ b'6' ∷ b'7' ∷ b'8' ∷ b'9' ∷ b'a' ∷ b'b' ∷ b'c' ∷ b'd'
    ∷ b'e' ∷ b'f' ∷ b'0' ∷ b'1' ∷ b'2' ∷ b'3' ∷ b'4' ∷ b'5' ∷ b'6' ∷ b'7' ∷ b'8' ∷ b'9' ∷ b'A'
    ∷ b'B' ∷ b'C' ∷ b'D' ∷ b'E' ∷ b'F' ∷ b'0' ∷ b'1' ∷ b'2' ∷ b'3' ∷ b'4' ∷ b'5' ∷ b'6' ∷ b'7' ∷ []

every_hex : CString → Bool
every_hex [] = true
every_hex (c ∷ s) = is_hex c && every_hex s

hex_checked : (s : CString) → every_hex s ≡ true → All (λ c. is_hex c ≡ true) s
unfolding every_hex
hex_checked [] h = tt
hex_checked (c ∷ s) h = (ground arith, hex_checked s (ground arith))

handshake_layout_example : Handshake.request_init 4 (λ i. 0) (λ i. 0) info_hash our_peer_id ≡ (
    if 4 == 0
    then fault
    else ok (record { bytes = handshake_bytes (hex_bytes 20 info_hash) our_peer_id }))
unfolding every_hex
handshake_layout_example =
    handshake_layout 4 (λ i. 0) (λ i. 0) info_hash refl (hex_checked info_hash refl)

abbrev pub seven : CString
seven = b'7' ∷ []

abbrev refusing_os : Os
refusing_os = record quiet_os { connect = λ n. false }

contact_refused_example :
    contact refusing_os little usual_layout 5 no_files info_hash loopback outset ≡ fault
contact_refused_example =
    contact_refused refusing_os little usual_layout 5 no_files info_hash loopback 3 (b'1' ∷ []) []
      outset refl refl refl

abbrev pub small_peer : Peer
small_peer = record {
  ip = b'1' ∷ [];
  port = 80;
  socket = open_socket;
  ut_metadata = some 3;
  metadata_size = some 5000;
  num_pieces = some 0;
  piece_size = some 16384;
}

-- The descriptor is closed, once.
small_peer_destroyed :
    destroy quiet_os small_peer outset ≡ ok (tt, record outset { log = closed 3 ∷ [] })
unfolding destroy
small_peer_destroyed = refl

-- The same message with a size of 5000.
abbrev small_handshake : List ℕ
small_handshake =
    0 ∷ 0 ∷ 0 ∷ 48 ∷ 20 ∷ 0 ∷ b'd' ∷ b'1' ∷ b':' ∷ b'm' ∷ b'd' ∷ b'1' ∷ b'1' ∷ b':' ∷ b'u' ∷ b't'
    ∷ b'_' ∷ b'm' ∷ b'e' ∷ b't' ∷ b'a' ∷ b'd' ∷ b'a' ∷ b't' ∷ b'a' ∷ b'i' ∷ b'3' ∷ b'e' ∷ b'e'
    ∷ b'1' ∷ b'3' ∷ b':' ∷ b'm' ∷ b'e' ∷ b't' ∷ b'a' ∷ b'd' ∷ b'a' ∷ b't' ∷ b'a' ∷ b'_' ∷ b's'
    ∷ b'i' ∷ b'z' ∷ b'e' ∷ b'i' ∷ b'5' ∷ b'0' ∷ b'0' ∷ b'0' ∷ b'e' ∷ b'e' ∷ []

abbrev small_os : Os
small_os = record quiet_os { recv = λ n. some small_handshake }

small_size-IsShown : IsShown metadata_size_key 5000 52 (drop 6 (arrived small_os 1 small_handshake))
unfolding is_absent starts_with decimal digits received_into
small_size-IsShown = record {
  front =
      b'd' ∷ b'1' ∷ b':' ∷ b'm' ∷ b'd' ∷ b'1' ∷ b'1' ∷ b':' ∷ b'u' ∷ b't' ∷ b'_' ∷ b'm' ∷ b'e'
      ∷ b't' ∷ b'a' ∷ b'd' ∷ b'a' ∷ b't' ∷ b'a' ∷ b'i' ∷ b'3' ∷ b'e' ∷ b'e' ∷ b'1' ∷ b'3' ∷ b':'
      ∷ [];
  rest = b'e' ∷ uninitialised (small_os.stack 1) 52 1996;
  split = refl;
  absent = refl;
  inside = omega arith;
  small = omega arith;
}

small_ut-IsShown : IsShown ut_metadata_key 3 52 (drop 6 (arrived small_os 1 small_handshake))
unfolding is_absent starts_with decimal digits received_into
small_ut-IsShown = record {
  front = b'd' ∷ b'1' ∷ b':' ∷ b'm' ∷ b'd' ∷ b'1' ∷ b'1' ∷ b':' ∷ [];
  rest =
      b'e'
      ∷ b'1'
      ∷ b'3'
      ∷ b':'
      ∷ b'm'
      ∷ b'e'
      ∷ b't'
      ∷ b'a'
      ∷ b'd'
      ∷ b'a'
      ∷ b't'
      ∷ b'a'
      ∷ b'_'
      ∷ b's'
      ∷ b'i'
      ∷ b'z'
      ∷ b'e'
      ∷ b'i'
      ∷ b'5'
      ∷ b'0'
      ∷ b'0'
      ∷ b'0'
      ∷ b'e'
      ∷ b'e'
      ∷ uninitialised (small_os.stack 1) 52 1996;
  split = refl;
  absent = refl;
  inside = omega arith;
  small = omega arith;
}

metadata_small_example :
    after_handshake small_os little usual_layout 5 no_files (exit_success, small_peer) outset
    ≡ fault
metadata_small_example =
    metadata_small small_os little usual_layout 5 no_files small_peer 3 3 5000 small_handshake
      outset refl refl refl (omega arith) (omega arith) (omega arith) (omega arith)
      small_size-IsShown small_ut-IsShown
