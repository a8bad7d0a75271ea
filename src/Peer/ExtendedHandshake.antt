-- ===== src/Peer/ExtendedHandshake.antt =====
-- peer/packets/peer_extended_handshake_packet.c. An `int` is its bit pattern.
use uvg_torrent.Base.{
  ℕ, zero, suc, ◌+◌, ◌*◌, ◌/◌, ◌%◌, ◌^◌, ◌-◌, Bool, true, false, ◌||◌, not, Option, none, some,
  List, [], ◌∷◌, ◌++◌, drop, length, ◌==◌, ltb, leb, if◌then◌else◌, Run, ok, fault, Exit,
  exit_success, exit_failure,
}
use uvg_torrent.Base
use uvg_torrent.Libc.{CString, is_digit, c_string, skip_space, atoi}
use uvg_torrent.Libc.Search.{strstr, distance}
use uvg_torrent.Words.{Host, store}
use uvg_torrent.Net.{htonl}
use uvg_torrent.Os.{Os, Cmd, ◌>>=◌, lift, received_into}
use uvg_torrent.Socket
use uvg_torrent.Socket.{Socket}

pub record Request : Type 0 where
  pub bytes : List ℕ

-- `num_pieces` and `piece_size` are none while they hold what `malloc` left there.
pub record Response : Type 0 where
  pub ut_metadata : ℕ
  pub metadata_size : ℕ
  pub num_pieces : Option ℕ
  pub piece_size : Option ℕ

pub record Packet : Type 0 where
  pub request : Request
  pub response : Option Response

-- "d1:md11:ut_metadatai1eee".
abbrev pub bencoded_message : CString
bencoded_message =
    b'd' ∷ b'1' ∷ b':' ∷ b'm' ∷ b'd' ∷ b'1' ∷ b'1' ∷ b':' ∷ b'u' ∷ b't' ∷ b'_' ∷ b'm' ∷ b'e' ∷ b't'
    ∷ b'a' ∷ b'd' ∷ b'a' ∷ b't' ∷ b'a' ∷ b'i' ∷ b'1' ∷ b'e' ∷ b'e' ∷ b'e' ∷ []

-- "metadata_sizei" and "ut_metadatai".
abbrev pub metadata_size_key : CString
metadata_size_key =
    b'm' ∷ b'e' ∷ b't' ∷ b'a' ∷ b'd' ∷ b'a' ∷ b't' ∷ b'a' ∷ b'_' ∷ b's' ∷ b'i' ∷ b'z' ∷ b'e' ∷ b'i'
    ∷ []

abbrev pub ut_metadata_key : CString
ut_metadata_key =
    b'u' ∷ b't' ∷ b'_' ∷ b'm' ∷ b'e' ∷ b't' ∷ b'a' ∷ b'd' ∷ b'a' ∷ b't' ∷ b'a' ∷ b'i' ∷ []

unfoldable pub request_init : Host → Request
request_init host = record {
  bytes = store host 4 (htonl host (length bencoded_message + 2)) ++ 20 ∷ 0 ∷ bencoded_message;
}

-- The copy into `buffer[10]`: up to `n` bytes before an 'e', and whether the zero was written.
unfoldable pub copy_number : ℕ → List ℕ → Run (List ℕ × Bool)
copy_number zero text = ok ([], false)
copy_number (suc n) [] = fault
copy_number (suc n) (c ∷ text) =
    let rest = Base.◌>>=◌ (copy_number n text) λ copied. ok (c ∷ copied.0, copied.1) in
    if c == b'e' then ok ([], true) else rest

unfoldable pub all_digits : List ℕ → Bool
all_digits [] = true
all_digits (c ∷ cs) = if is_digit c then all_digits cs else false

unfoldable pub without_sign : List ℕ → List ℕ
without_sign [] = []
without_sign (c ∷ cs) = if c == b'-' || c == b'+' then cs else c ∷ cs

-- `atoi(buffer)`: without a zero it stops inside the array only at something that is no digit.
unfoldable pub read_number : List ℕ × Bool → Run ℕ
unfolding c_string skip_space atoi all_digits without_sign
read_number (chars, true) = ok (atoi (c_string chars))
read_number (chars, false) =
    if all_digits (without_sign (skip_space chars)) then fault else ok (atoi (c_string chars))

-- The number behind `key`: none if `position < res_size` fails, for `text` at `address`. A negative
-- position is below `res_size`, and reads in front of the array.
unfoldable pub number_after : ℕ → List ℕ → CString → ℕ → Run (Option ℕ)
unfolding strstr distance copy_number read_number
number_after address text key res_size = Base.◌>>=◌ (strstr 0 text key) λ result.
    let position = distance address result in
    if leb (2 ^ 31) position
    then fault
    else if ltb position res_size
    then (Base.◌>>=◌ (copy_number 10 (drop (position + length key) text))
        λ copied. Base.◌>>=◌ (read_number copied) λ number. ok (some number))
    else ok none

-- `metadata_size / piece_size` of signed numbers, rounded towards zero.
unfoldable pub quotient : ℕ → ℕ → ℕ
quotient n d = if ltb n (2 ^ 31) then n / d else (2 ^ 32 - (2 ^ 32 - n) / d) % 2 ^ 32

-- The fields, from what was found behind the two keys.
unfoldable pub with_numbers : Option ℕ → Option ℕ → Response
unfolding quotient
with_numbers none none = record {
  ut_metadata = 0;
  metadata_size = 0;
  num_pieces = none;
  piece_size = none;
}
with_numbers none (some u) = record {
  ut_metadata = u;
  metadata_size = 0;
  num_pieces = none;
  piece_size = none;
}
with_numbers (some n) none = record {
  ut_metadata = 0;
  metadata_size = n;
  num_pieces = some (quotient n (16 * 1024));
  piece_size = some (16 * 1024);
}
with_numbers (some n) (some u) = record {
  ut_metadata = u;
  metadata_size = n;
  num_pieces = some (quotient n (16 * 1024));
  piece_size = some (16 * 1024);
}

-- `frame` is the address of `raw_response`.
unfoldable pub response_init : ℕ → List ℕ → ℕ → Run Response
unfolding number_after with_numbers
response_init frame raw_response res_size =
    let bencoded_response = drop 6 raw_response in
    let find = λ (key : CString). number_after (frame + 6) bencoded_response key res_size in
    Base.◌>>=◌ (find metadata_size_key) λ metadata_size.
      Base.◌>>=◌ (find ut_metadata_key) λ ut_metadata. ok (with_numbers metadata_size ut_metadata)

unfoldable pub packet_init : Host → Packet
unfolding request_init
packet_init host = record { request = request_init host; response = none }

-- What `recv` gave, in an array of 2048 bytes at the address `frame`.
unfoldable pub answered : ℕ → (ℕ → ℕ) → Packet → Option (List ℕ) → Run (Exit × Packet)
unfolding response_init received_into
answered frame garbage this none = ok (exit_failure, this)
answered frame garbage this (some bytes) =
    if ltb 0 (length bytes)
    then (Base.◌>>=◌ (response_init frame (received_into garbage 2048 bytes) (length bytes))
        λ response. ok (exit_success, record this { response = some response }))
    else ok (exit_failure, this)

module _ (os : Os) where
  unfoldable pub send : Packet → Socket → Cmd Exit
  send this socket = Socket.send os socket this.request.bytes

  unfoldable pub receive : Packet → Socket → Cmd (Exit × Packet)
  unfolding answered
  receive this socket = λ w.
      (do
        out ← Socket.receive os socket 2048
        lift (answered (os.frame w.now) (os.stack w.now) this out))
        w
