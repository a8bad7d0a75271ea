-- ===== src/Peer/Pieces.antt =====
-- The messages of peer_metadata_packet.c: the request for a piece of the metadata, and the piece.
use uvg_torrent.Base
use uvg_torrent.Base.{
  exit_success, ℕ, zero, suc, ◌+◌, ◌%◌, ◌^◌, ◌-◌, ◌≤◌, ◌<◌, ◌≡◌, true, refl, sym, ap, ◌∙◌, some,
  List, [], ◌∷◌, ◌++◌, append_assoc, take, take-append, drop, drop-append, drop_past, length,
  length-append, le→ltb, ok, arith,
}
use uvg_torrent.Libc.Search.{strstr, distance, is_absent, is_absent-Absent, strstr_found}
use uvg_torrent.Libc.Decimal.{decimal}
use uvg_torrent.Words.{Host, store, store_be, length-store_be}
use uvg_torrent.Net
use uvg_torrent.Net.Order.{store-htonl, ntohl-load}
use uvg_torrent.Os.{received_into}
use uvg_torrent.Os.{Os, World}
use uvg_torrent.Socket.{Socket}
use uvg_torrent.Peer.Stream.{buffer_size, zeros, is_positive}
use uvg_torrent.Peer.Reassembly.{Delivers, joined, AllFilled, receive_message-joined}
use uvg_torrent.Peer.Metadata.{
  Slack, bencoded_message, fill_bytes, Packet, answered, receive, request_init, response_init,
}

length-bencoded_message : (n : ℕ) → length (bencoded_message n) ≡ 24 + length (decimal n)
unfolding bencoded_message
length-bencoded_message n = omega (arith, length-append (decimal n) (b'e' ∷ b'e' ∷ []))

take_inside : (n : ℕ) (xs ys : List ℕ) → n ≤ length xs → take n (xs ++ ys) ≡ take n xs
take_inside zero xs ys h = refl
take_inside (suc n) [] ys h = absurd (omega arith)
take_inside (suc n) (x ∷ xs) ys h = ap (λ t. x ∷ t) (take_inside n xs ys (omega arith))

fill_bytes-full :
    (slack : Slack) (heap : ℕ → ℕ) (written : List ℕ)
    → 31 ≤ length written
    → length written ≤ 31 + slack.bytes
    → fill_bytes slack heap written ≡ ok (record { bytes = take 31 written })
unfolding fill_bytes received_into
fill_bytes-full slack heap written enough fits =
    rw (le→ltb (31 + slack.bytes) (length written) fits)
      (ap (λ b. ok (record { bytes = b })) (take_inside 31 written _ enough))

-- The request for piece `n` of the metadata: the first 31 bytes of the message, which is announced
-- with its whole length. That is all of it for one digit; with more, the end is not sent. The arrays
-- have as many bytes behind them as the number has digits.
pub metadata_request_layout :
    (host : Host) (slack : Slack) (heap : ℕ → ℕ) (n ut : ℕ)
    → length (decimal n) ≤ slack.message
    → length (decimal n) ≤ slack.bytes
    → 1 ≤ length (decimal n)
    → request_init host slack heap n ut
      ≡ ok (record {
        bytes =
            take 31 (store_be 4 (26 + length (decimal n)) ++ 20 ∷ ut % 256 ∷ bencoded_message n);
      })
unfolding request_init
metadata_request_layout host slack heap n ut message_fits bytes_fit some_digit =
    let message = bencoded_message n in
    let digits = length (decimal n) in
    let size = length-bencoded_message n in
    let header : store host 4 (Net.htonl host (length message + 2)) ≡ store_be 4 (26 + digits) =
      store-htonl host (length message + 2) ∙ ap (store_be 4) (omega (arith, size)) in
    let written = store_be 4 (26 + digits) ++ 20 ∷ ut % 256 ∷ message in
    let all : length written ≡ 30 + digits = omega (
      arith,
      length-append (store_be 4 (26 + digits)) (20 ∷ ut % 256 ∷ message),
      length-store_be 4 (26 + digits),
      size,
    ) in
    rw (le→ltb (25 + slack.message) (length message + 1) (omega (arith, size)), header)
      (fill_bytes-full slack heap written (omega (arith, all)) (omega (arith, all)))

-- The text behind the length and the two ids.
text_of :
    (header body behind : List ℕ) (id ut size : ℕ)
    → length header ≡ 4
    → length body ≡ size
    → take size (drop 6 ((header ++ id ∷ ut ∷ body) ++ behind)) ≡ body
text_of header body behind id ut size e f =
    ap (λ t. take size (drop 6 t)) (append_assoc header (id ∷ ut ∷ body) behind)
    ∙ ap (take size) (drop_past 2 header (id ∷ ut ∷ (body ++ behind)) 4 e)
    ∙ take-append body behind size f

-- A piece of the metadata is found behind the dictionary that leads it in, whose "ee" is the first of
-- the message; but its length is given as that of the whole message, the dictionary included. The
-- message fits the buffer.
response_init-piece :
    (host : Host) (frame : ℕ) (heap : ℕ → ℕ) (id ut : ℕ) (front piece : List ℕ)
    → 6 + (length front + 2 + length piece) ≤ buffer_size
    → is_absent (b'e' ∷ b'e' ∷ []) front (b'e' ∷ b'e' ∷ (piece ++ 0 ∷ [])) ≡ true
    → response_init host frame heap (
        store_be 4 (2 + (length front + 2 + length piece))
        ++ (id ∷ ut ∷ (front ++ b'e' ∷ b'e' ∷ piece)))
      ≡ ok (record {
        response = received_into heap (length front + 2 + length piece + 1) piece;
        response_len = length front + 2 + length piece;
      })
unfolding response_init distance
response_init-piece host frame heap id ut front piece small absent =
    let size = length front + 2 + length piece in
    let body = front ++ b'e' ∷ b'e' ∷ piece in
    let raw = store_be 4 (2 + size) ++ id ∷ ut ∷ body in
    let first : take 4 raw ≡ store_be 4 (2 + size) =
      take-append (store_be 4 (2 + size)) (id ∷ ut ∷ body) 4 (length-store_be 4 (2 + size)) in
    let decoded = ntohl-load host (2 + size) (omega arith) in
    let count : (2 + size + (2 ^ 32 - 2)) % 2 ^ 32 ≡ size = omega arith in
    let ee : List ℕ = b'e' ∷ b'e' ∷ [] in
    let found : strstr 0 (body ++ 0 ∷ []) ee ≡ ok (some (0 + length front)) =
      ap (λ t. strstr 0 t ee) (append_assoc front (b'e' ∷ b'e' ∷ piece) (0 ∷ []))
      ∙ strstr_found 0 b'e' (b'e' ∷ []) front (piece ++ 0 ∷ [])
          (is_absent-Absent ee front (b'e' ∷ b'e' ∷ (piece ++ 0 ∷ [])) absent) in
    let place : ((0 + length front) % 2 ^ 32 + 2) % 2 ^ 32 ≡ length front + 2 = omega arith in
    let rest : drop (length front + 2) body ≡ piece =
      ap (drop (length front + 2)) (sym (append_assoc front ee piece))
      ∙ drop-append (front ++ ee) piece (length front + 2) (length-append front ee) in
    rw
      (
        first,
        decoded,
        count,
        le→ltb buffer_size (6 + size) small,
        text_of (store_be 4 (2 + size)) body (zeros (6 + size)) id ut size
            (length-store_be 4 (2 + size))
            (omega (arith, length-append front (b'e' ∷ b'e' ∷ piece))),
        found,
        place,
        le→ltb size (length front + 2) (omega arith),
        rest,
      )
      refl

piece_answered :
    (host : Host) (frame : ℕ) (heap : ℕ → ℕ) (this : Packet) (id ut : ℕ) (front piece : List ℕ)
    → 6 + (length front + 2 + length piece) ≤ buffer_size
    → is_absent (b'e' ∷ b'e' ∷ []) front (b'e' ∷ b'e' ∷ (piece ++ 0 ∷ [])) ≡ true
    → let body = id ∷ ut ∷ (front ++ b'e' ∷ b'e' ∷ piece) in
      answered host frame heap this (record {
        size = length body;
        bytes_received = some (length body);
        out = store_be 4 (length body) ++ body;
      })
      ≡ ok (
        exit_success,
        record this {
          response = some (record {
            response = received_into heap (length front + 2 + length piece + 1) piece;
            response_len = length front + 2 + length piece;
          });
        },
      )
unfolding answered is_positive
piece_answered host frame heap this id ut front piece small absent =
    let body = id ∷ ut ∷ (front ++ b'e' ∷ b'e' ∷ piece) in
    let size : length body ≡ 2 + (length front + 2 + length piece) =
      omega (arith, length-append front (b'e' ∷ b'e' ∷ piece)) in
    ap
      (λ n.
        Base.◌>>=◌ (response_init host frame heap (store_be 4 n ++ body))
          λ response. ok (exit_success, record this { response = some response }))
      size
    ∙ rw (response_init-piece host frame heap id ut front piece small absent) refl

-- The receiving of a piece succeeds, however the network cuts the message into parts: the message comes
-- as its length, whole, and then in parts that are not empty. The piece is what stands behind the first
-- "ee", but its length is given as that of the whole text, the dictionary in front of it included.
-- The message fits the buffer, and there is fuel for one round more than there are parts.
pub receive-piece :
    (os : Os) (host : Host) (fuel : ℕ) (this : Packet) (s : Socket) (fd id ut : ℕ)
    (front piece : List ℕ) (chunks : List (List ℕ)) (w : World)
    → s.sock_desc ≡ some fd
    → joined chunks ≡ id ∷ ut ∷ (front ++ b'e' ∷ b'e' ∷ piece)
    → os.recv w.now ≡ some (store_be 4 (length (joined chunks)))
    → Delivers os (w.now + 1) chunks
    → AllFilled chunks
    → 6 + (length front + 2 + length piece) ≤ buffer_size
    → is_absent (b'e' ∷ b'e' ∷ []) front (b'e' ∷ b'e' ∷ (piece ++ 0 ∷ [])) ≡ true
    → length chunks < fuel
    → receive os host fuel this s w
      ≡ ok (
        (
          exit_success,
          record this {
            response = some (record {
              response = received_into (os.stack w.now) (length front + 2 + length piece + 1) piece;
              response_len = length front + 2 + length piece;
            });
          },
        ),
        record w { now = w.now + 1 + length chunks },
      )
unfolding receive
receive-piece os host fuel this s fd id ut front piece chunks w is_open text sent delivers whole
      small absent enough =
    let size : length (joined chunks) ≡ 2 + (length front + 2 + length piece) =
      ap length text ∙ omega (arith, length-append front (b'e' ∷ b'e' ∷ piece)) in
    rw
      (
        receive_message-joined os host fuel s fd chunks w is_open sent delivers whole
            (omega (arith, size)) enough,
        text,
        piece_answered host (os.frame w.now) (os.stack w.now) this id ut front piece small absent,
      )
      refl
