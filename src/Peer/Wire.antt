-- ===== src/Peer/Wire.antt =====
-- The messages of peer/packets, byte by byte.
use uvg_torrent.Base.{
  ℕ, zero, suc, ◌+◌, ◌*◌, ◌^◌, ◌-◌, ◌≡◌, refl, sym, ap, ◌∙◌, true, List, [], ◌∷◌, ◌++◌,
  append_assoc, take-append, drop-append, length, length-append, All, ◌==◌, ltb, le→ltb,
  if◌then◌else◌, ok, fault, arith,
}
use uvg_torrent.Libc.{CString}
use uvg_torrent.Os.{received_into, uninitialised}
use uvg_torrent.Words.{Host, little, big, store, store_le, load, load_le, load_be, store_be}
use uvg_torrent.Net.{htonl}
use uvg_torrent.Str.Hex.{digit, hex_bytes}
use uvg_torrent.Tracker.Announce.{is_hex, hex_digit, scan_byte, hash_bytes}
use uvg_torrent.Peer.{our_peer_id}
use uvg_torrent.Peer.Handshake
use uvg_torrent.Peer.RequestPiece

digit-hex_digit : (c : ℕ) → is_hex c ≡ true → hex_digit c ≡ digit c
unfolding digit
digit-hex_digit c h = ground arith

-- An info hash of `2 * n` hexadecimal digits is read as the bytes that it spells.
hash_bytes-hex_bytes :
    (n i : ℕ) (garbage : ℕ → ℕ) (front text : CString)
    → length front ≡ 2 * i
    → length text ≡ 2 * n
    → All (λ c. is_hex c ≡ true) text
    → hash_bytes n i garbage (front ++ text) ≡ ok (hex_bytes n text)
unfolding hash_bytes scan_byte hex_bytes
hash_bytes-hex_bytes zero i garbage front text e f h = refl
hash_bytes-hex_bytes (suc n) i garbage front [] e f h = absurd (omega arith)
hash_bytes-hex_bytes (suc n) i garbage front (a ∷ []) e f h = absurd (omega arith)
hash_bytes-hex_bytes (suc n) i garbage front (a ∷ b ∷ text) e f h =
    let next : hash_bytes n (i + 1) garbage (front ++ a ∷ b ∷ text) ≡ ok (hex_bytes n text) =
      ap (hash_bytes n (i + 1) garbage) (sym (append_assoc front (a ∷ b ∷ []) text))
      ∙ hash_bytes-hex_bytes n (i + 1) garbage (front ++ a ∷ b ∷ []) text
          (omega (arith, length-append front (a ∷ b ∷ []))) (omega arith) h.1.1 in
    rw
      (
        le→ltb (length (front ++ a ∷ b ∷ text)) (2 * i)
            (omega (arith, length-append front (a ∷ b ∷ text))),
        next,
        drop-append front (a ∷ b ∷ text) (2 * i) e,
        h.0,
        h.1.0,
        digit-hex_digit a h.0,
        digit-hex_digit b h.1.0,
      )
      (ap (λ v. ok (v ∷ hex_bytes n text)) (omega arith))

length-hex_bytes : (n : ℕ) (text : CString) → length (hex_bytes n text) ≡ n
unfolding hex_bytes
length-hex_bytes zero text = refl
length-hex_bytes (suc n) [] = ap suc (length-hex_bytes n [])
length-hex_bytes (suc n) (a ∷ []) = ap suc (length-hex_bytes n [])
length-hex_bytes (suc n) (a ∷ b ∷ text) = ap suc (length-hex_bytes n text)

-- The handshake of the BitTorrent protocol, with the bit of the extension protocol set.
abbrev pub handshake_bytes : (hash peer_id : List ℕ) → List ℕ
handshake_bytes hash peer_id =
    19 ∷ (Handshake.pstr ++ (0 ∷ 0 ∷ 0 ∷ 0 ∷ 0 ∷ 16 ∷ 0 ∷ 0 ∷ (hash ++ peer_id)))

length-handshake_bytes :
    (hash : List ℕ) → length hash ≡ 20 → length (handshake_bytes hash our_peer_id) ≡ 68
length-handshake_bytes hash e = omega (arith, length-append hash our_peer_id)

over : (slack : ℕ) → ltb (68 + slack) 69 ≡ (slack == 0)
over slack = ground arith

fill_bytes-full :
    (slack : ℕ) (heap : ℕ → ℕ) (bytes : List ℕ)
    → length bytes ≡ 68
    → Handshake.fill_bytes slack heap (bytes ++ 0 ∷ [])
      ≡ (if slack == 0 then fault else ok (record { bytes = bytes }))
unfolding Handshake.fill_bytes received_into
fill_bytes-full slack heap bytes e =
    let size : length (bytes ++ 0 ∷ []) ≡ 69 = omega (arith, length-append bytes (0 ∷ [])) in
    rw (size, over slack, append_assoc bytes (0 ∷ []) (uninitialised heap 69 (68 - 69)))
      (rw (take-append bytes (0 ∷ uninitialised heap 69 (68 - 69)) 68 e) refl)

-- For an info hash of 40 hexadecimal digits the handshake is the 68 bytes of the protocol with the
-- bytes that the digits spell; the zero behind the peer id is written past the array, which faults
-- unless the object has bytes left there.
pub handshake_layout :
    (slack : ℕ) (heap garbage : ℕ → ℕ) (text : CString)
    → length text ≡ 40
    → All (λ c. is_hex c ≡ true) text
    → Handshake.request_init slack heap garbage text our_peer_id ≡ (
        if slack == 0
        then fault
        else ok (record { bytes = handshake_bytes (hex_bytes 20 text) our_peer_id }))
unfolding Handshake.request_init
handshake_layout slack heap garbage text e h =
    let hash = hex_bytes 20 text in
    let read : hash_bytes 20 0 garbage text ≡ ok hash =
      hash_bytes-hex_bytes 20 0 garbage [] text refl e h in
    rw read (
      ap
        (λ t.
          Handshake.fill_bytes slack heap
            (19 ∷ (Handshake.pstr ++ (0 ∷ 0 ∷ 0 ∷ 0 ∷ 0 ∷ 16 ∷ 0 ∷ 0 ∷ t))))
        (sym (append_assoc hash our_peer_id (0 ∷ [])))
      ∙ fill_bytes-full slack heap (handshake_bytes hash our_peer_id)
          (length-handshake_bytes hash (length-hex_bytes 20 text)))

-- A handshake is read back: the name of the protocol and the peer id behind the 20 bytes of the hash.
handshake_read_back :
    (hash peer_id rest : List ℕ)
    → length hash ≡ 20
    → length peer_id ≡ 20
    → Handshake.response_init (handshake_bytes hash (peer_id ++ rest))
      ≡ record { pstrlen = 19; pstr = Handshake.pstr; peer_id = peer_id }
unfolding Handshake.response_init load_le
handshake_read_back hash peer_id rest e f =
    rw (drop-append hash (peer_id ++ rest) 20 e, take-append peer_id rest 20 f) refl

-- The request for a piece says the same whatever piece is wanted, and its last field is not in network
-- order: a little endian host asks for 2^29 bytes, a big endian host for 32.
request_piece_layout :
    (host : Host) (piece_num piece_size : ℕ)
    → ((RequestPiece.request_init host piece_num piece_size).bytes
        ≡ store_be 4 13 ++ 6 ∷ (store_be 4 0 ++ (store_be 4 0 ++ store host 4 32)))
      × (load_be (store host 4 32) ≡ elim host [ little ↦ 2 ^ 29 | big ↦ 32 ])
unfolding RequestPiece.request_init htonl store load_be load_le store_be store_le load
request_piece_layout little piece_num piece_size = (refl, refl)
request_piece_layout big piece_num piece_size = (refl, refl)
