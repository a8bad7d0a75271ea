-- ===== src/Peer/Numbers.antt =====
-- What peer_extended_handshake_packet.c reads behind the two keys.
use uvg_torrent.Base.{
  ℕ, zero, suc, ◌+◌, ◌/◌, ◌%◌, ◌^◌, ◌<◌, ◌≤◌, ◌≡◌, refl, sym, ap, ◌∙◌, true, false, some, List, [],
  ◌∷◌, ◌++◌, append_assoc, drop, drop-append, length, length-append, ◌==◌, leb, lt→ltb, ok, arith,
}
use uvg_torrent.Libc.{CString, is_digit, c_string, atoi}
use uvg_torrent.Libc.Search.{distance, Absent, is_absent, is_absent-Absent, strstr_found}
use uvg_torrent.Libc.Decimal.{
  decimal, AllDigits, decimal-AllDigits, length-decimal-le, c_string-digits, atoi-decimal,
}
use uvg_torrent.Peer.ExtendedHandshake.{
  metadata_size_key, ut_metadata_key, copy_number, number_after, quotient, with_numbers,
  response_init,
}

copy_number-digits :
    (n : ℕ) (s rest : List ℕ)
    → AllDigits s
    → length s < n
    → copy_number n (s ++ b'e' ∷ rest) ≡ ok (s, true)
unfolding copy_number
copy_number-digits zero s rest h small = absurd (omega arith)
copy_number-digits (suc n) [] rest h small = refl
copy_number-digits (suc n) (c ∷ s) rest h small =
    rw (not_e c h.0, copy_number-digits n s rest h.1 (omega arith)) refl
  where
    not_e : (c : ℕ) → is_digit c ≡ true → (c == 101) ≡ false
    not_e c h = ground arith

atoi-c_string : (n : ℕ) → n < 10 ^ 9 → atoi (c_string (decimal n)) ≡ n
atoi-c_string n h =
    ap atoi (c_string-digits (decimal n) (decimal-AllDigits n)) ∙ atoi-decimal n (omega arith)

behind :
    (k : ℕ) (key front rest : List ℕ)
    → drop (length front + suc (length key)) (front ++ k ∷ (key ++ rest)) ≡ rest
behind k key front rest =
    ap (drop (length front + suc (length key))) (sym (append_assoc front (k ∷ key) rest))
    ∙ drop-append (front ++ k ∷ key) rest (length front + suc (length key))
        (length-append front (k ∷ key))

not_past : (n : ℕ) → n < 2 ^ 31 → leb (2 ^ 31) n ≡ false
not_past n h = ground arith

-- A number of at most nine digits behind the first `key`, with an 'e' behind it.
number_after-decimal :
    (address k n res_size : ℕ) (key front rest : List ℕ)
    → Absent (k ∷ key) front (k ∷ (key ++ (decimal n ++ b'e' ∷ rest)))
    → n < 10 ^ 9
    → length front < res_size
    → res_size ≤ 2 ^ 31
    → number_after address (front ++ k ∷ (key ++ (decimal n ++ b'e' ∷ rest))) (k ∷ key) res_size
      ≡ ok (some n)
unfolding number_after distance
number_after-decimal address k n res_size key front rest absent small inside fits =
    let place : (0 + length front) % 2 ^ 32 ≡ length front = omega arith in
    rw
      (
        strstr_found 0 k key front (decimal n ++ b'e' ∷ rest) absent,
        place,
        not_past (length front) (omega arith),
        lt→ltb (length front) res_size inside,
        behind k key front (decimal n ++ b'e' ∷ rest),
        copy_number-digits 10 (decimal n) rest (decimal-AllDigits n)
            (omega (arith, length-decimal-le 8 n small)),
      )
      (ap (λ v. ok (some v)) (atoi-c_string n small))

quotient-small : (n d : ℕ) → n < 2 ^ 31 → quotient n d ≡ n / d
unfolding quotient
quotient-small n d h = rw (lt→ltb n (2 ^ 31) h) refl

-- A text of `res_size` bytes or more in which a number of at most nine digits, and an 'e', stand
-- behind the first `key`.
pub record IsShown (key : CString) (n res_size : ℕ) (text : List ℕ) : Type 0 where
  pub front : List ℕ
  pub rest : List ℕ
  pub split : text ≡ front ++ (key ++ (decimal n ++ b'e' ∷ rest))
  pub absent : is_absent key front (key ++ (decimal n ++ b'e' ∷ rest)) ≡ true
  pub inside : length front < res_size
  pub small : n < 10 ^ 9

number_after-IsShown :
    (address k n res_size : ℕ) (key text : List ℕ)
    → IsShown (k ∷ key) n res_size text
    → res_size ≤ 2 ^ 31
    → number_after address text (k ∷ key) res_size ≡ ok (some n)
number_after-IsShown address k n res_size key text shown fits =
    ap (λ t. number_after address t (k ∷ key) res_size) shown.split
    ∙ number_after-decimal address k n res_size key shown.front shown.rest
        (is_absent-Absent (k ∷ key) shown.front (k ∷ (key ++ (decimal n ++ b'e' ∷ shown.rest)))
          shown.absent)
        shown.small shown.inside fits

-- The extended handshake of a peer is read as it is meant: the size of the metadata and the peer's
-- number for the extension are those printed behind their keys, wherever the dictionary has them. The
-- pieces are counted by a division that rounds down. The keys stand in the message, each before any zero,
-- and the numbers have at most nine digits.
pub response_init-numbers :
    (frame m u res_size : ℕ) (raw : List ℕ)
    → IsShown metadata_size_key m res_size (drop 6 raw)
    → IsShown ut_metadata_key u res_size (drop 6 raw)
    → res_size ≤ 2048
    → response_init frame raw res_size
      ≡ ok (record {
        ut_metadata = u;
        metadata_size = m;
        num_pieces = some (m / 16384);
        piece_size = some 16384;
      })
unfolding response_init with_numbers
response_init-numbers frame m u res_size raw size_shown ut_shown fits =
    rw
      (
        number_after-IsShown (frame + 6) b'm' m res_size _ (drop 6 raw) size_shown (omega arith),
        number_after-IsShown (frame + 6) b'u' u res_size _ (drop 6 raw) ut_shown (omega arith),
      )
      (rw (quotient-small m 16384 (omega (arith, size_shown.small))) refl)
