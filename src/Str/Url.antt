-- ===== src/Str/Url.antt =====
-- `string_urlencode` and `string_urldecode`: the round trip, and the sizes of their buffers.
use uvg_torrent.Base.{
  ℕ, ◌+◌, ◌*◌, ◌≤◌, ◌<◌, ◌≡◌, refl, sym, ap, ◌∙◌, bit_and, true, false, inl, inr, Bool-cases, [],
  ◌∷◌, ◌++◌, arith, ◌==◌, if◌then◌else◌, eq_of_==, length, length-append, All,
}
use uvg_torrent.Libc.{CString, passes_below, passes_below_sound}
use uvg_torrent.Str.{
  to_hex, shift_right_4, hex_pair, plus_to_space, urldecode, is_unreserved, encode_char, urlencode,
}

-- The bytes of a C string: none is zero.
abbrev pub IsChars : CString → Type 0
IsChars s = All (λ c. (0 < c) × (c < 256)) s

hex_table :
    passes_below 256 (λ c. hex_pair (to_hex (shift_right_4 c)) (to_hex (bit_and c 15)) == c) ≡ true
unfolding passes_below hex_pair to_hex shift_right_4
hex_table = refl

plain_table :
    passes_below 256
      (λ c. if is_unreserved c then (if c == b'%' then false else plus_to_space c == c) else true)
    ≡ true
unfolding passes_below is_unreserved plus_to_space
plain_table = refl

-- Every byte is the value of the two digits that it is written with.
hex_pair-to_hex :
    (c : ℕ) → c < 256 → hex_pair (to_hex (shift_right_4 c)) (to_hex (bit_and c 15)) ≡ c
hex_pair-to_hex c h = eq_of_== _ c (passes_below_sound 256 _ c hex_table h)

-- A character that stands for itself.
urldecode_plain :
    (c : ℕ) (cs : CString)
    → (c == b'%') ≡ false
    → urldecode (c ∷ cs) ≡ plus_to_space c ∷ urldecode cs
unfolding urldecode
urldecode_plain c [] h = rw h
urldecode_plain c (a ∷ []) h = rw h
urldecode_plain c (a ∷ b ∷ cs) h = rw h

unreserved_plain :
    (c : ℕ) → c < 256 → is_unreserved c ≡ true → ((c == b'%') ≡ false) × (plus_to_space c ≡ c)
unreserved_plain c h plain =
    let checked = passes_below_sound 256 _ c plain_table h in split (rw plain at checked)
  where
    split :
        (if c == b'%' then false else plus_to_space c == c) ≡ true
        → ((c == b'%') ≡ false) × (plus_to_space c ≡ c)
    split e = elim (Bool-cases (c == b'%')) [
      | inl p ↦ absurd (clash (rw p at e))
      | inr p ↦ (p, eq_of_== _ c (rw p at e))
    ]
      where
        clash : false ≡ true → ⊥
        clash e = cc

urldecode-encode_char :
    (c : ℕ) (cs : CString) → c < 256 → urldecode (encode_char c ++ cs) ≡ c ∷ urldecode cs
unfolding encode_char
urldecode-encode_char c cs h = elim (Bool-cases (is_unreserved c)) [
  | inl plain ↦
      let (p, q) = unreserved_plain c h plain in
      rw plain (urldecode_plain c cs p ∙ ap (λ (t : ℕ). t ∷ urldecode cs) q)
  | inr other ↦ rw other (elim (Bool-cases (c == b' ')) [
    | inl space ↦
        rw space
          (urldecode_plain b'+' cs refl ∙ ap (λ (t : ℕ). t ∷ urldecode cs) (space_back c space))
    | inr escaped ↦ rw escaped (escaped_back c cs h)
  ])
]
  where
    space_back : (c : ℕ) → (c == b' ') ≡ true → plus_to_space b'+' ≡ c
    space_back c e = unfold plus_to_space in sym (eq_of_== c b' ' e)

    escaped_back :
        (c : ℕ) (cs : CString)
        → c < 256
        → urldecode (b'%' ∷ to_hex (shift_right_4 c) ∷ to_hex (bit_and c 15) ∷ cs)
          ≡ c ∷ urldecode cs
    escaped_back c cs h = unfold urldecode in ap (λ (t : ℕ). t ∷ urldecode cs) (hex_pair-to_hex c h)

-- Decoding what was encoded gives every string of bytes other than zero back.
pub urldecode-urlencode : (s : CString) → IsChars s → urldecode (urlencode s) ≡ s
unfolding urlencode
urldecode-urlencode [] h = unfold urldecode in refl
urldecode-urlencode (c ∷ cs) h =
    urldecode-encode_char c (urlencode cs) h.0.1 ∙ ap (λ t. c ∷ t) (urldecode-urlencode cs h.1)

length-encode_char-le : (c : ℕ) → length (encode_char c) ≤ 3
unfolding encode_char
length-encode_char-le c = ground arith

-- `malloc(strlen(input) * 3 + 1)` holds the encoding and its terminating zero.
length-urlencode-le : (s : CString) → length (urlencode s) + 1 ≤ length s * 3 + 1
unfolding urlencode
length-urlencode-le [] = omega arith
length-urlencode-le (c ∷ cs) = omega (
  arith,
  length-append (encode_char c) (urlencode cs),
  length-encode_char-le c,
  length-urlencode-le cs,
)

-- `malloc(strlen(input) + 1)` holds the decoding and its terminating zero.
length-urldecode-le : (s : CString) → length (urldecode s) + 1 ≤ length s + 1
unfolding urldecode
length-urldecode-le [] = omega arith
length-urldecode-le (c ∷ []) = ground arith
length-urldecode-le (c ∷ a ∷ []) = ground (arith, length-urldecode-le (a ∷ []))
length-urldecode-le (c ∷ a ∷ b ∷ cs) =
    ground (arith, length-urldecode-le (a ∷ b ∷ cs), length-urldecode-le cs)
