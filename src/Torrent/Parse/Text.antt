-- ===== src/Torrent/Parse/Text.antt =====
-- Text that can stand in a query as it is, as what `string_urlencode` makes does.
use uvg_torrent.Base.{
  ℕ, ◌<◌, ◌≡◌, refl, Bool, true, ◌&&◌, not, [], ◌∷◌, ◌++◌, arith, ◌==◌, ltb, length, length-append,
}
use uvg_torrent.Libc.{CString, passes_below, passes_below_sound}
use uvg_torrent.Str.{urlencode, encode_char, is_unreserved, to_hex, shift_right_4}
use uvg_torrent.Str.Url.{IsChars}
use uvg_torrent.Torrent.Parse.Pairs.{free_of}

-- Text that can stand in a query as it is: no zero, no ampersand.
abbrev pub is_plain_char : ℕ → Bool
is_plain_char c = ltb 0 c && (ltb c 256 && not (c == b'&'))

abbrev pub is_plain : CString → Bool
is_plain [] = true
is_plain (c ∷ cs) = is_plain_char c && is_plain cs

is_plain-append : (a b : CString) → is_plain a ≡ true → is_plain b ≡ true → is_plain (a ++ b) ≡ true
is_plain-append [] b h k = k
is_plain-append (c ∷ a) b h k = ground (arith, is_plain-append a b)

encode_table : passes_below 256 (λ c. is_plain (encode_char c)) ≡ true
unfolding passes_below encode_char is_unreserved to_hex shift_right_4
encode_table = refl

pub urlencode-plain : (s : CString) → IsChars s → is_plain (urlencode s) ≡ true
unfolding urlencode
urlencode-plain [] h = refl
urlencode-plain (c ∷ s) h =
    is_plain-append (encode_char c) (urlencode s)
      (passes_below_sound 256 (λ c. is_plain (encode_char c)) c encode_table h.0.1)
      (urlencode-plain s h.1)

pub is_plain-free : (s : CString) → is_plain s ≡ true → free_of b'&' s ≡ true
is_plain-free [] h = refl
is_plain-free (c ∷ s) h = ground (arith, is_plain-free s)

pub is_plain-IsChars : (s : CString) → is_plain s ≡ true → IsChars s
is_plain-IsChars [] h = tt
is_plain-IsChars (c ∷ s) h = ((ground arith, ground arith), is_plain-IsChars s (ground arith))

encode_char-nonempty : (c : ℕ) → 0 < length (encode_char c)
unfolding encode_char
encode_char-nonempty c = ground arith

pub urlencode-nonempty : (s : CString) → 0 < length s → 0 < length (urlencode s)
unfolding urlencode
urlencode-nonempty [] h = absurd (omega arith)
urlencode-nonempty (c ∷ s) h =
    omega (arith, length-append (encode_char c) (urlencode s), encode_char-nonempty c)
