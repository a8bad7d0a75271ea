-- ===== src/Str/Hex.antt =====
-- `hex_to_int8_t` on the two kinds of host.
use native.Mathlib.Nat.{add-zero}
use uvg_torrent.Base.{
  ℕ, zero, suc, ◌+◌, ◌*◌, ◌/◌, ◌%◌, ◌<◌, ◌≡◌, refl, sym, ap, ap₂, ◌∙◌, true, inl, ◌⊎◌, List, [],
  ◌∷◌, arith, ◌==◌, leb, if◌then◌else◌, length, All, ok, Returns, Returns-bind, ◌-◌, ◌&&◌, ◌||◌,
  eq_of_==,
}
use uvg_torrent.Libc.{CString, is_digit, to_lower, passes_below, passes_below_sound}
use uvg_torrent.Words.{little, big, load, load_le, load_be}
use uvg_torrent.Net
use uvg_torrent.Str.{hex_value, hex_byte, hex_to_int8_t}

hex_value-lt : (c h : ℕ) → hex_value c ≡ ok h → h < 16
unfolding hex_value
hex_value-lt c h e = ground arith

-- The stored byte, for every pair of digits.
little_table :
    passes_below 256 (λ x. let b = hex_byte little (x / 16) (x % 16) in b == 0 || b == 255) ≡ true
unfolding passes_below hex_byte Net.htons load load_le
little_table = refl

big_table : passes_below 256 (λ x. hex_byte big (x / 16) (x % 16) == x) ≡ true
unfolding passes_below hex_byte Net.htons load load_le load_be
big_table = refl

hex_byte-little :
    (h l : ℕ) → h < 16 → l < 16 → (hex_byte little h l ≡ 0) ⊎ (hex_byte little h l ≡ 255)
hex_byte-little h l p q =
    let x = h * 16 + l in
    let high : x / 16 ≡ h = omega arith in
    let low : x % 16 ≡ l = omega arith in
    let checked = passes_below_sound 256 _ x little_table (omega arith) in
    either (hex_byte little h l) (
      ap₂ (λ a b. hex_byte little a b == 0 || hex_byte little a b == 255) (sym high) (sym low)
      ∙ checked)
  where
    either : (b : ℕ) → (b == 0 || b == 255) ≡ true → (b ≡ 0) ⊎ (b ≡ 255)
    either b e = ground arith

hex_byte-big : (h l : ℕ) → h < 16 → l < 16 → hex_byte big h l ≡ h * 16 + l
hex_byte-big h l p q =
    let x = h * 16 + l in
    let high : x / 16 ≡ h = omega arith in
    let low : x % 16 ≡ l = omega arith in
    let checked = passes_below_sound 256 _ x big_table (omega arith) in
    ap₂ (λ a b. hex_byte big a b) (sym high) (sym low) ∙ eq_of_== _ x checked

abbrev pub IsFlat : ℕ → Type 0
IsFlat b = (b ≡ 0) ⊎ (b ≡ 255)

-- The value of a hexadecimal digit, 0 for any other character.
unfoldable pub digit : ℕ → ℕ
digit c =
    if is_digit c
    then c - b'0'
    else if leb b'a' (to_lower c) && leb (to_lower c) b'f'
    then to_lower c - b'a' + 10
    else 0

hex_value-digit : (c : ℕ) → c < 128 → (hex_value c ≡ ok (digit c)) × (digit c < 16)
unfolding hex_value digit
hex_value-digit c low = ground arith

-- The bytes that were meant: two digits to a byte, and zero behind the end of the string.
unfoldable pub hex_bytes : ℕ → CString → List ℕ
hex_bytes zero str = []
hex_bytes (suc blen) [] = 0 ∷ hex_bytes blen []
hex_bytes (suc blen) (a ∷ []) = digit a * 16 ∷ hex_bytes blen []
hex_bytes (suc blen) (a ∷ b ∷ str) = (digit a * 16 + digit b) ∷ hex_bytes blen str

abbrev pub IsAscii : CString → Type 0
IsAscii str = All (λ c. c < 128) str

hex_to_int8_t-IsFlat :
    (blen : ℕ) (str : CString)
    → IsAscii str
    → Returns (λ out. All IsFlat out × (length out ≡ blen)) (hex_to_int8_t little blen str)
unfolding hex_to_int8_t
hex_to_int8_t-IsFlat zero str ascii = (tt, refl)
hex_to_int8_t-IsFlat (suc blen) [] ascii =
    Returns-bind (λ out. All IsFlat out × (length out ≡ blen)) _ (hex_to_int8_t little blen []) _
      (hex_to_int8_t-IsFlat blen [] tt) (λ rest h. ((inl refl, h.0), ap suc h.1))
hex_to_int8_t-IsFlat (suc blen) (a ∷ []) ascii =
    let (ea, la) = hex_value-digit a ascii.0 in
    rw ea (
      Returns-bind (λ out. All IsFlat out × (length out ≡ blen)) _ (hex_to_int8_t little blen []) _
        (hex_to_int8_t-IsFlat blen [] tt)
        (λ rest h. ((hex_byte-little (digit a) 0 la (omega arith), h.0), ap suc h.1)))
hex_to_int8_t-IsFlat (suc blen) (a ∷ b ∷ str) ascii =
    let (ea, la) = hex_value-digit a ascii.0 in
    let (eb, lb) = hex_value-digit b ascii.1.0 in
    rw (ea, eb)
      (Returns-bind (λ out. All IsFlat out × (length out ≡ blen)) _ (hex_to_int8_t little blen str)
        _ (hex_to_int8_t-IsFlat blen str ascii.1.1)
        (λ rest h. ((hex_byte-little (digit a) (digit b) la lb, h.0), ap suc h.1)))

hex_to_int8_t-hex_bytes :
    (blen : ℕ) (str : CString) → IsAscii str → hex_to_int8_t big blen str ≡ ok (hex_bytes blen str)
unfolding hex_to_int8_t hex_bytes
hex_to_int8_t-hex_bytes zero str ascii = refl
hex_to_int8_t-hex_bytes (suc blen) [] ascii = rw (hex_to_int8_t-hex_bytes blen [] tt) refl
hex_to_int8_t-hex_bytes (suc blen) (a ∷ []) ascii =
    let (ea, la) = hex_value-digit a ascii.0 in
    rw (ea, hex_to_int8_t-hex_bytes blen [] tt, hex_byte-big (digit a) 0 la (omega arith), add-zero)
      refl
hex_to_int8_t-hex_bytes (suc blen) (a ∷ b ∷ str) ascii =
    let (ea, la) = hex_value-digit a ascii.0 in
    let (eb, lb) = hex_value-digit b ascii.1.0 in
    rw (ea, eb, hex_to_int8_t-hex_bytes blen str ascii.1.1, hex_byte-big (digit a) (digit b) la lb)
      refl

-- On a little endian host every one of the `blen` bytes that `hex_to_int8_t` writes is 0 or 255, whatever the
-- digits: `htons` has put the high half of the word where the low half is read.
-- The text is ASCII, and `blen` so small that the signed byte `pos` does not wrap.
pub hex_to_int8_t-little :
    (blen : ℕ) (str : CString)
    → blen < 64
    → IsAscii str
    → Returns (λ out. All IsFlat out × (length out ≡ blen)) (hex_to_int8_t little blen str)
hex_to_int8_t-little blen str small ascii = hex_to_int8_t-IsFlat blen str ascii

-- On a big endian host it writes the bytes that the digits stand for, under the same conditions.
hex_to_int8_t-big :
    (blen : ℕ) (str : CString)
    → blen < 64
    → IsAscii str
    → hex_to_int8_t big blen str ≡ ok (hex_bytes blen str)
hex_to_int8_t-big blen str small ascii = hex_to_int8_t-hex_bytes blen str ascii
