-- ===== src/Str.antt =====
-- utils/str/string_utils.c. A returned buffer is the bytes written to it before the final zero.
pub mod Url
pub mod Split
pub mod Hex
use uvg_torrent.Base.{
  ℕ, zero, suc, ◌+◌, ◌-◌, ◌*◌, ◌/◌, ◌%◌, ◌^◌, bit_and, bit_or, Bool, true, false, ◌&&◌, ◌||◌, List,
  [], ◌∷◌, ◌++◌, ◌==◌, ltb, leb, if◌then◌else◌, length, Run, ok, fault, ◌>>=◌,
}
use uvg_torrent.Libc.{CString, is_digit, is_alnum, to_lower}
use uvg_torrent.Words.{Host}
use uvg_torrent.Net

-- `char` arithmetic wraps at 256.
unfoldable pub from_hex : ℕ → ℕ
from_hex ch = if is_digit ch then ch - b'0' else (to_lower ch + 256 - b'a' + 10) % 256

-- `hex[code & 15]` of "0123456789abcdef".
unfoldable pub to_hex : ℕ → ℕ
to_hex code = let d = bit_and code 15 in if ltb d 10 then b'0' + d else b'a' + (d - 10)

-- `c >> 4` of a signed `char`, as a byte.
unfoldable pub shift_right_4 : ℕ → ℕ
shift_right_4 c = if ltb c 128 then c / 16 else 240 + c / 16

-- The byte that `%ab` stands for.
unfoldable pub hex_pair : ℕ → ℕ → ℕ
unfolding from_hex
hex_pair a b = bit_or (from_hex a * 16 % 256) (from_hex b)

unfoldable pub plus_to_space : ℕ → ℕ
plus_to_space c = if c == b'+' then b' ' else c

-- The loop of `string_urldecode`. A `%` with fewer than two characters behind it is dropped.
unfoldable pub urldecode : CString → CString
unfolding hex_pair plus_to_space
urldecode [] = []
urldecode (c ∷ []) = if c == b'%' then [] else plus_to_space c ∷ []
urldecode (c ∷ a ∷ []) =
    let rest = urldecode (a ∷ []) in if c == b'%' then rest else plus_to_space c ∷ rest
urldecode (c ∷ a ∷ b ∷ cs) =
    let skip = urldecode cs in
    let rest = urldecode (a ∷ b ∷ cs) in
    if c == b'%' then hex_pair a b ∷ skip else plus_to_space c ∷ rest

unfoldable pub is_unreserved : ℕ → Bool
is_unreserved c = is_alnum c || c == b'-' || c == b'_' || c == b'.' || c == b'~'

unfoldable pub encode_char : ℕ → CString
unfolding is_unreserved to_hex shift_right_4
encode_char c =
    if is_unreserved c
    then c ∷ []
    else if c == b' '
    then b'+' ∷ []
    else b'%' ∷ to_hex (shift_right_4 c) ∷ to_hex (bit_and c 15) ∷ []

unfoldable pub urlencode : CString → CString
unfolding encode_char
urlencode [] = []
urlencode (c ∷ cs) = encode_char c ++ urlencode cs

-- `list->append(list, buffer, strlen(buffer))`: 256 bytes with no zero among them run past the
-- buffer's end.
unfoldable pub append_buffer : List CString → CString → Run (List CString)
append_buffer list buffer = if ltb (length buffer) 256 then ok (list ++ buffer ∷ []) else fault

-- The loop of `string_split`, with the buffer's bytes so far.
unfoldable pub split_loop : CString → CString → List CString → Run (List CString)
unfolding append_buffer
split_loop [] buffer list = append_buffer list buffer
split_loop (c ∷ cs) buffer list =
    let more = split_loop cs (buffer ++ c ∷ []) list in
    let next = λ (l : List CString). split_loop cs [] l in
    if c == b':'
    then append_buffer list buffer >>= next
    else if ltb (length buffer) 256
    then more
    else fault

-- `string_split`; the linked list that it returns is the list of its values.
unfoldable pub split : CString → ℕ → Run (List CString)
unfolding split_loop
split input delimeter = split_loop input [] []

-- The table of `hex_to_int8_t` below 128; a byte above is a negative index.
unfoldable pub hex_value : ℕ → Run ℕ
hex_value c =
    if leb 128 c
    then fault
    else if is_digit c
    then ok (c - b'0')
    else if leb b'A' c && leb c b'F'
    then ok (c - b'A' + 10)
    else if leb b'a' c && leb c b'f'
    then ok (c - b'a' + 10)
    else ok 0

-- `bytes[pos/2] = htons((int8_t)(h << 4) | l)`: the signed byte is widened, swapped as a 16-bit
-- word, and cut to its low byte.
unfoldable pub hex_byte : Host → ℕ → ℕ → ℕ
hex_byte host h l =
    let high = h * 16 % 256 in
    let wide = if ltb high 128 then high else high + 65280 in Net.htons host (bit_or wide l) % 256

-- The loop over two characters for each of the `blen` bytes, fewer than 64 (the caller's array has
-- 20, and `pos` is a signed byte), which `bzero` has cleared; a last
-- single character is paired with the terminating zero.
unfoldable pub hex_to_int8_t : Host → ℕ → CString → Run (List ℕ)
unfolding hex_value hex_byte
hex_to_int8_t host zero str = ok []
hex_to_int8_t host (suc blen) [] = do rest ← hex_to_int8_t host blen []; ok (0 ∷ rest)
hex_to_int8_t host (suc blen) (a ∷ []) = do
  h ← hex_value a
  l ← hex_value 0
  rest ← hex_to_int8_t host blen []
  ok (hex_byte host h l ∷ rest)
hex_to_int8_t host (suc blen) (a ∷ b ∷ str) = do
  h ← hex_value a
  l ← hex_value b
  rest ← hex_to_int8_t host blen str
  ok (hex_byte host h l ∷ rest)
