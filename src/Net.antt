-- ===== src/Net.antt =====
-- The byte order functions of utils/net/net_utils.c. `htonl`, `ntohl`, `htons` and `ntohs` of
-- the C library give the word whose bytes in memory are the network order of their argument's.
pub mod Order
use uvg_torrent.Base.{
  ℕ, ◌*◌, ◌/◌, ◌%◌, ◌^◌, bit_or, Bool, List, [], ◌∷◌, ◌==◌, if◌then◌else◌, take, Run, ok, fault,
  Exit, exit_success, exit_failure, Option, none, some,
}
use uvg_torrent.Words.{Host, store, load, store_be, load_be}

-- The C library's functions on a host, for 4 and for 2 bytes.
unfoldable pub libc_hton : Host → ℕ → ℕ → ℕ
libc_hton host k x = load host (store_be k x)

unfoldable pub libc_ntoh : Host → ℕ → ℕ → ℕ
libc_ntoh host k x = load_be (store host k x)

-- The first byte in memory of 0x01234567.
unfoldable pub little_endianess : Host → Bool
unfolding store
little_endianess host = load host (take 1 (store host 4 0x01234567)) == 0x67

unfoldable pub byteswap64 : Host → ℕ → ℕ
unfolding libc_ntoh
byteswap64 host input =
    let v1 = libc_ntoh host 4 (input % 2 ^ 32) in
    let v2 = libc_ntoh host 4 (input / 2 ^ 32) in bit_or (v1 * 2 ^ 32) v2

unfoldable pub htonll : Host → ℕ → ℕ
unfolding little_endianess byteswap64
htonll host input = if little_endianess host then byteswap64 host input else input

unfoldable pub htonl : Host → ℕ → ℕ
unfolding little_endianess libc_hton
htonl host input = if little_endianess host then libc_hton host 4 input else input

unfoldable pub htons : Host → ℕ → ℕ
unfolding little_endianess libc_hton
htons host input = if little_endianess host then libc_hton host 2 input else input

unfoldable pub ntohll : Host → ℕ → ℕ
unfolding little_endianess byteswap64
ntohll host input = if little_endianess host then byteswap64 host input else input

unfoldable pub ntohl : Host → ℕ → ℕ
unfolding little_endianess libc_ntoh
ntohl host input = if little_endianess host then libc_ntoh host 4 input else input

unfoldable pub ntohs : Host → ℕ → ℕ
unfolding little_endianess libc_ntoh
ntohs host input = if little_endianess host then libc_ntoh host 2 input else input

-- What the resolver answers: no host entry, or the addresses of one, each as `inet_ntoa` spells it.
unfoldable pub hostname_to_ip : Option (List (List ℕ)) → Exit × Option (List ℕ)
hostname_to_ip none = (exit_failure, none)
hostname_to_ip (some []) = (exit_failure, none)
hostname_to_ip (some (addr ∷ rest)) = (exit_success, some addr)
