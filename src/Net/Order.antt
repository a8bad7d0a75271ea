-- ===== src/Net/Order.antt =====
-- The functions of utils/net/net_utils.c put a word into network order and back, on either host.
use uvg_torrent.Base.{
  ℕ, ◌+◌, ◌*◌, ◌/◌, ◌%◌, ◌^◌, ◌<◌, bit_or, ◌≡◌, refl, ap, ap₂, sym, ◌∙◌, true, false, reverse, ◌++◌,
  arith, ◌≡⟨◌⟩◌, ◌∎, reverse-append, reverse-reverse,
}
use uvg_torrent.Words.{
  Host, little, big, store, load, store_le, load_le, store_be, load_be, store-load, load-store,
  store_le-halves, store_le-load_le, length-store_be, store_be-Bytes, load_le-store_le,
}
use uvg_torrent.Words.Bits.{bit_or-shifted}
use uvg_torrent.Net.{
  little_endianess, libc_hton, htonll, htonl, htons, ntohll, ntohl, ntohs, byteswap64, libc_ntoh,
}

-- A 4-byte word on a little endian host: its network value has the reversed bytes.
swap4 : ℕ → ℕ
swap4 x = load_le (store_be 4 x)

libc_ntoh-swap4 : (x : ℕ) → libc_ntoh little 4 x ≡ swap4 x
unfolding libc_ntoh store load_be store_be swap4
libc_ntoh-swap4 x = refl

store-swap4 : (x : ℕ) → store_le 4 (swap4 x) ≡ store_be 4 x
unfolding swap4
store-swap4 x = store_le-load_le (store_be 4 x) 4 (length-store_be 4 x) (store_be-Bytes 4 x)

swap4-lt : (x : ℕ) → swap4 x < 2 ^ 32
unfolding swap4 store_be store_le load_le
swap4-lt x = omega arith

store_le-byteswap64 : (x : ℕ) → x < 2 ^ 64 → store_le 8 (byteswap64 little x) ≡ store_be 8 x
unfolding byteswap64
store_le-byteswap64 x h =
    let hi = x / 2 ^ 32 in
    let lo = x % 2 ^ 32 in
    let split : hi * 256 ^ 4 + lo ≡ x = omega arith in
    store_le 8 (byteswap64 little x)
    ≡⟨ ap (λ t. store_le 8 t)
        (ap₂ (λ u v. bit_or (u * 2 ^ 32) v) (libc_ntoh-swap4 lo) (libc_ntoh-swap4 hi)) ⟩
      store_le 8 (bit_or (swap4 lo * 2 ^ 32) (swap4 hi))
    ≡⟨ ap (λ t. store_le 8 t) (bit_or-shifted 32 (swap4 lo) (swap4 hi) (swap4-lt hi)) ⟩
      store_le 8 (swap4 lo * 256 ^ 4 + swap4 hi)
    ≡⟨ store_le-halves 4 4 (swap4 lo) (swap4 hi) (swap4-lt hi) ⟩
      store_le 4 (swap4 hi) ++ store_le 4 (swap4 lo)
    ≡⟨ ap₂ (λ u v. u ++ v) (store-swap4 hi) (store-swap4 lo) ⟩ store_be 4 hi ++ store_be 4 lo
    ≡⟨ store_be-halves hi lo (omega arith) ⟩ store_be 8 (hi * 256 ^ 4 + lo)
    ≡⟨ ap (λ t. store_be 8 t) split ⟩ store_be 8 x ∎
  where
    store_be-halves :
        (hi lo : ℕ) → lo < 256 ^ 4 → store_be 4 hi ++ store_be 4 lo ≡ store_be 8 (hi * 256 ^ 4 + lo)
    store_be-halves hi lo h =
        unfold store_be in
        sym (
          ap reverse (store_le-halves 4 4 hi lo h) ∙ reverse-append (store_le 4 lo) (store_le 4 hi))

little_endianess-little : little_endianess little ≡ true
unfolding little_endianess load load_le
little_endianess-little = refl

little_endianess-big : little_endianess big ≡ false
unfolding little_endianess load load_le load_be
little_endianess-big = refl

-- What a packet sends of `htonl(x)` is `x` in network order, on either host.
pub store-htonl : (host : Host) (x : ℕ) → store host 4 (htonl host x) ≡ store_be 4 x
unfolding htonl libc_hton
store-htonl little x =
    rw little_endianess-little
      (store-load little (store_be 4 x) 4 (length-store_be 4 x) (store_be-Bytes 4 x))
store-htonl big x = rw little_endianess-big (unfold store in refl)

pub store-htons : (host : Host) (x : ℕ) → store host 2 (htons host x) ≡ store_be 2 x
unfolding htons libc_hton
store-htons little x =
    rw little_endianess-little
      (store-load little (store_be 2 x) 2 (length-store_be 2 x) (store_be-Bytes 2 x))
store-htons big x = rw little_endianess-big (unfold store in refl)

-- What a packet sends of `htonll(x)` is the 64-bit word `x` in network order, on either host:
-- swapping the halves and the bytes of each half is swapping all eight bytes.
pub store-htonll : (host : Host) (x : ℕ) → x < 2 ^ 64 → store host 8 (htonll host x) ≡ store_be 8 x
unfolding htonll store
store-htonll little x h = rw little_endianess-little (store_le-byteswap64 x h)
store-htonll big x h = rw little_endianess-big refl

load_be-store_be : (k x : ℕ) → x < 256 ^ k → load_be (store_be k x) ≡ x
unfolding load_be store_be load store
load_be-store_be k x h = load-store big k x h

-- A word read from the bytes that a peer sent in network order is the word that the peer meant.
pub ntohl-load : (host : Host) (x : ℕ) → x < 2 ^ 32 → ntohl host (load host (store_be 4 x)) ≡ x
unfolding ntohl libc_ntoh
ntohl-load little x h =
    rw
      (
        little_endianess-little,
        store-load little (store_be 4 x) 4 (length-store_be 4 x) (store_be-Bytes 4 x),
      )
      (load_be-store_be 4 x h)
ntohl-load big x h = rw little_endianess-big (unfold load in load_be-store_be 4 x h)

pub ntohs-load : (host : Host) (x : ℕ) → x < 2 ^ 16 → ntohs host (load host (store_be 2 x)) ≡ x
unfolding ntohs libc_ntoh
ntohs-load little x h =
    rw
      (
        little_endianess-little,
        store-load little (store_be 2 x) 2 (length-store_be 2 x) (store_be-Bytes 2 x),
      )
      (load_be-store_be 2 x h)
ntohs-load big x h = rw little_endianess-big (unfold load in load_be-store_be 2 x h)

store_le-injective8 : (x y : ℕ) → x < 2 ^ 64 → y < 2 ^ 64 → store_le 8 x ≡ store_le 8 y → x ≡ y
store_le-injective8 x y p q e = sym (load_le-store_le 8 x p) ∙ ap load_le e ∙ load_le-store_le 8 y q

byteswap64-lt : (x : ℕ) → byteswap64 little x < 2 ^ 64
unfolding byteswap64
byteswap64-lt x =
    let hi = x / 2 ^ 32 in
    let lo = x % 2 ^ 32 in
    omega (
      arith,
      ap₂ (λ u v. bit_or (u * 2 ^ 32) v) (libc_ntoh-swap4 lo) (libc_ntoh-swap4 hi),
      bit_or-shifted 32 (swap4 lo) (swap4 hi) (swap4-lt hi),
      swap4-lt hi,
      swap4-lt lo,
    )

load_le-store_be8-lt : (x : ℕ) → load little (store_be 8 x) < 2 ^ 64
unfolding load store_be store_le load_le
load_le-store_be8-lt x = omega arith

swapped : (x : ℕ) → x < 2 ^ 64 → byteswap64 little (load little (store_be 8 x)) ≡ x
unfolding load store_be
swapped x h =
    let y = load little (store_be 8 x) in
    let small : y < 2 ^ 64 = load_le-store_be8-lt x in
    store_le-injective8 (byteswap64 little y) x (byteswap64-lt y) h (
      store_le-byteswap64 y small
      ∙ ap reverse (store_le-load_le (store_be 8 x) 8 (length-store_be 8 x) (store_be-Bytes 8 x))
      ∙ reverse-reverse (store_le 8 x))

-- What a packet received in network order is `x` again after `ntohll`, on either host, below 2^64.
pub ntohll-load : (host : Host) (x : ℕ) → x < 2 ^ 64 → ntohll host (load host (store_be 8 x)) ≡ x
unfolding ntohll
ntohll-load little x h = rw little_endianess-little (swapped x h)
ntohll-load big x h = rw little_endianess-big (unfold load in load_be-store_be 8 x h)
