-- ===== src/Words.antt =====
-- Machine words in memory: the bytes of an unsigned word on a little or a big endian host, as
-- `memcpy(&bytes[pos], &word, sizeof word)` and its inverse see them (tracker/packets, peer/packets).
pub mod Bits
use native.Mathlib.Nat.{pow-suc}
use uvg_torrent.Base.{
  ℕ, zero, suc, ◌+◌, ◌*◌, ◌/◌, ◌%◌, ◌^◌, ◌<◌, ◌≡◌, refl, ap, ap₂, ◌∙◌, List, [], ◌∷◌, ◌++◌, reverse,
  reverse-append, reverse-reverse, arith, length, All, length-append, length-reverse, All-reverse,
}

pub data Host : Type 0 where
  little big : Host

abbrev pub Bytes : List ℕ → Type 0
Bytes bs = All (λ b. b < 256) bs

-- The `k` low bytes of `x`, the lowest first.
unfoldable pub store_le : ℕ → ℕ → List ℕ
store_le zero x = []
store_le (suc k) x = x % 256 ∷ store_le k (x / 256)

unfoldable pub load_le : List ℕ → ℕ
load_le [] = 0
load_le (b ∷ bs) = b + 256 * load_le bs

-- Network byte order.
unfoldable pub store_be : ℕ → ℕ → List ℕ
unfolding store_le
store_be k x = reverse (store_le k x)

unfoldable pub load_be : List ℕ → ℕ
unfolding load_le
load_be bs = load_le (reverse bs)

unfoldable pub store : Host → ℕ → ℕ → List ℕ
unfolding store_le store_be
store little k x = store_le k x
store big k x = store_be k x

unfoldable pub load : Host → List ℕ → ℕ
unfolding load_le load_be
load little bs = load_le bs
load big bs = load_be bs

pub length-store_le : (k x : ℕ) → length (store_le k x) ≡ k
unfolding store_le
length-store_le zero x = refl
length-store_le (suc k) x = ap suc (length-store_le k (x / 256))

pub store_le-Bytes : (k x : ℕ) → Bytes (store_le k x)
unfolding store_le
store_le-Bytes zero x = tt
store_le-Bytes (suc k) x = (omega arith, store_le-Bytes k (x / 256))

pub length-store_be : (k x : ℕ) → length (store_be k x) ≡ k
unfolding store_be
length-store_be k x = length-reverse (store_le k x) ∙ length-store_le k x

pub store_be-Bytes : (k x : ℕ) → Bytes (store_be k x)
unfolding store_be
store_be-Bytes k x = All-reverse (λ b. b < 256) (store_le k x) (store_le-Bytes k x)

pub length-store : (h : Host) (k x : ℕ) → length (store h k x) ≡ k
unfolding store
length-store little k x = length-store_le k x
length-store big k x = length-store_be k x

-- Storing what was loaded gives the bytes back.
pub store_le-load_le :
    (bs : List ℕ) (k : ℕ) → length bs ≡ k → Bytes bs → store_le k (load_le bs) ≡ bs
unfolding store_le load_le
store_le-load_le [] zero e h = refl
store_le-load_le [] (suc k) e h = absurd (omega arith)
store_le-load_le (b ∷ bs) zero e h = absurd (omega arith)
store_le-load_le (b ∷ bs) (suc k) e h =
    let low : (b + 256 * load_le bs) % 256 ≡ b = omega arith in
    let high : (b + 256 * load_le bs) / 256 ≡ load_le bs = omega arith in
    rw (low, high, store_le-load_le bs k (omega arith) h.1)

pub store-load :
    (h : Host) (bs : List ℕ) (k : ℕ) → length bs ≡ k → Bytes bs → store h k (load h bs) ≡ bs
unfolding store load load_be store_be
store-load little bs k e b = store_le-load_le bs k e b
store-load big bs k e b =
    ap reverse
      (store_le-load_le (reverse bs) k (length-reverse bs ∙ e) (All-reverse (λ b. b < 256) bs b))
    ∙ reverse-reverse bs

-- Loading what was stored gives the word back, if it fits the width.
pub load_le-store_le : (k x : ℕ) → x < 256 ^ k → load_le (store_le k x) ≡ x
unfolding store_le load_le
load_le-store_le zero x h = omega arith
load_le-store_le (suc k) x h =
    let fits : x / 256 < 256 ^ k = omega (arith, pow-suc 256 k) in
    omega (arith, load_le-store_le k (x / 256) fits)

pub load-store : (h : Host) (k x : ℕ) → x < 256 ^ k → load h (store h k x) ≡ x
unfolding store load load_be store_be
load-store little k x b = load_le-store_le k x b
load-store big k x b = rw (reverse-reverse (store_le k x)) (load_le-store_le k x b)

-- A word of two halves is stored half by half.
pub store_le-halves :
    (j k hi lo : ℕ)
    → lo < 256 ^ j
    → store_le (j + k) (hi * 256 ^ j + lo) ≡ store_le j lo ++ store_le k hi
unfolding store_le
store_le-halves zero k hi lo h =
    let e : hi * 256 ^ 0 + lo ≡ hi = omega arith in let e' : 0 + k ≡ k = omega arith in rw (e, e')
store_le-halves (suc j) k hi lo h =
    let width : suc j + k ≡ suc (j + k) = omega arith in
    let scale : hi * 256 ^ suc j ≡ 256 * (hi * 256 ^ j) =
      omega (arith, ap (λ (t : ℕ). hi * t) (pow-suc 256 j)) in
    let low : (hi * 256 ^ suc j + lo) % 256 ≡ lo % 256 = omega (arith, scale) in
    let high : (hi * 256 ^ suc j + lo) / 256 ≡ hi * 256 ^ j + lo / 256 = omega (arith, scale) in
    rw (width, low, high)
      (ap (λ t. lo % 256 ∷ t) (store_le-halves j k hi (lo / 256) (omega (arith, pow-suc 256 j))))
