-- ===== src/Rand/Bits.antt =====
-- `v | (1 << p)` by its digits, and how many bits of a word are set.
use Prim.Native.Nat.{digits, bit_or-bitwise, max}
use native.Mathlib.Nat.{pow-suc}
use uvg_torrent.Base.{
  ℕ, zero, suc, ◌+◌, ◌*◌, ◌/◌, ◌%◌, ◌^◌, ◌≤◌, ◌<◌, ◌≡◌, bit_or, refl, ap, ◌∙◌, false, ◌==◌, arith,
}

-- The digits of a disjunction, of the first number's at most `rounds` many.
abbrev or_digits : ℕ → ℕ → ℕ → ℕ
or_digits rounds x y = digits (λ d. d) max rounds x y

-- More rounds than the first number has digits make no difference.
or_digits_enough :
    (rounds more x y : ℕ) → x ≤ rounds → x ≤ more → or_digits rounds x y ≡ or_digits more x y
or_digits_enough zero zero x y h k = refl
or_digits_enough zero (suc more) zero y h k = refl
or_digits_enough (suc rounds) zero zero y h k = refl
or_digits_enough (suc rounds) (suc more) zero y h k = refl
or_digits_enough zero more (suc x) y h k = absurd (omega arith)
or_digits_enough rounds zero (suc x) y h k = absurd (omega arith)
or_digits_enough (suc rounds) (suc more) (suc x) y h k =
    let halves : or_digits rounds (suc x / 2) (y / 2) ≡ or_digits more (suc x / 2) (y / 2) =
      or_digits_enough rounds more (suc x / 2) (y / 2) (omega arith) (omega arith) in
    ap (λ (t : ℕ). t * 2 + max (suc x % 2) (y % 2)) halves

-- The lowest digit of a disjunction.
bit_or-digit : (a b : ℕ) → bit_or a b ≡ bit_or (a / 2) (b / 2) * 2 + max (a % 2) (b % 2)
bit_or-digit zero b = omega (arith, bit_or-bitwise 0 b, bit_or-bitwise 0 (b / 2))
bit_or-digit (suc a) b = omega (
  arith,
  bit_or-bitwise (suc a) b,
  bit_or-bitwise (suc a / 2) (b / 2),
  or_digits_enough a (suc a / 2) (suc a / 2) (b / 2) (omega arith) (omega arith),
)

bit_or-none_below : (n a : ℕ) → a ≤ n → bit_or a 0 ≡ a
bit_or-none_below n zero h = refl
bit_or-none_below zero (suc a) h = absurd (omega arith)
bit_or-none_below (suc n) (suc a) h =
    omega (arith, bit_or-digit (suc a) 0, bit_or-none_below n (suc a / 2) (omega arith))

abbrev pub with_bit : ℕ → ℕ → ℕ
with_bit zero v = v / 2 * 2 + 1
with_bit (suc p) v = with_bit p (v / 2) * 2 + v % 2

pub bit_or-with_bit : (p v : ℕ) → bit_or v (2 ^ p) ≡ with_bit p v
bit_or-with_bit zero v =
    omega (arith, bit_or-digit v 1, bit_or-none_below (v / 2) (v / 2) (omega arith))
bit_or-with_bit (suc p) v =
    let half : 2 ^ suc p / 2 ≡ 2 ^ p = omega (arith, pow-suc 2 p) in
    omega (
      arith,
      bit_or-digit v (2 ^ suc p),
      ap (bit_or (v / 2)) half,
      bit_or-with_bit p (v / 2),
      pow-suc 2 p,
    )

-- Bit `p` of a number.
abbrev pub bit : ℕ → ℕ → ℕ
bit zero v = v % 2
bit (suc p) v = bit p (v / 2)

-- How many of the lowest `w` bits are set.
abbrev pub bits_set : ℕ → ℕ → ℕ
bits_set zero v = 0
bits_set (suc w) v = v % 2 + bits_set w (v / 2)

pub with_bit-lt : (p w v : ℕ) → p < w → v < 2 ^ w → with_bit p v < 2 ^ w
with_bit-lt p zero v inside small = absurd (omega arith)
with_bit-lt zero (suc w) v inside small = omega (arith, pow-suc 2 w)
with_bit-lt (suc p) (suc w) v inside small =
    omega (arith, pow-suc 2 w, with_bit-lt p w (v / 2) (omega arith) (omega (arith, pow-suc 2 w)))

pub bits_set-with_bit :
    (p w v : ℕ) → p < w → bit p v ≡ 0 → bits_set w (with_bit p v) ≡ suc (bits_set w v)
bits_set-with_bit p zero v inside clear = absurd (omega arith)
bits_set-with_bit zero (suc w) v inside clear =
    let same : (v / 2 * 2 + 1) / 2 ≡ v / 2 = omega arith in
    omega (arith, clear, ap (bits_set w) same)
bits_set-with_bit (suc p) (suc w) v inside clear =
    let same : (with_bit p (v / 2) * 2 + v % 2) / 2 ≡ with_bit p (v / 2) = omega arith in
    omega (arith, bits_set-with_bit p w (v / 2) (omega arith) clear, ap (bits_set w) same)

-- The other bits stay.
pub bit-with_bit : (q p v : ℕ) → (q == p) ≡ false → bit q (with_bit p v) ≡ bit q v
bit-with_bit zero zero v other = absurd (ground arith)
bit-with_bit zero (suc p) v other = omega arith
bit-with_bit (suc q) zero v other =
    let same : (v / 2 * 2 + 1) / 2 ≡ v / 2 = omega arith in ap (bit q) same
bit-with_bit (suc q) (suc p) v other =
    let same : (with_bit p (v / 2) * 2 + v % 2) / 2 ≡ with_bit p (v / 2) = omega arith in
    ap (bit q) same ∙ bit-with_bit q p (v / 2) (ground arith)

pub bits_set-zero : (w : ℕ) → bits_set w 0 ≡ 0
bits_set-zero zero = refl
bits_set-zero (suc w) = omega (arith, bits_set-zero w)

pub bit-zero : (p : ℕ) → bit p 0 ≡ 0
bit-zero zero = refl
bit-zero (suc p) = bit-zero p
