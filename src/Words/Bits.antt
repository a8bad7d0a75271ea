-- ===== src/Words/Bits.antt =====
-- `hi << k | lo` is a sum where `lo` fits `k` bits (utils/net/net_utils.c, utils/str/string_utils.c).
use Prim.Native.Nat.{max, digits, bit_or-bitwise}
use native.Mathlib.Nat.{le_refl, pow-suc}
use uvg_torrent.Base.{ℕ, zero, suc, ◌+◌, ◌*◌, ◌/◌, ◌%◌, ◌^◌, ◌≤◌, ◌<◌, bit_or, ◌≡◌, refl, ap, arith}

-- The digits of `a` and `b` are the same in any two numbers of rounds that are enough for `a`.
rounds_enough :
    (a b i j : ℕ) → a ≤ i → a ≤ j → digits (λ y. y) max i a b ≡ digits (λ y. y) max j a b
rounds_enough zero b zero zero below_i below_j = refl
rounds_enough zero b zero (suc j) below_i below_j = refl
rounds_enough zero b (suc i) zero below_i below_j = refl
rounds_enough zero b (suc i) (suc j) below_i below_j = refl
rounds_enough (suc a) b zero j below_i below_j = absurd (omega arith)
rounds_enough (suc a) b (suc i) zero below_i below_j = absurd (omega arith)
rounds_enough (suc a) b (suc i) (suc j) below_i below_j =
    omega (arith, rounds_enough (suc a / 2) (b / 2) i j (omega arith) (omega arith))

-- One binary digit at a time.
pub bit_or-halves : (a b : ℕ) → bit_or a b ≡ bit_or (a / 2) (b / 2) * 2 + max (a % 2) (b % 2)
bit_or-halves zero b = omega (arith, bit_or-bitwise 0 b, bit_or-bitwise 0 (b / 2))
bit_or-halves (suc a) b = omega (
  arith,
  bit_or-bitwise (suc a) b,
  bit_or-bitwise (suc a / 2) (b / 2),
  rounds_enough (suc a / 2) (b / 2) a (suc a / 2) (omega arith) (le_refl _),
)

bit_or-zero_below : (n a : ℕ) → a ≤ n → bit_or a 0 ≡ a
bit_or-zero_below zero zero h = refl
bit_or-zero_below zero (suc a) h = absurd (omega arith)
bit_or-zero_below (suc n) zero h = bit_or-zero_below n zero (omega arith)
bit_or-zero_below (suc n) (suc a) h =
    omega (arith, bit_or-halves (suc a) 0, bit_or-zero_below n (suc a / 2) (omega arith))

pub bit_or-shifted : (k hi lo : ℕ) → lo < 2 ^ k → bit_or (hi * 2 ^ k) lo ≡ hi * 2 ^ k + lo
bit_or-shifted zero hi lo h = ground (arith, bit_or-zero_below hi hi (le_refl _))
bit_or-shifted (suc k) hi lo h =
    let twice : hi * 2 ^ suc k ≡ 2 * (hi * 2 ^ k) =
      omega (arith, ap (λ (t : ℕ). hi * t) (pow-suc 2 k)) in
    ground (
      arith,
      twice,
      pow-suc 2 k,
      bit_or-halves (hi * 2 ^ suc k) lo,
      bit_or-shifted k hi (lo / 2) (omega (arith, pow-suc 2 k)),
    )
