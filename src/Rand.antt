-- ===== src/Rand.antt =====
-- utils/rand/rand_utils.c. `RAND_MAX` is that of the GNU C library; the numbers that `rand` gives are
-- those of the run (see Os). An `int` is its bit pattern.
pub mod Shuffle
pub mod Bits
pub mod Choose
use uvg_torrent.Base.{
  ℕ, zero, suc, ◌+◌, ◌-◌, ◌*◌, ◌/◌, ◌%◌, ◌^◌, bit_or, Bool, true, false, Option, none, some, List,
  [], ◌∷◌, get_elem?, leb, if◌then◌else◌, Run, ok, fault, out_of_fuel,
}
use uvg_torrent.Base
use uvg_torrent.Os.{Os, Cmd, pure, ◌>>=◌, and_then, ask, lift}

abbrev pub rand_max : ℕ
rand_max = 2 ^ 31 - 1

unfoldable pub put : ℕ → ℕ → List ℕ → List ℕ
put i v [] = []
put zero v (x ∷ xs) = v ∷ xs
put (suc i) v (x ∷ xs) = x ∷ put i v xs

-- The swap of `x[n]` and `x[j]`.
unfoldable pub swap_with : ℕ → ℕ → Option ℕ → Option ℕ → List ℕ → Run (List ℕ)
swap_with n j (some a) (some b) x = ok (put j a (put n b x))
swap_with n j none b x = fault
swap_with n j (some a) none x = fault

unfoldable pub swap : ℕ → ℕ → List ℕ → Run (List ℕ)
swap n j x = swap_with n j (get_elem? x n) (get_elem? x j) x

-- `v |= (1 << pos[n])`, for `n` from the given number down to 0, on a word of `w` bits.
unfoldable pub set_bit : ℕ → ℕ → Option ℕ → Run ℕ
set_bit w v none = fault
set_bit w v (some p) = ok (bit_or v (2 ^ p) % 2 ^ w)

unfoldable pub set_bits : ℕ → ℕ → List ℕ → ℕ → Run ℕ
set_bits w zero pos v = ok v
set_bits w (suc n) pos v = Base.◌>>=◌ (set_bit w v (get_elem? pos n)) λ v'. set_bits w n pos v'

unfoldable pub counting : ℕ → ℕ → List ℕ
counting zero i = []
counting (suc n) i = i ∷ counting n (i + 1)

module _ (os : Os) where
  -- `do r = rand(); while (r >= maxrand)`.
  unfoldable pub randto : ℕ → ℕ → Cmd ℕ
  randto zero n = λ w. out_of_fuel
  randto (suc fuel) n = do
    r ← ask os.rand
    if leb (rand_max / n * n) r then randto fuel n else pure (r % n)

  -- `while (--n)`; from 0 the count wraps around.
  unfoldable pub shuffle_signed : ℕ → List ℕ → ℕ → Cmd (List ℕ)
  shuffle_signed fuel x zero = λ w. fault
  shuffle_signed fuel x (suc zero) = pure x
  shuffle_signed fuel x (suc (suc n)) = do
    j ← randto fuel (suc n + 1)
    swapped ← lift (swap (suc n) j x)
    shuffle_signed fuel swapped (suc n)

  -- `pos` is static: it stays as a call has left it.
  unfoldable pub nrand32 : ℕ → List ℕ → ℕ → Cmd (ℕ × List ℕ)
  nrand32 fuel pos n = do
    shuffled ← shuffle_signed fuel pos 32
    v ← lift (set_bits 32 n shuffled 0)
    pure (v, shuffled)

  unfoldable pub nrand8_t : ℕ → List ℕ → ℕ → Cmd (ℕ × List ℕ)
  nrand8_t fuel pos n = do
    shuffled ← shuffle_signed fuel pos 8
    v ← lift (set_bits 8 n shuffled 0)
    pure (v, shuffled)

-- The arrays `pos` before the first call.
unfoldable pub first_pos : ℕ → List ℕ
first_pos n = counting n 0
