-- ===== src/Rand/Choose.antt =====
-- `nrand32` and `nrand8_t` set as many bits as they are asked for.
use uvg_torrent.Base.{
  ℕ, zero, suc, ◌+◌, ◌^◌, ◌≤◌, ◌<◌, ◌≡◌, refl, ap, ◌∙◌, false, some, List, [], ◌∷◌, get_elem?,
  length, ◌==◌, ok, Returns, arith,
}
use mathlib.Core.Path.{subst}
use native.Mathlib.Nat.{mod-eq_of_lt, one-le-pow}
use uvg_torrent.Os.{Os, World, and_then, lift, Returns-then, Returns-lift}
use uvg_torrent.Rand.{set_bit, set_bits, counting, shuffle_signed, nrand32, nrand8_t, first_pos}
use uvg_torrent.Rand.Shuffle.{
  occurrences, IsRearranged, IsFair, IsRearranged-trans, shuffle_signed-IsRearranged,
}
use uvg_torrent.Rand.Bits.{
  with_bit, bit_or-with_bit, bit, bits_set, with_bit-lt, bits_set-with_bit, bit-with_bit,
  bits_set-zero, bit-zero,
}

-- Different numbers below `w`.
pub record ArePlaces (w : ℕ) (pos : List ℕ) : Type 0 where
  pub once : (v : ℕ) → occurrences v pos ≤ 1
  pub below : (i p : ℕ) → get_elem? pos i ≡ some p → p < w

found_once : (i p : ℕ) (pos : List ℕ) → get_elem? pos i ≡ some p → 1 ≤ occurrences p pos
found_once i p [] found = cc
found_once zero p (x ∷ pos) found = let same : x ≡ p = cc in ground (arith, same)
found_once (suc i) p (x ∷ pos) found = omega (arith, found_once i p pos found)

different :
    (i j p q : ℕ) (pos : List ℕ)
    → i < j
    → get_elem? pos i ≡ some p
    → get_elem? pos j ≡ some q
    → occurrences q pos ≤ 1
    → (p == q) ≡ false
different i j p q [] less at_i at_j once = cc
different zero zero p q (x ∷ pos) less at_i at_j once = absurd (omega arith)
different zero (suc j) p q (x ∷ pos) less at_i at_j once =
    let same : x ≡ p = cc in ground (arith, same, found_once j q pos at_j)
different (suc i) zero p q (x ∷ pos) less at_i at_j once = absurd (omega arith)
different (suc i) (suc j) p q (x ∷ pos) less at_i at_j once =
    different i j p q pos (omega arith) at_i at_j (omega arith)

set_bit-with_bit : (w v p : ℕ) → p < w → v < 2 ^ w → set_bit w v (some p) ≡ ok (with_bit p v)
unfolding set_bit
set_bit-with_bit w v p inside small =
    rw (bit_or-with_bit p v, mod-eq_of_lt (with_bit-lt p w v inside small)) refl

elem_at : (pos : List ℕ) (i : ℕ) → i < length pos → (p : ℕ) × (get_elem? pos i ≡ some p)
elem_at [] i h = absurd (omega arith)
elem_at (x ∷ pos) zero h = (x, refl)
elem_at (x ∷ pos) (suc i) h = elem_at pos i (omega arith)

-- A word of `w` bits in which `n` are set.
abbrev pub Chosen : (w n v : ℕ) → Type 0
Chosen w n v = (v < 2 ^ w) × (bits_set w v ≡ n)

set_bits-Chosen :
    (w n : ℕ) (pos : List ℕ) (k v : ℕ)
    → ArePlaces w pos
    → n ≤ length pos
    → ((i p : ℕ) → i < n → get_elem? pos i ≡ some p → bit p v ≡ 0)
    → Chosen w k v
    → Returns (Chosen w (n + k)) (set_bits w n pos v)
unfolding set_bits
set_bits-Chosen w zero pos k v places inside clear chosen = (chosen.0, omega (arith, chosen.1))
set_bits-Chosen w (suc n) pos k v places inside clear chosen =
    let (p, at_n) = elem_at pos n (omega arith) in
    let p_in = places.below n p at_n in
    rw (at_n, set_bit-with_bit w v p p_in chosen.0)
      (subst (λ (c : ℕ). Returns (Chosen w c) (set_bits w n pos (with_bit p v))) (omega arith)
        (set_bits-Chosen w n pos (suc k) (with_bit p v) places (omega arith)
          (λ i q less at_i.
            bit-with_bit q p v (different i n q p pos less at_i at_n (places.once p))
            ∙ clear i q (omega arith) at_i)
          (
            with_bit-lt p w v p_in chosen.0,
            bits_set-with_bit p w v p_in (clear n p (omega arith) at_n) ∙ ap suc chosen.1,
          )))

counting-before : (n i v : ℕ) → v < i → occurrences v (counting n i) ≡ 0
unfolding counting
counting-before zero i v h = refl
counting-before (suc n) i v h = ground (arith, counting-before n (i + 1) v)

counting-once : (n i v : ℕ) → occurrences v (counting n i) ≤ 1
unfolding counting
counting-once zero i v = omega arith
counting-once (suc n) i v = ground (arith, counting-before n (i + 1) v, counting-once n (i + 1) v)

counting-below : (n i v : ℕ) → 1 ≤ occurrences v (counting n i) → v < i + n
unfolding counting
counting-below zero i v h = absurd (omega arith)
counting-below (suc n) i v h = ground (arith, counting-below n (i + 1) v)

rearranged-ArePlaces : (w : ℕ) (pos : List ℕ) → IsRearranged (first_pos w) pos → ArePlaces w pos
unfolding first_pos
rearranged-ArePlaces w pos h = record {
  once = λ v. omega (arith, h.same_numbers v, counting-once w 0 v);
  below = λ i p found.
      omega
        (arith, counting-below w 0 p (omega (arith, h.same_numbers p, found_once i p pos found)));
}

length-counting : (n i : ℕ) → length (counting n i) ≡ n
unfolding counting
length-counting zero i = refl
length-counting (suc n) i = ap suc (length-counting n (i + 1))

length-first_pos : (w : ℕ) → length (first_pos w) ≡ w
unfolding first_pos
length-first_pos w = length-counting w 0

-- A word of `w` bits with `n` set, and the array rearranged.
abbrev pub Choice : (w n : ℕ) → (ℕ × List ℕ) × World → Type 0
Choice w n r = Chosen w n r.0.0 × IsRearranged (first_pos w) r.0.1

module _ (os : Os) (fuel : ℕ) (fair : IsFair fuel os) (w : ℕ) (some_w : 0 < w)
    (w_few : w ≤ 32) where
  chooses-Choice :
      (pos : List ℕ) (n : ℕ) (now : World)
      → IsRearranged (first_pos w) pos
      → n ≤ w
      → Returns (Choice w n) (
          and_then (shuffle_signed os fuel pos w now) λ shuffled now₁.
            and_then (lift (set_bits w n shuffled 0) now₁) λ v now₂. ok ((v, shuffled), now₂))
  chooses-Choice pos n now h few =
      Returns-then (λ r. IsRearranged pos r.0) (Choice w n) (shuffle_signed os fuel pos w now) _
        (shuffle_signed-IsRearranged os fuel pos w now fair some_w w_few
          (omega (arith, h.same_length, length-first_pos w)))
        λ shuffled now₁ g.
          let all = IsRearranged-trans h g in
          Returns-then (λ r. Chosen w n r.0) (Choice w n) (lift (set_bits w n shuffled 0) now₁) _
            (Returns-lift (Chosen w n) (set_bits w n shuffled 0) now₁ (
              subst (λ (c : ℕ). Returns (Chosen w c) (set_bits w n shuffled 0)) (omega arith)
                (set_bits-Chosen w n shuffled 0 0 (rearranged-ArePlaces w shuffled all)
                  (omega (arith, all.same_length, length-first_pos w)) (λ i p less at_i. bit-zero p)
                  (one-le-pow w 2 (omega arith), bits_set-zero w))))
            λ v now₂ c. (c, all)

-- `nrand32` and `nrand8_t` return a word with exactly as many bits set as they are asked for, and
-- leave their array of places rearranged, as the next call finds it. They are asked for no more bits than
-- there are; of any `fuel` random numbers in a row one is not thrown away.
pub nrand-Choice :
    (os : Os) (fuel : ℕ) (pos32 pos8 : List ℕ) (n m : ℕ) (w : World)
    → IsFair fuel os
    → IsRearranged (first_pos 32) pos32
    → IsRearranged (first_pos 8) pos8
    → n ≤ 32
    → m ≤ 8
    → Returns (Choice 32 n) (nrand32 os fuel pos32 n w)
      × Returns (Choice 8 m) (nrand8_t os fuel pos8 m w)
unfolding nrand32 nrand8_t
nrand-Choice os fuel pos32 pos8 n m w fair h32 h8 few32 few8 = (
  chooses-Choice os fuel fair 32 (omega arith) (omega arith) pos32 n w h32 few32,
  chooses-Choice os fuel fair 8 (omega arith) (omega arith) pos8 m w h8 few8,
)
