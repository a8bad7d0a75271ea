-- ===== src/Rand/Shuffle.antt =====
-- The shuffle of rand_utils.c moves the numbers of its array and no more.
use native.Mathlib.Nat.{mod-lt, div-add-mod'}
use uvg_torrent.Base.{
  ℕ, zero, suc, ◌+◌, ◌-◌, ◌*◌, ◌/◌, ◌%◌, ◌<◌, ◌≤◌, ◌≡◌, refl, ap, ◌∙◌, false, Option, none, some,
  List, [], ◌∷◌, get_elem?, length, leb, ◌==◌, if◌then◌else◌, Run, ok, fault, halted, out_of_fuel,
  Returns, arith, Bool-cases, inl, inr,
}
use uvg_torrent.Os.{Os, World, ask, lift, Returns-then, Returns-lift}
use uvg_torrent.Rand.{rand_max, put, swap, swap_with, randto, shuffle_signed}

-- How often `v` stands in a list.
abbrev pub occurrences : ℕ → List ℕ → ℕ
occurrences v [] = 0
occurrences v (x ∷ xs) = (if x == v then 1 else 0) + occurrences v xs

length-put : (i a : ℕ) (xs : List ℕ) → length (put i a xs) ≡ length xs
unfolding put
length-put i a [] = refl
length-put zero a (x ∷ xs) = refl
length-put (suc i) a (x ∷ xs) = ap suc (length-put i a xs)

is_at : (xs : List ℕ) (i : ℕ) → i < length xs → (a : ℕ) × (get_elem? xs i ≡ some a)
is_at [] i h = absurd (omega arith)
is_at (x ∷ xs) zero h = (x, refl)
is_at (x ∷ xs) (suc i) h = is_at xs i (omega arith)

occurrences-put :
    (v i a b : ℕ) (xs : List ℕ)
    → get_elem? xs i ≡ some a
    → occurrences v (put i b xs) + (if a == v then 1 else 0)
      ≡ occurrences v xs + (if b == v then 1 else 0)
unfolding put
occurrences-put v i a b [] found = cc
occurrences-put v zero a b (x ∷ xs) found =
    let same : x ≡ a = ap of_found found in rw same (omega arith)
  where
    of_found : Option ℕ → ℕ
    of_found none = 0
    of_found (some y) = y
occurrences-put v (suc i) a b (x ∷ xs) found = omega (arith, occurrences-put v i a b xs found)

-- Where `b` stands it still stands after `b` is put anywhere.
get-put_same_value :
    (i j b : ℕ) (xs : List ℕ) → get_elem? xs j ≡ some b → get_elem? (put i b xs) j ≡ some b
unfolding put
get-put_same_value i j b [] found = found
get-put_same_value zero zero b (x ∷ xs) found = refl
get-put_same_value zero (suc j) b (x ∷ xs) found = found
get-put_same_value (suc i) zero b (x ∷ xs) found = found
get-put_same_value (suc i) (suc j) b (x ∷ xs) found = get-put_same_value i j b xs found

-- The same numbers, as often, in an array of the same length.
pub record IsRearranged (xs ys : List ℕ) : Type 0 where
  pub same_length : length ys ≡ length xs
  pub same_numbers : (v : ℕ) → occurrences v ys ≡ occurrences v xs

swap-IsRearranged :
    (n j : ℕ) (xs : List ℕ)
    → n < length xs
    → j < length xs
    → Returns (IsRearranged xs) (swap n j xs)
unfolding swap swap_with
swap-IsRearranged n j xs n_in j_in =
    let (a, at_n) = is_at xs n n_in in
    let (b, at_j) = is_at xs j j_in in
    rw (at_n, at_j)
      (record {
        same_length = length-put j a (put n b xs) ∙ length-put n b xs;
        same_numbers = λ v. omega (
          arith,
          occurrences-put v n a b xs at_n,
          occurrences-put v j b a (put n b xs) (get-put_same_value n j b xs at_j),
        );
      })

-- Among any `fuel` numbers in a row one is not thrown away.
abbrev pub IsFair : ℕ → Os → Type 0
IsFair fuel os = (t : ℕ) → (k : ℕ) × (k < fuel) × (os.rand (t + k) < rand_max - 31)

abbrev Below : ℕ → ℕ × World → Type 0
Below n (r, w) = r < n

accepted : (n r : ℕ) → 0 < n → n ≤ 32 → r < rand_max - 31 → leb (rand_max / n * n) r ≡ false
accepted n r some_n few good =
    let split : rand_max / n * n + rand_max % n ≡ rand_max = div-add-mod' rand_max n in
    let small : rand_max % n < n = mod-lt rand_max some_n in ground (arith, split, small)

now_is : (w : World) → w.now + 0 ≡ w.now
now_is w = omega arith

later : (w : World) (k : ℕ) → w.now + suc k ≡ w.now + 1 + k
later w k = omega arith

randto-Below :
    (os : Os) (fuel n k : ℕ) (w : World)
    → 0 < n
    → n ≤ 32
    → k < fuel
    → os.rand (w.now + k) < rand_max - 31
    → Returns (Below n) (randto os fuel n w)
unfolding randto ask
randto-Below os zero n k w some_n few k_in good = absurd (omega arith)
randto-Below os (suc fuel) n zero w some_n few k_in good =
    rw (accepted n (os.rand w.now) some_n few (omega (arith, ap os.rand (now_is w))))
      (mod-lt (os.rand w.now) some_n)
randto-Below os (suc fuel) n (suc k) w some_n few k_in good =
    elim (Bool-cases (leb (rand_max / n * n) (os.rand w.now))) [
      | inl again ↦ rw again (
          randto-Below os fuel n k (record w { now = w.now + 1 }) some_n few (omega arith)
            (omega (arith, ap os.rand (later w k))))
      | inr taken ↦ rw taken (mod-lt (os.rand w.now) some_n)
    ]

pub IsRearranged-trans :
    {xs ys zs : List ℕ} → IsRearranged xs ys → IsRearranged ys zs → IsRearranged xs zs
IsRearranged-trans h g = record {
  same_length = g.same_length ∙ h.same_length;
  same_numbers = λ v. g.same_numbers v ∙ h.same_numbers v;
}

Returns-weaken :
    {A : Type 0} (P Q : A → Type 0) (r : Run A) → Returns P r → ((a : A) → P a → Q a) → Returns Q r
Returns-weaken P Q (ok a) p imp = imp a p
Returns-weaken P Q fault p imp = elim p [ ]
Returns-weaken P Q halted p imp = elim p [ ]
Returns-weaken P Q out_of_fuel p imp = elim p [ ]

-- The shuffle of the first `n` numbers of an array returns, and leaves every number there as often as it
-- was. There is at least one number and at most 32 are shuffled; of any `fuel` random numbers in a row one is
-- below the largest by 32, so that it is not thrown away.
pub shuffle_signed-IsRearranged :
    (os : Os) (fuel : ℕ) (xs : List ℕ) (n : ℕ) (w : World)
    → IsFair fuel os
    → 0 < n
    → n ≤ 32
    → n ≤ length xs
    → Returns (λ r. IsRearranged xs r.0) (shuffle_signed os fuel xs n w)
unfolding shuffle_signed
shuffle_signed-IsRearranged os fuel xs zero w fair some_n few inside = absurd (omega arith)
shuffle_signed-IsRearranged os fuel xs (suc zero) w fair some_n few inside = record {
  same_length = refl;
  same_numbers = λ v. refl;
}
shuffle_signed-IsRearranged os fuel xs (suc (suc n)) w fair some_n few inside =
    let (k, k_in, good) = fair w.now in
    Returns-then (Below (suc n + 1)) (λ r. IsRearranged xs r.0) (randto os fuel (suc n + 1) w) _
      (randto-Below os fuel (suc n + 1) k w (omega arith) (omega arith) k_in good)
      λ j w₁ below.
        Returns-then (λ r. IsRearranged xs r.0) (λ r. IsRearranged xs r.0)
          (lift (swap (suc n) j xs) w₁) _
          (Returns-lift (IsRearranged xs) (swap (suc n) j xs) w₁
            (swap-IsRearranged (suc n) j xs (omega arith) (omega arith)))
          λ ys w₂ h.
            Returns-weaken (λ r. IsRearranged ys r.0) (λ r. IsRearranged xs r.0)
              (shuffle_signed os fuel ys (suc n) w₂)
              (shuffle_signed-IsRearranged os fuel ys (suc n) w₂ fair (omega arith) (omega arith)
                (omega (arith, h.same_length)))
              λ r g. IsRearranged-trans h g
