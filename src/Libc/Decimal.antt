-- ===== src/Libc/Decimal.antt =====
-- `sprintf` of an `int` that is not negative, and `atoi` of what it prints.
use native.Mathlib.Nat.{pow-suc}
use uvg_torrent.Base.{
  ℕ, zero, suc, ◌+◌, ◌-◌, ◌*◌, ◌/◌, ◌%◌, ◌^◌, ◌<◌, ◌≤◌, ◌≡◌, refl, ap, ◌∙◌, true, false, ◌||◌, ◌&&◌,
  [], ◌∷◌, ◌++◌, ltb, leb, ◌==◌, if◌then◌else◌, All, All-append, length, length-append, arith,
  Bool-cases, inl, inr,
}
use uvg_torrent.Libc.{CString, is_digit, c_string, skip_space, read_digits, read_signed, atoi}

-- The last `fuel` digits of a number, without leading zeros.
unfoldable pub digits : ℕ → ℕ → CString
digits zero n = []
digits (suc fuel) n =
    let front = digits fuel (n / 10) in
    if ltb n 10 then (b'0' + n) ∷ [] else front ++ (b'0' + n % 10) ∷ []

-- `%i`: an `int` has at most ten digits.
unfoldable pub decimal : ℕ → CString
unfolding digits
decimal n = digits 10 n

abbrev pub AllDigits : CString → Type 0
AllDigits s = All (λ c. is_digit c ≡ true) s

digit_is_digit : (n : ℕ) → n < 10 → is_digit (48 + n) ≡ true
digit_is_digit n h = ground arith

digits-AllDigits : (fuel n : ℕ) → AllDigits (digits fuel n)
unfolding digits
digits-AllDigits zero n = tt
digits-AllDigits (suc fuel) n = elim (Bool-cases (ltb n 10)) [
  | inl one ↦ rw one (digit_is_digit n (ground arith), tt)
  | inr many ↦ rw many (
      All-append (λ c. is_digit c ≡ true) (digits fuel (n / 10)) _ (digits-AllDigits fuel (n / 10))
        (digit_is_digit (n % 10) (omega arith), tt))
]

read_digits-append :
    (acc : ℕ) (xs ys : CString)
    → AllDigits xs
    → read_digits acc (xs ++ ys) ≡ read_digits (read_digits acc xs) ys
unfolding read_digits
read_digits-append acc [] ys h = refl
read_digits-append acc (x ∷ xs) ys h = rw h.0 (read_digits-append (acc * 10 + (x - 48)) xs ys h.1)

read_digits_one : (acc n : ℕ) → n < 10 → read_digits acc ((48 + n) ∷ []) ≡ acc * 10 + n
unfolding read_digits
read_digits_one acc n h = rw (digit_is_digit n h) (omega arith)

read_digits-digits : (fuel n : ℕ) → n < 10 ^ fuel → read_digits 0 (digits fuel n) ≡ n
unfolding digits read_digits
read_digits-digits zero n h = omega arith
read_digits-digits (suc fuel) n h = elim (Bool-cases (ltb n 10)) [
  | inl one ↦ rw one (read_digits_one 0 n (ground arith) ∙ omega arith)
  | inr many ↦ rw many (
      read_digits-append 0 (digits fuel (n / 10)) ((48 + n % 10) ∷ [])
        (digits-AllDigits fuel (n / 10))
      ∙ ap (λ a. read_digits a ((48 + n % 10) ∷ []))
          (read_digits-digits fuel (n / 10) (omega (arith, pow-suc 10 fuel)))
      ∙ read_digits_one (n / 10) (n % 10) (omega arith)
      ∙ omega arith)
]

-- No more digits than the number needs.
length-digits-le : (fuel k n : ℕ) → n < 10 ^ suc k → length (digits fuel n) ≤ suc k
unfolding digits
length-digits-le zero k n h = omega arith
length-digits-le (suc fuel) zero n h = rw (lt_ten n h) (omega arith)
  where
    lt_ten : (n : ℕ) → n < 10 ^ 1 → ltb n 10 ≡ true
    lt_ten n h = ground arith
length-digits-le (suc fuel) (suc k) n h = elim (Bool-cases (ltb n 10)) [
  | inl one ↦ rw one (omega arith)
  | inr many ↦ rw many (
      omega (
        arith,
        length-append (digits fuel (n / 10)) ((48 + n % 10) ∷ []),
        length-digits-le fuel k (n / 10) (omega (arith, pow-suc 10 (suc k))),
      ))
]

pub decimal-AllDigits : (n : ℕ) → AllDigits (decimal n)
unfolding decimal
decimal-AllDigits n = digits-AllDigits 10 n

length-digits-pos : (fuel n : ℕ) → 1 ≤ length (digits (suc fuel) n)
unfolding digits
length-digits-pos fuel n = elim (Bool-cases (ltb n 10)) [
  | inl one ↦ rw one (omega arith)
  | inr many ↦ rw many (omega (arith, length-append (digits fuel (n / 10)) ((48 + n % 10) ∷ [])))
]

-- A number is printed with a digit at least.
pub length-decimal-pos : (n : ℕ) → 1 ≤ length (decimal n)
unfolding decimal
length-decimal-pos n = length-digits-pos 9 n

pub length-decimal-le : (k n : ℕ) → n < 10 ^ suc k → length (decimal n) ≤ suc k
unfolding decimal
length-decimal-le k n h = length-digits-le 10 k n h

pub c_string-digits : (s : CString) → AllDigits s → c_string s ≡ s
unfolding c_string
c_string-digits [] h = refl
c_string-digits (c ∷ s) h = rw (nonzero c h.0, c_string-digits s h.1) refl
  where
    nonzero : (c : ℕ) → is_digit c ≡ true → (c == 0) ≡ false
    nonzero c h = ground arith

-- A digit is neither white space nor a sign.
atoi-read_digits : (s : CString) → AllDigits s → atoi s ≡ read_digits 0 s % 2 ^ 32
unfolding atoi skip_space read_signed
atoi-read_digits [] h = refl
atoi-read_digits (c ∷ s) h = rw (no_space c h.0, no_minus c h.0, no_plus c h.0) refl
  where
    no_space : (c : ℕ) → is_digit c ≡ true → (c == 32 || leb 9 c && leb c 13) ≡ false
    no_space c h = ground arith

    no_minus : (c : ℕ) → is_digit c ≡ true → (c == 45) ≡ false
    no_minus c h = ground arith

    no_plus : (c : ℕ) → is_digit c ≡ true → (c == 43) ≡ false
    no_plus c h = ground arith

-- `atoi` reads a printed number back.
pub atoi-decimal : (n : ℕ) → n < 2 ^ 32 → atoi (decimal n) ≡ n
unfolding decimal
atoi-decimal n h =
    atoi-read_digits (digits 10 n) (digits-AllDigits 10 n)
    ∙ ap (λ v. v % 2 ^ 32) (read_digits-digits 10 n (omega arith))
    ∙ omega arith
