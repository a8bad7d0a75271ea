-- ===== src/Libc.antt =====
-- What the source uses of the C library on bytes and strings. A C string is the list of its bytes
-- without the terminating zero; a `char` is its byte. The tests are those of the C locale.
pub mod Search
pub mod Decimal
use uvg_torrent.Base.{
  ℕ, zero, suc, ◌+◌, ◌-◌, ◌*◌, ◌%◌, ◌^◌, ◌<◌, ◌≡◌, refl, ap₂, Bool, true, false, ◌&&◌, ◌||◌, inl,
  inr, Bool-cases, List, [], ◌∷◌, arith, ◌==◌, leb, if◌then◌else◌, eq_of_==, ==_self,
}

abbrev pub CString : Type 0
CString = List ℕ

-- `strcmp(a, b) == 0`.
unfoldable pub str_eq : CString → CString → Bool
str_eq [] [] = true
str_eq [] (y ∷ ys) = false
str_eq (x ∷ xs) [] = false
str_eq (x ∷ xs) (y ∷ ys) = if x == y then str_eq xs ys else false

abbrev pub is_digit : ℕ → Bool
is_digit c = leb 48 c && leb c 57

abbrev pub is_upper : ℕ → Bool
is_upper c = leb 65 c && leb c 90

abbrev pub is_lower : ℕ → Bool
is_lower c = leb 97 c && leb c 122

abbrev pub is_alnum : ℕ → Bool
is_alnum c = is_digit c || is_upper c || is_lower c

abbrev pub to_lower : ℕ → ℕ
to_lower c = if is_upper c then c + 32 else c

-- A test of every value below a bound, one by one, and what its success shows.
unfoldable pub passes_below : ℕ → (ℕ → Bool) → Bool
passes_below zero test = true
passes_below (suc bound) test = passes_below bound test && test bound

pub passes_below_sound :
    (bound : ℕ) (test : ℕ → Bool) (i : ℕ)
    → passes_below bound test ≡ true
    → i < bound
    → test i ≡ true
unfolding passes_below
passes_below_sound zero test i passed small = absurd (omega arith)
passes_below_sound (suc bound) test i passed small = elim (Bool-cases (i == bound)) [
  | inl last ↦ rw (eq_of_== i bound last) (ground arith)
  | inr other ↦ passes_below_sound bound test i (ground arith) (ground arith)
]

pub str_eq_sound : (a b : CString) → str_eq a b ≡ true → a ≡ b
unfolding str_eq
str_eq_sound [] [] h = refl
str_eq_sound [] (y ∷ ys) h = cc
str_eq_sound (x ∷ xs) [] h = cc
str_eq_sound (x ∷ xs) (y ∷ ys) h = elim (Bool-cases (x == y)) [
  | inl e ↦ ap₂ ◌∷◌ (eq_of_== x y e) (str_eq_sound xs ys (rw e at h))
  | inr e ↦ absurd (no (rw e at h))
]
  where
    no : false ≡ true → ⊥
    no e = cc

pub str_eq_self : (a : CString) → str_eq a a ≡ true
unfolding str_eq
str_eq_self [] = refl
str_eq_self (x ∷ xs) = rw (==_self x) (str_eq_self xs)

-- The C string that a buffer holds: what stands before its first zero.
unfoldable pub c_string : List ℕ → CString
c_string [] = []
c_string (c ∷ cs) = let rest = c_string cs in if c == 0 then [] else c ∷ rest

unfoldable pub skip_space : CString → CString
skip_space [] = []
skip_space (c ∷ cs) =
    let rest = skip_space cs in if c == 32 || leb 9 c && leb c 13 then rest else c ∷ cs

unfoldable pub read_digits : ℕ → CString → ℕ
read_digits acc [] = acc
read_digits acc (c ∷ cs) =
    let rest = read_digits (acc * 10 + (c - b'0')) cs in if is_digit c then rest else acc

unfoldable pub read_signed : CString → ℕ
unfolding read_digits
read_signed [] = 0
read_signed (c ∷ cs) =
    if c == b'-'
    then (2 ^ 32 - read_digits 0 cs % 2 ^ 32) % 2 ^ 32
    else read_digits 0 (if c == b'+' then cs else c ∷ cs) % 2 ^ 32

-- `atoi`, as the bit pattern of an `int`.
unfoldable pub atoi : CString → ℕ
unfolding skip_space read_signed
atoi s = read_signed (skip_space s)
