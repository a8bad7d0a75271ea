-- ===== src/Libc/Search.antt =====
-- `strstr`, and the distance of its result from the start of the text.
use uvg_torrent.Base.{
  ℕ, ◌+◌, ◌-◌, ◌%◌, ◌^◌, Bool, true, false, Option, none, some, List, [], ◌∷◌, ◌==◌, if◌then◌else◌,
  Run, ok, fault, ◌≡◌, refl, ap, not, ◌&&◌, ◌∙◌, ◌++◌, length, ==_self, arith,
}
use uvg_torrent.Libc.{CString}

unfoldable pub starts_with : CString → List ℕ → Bool
starts_with [] text = true
starts_with (k ∷ key) [] = false
starts_with (k ∷ key) (c ∷ text) = if k == c then starts_with key text else false

-- `strstr` on the memory from the `p`-th byte of the text to the end of its array: the place of the
-- first `key` before a zero. A text without a zero is read past the end of the array.
unfoldable pub strstr : ℕ → List ℕ → CString → Run (Option ℕ)
unfolding starts_with
strstr p [] key = fault
strstr p (c ∷ text) key =
    let rest = strstr (p + 1) text key in
    if starts_with key (c ∷ text) then ok (some p) else if c == 0 then ok none else rest

-- `int position = result - text` for a text at `address`; the result NULL is the address 0.
unfoldable pub distance : ℕ → Option ℕ → ℕ
distance address none = (2 ^ 64 - address % 2 ^ 64) % 2 ^ 32
distance address (some p) = p % 2 ^ 32

-- No `key` starts inside `front`, and no zero ends the text there.
abbrev pub Absent : CString → (front rest : List ℕ) → Type 0
Absent key [] rest = Unit
Absent key (c ∷ front) rest =
    (starts_with key (c ∷ (front ++ rest)) ≡ false) × ((c == 0) ≡ false) × Absent key front rest

unfoldable pub is_absent : CString → (front rest : List ℕ) → Bool
is_absent key [] rest = true
is_absent key (c ∷ front) rest =
    not (starts_with key (c ∷ (front ++ rest))) && (not (c == 0) && is_absent key front rest)

pub is_absent-Absent :
    (key : CString) (front rest : List ℕ) → is_absent key front rest ≡ true → Absent key front rest
unfolding is_absent
is_absent-Absent key [] rest h = tt
is_absent-Absent key (c ∷ front) rest h =
    (ground arith, ground arith, is_absent-Absent key front rest (ground arith))

pub starts_with_itself : (key : CString) (rest : List ℕ) → starts_with key (key ++ rest) ≡ true
unfolding starts_with
starts_with_itself [] rest = refl
starts_with_itself (k ∷ key) rest = rw (==_self k) (starts_with_itself key rest)

strstr_here : (p k : ℕ) (key rest : List ℕ) → strstr p (k ∷ (key ++ rest)) (k ∷ key) ≡ ok (some p)
unfolding strstr
strstr_here p k key rest = rw (starts_with_itself (k ∷ key) rest) refl

-- The first `key` of a text is found.
pub strstr_found :
    (p k : ℕ) (key front rest : List ℕ)
    → Absent (k ∷ key) front (k ∷ (key ++ rest))
    → strstr p (front ++ k ∷ (key ++ rest)) (k ∷ key) ≡ ok (some (p + length front))
unfolding strstr
strstr_found p k key [] rest h = strstr_here p k key rest ∙ ap (λ n. ok (some n)) (omega arith)
strstr_found p k key (c ∷ front) rest h =
    rw (h.0, h.1) (strstr_found (p + 1) k key front rest h.2 ∙ ap (λ n. ok (some n)) (omega arith))
