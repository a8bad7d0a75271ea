-- ===== src/Str/Split.antt =====
-- `string_split` cuts at every colon, whatever delimiter it is asked for.
use uvg_torrent.Base.{
  ℕ, ◌≤◌, ◌≡◌, refl, sym, ap, ◌∙◌, ◌||◌, ◌&&◌, fault, eq_of_==, Bool, true, false, inl, inr,
  Bool-cases, List, [], ◌∷◌, ◌++◌, arith, ◌==◌, ltb, if◌then◌else◌, length, length-append,
  append_assoc, append-nil, All, Run, ok,
}
use uvg_torrent.Libc.{CString}
use uvg_torrent.Str.{split_loop, split}

-- The reference: the pieces between the colons.
pub pieces_from : CString → CString → List CString
pieces_from buffer [] = buffer ∷ []
pieces_from buffer (c ∷ cs) =
    let here = buffer ∷ pieces_from [] cs in
    let more = pieces_from (buffer ++ c ∷ []) cs in if c == b':' then here else more

abbrev pub pieces : CString → List CString
pieces s = pieces_from [] s

pub join : List CString → CString
join [] = []
join (p ∷ []) = p
join (p ∷ q ∷ ps) = p ++ b':' ∷ join (q ∷ ps)

abbrev pub has_colon : CString → Bool
has_colon [] = false
has_colon (c ∷ cs) = c == b':' || has_colon cs

-- Every piece leaves room for a zero in the buffer of 256 bytes.
unfoldable pub all_short : List CString → Bool
all_short [] = true
all_short (p ∷ ps) = ltb (length p) 256 && all_short ps

long_piece : (cs buffer : CString) → 256 ≤ length buffer → all_short (pieces_from buffer cs) ≡ false
unfolding all_short pieces_from
long_piece [] buffer h = ground arith
long_piece (c ∷ cs) buffer h =
    ground (arith, long_piece cs (buffer ++ c ∷ []), length-append buffer (c ∷ []))

guarded : Bool → List CString → Run (List CString)
guarded b ps = if b then ok ps else fault

split_loop-pieces :
    (cs buffer : CString) (list : List CString)
    → length buffer ≤ 256
    → split_loop cs buffer list
      ≡ guarded (all_short (pieces_from buffer cs)) (list ++ pieces_from buffer cs)
unfolding split_loop pieces_from all_short guarded
split_loop-pieces [] buffer list h = ground arith
split_loop-pieces (c ∷ cs) buffer list h = elim (Bool-cases (c == b':')) [
  | inl colon ↦ rw colon (elim (Bool-cases (ltb (length buffer) 256)) [
    | inl short ↦
        rw
          (
            short,
            split_loop-pieces cs [] (list ++ buffer ∷ []) (omega arith),
            append_assoc list (buffer ∷ []) (pieces_from [] cs),
          )
          refl
    | inr long ↦ rw long refl
  ])
  | inr other ↦ rw other (elim (Bool-cases (ltb (length buffer) 256)) [
    | inl short ↦
        let room : length (buffer ++ c ∷ []) ≤ 256 =
          ground (arith, length-append buffer (c ∷ [])) in
        rw short (split_loop-pieces cs (buffer ++ c ∷ []) list room)
    | inr long ↦
        let over : 256 ≤ length (buffer ++ c ∷ []) =
          ground (arith, length-append buffer (c ∷ [])) in
        rw (long, long_piece cs (buffer ++ c ∷ []) over) refl
  ])
]

-- `split` gives the pieces between the colons, for every delimiter, and runs past its buffer
-- exactly when a piece has 256 characters or more.
pub split-pieces :
    (s : CString) (delimeter : ℕ)
    → split s delimeter ≡ (if all_short (pieces s) then ok (pieces s) else fault)
unfolding split guarded
split-pieces s delimeter = split_loop-pieces s [] [] (omega arith)

join-cons :
    (p : CString) (cs buffer : CString)
    → join (p ∷ pieces_from buffer cs) ≡ p ++ b':' ∷ join (pieces_from buffer cs)
unfolding join pieces_from
join-cons p [] buffer = refl
join-cons p (c ∷ cs) buffer = elim (Bool-cases (c == b':')) [
  | inl e ↦ rw e refl
  | inr e ↦ rw e (join-cons p cs (buffer ++ c ∷ []))
]

join-pieces_from : (cs buffer : CString) → join (pieces_from buffer cs) ≡ buffer ++ cs
unfolding pieces_from
join-pieces_from [] buffer = unfold join in sym (append-nil buffer)
join-pieces_from (c ∷ cs) buffer = elim (Bool-cases (c == b':')) [
  | inl e ↦
      rw (e, join-cons buffer cs [], join-pieces_from cs [])
        (ap (λ (t : ℕ). buffer ++ t ∷ cs) (sym (eq_of_== c b':' e)))
  | inr e ↦ rw (e, join-pieces_from cs (buffer ++ c ∷ [])) (append_assoc buffer (c ∷ []) cs)
]

has_colon-append : (a b : CString) → has_colon (a ++ b) ≡ (has_colon a || has_colon b)
has_colon-append [] b = refl
has_colon-append (c ∷ a) b = ground (arith, has_colon-append a b)

colon_free :
    (cs buffer : CString)
    → has_colon buffer ≡ false
    → All (λ p. has_colon p ≡ false) (pieces_from buffer cs)
unfolding pieces_from
colon_free [] buffer h = (h, tt)
colon_free (c ∷ cs) buffer h = elim (Bool-cases (c == b':')) [
  | inl e ↦ rw e (h, colon_free cs [] refl)
  | inr e ↦
      rw e (colon_free cs (buffer ++ c ∷ []) (rw (has_colon-append buffer (c ∷ []), h, e) refl))
]

-- Joined by colons the pieces of a `split` that returns are the input again, and no piece has a colon.
join-split :
    (s : CString) (delimeter : ℕ) (ps : List CString)
    → split s delimeter ≡ ok ps
    → (join ps ≡ s) × All (λ p. has_colon p ≡ false) ps
join-split s delimeter ps h =
    from_pieces (all_short (pieces s)) (sym (split-pieces s delimeter) ∙ h)
  where
    from_pieces :
        (b : Bool)
        → (if b then ok (pieces s) else fault) ≡ ok ps
        → (join ps ≡ s) × All (λ p. has_colon p ≡ false) ps
    from_pieces true e =
        let same : pieces s ≡ ps = cc in rw (← same) (join-pieces_from s [], colon_free s [] refl)
    from_pieces false e = cc

-- Text without a colon is kept in the buffer, up to the next colon or the end.
pub pieces_from-append :
    (a rest buffer : CString)
    → has_colon a ≡ false
    → pieces_from buffer (a ++ b':' ∷ rest) ≡ (buffer ++ a) ∷ pieces_from [] rest
unfolding pieces_from
pieces_from-append [] rest buffer free = ap (λ b. b ∷ pieces_from [] rest) (sym (append-nil buffer))
pieces_from-append (c ∷ a) rest buffer free = elim (Bool-cases (c == b':')) [
  | inl colon ↦ absurd (ground arith)
  | inr other ↦ rw other (
      pieces_from-append a rest (buffer ++ c ∷ []) (ground arith)
      ∙ ap (λ b. b ∷ pieces_from [] rest) (append_assoc buffer (c ∷ []) a))
]

pub pieces_from-end :
    (a buffer : CString) → has_colon a ≡ false → pieces_from buffer a ≡ (buffer ++ a) ∷ []
unfolding pieces_from
pieces_from-end [] buffer free = ap (λ b. b ∷ []) (sym (append-nil buffer))
pieces_from-end (c ∷ a) buffer free = elim (Bool-cases (c == b':')) [
  | inl colon ↦ absurd (ground arith)
  | inr other ↦ rw other (
      pieces_from-end a (buffer ++ c ∷ []) (ground arith)
      ∙ ap (λ b. b ∷ []) (append_assoc buffer (c ∷ []) a))
]
