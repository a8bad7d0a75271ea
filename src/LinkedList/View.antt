-- ===== src/LinkedList/View.antt =====
-- The list that the other components work with: the values alone. `get` on the heap refines it.
use uvg_torrent.Base.{
  ℕ, zero, suc, ◌<◌, ◌≡◌, refl, sym, ap, ◌∙◌, Option, none, some, List, [], ◌∷◌, arith, length,
  get_elem?, Run, ok, fault, inl, inr, ◌⊎◌,
}
use uvg_torrent.LinkedList.{Heap, Linkedlist, steps, get_at, get}
use uvg_torrent.LinkedList.Chain.{Cell}
use uvg_torrent.LinkedList.Queue.{IsList}
use uvg_torrent.LinkedList.Access.{get-IsList, get_end, get_beyond}

module _ {A : Type 0} where
  abbrev pub values : List (Cell A) → List A
  values [] = []
  values (c ∷ cs) = c.value ∷ values cs

  -- `Linkedlist_get` on the values of a list that is not empty.
  unfoldable pub get_from : List A → ℕ → Run (Option A)
  get_from [] zero = fault
  get_from [] (suc i) = ok none
  get_from (x ∷ xs) zero = ok (some x)
  get_from (x ∷ xs) (suc i) = get_from xs i

  -- `Linkedlist_get` on the values, from a position that is not negative: NULL on an empty list and past the count, a fault at the count.
  unfoldable pub list_get : List A → ℕ → Run (Option A)
  unfolding get_from
  list_get [] i = ok none
  list_get (x ∷ xs) i = get_from (x ∷ xs) i

  -- Inside the list, just behind it, and further behind.
  abbrev Position : List (Cell A) → ℕ → Type 0
  Position cs i =
      ((c : Cell A) × (get_elem? cs i ≡ some c) × (get_from (values cs) i ≡ ok (some c.value)))
      ⊎ (((i ≡ length cs) × (get_from (values cs) i ≡ fault))
          ⊎ ((length cs < i) × (get_from (values cs) i ≡ ok none)))

  position : (cs : List (Cell A)) (i : ℕ) → Position cs i
  unfolding get_from
  position [] zero = inr (inl (refl, refl))
  position [] (suc i) = inr (inr (omega arith, refl))
  position (c ∷ cs) zero = inl (c, refl, refl)
  position (c ∷ cs) (suc i) = elim (position cs i) [
    | inl found ↦ inl found
    | inr (inl (at, read)) ↦ inr (inl (ap suc at, read))
    | inr (inr (past, read)) ↦ inr (inr (omega arith, read))
  ]

  get_empty : {h : Heap A} {l : Linkedlist} (i : ℕ) → IsList h l [] → get_at h l i ≡ ok none
  unfolding get_at
  get_empty i is = rw is.head refl

  get_at-list_get :
      {h : Heap A} {l : Linkedlist} (cs : List (Cell A)) (i : ℕ)
      → IsList h l cs
      → get_at h l i ≡ list_get (values cs) i
  unfolding list_get
  get_at-list_get [] i is = get_empty i is
  get_at-list_get {h} {l} (c ∷ cs) i is = elim (position (c ∷ cs) i) [
    | inl (d, at, read) ↦ get-IsList i d is at ∙ sym read
    | inr (inl (at, read)) ↦ ap (λ n. get_at h l n) at ∙ get_end is ∙ sym read
    | inr (inr (past, read)) ↦ get_beyond i is past ∙ sym read
  ]

  -- On a well-formed list `get` is the reading of its values, at every position that is not negative:
  -- the value inside, the fault at the count, and NULL on an empty list and past the count. At a negative
  -- position, the bit pattern of which is 2^31 or more, it is the reading at 0.
  pub get-list_get :
      {h : Heap A} {l : Linkedlist} (cs : List (Cell A)) (i : ℕ)
      → IsList h l cs
      → get h l i ≡ list_get (values cs) (steps i)
  unfolding get
  get-list_get cs i is = get_at-list_get cs (steps i) is
