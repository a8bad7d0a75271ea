-- ===== src/LinkedList/Chain.antt =====
-- What a linked list on the heap stands for: the cells that its `next` pointers lead through.
use uvg_torrent.Base.{
  ℕ, zero, suc, ◌≡◌, ◌≢◌, refl, ◌∙◌, Bool, true, false, ◌||◌, Option, none, some, List, [], ◌∷◌,
  ◌++◌, arith, ◌==◌, length, get_elem?, ok,
}
use uvg_torrent.LinkedList.{Ptr, null, Linkednode, Heap, load_node, write, walk}

-- A cell: the address of a node, its value and the size recorded with it.
pub record Cell (A : Type 0) : Type 0 where
  pub addr : Ptr
  pub value : A
  pub size : ℕ

or_true : (b : Bool) → (b || true) ≡ true
or_true true = refl
or_true false = refl

module _ {A : Type 0} where
  abbrev pub first_or : Ptr → List (Cell A) → Ptr
  first_or stop [] = stop
  first_or stop (c ∷ cs) = c.addr

  abbrev pub last_or : Ptr → List (Cell A) → Ptr
  last_or p [] = p
  last_or p (c ∷ cs) = last_or c.addr cs

  abbrev pub has : Ptr → List (Cell A) → Bool
  has p [] = false
  has p (c ∷ cs) = (c.addr == p) || has p cs

  abbrev pub node_of : Cell A → Ptr → Linkednode A
  node_of c next = record { value = some c.value; size = c.size; next = next }

  -- The nodes at the addresses of `cs` are distinct, hold the values of `cs` and are linked in
  -- this order; the last one's `next` is `stop`.
  abbrev pub Chain : Heap A → Ptr → List (Cell A) → Type 0
  Chain h stop [] = Unit
  Chain h stop (c ∷ cs) =
      (c.addr ≢ null)
      × (h c.addr ≡ some (node_of c (first_or stop cs)))
      × (has c.addr cs ≡ false)
      × Chain h stop cs

  -- A chain depends on its own addresses only.
  pub frame :
      (h g : Heap A) (stop : Ptr) (cs : List (Cell A))
      → Chain h stop cs
      → ((a : Ptr) → has a cs ≡ true → g a ≡ h a)
      → Chain g stop cs
  frame h g stop [] ch same = tt
  frame h g stop (c ∷ cs) ch same = (
    ch.0,
    same c.addr (ground arith) ∙ ch.1,
    ch.2,
    frame h g stop cs ch.3 (λ a i. same a (ground arith)),
  )

  pub frame-write :
      (h : Heap A) (stop p : Ptr) (n : Option (Linkednode A)) (cs : List (Cell A))
      → Chain h stop cs
      → has p cs ≡ false
      → Chain (write h p n) stop cs
  frame-write h stop p n cs ch out = frame h (write h p n) stop cs ch (λ a i. ground arith)

  pub has-append : (p : Ptr) (cs ds : List (Cell A)) → has p (cs ++ ds) ≡ (has p cs || has p ds)
  has-append p [] ds = refl
  has-append p (c ∷ cs) ds = ground (arith, has-append p cs ds)

  pub first_or-append :
      (stop : Ptr) (cs : List (Cell A)) (d : Cell A)
      → first_or stop (cs ++ d ∷ []) ≡ first_or d.addr cs
  first_or-append stop [] d = refl
  first_or-append stop (c ∷ cs) d = refl

  pub ne_of_has :
      (p q : Ptr) (cs : List (Cell A)) → has p cs ≡ true → has q cs ≡ false → (p == q) ≡ false
  ne_of_has p q [] i o = cc
  ne_of_has p q (c ∷ cs) i o = ground (arith, ne_of_has p q cs)

  pub write-ne :
      (h : Heap A) (p q : Ptr) (n : Option (Linkednode A)) → (p == q) ≡ false → write h p n q ≡ h q
  write-ne h p q n e = rw e

  -- Writing the last node's `next` redirects the end of the chain.
  pub relink :
      (h : Heap A) (stop q : Ptr) (c : Cell A) (cs : List (Cell A))
      → Chain h stop (c ∷ cs)
      → (n : Linkednode A) × (h (last_or c.addr cs) ≡ some n)
        × (last_or c.addr cs ≢ null)
        × (has (last_or c.addr cs) (c ∷ cs) ≡ true)
        × Chain (write h (last_or c.addr cs) (some (record n { next = q }))) q (c ∷ cs)
  relink h stop q c [] ch =
      (node_of c stop, ch.1, ch.0, ground arith, (ch.0, ground arith, refl, tt))
  relink h stop q c (d ∷ cs) ch =
      let (n, at, nonnull, mem, rest) = relink h stop q d cs ch.3 in
      let last = last_or d.addr cs in
      let other : (last == c.addr) ≡ false = ne_of_has last c.addr (d ∷ cs) mem ch.2 in
      let kept = write-ne h last c.addr (some (record n { next = q })) other ∙ ch.1 in
      (n, at, nonnull, rw mem (or_true (c.addr == last)), (ch.0, kept, ch.2, rest))

  -- A node behind the end joins the chain.
  pub Chain-append :
      (h : Heap A) (stop : Ptr) (d : Cell A) (cs : List (Cell A))
      → Chain h d.addr cs
      → d.addr ≢ null
      → h d.addr ≡ some (node_of d stop)
      → has d.addr cs ≡ false
      → Chain h stop (cs ++ d ∷ [])
  Chain-append h stop d [] ch nonnull at out = (nonnull, at, refl, tt)
  Chain-append h stop d (c ∷ cs) ch nonnull at out = (
    ch.0,
    rw (first_or-append stop cs d) ch.1,
    ground (arith, has-append c.addr cs (d ∷ [])),
    Chain-append h stop d cs ch.3 nonnull at (ground arith),
  )

  pub last_or-append :
      (p : Ptr) (cs : List (Cell A)) (d : Cell A) → last_or p (cs ++ d ∷ []) ≡ d.addr
  last_or-append p [] d = refl
  last_or-append p (c ∷ cs) d = last_or-append c.addr cs d

  -- The walk of `get` and `set` reaches the cell at a position inside the list, and NULL just
  -- behind it.
  pub walk-Chain :
      (h : Heap A) (cs : List (Cell A)) (i : ℕ) (c : Cell A)
      → Chain h null cs
      → get_elem? cs i ≡ some c
      → walk h i (first_or null cs) ≡ ok c.addr
  unfolding walk load_node
  walk-Chain h [] i c ch at = absurd (no_elem at)
    where
      no_elem : none ≡ some c → ⊥
      no_elem e = cc
  walk-Chain h (d ∷ cs) zero c ch at = ground arith
  walk-Chain h (d ∷ cs) (suc i) c ch at = ground (arith, walk-Chain h cs i c ch.3)

  pub walk-Chain_end :
      (h : Heap A) (cs : List (Cell A))
      → Chain h null cs
      → walk h (length cs) (first_or null cs) ≡ ok null
  unfolding walk load_node
  walk-Chain_end h [] ch = refl
  walk-Chain_end h (d ∷ cs) ch = ground (arith, walk-Chain_end h cs ch.3)
