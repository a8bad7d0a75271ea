-- ===== src/LinkedList/Access.antt =====
-- `Linkedlist_get` of linkedlist.c by position, from 0 on: inside the list, just behind it, and far behind.
use mathlib.Core.Path.{subst}
use mathlib.Core.Option.{some-injective}
use uvg_torrent.Base.{
  ℕ, zero, suc, ◌<◌, ◌≡◌, ◌≢◌, refl, ◌∙◌, false, none, some, List, [], ◌∷◌, arith, ltb, le→ltb,
  length, get_elem?, ok, fault, ◌>>=◌,
}
use uvg_torrent.LinkedList.{Ptr, null, Heap, Linkedlist, load_node, node_get, walk, get_at}
use uvg_torrent.LinkedList.Chain.{Cell, Chain, first_or, node_of, walk-Chain, walk-Chain_end}
use uvg_torrent.LinkedList.Queue.{IsList, load_node-some}

module _ {A : Type 0} where
  -- What the heap holds for the cell at a position.
  record Holds (h : Heap A) (cs : List (Cell A)) (i : ℕ) (c : Cell A) : Type 0 where
    next : Ptr
    node : h c.addr ≡ some (node_of c next)
    nonnull : c.addr ≢ null
    inside : i < length cs
    some_head : first_or null cs ≢ null

  holds :
      (h : Heap A) (cs : List (Cell A)) (i : ℕ) (c : Cell A)
      → Chain h null cs
      → get_elem? cs i ≡ some c
      → Holds h cs i c
  holds h [] i c ch at = cc
  holds h (d ∷ cs) zero c ch at =
      subst (λ x. Holds h (d ∷ cs) zero x) (some-injective d c at)
        (record {
          next = first_or null cs;
          node = ch.1;
          nonnull = ch.0;
          inside = omega arith;
          some_head = ch.0;
        })
  holds h (d ∷ cs) (suc i) c ch at =
      let rest = holds h cs i c ch.3 at in
      record {
        next = rest.next;
        node = rest.node;
        nonnull = rest.nonnull;
        inside = omega (arith, rest.inside);
        some_head = ch.0;
      }

  -- Past the guards `get_at` is the walk and the read.
  get_walks :
      (h : Heap A) (l : Linkedlist) (i : ℕ)
      → l.head ≢ null
      → (ltb l.count i) ≡ false
      → get_at h l i ≡ (walk h i l.head >>= λ curr. node_get h curr)
  unfolding get_at
  get_walks h l i some_head low = ground arith

  -- `get_at` reads the value at every position inside the list.
  pub get-IsList :
      {h : Heap A} {l : Linkedlist} {cs : List (Cell A)} (i : ℕ) (c : Cell A)
      → IsList h l cs
      → get_elem? cs i ≡ some c
      → get_at h l i ≡ ok (some c.value)
  unfolding node_get
  get-IsList {h} {l} {cs} i c is at =
      let found = holds h cs i c is.chain at in
      get_walks h l i (rw is.head found.some_head)
        (le→ltb l.count i (omega (arith, is.count, found.inside)))
      ∙ rw
          (
            is.head,
            walk-Chain h cs i c is.chain at,
            load_node-some h c.addr (node_of c found.next) found.nonnull found.node,
          )
          refl

  -- The bound is off by one: of a list that is not empty, at the position just behind the last value `get_at` reads through NULL.
  pub get_end :
      {h : Heap A} {l : Linkedlist} {c : Cell A} {cs : List (Cell A)}
      → IsList h l (c ∷ cs)
      → get_at h l (length (c ∷ cs)) ≡ fault
  unfolding node_get
  get_end {h} {l} {c} {cs} is =
      let i = length (c ∷ cs) in
      get_walks h l i (rw is.head is.chain.0) (le→ltb l.count i (omega (arith, is.count)))
      ∙ rw (is.head, walk-Chain_end h (c ∷ cs) is.chain) (unfold load_node in refl)

  -- Further behind, and on an empty list, it answers NULL.
  pub get_beyond :
      {h : Heap A} {l : Linkedlist} {cs : List (Cell A)} (i : ℕ)
      → IsList h l cs
      → length cs < i
      → get_at h l i ≡ ok none
  unfolding get_at
  get_beyond i is far = ground (arith, is.count)
