-- ===== src/LinkedList/Assign.antt =====
-- `Linkedlist_set` of data_structures/linkedlist/linkedlist.c.
use uvg_torrent.Base.{
  ℕ, zero, suc, ◌<◌, ◌≡◌, ◌≢◌, refl, sym, ap, ◌∙◌, true, false, ◌||◌, Option, none, some, List, [],
  ◌∷◌, arith, ◌==◌, ltb, le→ltb, Run, ok, ◌>>=◌, Exit, exit_success, length, get_elem?,
}
use mathlib.Core.Path.{subst}
use mathlib.Core.Option.{some-injective}
use uvg_torrent.LinkedList.{
  Ptr, null, Linkednode, Heap, Linkedlist, write, walk, node_set, steps, set_at, set,
}
use uvg_torrent.LinkedList.Chain.{
  Cell, Chain, node_of, first_or, last_or, has, frame-write, ne_of_has, write-ne, walk-Chain,
}
use uvg_torrent.LinkedList.Queue.{IsList, load_node-some}

module _ {A : Type 0} where
  -- The list with another value at a position.
  abbrev pub put : List (Cell A) → ℕ → A → ℕ → List (Cell A)
  put [] i v size = []
  put (c ∷ cs) zero v size = record c { value = v; size = size } ∷ cs
  put (c ∷ cs) (suc i) v size = c ∷ put cs i v size

  first_or-put :
      (stop : Ptr) (cs : List (Cell A)) (i : ℕ) (v : A) (size : ℕ)
      → first_or stop (put cs i v size) ≡ first_or stop cs
  first_or-put stop [] i v size = refl
  first_or-put stop (c ∷ cs) zero v size = refl
  first_or-put stop (c ∷ cs) (suc i) v size = refl

  last_or-put :
      (p : Ptr) (cs : List (Cell A)) (i : ℕ) (v : A) (size : ℕ)
      → last_or p (put cs i v size) ≡ last_or p cs
  last_or-put p [] i v size = refl
  last_or-put p (c ∷ cs) zero v size = refl
  last_or-put p (c ∷ cs) (suc i) v size = last_or-put c.addr cs i v size

  has-put :
      (p : Ptr) (cs : List (Cell A)) (i : ℕ) (v : A) (size : ℕ) → has p (put cs i v size) ≡ has p cs
  has-put p [] i v size = refl
  has-put p (c ∷ cs) zero v size = refl
  has-put p (c ∷ cs) (suc i) v size = ap (λ b. (c.addr == p) || b) (has-put p cs i v size)

  length-put :
      (cs : List (Cell A)) (i : ℕ) (v : A) (size : ℕ) → length (put cs i v size) ≡ length cs
  length-put [] i v size = refl
  length-put (c ∷ cs) zero v size = refl
  length-put (c ∷ cs) (suc i) v size = ap suc (length-put cs i v size)

  write_here : (h : Heap A) (p : Ptr) (n : Option (Linkednode A)) → write h p n p ≡ n
  write_here h p n = ground arith

  -- The node at a position, and the chain once it holds another value.
  record Assigned (h : Heap A) (stop : Ptr) (cs : List (Cell A)) (i : ℕ) (v : A) (size : ℕ)
      (c : Cell A) : Type 0 where
    node : Linkednode A
    at : h c.addr ≡ some node
    nonnull : c.addr ≢ null
    member : has c.addr cs ≡ true
    inside : i < length cs
    chain :
        Chain
          (write h c.addr (some (record node { value = some v; size = size })))
          stop
          (put cs i v size)

  assigned :
      (h : Heap A) (stop : Ptr) (cs : List (Cell A)) (i : ℕ) (v : A) (size : ℕ) (c : Cell A)
      → Chain h stop cs
      → get_elem? cs i ≡ some c
      → Assigned h stop cs i v size c
  assigned h stop [] i v size c ch at = cc
  assigned h stop (d ∷ cs) zero v size c ch at =
      subst (λ x. Assigned h stop (d ∷ cs) zero v size x) (some-injective d c at)
        (record {
          node = node_of d (first_or stop cs);
          at = ch.1;
          nonnull = ch.0;
          member = ground arith;
          inside = omega arith;
          chain = (ch.0, write_here h d.addr _, ch.2, frame-write h stop d.addr _ cs ch.3 ch.2);
        })
  assigned h stop (d ∷ cs) (suc i) v size c ch at =
      let rest = assigned h stop cs i v size c ch.3 at in
      let apart : (c.addr == d.addr) ≡ false = ne_of_has c.addr d.addr cs rest.member ch.2 in
      record {
        node = rest.node;
        at = rest.at;
        nonnull = rest.nonnull;
        member = ground (arith, rest.member);
        inside = omega (arith, rest.inside);
        chain = (
          ch.0,
          write-ne h c.addr d.addr _ apart
              ∙ ch.1
              ∙ ap (λ p. some (node_of d p)) (sym (first_or-put stop cs i v size)),
          has-put d.addr cs i v size ∙ ch.2,
          rest.chain,
        );
      }

  set_walks :
      (h : Heap A) (l : Linkedlist) (i : ℕ) (v : A) (size : ℕ)
      → l.head ≢ null
      → (ltb l.count i) ≡ false
      → set_at h l i true v size ≡ (walk h i l.head >>= λ curr. node_set h curr true v size)
  unfolding set_at
  set_walks h l i v size some_head low = ground arith

  -- The heap that `set` leaves.
  pub record Stored (h : Heap A) (l : Linkedlist) (cs : List (Cell A)) (r : Run (Exit × Heap A))
      : Type 0 where
    pub heap : Heap A
    pub returns : r ≡ ok (exit_success, heap)
    pub holds : IsList heap l cs

  set_at-IsList :
      {h : Heap A} {l : Linkedlist} {cs : List (Cell A)} (i : ℕ) (v : A) (size : ℕ) (c : Cell A)
      → IsList h l cs
      → get_elem? cs i ≡ some c
      → Stored h l (put cs i v size) (set_at h l i true v size)
  unfolding node_set
  set_at-IsList {h} {l} {cs} i v size c is at =
      let done = assigned h null cs i v size c is.chain at in
      let n = done.node in
      record {
        heap = write h c.addr (some (record n { value = some v; size = size }));
        returns =
            set_walks h l i v size (head_of h cs i c is at)
              (le→ltb l.count i (omega (arith, is.count, done.inside)))
            ∙ rw
                (
                  is.head,
                  walk-Chain h cs i c is.chain at,
                  load_node-some h c.addr n done.nonnull done.at,
                )
                refl;
        holds = record {
          chain = done.chain;
          head = is.head ∙ sym (first_or-put null cs i v size);
          end = λ e. is.end e ∙ sym (last_or-put null cs i v size);
          count = is.count ∙ sym (length-put cs i v size);
        };
      }
    where
      head_of :
          (h : Heap A) (cs : List (Cell A)) (i : ℕ) (c : Cell A)
          → IsList h l cs
          → get_elem? cs i ≡ some c
          → l.head ≢ null
      head_of h [] i c is at = absurd (none_some at)
        where
          none_some : none ≡ some c → ⊥
          none_some e = cc
      head_of h (d ∷ cs) i c is at = λ e. is.chain.0 (sym is.head ∙ e)

  -- `set` at a position inside a well-formed list, when memory lasts, succeeds and leaves the list with
  -- the new value in the place of the old one and everything else as it was. A negative position is
  -- taken for 0.
  pub set-IsList :
      {h : Heap A} {l : Linkedlist} {cs : List (Cell A)} (i : ℕ) (v : A) (size : ℕ) (c : Cell A)
      → IsList h l cs
      → get_elem? cs (steps i) ≡ some c
      → Stored h l (put cs (steps i) v size) (set h l i true v size)
  unfolding set
  set-IsList i v size c is at = set_at-IsList (steps i) v size c is at
