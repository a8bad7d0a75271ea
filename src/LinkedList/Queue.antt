-- ===== src/LinkedList/Queue.antt =====
-- linkedlist.c refines a sequence: `append` adds at the end, `pop` takes from the front, `get` and
-- `set` index it, `destroy` frees it.
use uvg_torrent.Base.{
  ℕ, ◌+◌, ◌-◌, ◌≡◌, ◌≢◌, refl, sym, ◌∙◌, ◌⊎◌, inl, inr, Bool, Bool-cases, true, false, Option, none,
  some, List, [], ◌∷◌, ◌++◌, arith, ◌==◌, length, length-append, Run, ok, ◌>>=◌, Exit, exit_success,
  exit_failure,
}
use uvg_torrent.LinkedList.{
  Ptr, null, Linkednode, Heap, Linkedlist, load_node, write, store_next, node_new, append, pop,
}
use uvg_torrent.LinkedList.Chain.{
  Cell, Chain, first_or, last_or, has, node_of, frame-write, relink, Chain-append, ne_of_has,
  last_or-append, write-ne,
}

-- `end` means something only while the list is not empty: `pop` leaves it dangling.
pub record IsList {A : Type 0} (h : Heap A) (l : Linkedlist) (cs : List (Cell A)) : Type 0 where
  pub chain : Chain h null cs
  pub head : l.head ≡ first_or null cs
  pub end : l.head ≢ null → l.end ≡ last_or null cs
  pub count : l.count ≡ length cs

nonzero : (p : Ptr) → p ≢ null → (p == null) ≡ false
nonzero p h = ground arith

module _ {A : Type 0} where
  write_self : (h : Heap A) (p : Ptr) (n : Option (Linkednode A)) → write h p n p ≡ n
  write_self h p n = ground arith

  -- The list and the heap that `append` leaves.
  pub record Appended (h : Heap A) (l : Linkedlist) (cs : List (Cell A)) (d : Cell A)
      (r : Run (Exit × Linkedlist × Heap A)) : Type 0 where
    pub list : Linkedlist
    pub heap : Heap A
    pub returns : r ≡ ok (exit_success, list, heap)
    pub holds : IsList heap list (cs ++ d ∷ [])

  pub load_node-some :
      (h : Heap A) (p : Ptr) (n : Linkednode A) → p ≢ null → h p ≡ some n → load_node h p ≡ ok n
  unfolding load_node
  load_node-some h p n nonnull at = ground arith

  store_next-some :
      (h : Heap A) (p q : Ptr) (n : Linkednode A)
      → p ≢ null
      → h p ≡ some n
      → store_next h p q ≡ ok (write h p (some (record n { next = q })))
  unfolding store_next
  store_next-some h p q n nonnull at = rw (load_node-some h p n nonnull at)

  append_empty :
      (h : Heap A) (l : Linkedlist) (d : Cell A)
      → IsList h l []
      → d.addr ≢ null
      → Appended h l [] d (append h l d.addr true d.value d.size)
  unfolding append node_new store_next load_node
  append_empty h l d is nonnull = record {
    list = record { head = d.addr; end = d.addr; count = l.count + 1 };
    heap =
        let h₁ = write h d.addr (some (node_of d null)) in
        let h₂ = write h₁ d.addr (some (node_of d d.addr)) in
        write h₂ d.addr (some (node_of d null));
    returns = ground (arith, is.head);
    holds = record {
      chain = (nonnull, ground arith, refl, tt);
      head = refl;
      end = λ _. refl;
      count = omega (arith, is.count);
    };
  }

  -- On a list with a head `append` links the new node behind `end`.
  append_links :
      (h : Heap A) (l : Linkedlist) (d : Cell A)
      → l.head ≢ null
      → d.addr ≢ null
      → append h l d.addr true d.value d.size ≡ (
          store_next (write h d.addr (some (node_of d null))) l.end d.addr >>= λ h₂.
          store_next h₂ d.addr null >>= λ h₃.
          ok (exit_success, record l { end = d.addr; count = l.count + 1 }, h₃))
  unfolding append node_new
  append_links h l d some_head nonnull = ground arith

  append_cons :
      (h : Heap A) (l : Linkedlist) (c : Cell A) (cs : List (Cell A)) (d : Cell A)
      → IsList h l (c ∷ cs)
      → d.addr ≢ null
      → has d.addr (c ∷ cs) ≡ false
      → Appended h l (c ∷ cs) d (append h l d.addr true d.value d.size)
  append_cons h l c cs d is nonnull out =
      let p = last_or c.addr cs in
      let h₁ = write h d.addr (some (node_of d null)) in
      let ch₁ : Chain h₁ null (c ∷ cs) = frame-write h null d.addr _ (c ∷ cs) is.chain out in
      let (n, at, p_nonnull, mem, ch₂) = relink h₁ null d.addr c cs ch₁ in
      let h₂ = write h₁ p (some (record n { next = d.addr })) in
      let apart : (p == d.addr) ≡ false = ne_of_has p d.addr (c ∷ cs) mem out in
      let at_d : h₂ d.addr ≡ some (node_of d null) =
        write-ne h₁ p d.addr _ apart ∙ write_self h d.addr (some (node_of d null)) in
      let head : l.head ≢ null = λ e. is.chain.0 (sym is.head ∙ e) in
      let h₃ = write h₂ d.addr (some (node_of d null)) in
      record {
        list = record l { end = d.addr; count = l.count + 1 };
        heap = h₃;
        returns =
            append_links h l d head nonnull
            ∙ rw
                (
                  is.end head,
                  store_next-some h₁ p d.addr n p_nonnull at,
                  store_next-some h₂ d.addr null (node_of d null) nonnull at_d,
                )
                refl;
        holds = record {
          chain =
              Chain-append h₃ null d (c ∷ cs) (frame-write h₂ d.addr d.addr _ (c ∷ cs) ch₂ out)
                nonnull (write_self h₂ d.addr _) out;
          head = is.head;
          end = λ _. sym (last_or-append c.addr cs d);
          count = omega (arith, is.count, length-append cs (d ∷ []));
        };
      }

  -- `append` of a value at a fresh address, when memory lasts, succeeds and leaves the list with the
  -- value at its end. On an empty list `end` may dangle.
  pub append-IsList :
      {h : Heap A} {l : Linkedlist} {cs : List (Cell A)} (d : Cell A)
      → IsList h l cs
      → d.addr ≢ null
      → has d.addr cs ≡ false
      → Appended h l cs d (append h l d.addr true d.value d.size)
  append-IsList {h} {l} {cs = []} d is nonnull out = append_empty h l d is nonnull
  append-IsList {h} {l} {cs = c ∷ cs} d is nonnull out = append_cons h l c cs d is nonnull out

  -- When memory is exhausted `append` fails and leaves the list as it was.
  pub append_exhausted :
      {h : Heap A} {l : Linkedlist} {cs : List (Cell A)} (fresh : Ptr) (copied : Bool) (v : A)
      (size : ℕ)
      → IsList h l cs
      → (fresh ≡ null) ⊎ (copied ≡ false)
      → has fresh cs ≡ false
      → (h' : Heap A) × (append h l fresh copied v size ≡ ok (exit_failure, l, h')) × IsList h' l cs
  unfolding append node_new
  append_exhausted {h} {l} {cs} fresh copied v size is out_of_memory out =
      elim (Bool-cases (fresh == null)) [
        | inl e ↦ (h, rw e refl, is)
        | inr e ↦
            let full : copied ≡ false = ground arith in
            (
              write h fresh none,
              rw (e, full) refl,
              record {
                chain = frame-write h null fresh none cs is.chain out;
                head = is.head;
                end = is.end;
                count = is.count;
              },
            )
      ]

  -- The list and the heap that `pop` leaves, and the node that it gives away.
  pub record Popped (h : Heap A) (c : Cell A) (cs : List (Cell A))
      (r : Run (Ptr × Linkedlist × Heap A)) : Type 0 where
    pub list : Linkedlist
    pub heap : Heap A
    pub returns : r ≡ ok (c.addr, list, heap)
    pub given : heap c.addr ≡ some (node_of c null)
    pub holds : IsList heap list cs

  end_behind :
      {p : Ptr} (c : Cell A) (cs : List (Cell A))
      → p ≡ last_or c.addr cs
      → first_or null cs ≢ null
      → p ≡ last_or null cs
  end_behind c [] e some_head = absurd (some_head refl)
  end_behind c (d ∷ cs) e some_head = e

  pop_run :
      (h : Heap A) (l : Linkedlist) (p : Ptr) (n : Linkednode A)
      → l.head ≡ p
      → p ≢ null
      → h p ≡ some n
      → pop h l
        ≡ ok (
          p,
          record l { head = n.next; count = l.count - 1 },
          write h p (some (record n { next = null })),
        )
  unfolding pop
  pop_run h l p n head nonnull at = ground arith

  -- `pop` of a list that is not empty takes the first value off and returns its node, which holds
  -- the value and is linked to nothing; the rest is a list again.
  pub pop-IsList :
      {h : Heap A} {l : Linkedlist} {c : Cell A} {cs : List (Cell A)}
      → IsList h l (c ∷ cs)
      → Popped h c cs (pop h l)
  unfolding pop
  pop-IsList {h} {l} {c} {cs} is =
      let node = node_of c (first_or null cs) in
      record {
        list = record l { head = first_or null cs; count = l.count - 1 };
        heap = write h c.addr (some (node_of c null));
        returns = pop_run h l c.addr node is.head is.chain.0 is.chain.1;
        given = write_self h c.addr _;
        holds = record {
          chain = frame-write h null c.addr _ cs is.chain.3 is.chain.2;
          head = refl;
          end = end_behind c cs (is.end (λ e. is.chain.0 (sym is.head ∙ e)));
          count = omega (arith, is.count);
        };
      }

  -- `pop` of an empty list gives NULL and changes nothing.
  pub pop_empty : (h : Heap A) (l : Linkedlist) → IsList h l [] → pop h l ≡ ok (null, l, h)
  unfolding pop
  pop_empty h l is = rw is.head refl
