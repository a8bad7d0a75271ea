-- ===== src/LinkedList.antt =====
-- data_structures/linkedlist: linkednode.c and linkedlist.c over an explicit heap. An address is
-- a number and NULL is 0. `malloc` and `calloc` answer the address that the operation is given,
-- NULL when memory is exhausted. A node owns a copy of its value, here the value itself.
pub mod Chain
pub mod Queue
pub mod Access
pub mod View
pub mod Assign
use mathlib.Core.Option
use uvg_torrent.Base.{
  ℕ, zero, suc, ◌+◌, ◌-◌, ◌^◌, ◌≡◌, Bool, true, false, Option, none, some, ◌==◌, ltb, if◌then◌else◌,
  Run, ok, fault, out_of_fuel, ◌>>=◌, ◌>>◌, Exit, exit_success, exit_failure,
}

abbrev pub Ptr : Type 0
Ptr = ℕ

abbrev pub null : Ptr
null = 0

-- `value` is none where the program has set it to NULL.
pub record Linkednode (A : Type 0) : Type 0 where
  pub value : Option A
  pub size : ℕ
  pub next : Ptr

abbrev pub Heap : Type 0 → Type 0
Heap A = Ptr → Option (Linkednode A)

pub record Linkedlist : Type 0 where
  pub head : Ptr
  pub end : Ptr
  pub count : ℕ

-- `Linkedlist_init`.
abbrev pub empty : Linkedlist
empty = record { head = null; end = null; count = 0 }

-- `pos` is the bit pattern of an `int`. A negative one passes the guard, as the count is not
-- negative, and no round of the loop: it is the same as 0.
unfoldable pub steps : ℕ → ℕ
steps pos = if ltb pos (2 ^ 31) then pos else 0

module _ {A : Type 0} where
  -- An access through a pointer; NULL and freed addresses fault.
  unfoldable pub load_node : Heap A → Ptr → Run (Linkednode A)
  load_node h p = if p == null then fault else elim (h p) [ none ↦ fault | some n ↦ ok n ]

  abbrev pub write : Heap A → Ptr → Option (Linkednode A) → Heap A
  write h p n q = if p == q then n else h q

  unfoldable pub store_next : Heap A → Ptr → Ptr → Run (Heap A)
  unfolding load_node
  store_next h p q = do n ← load_node h p; ok (write h p (some (record n { next = q })))

  -- `Linkednode_new` and `_init`: `fresh` answers the node's own allocation, `copied` says whether
  -- the copy of the value is allocated; without it the node is destroyed again.
  unfoldable pub node_new : Heap A → Ptr → Bool → A → ℕ → Ptr × Heap A
  node_new h fresh copied value size =
      if fresh == null
      then (null, h)
      else if copied
      then (fresh, write h fresh (some (record { value = some value; size = size; next = null })))
      else (null, write h fresh none)

  -- `Linkednode_set`: the old copy is freed before the new one is allocated.
  unfoldable pub node_set : Heap A → Ptr → Bool → A → ℕ → Run (Exit × Heap A)
  unfolding load_node
  node_set h p copied value size = do
    n ← load_node h p
    if copied
        then ok (exit_success, write h p (some (record n { value = some value; size = size })))
        else ok (exit_failure, write h p (some (record n { value = none; size = size })))

  unfoldable pub node_get : Heap A → Ptr → Run (Option A)
  unfolding load_node
  node_get h p = do n ← load_node h p; ok n.value

  -- `Linkednode_destroy`, down the `next` pointers.
  unfoldable pub node_destroy : ℕ → Heap A → Ptr → Run (Heap A)
  node_destroy zero h p = out_of_fuel
  node_destroy (suc fuel) h p = if p == null then ok h else do
    n ← load_node h p
    h' ← (if n.next == null then ok h else node_destroy fuel h n.next)
    ok (write h' p none)

  -- `Linkedlist_destroy`; the struct itself is freed by the caller's handle going away.
  unfoldable pub destroy : ℕ → Heap A → Linkedlist → Run (Heap A)
  unfolding node_destroy
  destroy fuel h l = if l.head == null then ok h else node_destroy fuel h l.head

  -- `for (i = 0; i < pos; i++) curr = curr->next`.
  unfoldable pub walk : Heap A → ℕ → Ptr → Run Ptr
  unfolding load_node
  walk h zero curr = ok curr
  walk h (suc left) curr = do n ← load_node h curr; walk h left n.next

  -- `Linkedlist_get`, from a position that is not negative.
  unfoldable pub get_at : Heap A → Linkedlist → ℕ → Run (Option A)
  unfolding walk node_get
  get_at h l pos =
      if l.head == null
      then ok none
      else if ltb l.count pos
      then ok none
      else do curr ← walk h pos l.head; node_get h curr

  unfoldable pub get : Heap A → Linkedlist → ℕ → Run (Option A)
  unfolding get_at steps
  get h l pos = get_at h l (steps pos)

  unfoldable pub pop : Heap A → Linkedlist → Run (Ptr × Linkedlist × Heap A)
  unfolding load_node store_next
  pop h l = if l.head == null then ok (null, l, h) else do
    n ← load_node h l.head
    h' ← store_next h l.head null
    ok (l.head, record l { head = n.next; count = l.count - 1 }, h')

  -- `Linkedlist_set`, from a position that is not negative.
  unfoldable pub set_at : Heap A → Linkedlist → ℕ → Bool → A → ℕ → Run (Exit × Heap A)
  unfolding walk node_set
  set_at h l pos copied value size =
      if l.head == null
      then ok (exit_failure, h)
      else if ltb l.count pos
      then ok (exit_failure, h)
      else do curr ← walk h pos l.head; node_set h curr copied value size

  unfoldable pub set : Heap A → Linkedlist → ℕ → Bool → A → ℕ → Run (Exit × Heap A)
  unfolding set_at steps
  set h l pos copied value size = set_at h l (steps pos) copied value size

  unfoldable pub append :
      Heap A → Linkedlist → Ptr → Bool → A → ℕ → Run (Exit × Linkedlist × Heap A)
  unfolding node_new store_next
  append h l fresh copied value size =
      let (node, h₁) = node_new h fresh copied value size in
      if node == null then ok (exit_failure, l, h₁) else do
        let l₁ : Linkedlist = if l.head == null then record l { head = node; end = node } else l
        h₂ ← store_next h₁ l₁.end node
        h₃ ← store_next h₂ node null
        ok (exit_success, record l₁ { end = node; count = l₁.count + 1 }, h₃)
