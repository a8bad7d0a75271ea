-- ===== src/Peer/Files.antt =====
-- The end of `Peer_get_metadata` (peer/peer.c): the files of the metadata, from the hash table that
-- `bencode_to_hashmap` makes of it. A value of another kind than the one that is read is read all the same.
use uvg_torrent.Base.{
  ℕ, suc, Option, none, some, List, [], ◌∷◌, ◌++◌, take, length, ltb, if◌then◌else◌, Run, ok, fault,
  ◌>>=◌,
}
use uvg_torrent.Libc.{CString, c_string}
use uvg_torrent.Words.{Host, store, load}
use uvg_torrent.Hashmap
use uvg_torrent.Hashmap.{Hashmap, Bucket, null, bucket}
use uvg_torrent.Peer.{Layout}
use uvg_torrent.Bencode.{
  Reader, Value, number, text, table, items, Item, table_item, text_item, to_hashmap,
}

-- "files", "length" and "path".
abbrev pub files_key : CString
files_key = b'f' ∷ b'i' ∷ b'l' ∷ b'e' ∷ b's' ∷ []

abbrev pub length_key : CString
length_key = b'l' ∷ b'e' ∷ b'n' ∷ b'g' ∷ b't' ∷ b'h' ∷ []

abbrev pub path_key : CString
path_key = b'p' ∷ b'a' ∷ b't' ∷ b'h' ∷ []

module _ {T : Type 0} (layout : Layout) where
  -- A number is shorter than a list. The bytes of a text are taken for the addresses of the nodes and
  -- of `destroy`, and followed.
  unfoldable pub list_of : Option (Value T) → Run (List (Item T))
  list_of (some (items list)) = ok list
  list_of (some (number n)) = fault
  list_of (some (text bytes)) = fault
  list_of (some (table t)) = layout.mistaken.table_list t
  list_of none = fault

  -- The `long` is read as an `int`: its first four bytes. So is everything else; a text has a zero
  -- behind it.
  unfoldable pub int_of : Host → Option (Value T) → Run ℕ
  int_of host (some (number n)) = ok (load host (take 4 (store host 8 n)))
  int_of host (some (items list)) = ok layout.mistaken.list_int
  int_of host (some (text bytes)) =
      if ltb (length bytes) 3 then fault else ok (load host (take 4 (bytes ++ 0 ∷ [])))
  int_of host (some (table t)) = ok layout.mistaken.table_int
  int_of host none = fault

  -- A text is printed up to its first zero.
  unfoldable pub text_of : Item T → Run CString
  text_of (text_item bytes) = ok (c_string bytes)
  text_of (table_item t) = ok layout.mistaken.table_text

  -- What `path_str` points to behind the loop over the path: nothing, if the path is empty.
  unfoldable pub last_text : List (Item T) → Run CString
  unfolding text_of
  last_text [] = fault
  last_text (name ∷ []) = text_of name
  last_text (name ∷ next ∷ path) = last_text (next ∷ path)

  -- The list behind the first bucket that a key hashes to, which is destroyed there.
  unfoldable pub destroy_list : Bucket (Value T) → Run (Unit {0})
  destroy_list (bucket k (items list) next) = ok tt
  destroy_list (bucket k (number n) next) = fault
  destroy_list (bucket k (text bytes) next) = fault
  destroy_list (bucket k (table t) next) = layout.mistaken.destroyed t
  destroy_list null = fault

  -- One round of the loop over the files: the name and the size that are printed. The table of the
  -- file and its path are destroyed.
  unfoldable pub show_file : Host → ℕ → Hashmap (Value T) → Run (CString × ℕ)
  unfolding list_of int_of last_text destroy_list
  show_file host fuel file = do
    size ← Hashmap.get fuel file (some length_key)
    list ← Hashmap.get fuel file (some path_key)
    path ← list_of list
    name ← last_text path
    length ← int_of host size
    path_done ← destroy_list (Hashmap.get_bucket file (some path_key))
    file_done ← Hashmap.destroy file
    ok (name, length)

module _ {T : Type 0} (layout : Layout) (host : Host) (fuel : ℕ) where
  -- An entry that is a text is read as a table: the address of `get` is past its end, or its bytes.
  unfoldable pub show_item : Item (Hashmap (Value T)) → Run (CString × ℕ)
  unfolding show_file
  show_item (table_item file) = show_file layout host fuel file
  show_item (text_item bytes) = fault

  unfoldable pub show_items : List (Item (Hashmap (Value T))) → Run (List (CString × ℕ))
  unfolding show_item
  show_items [] = ok []
  show_items (item ∷ list) = do shown ← show_item item; rest ← show_items list; ok (shown ∷ rest)

  unfoldable pub show_table : Hashmap (Value (Hashmap (Value T))) → Run (List (CString × ℕ))
  unfolding show_items list_of destroy_list
  show_table metadata = do
    entry ← Hashmap.get fuel metadata (some files_key)
    list ← list_of layout entry
    shown ← show_items list
    files_done ← destroy_list layout (Hashmap.get_bucket metadata (some files_key))
    metadata_done ← Hashmap.destroy metadata
    ok shown

-- From `bencode_init` on. Tables may be nested as deep as the fuel.
unfoldable pub show_metadata : Reader → Layout → Host → ℕ → List ℕ → Run (List (CString × ℕ))
unfolding show_table to_hashmap
show_metadata reader layout host fuel bytes =
    to_hashmap reader layout.dict_key layout.unset_long (suc (suc fuel)) fuel (reader.init bytes)
    >>= show_table layout host fuel
