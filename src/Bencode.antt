-- ===== src/Bencode.antt =====
-- `bencode_to_hashmap` (utils/bencode/bencode.c). The reader of bencoded text in the same files is the
-- work of others: what it offers is the argument `Reader`, with an object of its own for `bencode_t`.
-- Allocations succeed; the text "fail", which is printed for a list that cannot be read, is left out.
pub mod Documents
pub mod Tables
pub mod Lookup
use uvg_torrent.Base.{
  ℕ, zero, suc, Bool, true, false, ◌||◌, Option, none, some, List, [], ◌∷◌, ◌++◌, ◌==◌, length,
  if◌then◌else◌, Run, ok, fault, out_of_fuel, ◌>>=◌,
}
use uvg_torrent.Libc.{CString, c_string}
use uvg_torrent.Hashmap
use uvg_torrent.Hashmap.{Hashmap}

-- A function that moves through its object returns the object behind the move. What leaves its
-- results unset is none.
pub record Reader : Type 1 where
  pub Bencode : Type 0
  pub init : List ℕ → Bencode
  pub is_dict : Bencode → Bool
  pub is_int : Bencode → Bool
  pub is_string : Bencode → Bool
  pub is_list : Bencode → Bool
  pub dict_has_next : Bencode → Bool
  -- the item, its key, and the rest
  pub dict_get_next : Bencode → Option (Bencode × List ℕ × Bencode)
  pub int_value : Bencode → Option ℕ
  pub string_value : Bencode → Option (List ℕ)
  pub list_has_next : Bencode → Bool × Bencode
  pub list_get_next : Bencode → Option Bencode × Bencode

-- What a list keeps: a table, or the bytes of a text, behind which the copy has a zero.
pub data Item (T : Type 0) : Type 0 where
  table_item : T → Item T
  text_item : List ℕ → Item T

-- What the hash table keeps: the 64 bits of a `long`, the bytes of a text, behind which the copy
-- has a zero, a table or a list. The struct of a table or of a list is copied, what it points to is shared.
pub data Value (T : Type 0) : Type 0 where
  number : ℕ → Value T
  text : List ℕ → Value T
  table : T → Value T
  items : List (Item T) → Value T

-- The tables that `depth` nested calls make.
abbrev pub Table : ℕ → Type 0
Table zero = Unit
Table (suc depth) = Hashmap (Value (Table depth))

-- `slack` is how many bytes the platform leaves behind an array of so many characters, `unset` what
-- an uninitialised `long` holds.
module _ (reader : Reader) (slack : ℕ → ℕ) (unset : ℕ) where
  open reader use {
    Bencode, is_dict, is_int, is_string, is_list, dict_has_next, dict_get_next, int_value,
    string_value, list_has_next, list_get_next,
  }

  -- `child` is `bencode_to_hashmap`.
  module _ {T : Type 0} (child : Bencode → Run T) where
    -- A text that could not be read is copied from NULL.
    unfoldable pub append_text : Option (List ℕ) → List (Item T) → Run (List (Item T))
    append_text none list = fault
    append_text (some bytes) list = ok (list ++ text_item bytes ∷ [])

    -- The branches on an element of a list: neither numbers nor lists are kept.
    unfoldable pub append_item : Bencode → List (Item T) → Run (List (Item T))
    unfolding append_text
    append_item be list =
        if is_dict be
        then (child be >>= λ t. ok (list ++ table_item t ∷ []))
        else if is_string be
        then append_text (string_value be) list
        else ok list

    -- An element that was not read is uninitialised.
    unfoldable pub list_next :
        (Bencode → List (Item T) → Run (List (Item T)))
        → Option Bencode × Bencode
        → List (Item T)
        → Run (List (Item T))
    list_next again (none, rest) list = fault
    list_next again (some be, rest) list = append_item be list >>= λ list'. again rest list'

    unfoldable pub list_more :
        (Bencode → List (Item T) → Run (List (Item T)))
        → Bool × Bencode
        → List (Item T)
        → Run (List (Item T))
    unfolding list_next
    list_more again (false, be) list = ok list
    list_more again (true, be) list = list_next again (list_get_next be) list

    -- `while (bencode_list_has_next(&benk))`.
    unfoldable pub read_list : ℕ → Bencode → List (Item T) → Run (List (Item T))
    unfolding list_more
    read_list zero be list = out_of_fuel
    read_list (suc fuel) be list = list_more (read_list fuel) (list_has_next be) list

    unfoldable pub number_value : Option ℕ → Value T
    number_value none = number unset
    number_value (some n) = number n

    unfoldable pub text_value : Option (List ℕ) → Run (Option (Value T))
    text_value none = fault
    text_value (some bytes) = ok (some (text bytes))

    -- The branches on the value of a key: what is of no kind is not stored.
    unfoldable pub value_of : ℕ → Bencode → Run (Option (Value T))
    unfolding read_list number_value text_value
    value_of fuel be =
        if is_dict be
        then (child be >>= λ t. ok (some (table t)))
        else if is_int be
        then ok (some (number_value (int_value be)))
        else if is_string be
        then text_value (string_value be)
        else if is_list be
        then (read_list fuel be [] >>= λ list. ok (some (items list)))
        else ok none

    unfoldable pub store : CString → Option (Value T) → Hashmap (Value T) → Hashmap (Value T)
    store key none m = m
    store key (some v) m = (Hashmap.set m (some key) (some v) true).1

    -- `dict_key[klen]`, an array of `klen` characters, is terminated behind its end.
    unfoldable pub dict_next :
        (Bencode → Hashmap (Value T) → Run (Hashmap (Value T)))
        → ℕ
        → Option (Bencode × List ℕ × Bencode)
        → Hashmap (Value T)
        → Run (Hashmap (Value T))
    unfolding value_of store
    dict_next again fuel none m = ok m
    dict_next again fuel (some (be, key, rest)) m =
        if length key == 0 || slack (length key) == 0
        then fault
        else (value_of fuel be >>= λ v. again rest (store (c_string key) v m))

    -- `while (bencode_dict_has_next(be))`.
    unfoldable pub read_dict : ℕ → ℕ → Bencode → Hashmap (Value T) → Run (Hashmap (Value T))
    unfolding dict_next
    read_dict zero list_fuel be m = out_of_fuel
    read_dict (suc fuel) list_fuel be m =
        if dict_has_next be
        then dict_next (read_dict fuel list_fuel) list_fuel (dict_get_next be) m
        else ok m

  unfoldable pub to_hashmap : (depth fuel : ℕ) → Bencode → Run (Table depth)
  unfolding read_dict
  to_hashmap zero fuel be = out_of_fuel
  to_hashmap (suc depth) fuel be =
      if is_dict be
      then read_dict (to_hashmap depth fuel) fuel fuel be Hashmap.new
      else ok Hashmap.new
