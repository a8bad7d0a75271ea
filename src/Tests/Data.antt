-- ===== src/Tests/Data.antt =====
-- The theorems on strings, integers, the hash table and the linked list.
use uvg_torrent.Base.{
  ℕ, ◌≡◌, ◌≢◌, refl, true, false, none, some, List, [], ◌∷◌, arith, ltb, if◌then◌else◌, ok, fault,
  out_of_fuel, Returns, exit_success, exit_failure, length, All, ==_self,
}
use uvg_torrent.Libc.{CString, str_eq}
use uvg_torrent.Words.{Host}
use uvg_torrent.Str.{urldecode, urlencode, split, split_loop, append_buffer, hex_to_int8_t}
use uvg_torrent.Str.Url.{urldecode-urlencode}
use uvg_torrent.Str.Split.{pieces, all_short, split-pieces}
use uvg_torrent.Str.Hex.{IsFlat, hex_to_int8_t-little}
use uvg_torrent.Hashmap
use uvg_torrent.Hashmap.{
  Hashmap, max_hashtable_keys, bucket_index, get_hash, hash_loop, hash_round, sign_extend,
  write_bucket,
}
use uvg_torrent.Hashmap.Count.{IsCounted, occupied, set-IsCounted, new-IsCounted}
use uvg_torrent.Hashmap.Collisions.{get-set_collision, get-set_again}
use uvg_torrent.Hashmap.Destroy.{set-destroy}
use uvg_torrent.Hashmap.Map.{set_all, lookup, IsSpread, get-set_all}
use uvg_torrent.LinkedList
use uvg_torrent.LinkedList.{Heap, Linkedlist}
use uvg_torrent.LinkedList.Chain.{Cell}
use uvg_torrent.LinkedList.Queue.{IsList, Appended, append-IsList, Popped, pop-IsList}
use uvg_torrent.LinkedList.Assign.{put, Stored, set-IsList}
use uvg_torrent.LinkedList.View.{values, list_get, get-list_get}

abbrev text : CString
text = b'a' ∷ b':' ∷ b'b' ∷ []

urldecode-urlencode_example : urldecode (urlencode text) ≡ text
urldecode-urlencode_example =
    urldecode-urlencode text
      ((omega arith, omega arith), ((omega arith, omega arith), ((omega arith, omega arith), tt)))

split-pieces_example :
    split text b',' ≡ (if all_short (pieces text) then ok (pieces text) else fault)
split-pieces_example = split-pieces text b','

split-text : split text b',' ≡ ok ((b'a' ∷ []) ∷ (b'b' ∷ []) ∷ [])
unfolding split split_loop append_buffer
split-text = refl

hex_to_int8_t-little_example :
    Returns
      (λ out. All IsFlat out × (length out ≡ 2))
      (hex_to_int8_t Host.little 2 (b'4' ∷ b'a' ∷ []))
hex_to_int8_t-little_example =
    hex_to_int8_t-little 2 (b'4' ∷ b'a' ∷ []) (omega arith) (omega arith, (omega arith, tt))

-- A table with one key.
abbrev one_key : Hashmap ℕ
one_key = record {
  bucket_count = 1;
  buckets =
      write_bucket (λ i. Hashmap.null) (bucket_index text) (Hashmap.bucket text 5 Hashmap.null);
}

text_held : one_key.buckets (bucket_index text) ≡ Hashmap.bucket text 5 Hashmap.null
text_held = rw (==_self (bucket_index text)) refl

get-set_again_example :
    Hashmap.get 1 (Hashmap.set one_key (some text) (some 6) true).1 (some text) ≡ ok (some 5)
get-set_again_example = get-set_again 0 one_key text 5 6 Hashmap.null text_held

-- A table whose bucket for `text` holds another key.
abbrev other_key : Hashmap ℕ
other_key = record {
  bucket_count = 1;
  buckets =
      write_bucket (λ i. Hashmap.null) (bucket_index text)
        (Hashmap.bucket (b'z' ∷ []) 5 Hashmap.null);
}

other_held : other_key.buckets (bucket_index text) ≡ Hashmap.bucket (b'z' ∷ []) 5 Hashmap.null
other_held = rw (==_self (bucket_index text)) refl

other_differs : str_eq (b'z' ∷ []) text ≡ false
unfolding str_eq
other_differs = refl

set-destroy_example : Hashmap.destroy (Hashmap.set other_key (some text) (some 6) true).1 ≡ fault
set-destroy_example =
    set-destroy other_key text (b'z' ∷ []) 6 5 Hashmap.null (omega arith) other_held

get-set_collision_example :
    (Hashmap.set other_key (some text) (some 6) true).0 ≡ exit_success
    × (Hashmap.get 9 (Hashmap.set other_key (some text) (some 6) true).1 (some text) ≡ out_of_fuel)
get-set_collision_example =
    get-set_collision 9 other_key (b'z' ∷ []) text 5 6 other_held other_differs (omega arith)

set-IsCounted_example :
    IsCounted (Hashmap.set (Hashmap.new {V = ℕ}) (some text) (some 6) true).1
    × ((Hashmap.set (Hashmap.new {V = ℕ}) (some text) (some 6) true).0 ≡ (
        if ltb (occupied max_hashtable_keys (Hashmap.new {V = ℕ}).buckets) max_hashtable_keys
        then exit_success
        else exit_failure))
set-IsCounted_example = set-IsCounted Hashmap.new text 6 (new-IsCounted ℕ)

-- Two keys in two buckets.
abbrev two_pairs : List (CString × ℕ)
two_pairs = (text, 5) ∷ (b'z' ∷ [], 6) ∷ []

two_pairs-IsSpread : IsSpread two_pairs
unfolding bucket_index get_hash hash_loop hash_round sign_extend
two_pairs-IsSpread = ((λ e. absurd (omega arith), tt), (tt, tt))

get-set_all_example :
    Hashmap.get 1 (set_all Hashmap.new two_pairs) (some text) ≡ ok (lookup text two_pairs)
get-set_all_example = get-set_all 0 text two_pairs two_pairs-IsSpread (omega arith)

-- A list of one node at address 8.
abbrev first_cell : Cell ℕ
first_cell = record { addr = 8; value = 5; size = 4 }

abbrev second_cell : Cell ℕ
second_cell = record { addr = 9; value = 6; size = 4 }

abbrev one_node : Heap ℕ
one_node =
    LinkedList.write (λ p. none) 8
      (some (record { value = some 5; size = 4; next = LinkedList.null }))

abbrev one_list : Linkedlist
one_list = record { head = 8; end = 8; count = 1 }

one_list-IsList : IsList one_node one_list (first_cell ∷ [])
one_list-IsList = record {
  chain = (λ e. absurd (omega arith), refl, refl, tt);
  head = refl;
  end = λ e. refl;
  count = refl;
}

nine_nonnull : second_cell.addr ≢ LinkedList.null
nine_nonnull e = absurd (omega arith)

append-IsList_example :
    Appended one_node one_list
      (first_cell ∷ [])
      second_cell
      (LinkedList.append one_node one_list 9 true 6 4)
append-IsList_example = append-IsList second_cell one_list-IsList nine_nonnull refl

pop-IsList_example : Popped one_node first_cell [] (LinkedList.pop one_node one_list)
pop-IsList_example = pop-IsList one_list-IsList

get-list_get_example :
    LinkedList.get one_node one_list 4294967295 ≡ list_get (values (first_cell ∷ [])) 0
unfolding LinkedList.steps
get-list_get_example = get-list_get (first_cell ∷ []) 4294967295 one_list-IsList

set-IsList_example :
    Stored one_node one_list
      (put (first_cell ∷ []) 0 7 4)
      (LinkedList.set one_node one_list 0 true 7 4)
unfolding LinkedList.steps
set-IsList_example = set-IsList 0 7 4 first_cell one_list-IsList refl
