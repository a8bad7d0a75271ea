-- ===== src/Bencode/Lookup.antt =====
-- What is found in the table of a dictionary.
use uvg_torrent.Base.{
  ℕ, zero, suc, ◌≤◌, ◌<◌, ◌≡◌, refl, ap, ◌∙◌, some, none, Option, inl, inr, Bool-cases, List, [],
  ◌∷◌, length, ok, if◌then◌else◌, arith,
}
use uvg_torrent.Libc.{CString, c_string, str_eq}
use uvg_torrent.Hashmap
use uvg_torrent.Hashmap.{Hashmap, Bucket, null, bucket, max_hashtable_keys, bucket_index}
use uvg_torrent.Hashmap.Map.{set_all, lookup, IsSpread, get-set_all}
use uvg_torrent.Hashmap.Spread.{set_all-Singles, destroy-Singles}
use uvg_torrent.Bencode.{Value, Table}
use uvg_torrent.Bencode.Documents.{
  Document, Documents, Entries, string, nil, cons, end, entry, value, entries, count_entries,
}

-- The document behind the first of the keys that agree with `key`.
abbrev pub find : CString → Entries → Option Document
find key end = none
find key (entry k d es) = if str_eq (c_string k) key then some d else find key es

abbrev pub texts : List (List ℕ) → Documents
texts [] = nil
texts (name ∷ names) = cons (string name) (texts names)

abbrev pub value_found : (depth : ℕ) → Option Document → Option (Value (Table depth))
value_found depth none = none
value_found depth (some d) = some (value depth d)

lookup-entries :
    (depth : ℕ) (key : CString) (es : Entries)
    → lookup key (entries depth es) ≡ value_found depth (find key es)
unfolding lookup entries
lookup-entries depth key end = refl
lookup-entries depth key (entry k d es) = elim (Bool-cases (str_eq (c_string k) key)) [
  | inl same ↦ rw same refl
  | inr other ↦ rw other (lookup-entries depth key es)
]

length-entries : (depth : ℕ) (es : Entries) → length (entries depth es) ≡ count_entries es
unfolding entries
length-entries depth end = refl
length-entries depth (entry k d es) = ap suc (length-entries depth es)

-- A dictionary of keys in different buckets, no more than there are buckets.
pub record IsTable (depth : ℕ) (es : Entries) : Type 0 where
  pub spread : IsSpread (entries depth es)
  pub few : count_entries es ≤ max_hashtable_keys

module _ (depth : ℕ) (es : Entries) (h : IsTable depth es) where
  abbrev pub made : Hashmap (Value (Table depth))
  made = set_all Hashmap.new (entries depth es)

  pub few_entries : length (entries depth es) ≤ max_hashtable_keys
  few_entries = omega (arith, h.few, length-entries depth es)

  pub get-made :
      (fuel : ℕ) (key : CString)
      → 0 < fuel
      → Hashmap.get fuel made (some key) ≡ ok (value_found depth (find key es))
  get-made zero key some_left = absurd (omega arith)
  get-made (suc fuel) key some_left =
      get-set_all fuel key (entries depth es) h.spread few_entries
      ∙ ap ok (lookup-entries depth key es)

  pub destroy-made : Hashmap.destroy made ≡ ok tt
  destroy-made = destroy-Singles made (set_all-Singles (entries depth es) h.spread few_entries)
