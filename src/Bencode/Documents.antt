-- ===== src/Bencode/Documents.antt =====
-- Bencoded documents, what a reader is relied on to say of them, and the tables they stand for.
use uvg_torrent.Base.{ℕ, zero, suc, ◌<◌, ◌≡◌, Bool, true, false, some, List, [], ◌∷◌, length}
use uvg_torrent.Libc.{CString, c_string}
use uvg_torrent.Hashmap
use uvg_torrent.Hashmap.{Hashmap}
use uvg_torrent.Hashmap.Map.{set_all}
use uvg_torrent.Bencode.{
  Reader, Item, table_item, text_item, Value, number, text, table, items, Table,
}

mutual
  pub data Document : Type 0 where
    int : ℕ → Document
    string : List ℕ → Document
    list : Documents → Document
    dict : Entries → Document

  pub data Documents : Type 0 where
    nil : Documents
    cons : Document → Documents → Documents

  pub data Entries : Type 0 where
    end : Entries
    entry : List ℕ → Document → Entries → Entries

abbrev pub is_int_doc : Document → Bool
is_int_doc (int n) = true
is_int_doc (string bytes) = false
is_int_doc (list ds) = false
is_int_doc (dict es) = false

abbrev pub is_string_doc : Document → Bool
is_string_doc (int n) = false
is_string_doc (string bytes) = true
is_string_doc (list ds) = false
is_string_doc (dict es) = false

abbrev pub is_list_doc : Document → Bool
is_list_doc (int n) = false
is_list_doc (string bytes) = false
is_list_doc (list ds) = true
is_list_doc (dict es) = false

abbrev pub is_dict_doc : Document → Bool
is_dict_doc (int n) = false
is_dict_doc (string bytes) = false
is_dict_doc (list ds) = false
is_dict_doc (dict es) = true

-- What bencode.h says of a reader: `At` relates an object at the start of a document to it, `InDict`
-- and `InList` an object between the entries of a dictionary or the elements of a list to those that
-- are left.
pub record Reads (reader : Reader) : Type 1 where
  pub At : reader.Bencode → Document → Type 0
  pub InDict : reader.Bencode → Entries → Type 0
  pub InList : reader.Bencode → Documents → Type 0
  pub ints : (be : reader.Bencode) (d : Document) → At be d → reader.is_int be ≡ is_int_doc d
  pub strings :
      (be : reader.Bencode) (d : Document) → At be d → reader.is_string be ≡ is_string_doc d
  pub lists : (be : reader.Bencode) (d : Document) → At be d → reader.is_list be ≡ is_list_doc d
  pub dicts : (be : reader.Bencode) (d : Document) → At be d → reader.is_dict be ≡ is_dict_doc d
  pub int_value : (be : reader.Bencode) (n : ℕ) → At be (int n) → reader.int_value be ≡ some n
  pub string_value :
      (be : reader.Bencode) (bytes : List ℕ)
      → At be (string bytes)
      → reader.string_value be ≡ some bytes
  pub dict_starts : (be : reader.Bencode) (es : Entries) → At be (dict es) → InDict be es
  pub dict_ends : (be : reader.Bencode) → InDict be end → reader.dict_has_next be ≡ false
  pub dict_goes_on :
      (be : reader.Bencode) (key : List ℕ) (d : Document) (es : Entries)
      → InDict be (entry key d es)
      → reader.dict_has_next be ≡ true
  pub dict_next :
      (be : reader.Bencode) (key : List ℕ) (d : Document) (es : Entries)
      → InDict be (entry key d es)
      → (item : reader.Bencode) × (rest : reader.Bencode) × (reader.dict_get_next be
          ≡ some (item, key, rest))
        × At item d
        × InDict rest es
  pub list_starts : (be : reader.Bencode) (ds : Documents) → At be (list ds) → InList be ds
  pub list_ends :
      (be : reader.Bencode)
      → InList be nil
      → (rest : reader.Bencode) × (reader.list_has_next be ≡ (false, rest))
  pub list_goes_on :
      (be : reader.Bencode) (d : Document) (ds : Documents)
      → InList be (cons d ds)
      → (same : reader.Bencode) × (reader.list_has_next be ≡ (true, same)) × InList same (cons d ds)
  pub list_next :
      (be : reader.Bencode) (d : Document) (ds : Documents)
      → InList be (cons d ds)
      → (item : reader.Bencode) × (rest : reader.Bencode) × (reader.list_get_next be
          ≡ (some item, rest))
        × At item d
        × InList rest ds

-- A list keeps its dictionaries and its texts.
unfoldable pub keep : {T : Type 0} → Value T → List (Item T) → List (Item T)
keep (number n) kept = kept
keep (items members) kept = kept
keep (text bytes) kept = text_item bytes ∷ kept
keep (table t) kept = table_item t ∷ kept

-- The reference: the table that a document stands for. `depth` bounds the nesting of what is kept.
unfoldable mutual
  pub value : (depth : ℕ) → Document → Value (Table depth)
  value depth (int n) = number n
  value depth (string bytes) = text bytes
  value depth (list ds) = items (elements depth ds)
  value zero (dict es) = table tt
  value (suc depth) (dict es) = table (set_all Hashmap.new (entries depth es))

  pub elements : (depth : ℕ) → Documents → List (Item (Table depth))
  elements depth nil = []
  elements depth (cons d ds) = keep (value depth d) (elements depth ds)

  pub entries : (depth : ℕ) → Entries → List (CString × Value (Table depth))
  entries depth end = []
  entries depth (entry key d es) = (c_string key, value depth d) ∷ entries depth es

abbrev pub count_elements : Documents → ℕ
count_elements nil = 0
count_elements (cons d ds) = suc (count_elements ds)

abbrev pub count_entries : Entries → ℕ
count_entries end = 0
count_entries (entry key d es) = suc (count_entries es)

-- Every key has characters, and the platform leaves a byte behind them; dictionaries are nested at
-- most `depth` deep, and lists and dictionaries have fewer than `fuel` members.
module _ (slack : ℕ → ℕ) (fuel : ℕ) where
  unfoldable mutual
    pub Fits : ℕ → Document → Type 0
    Fits depth (int n) = Unit
    Fits depth (string bytes) = Unit
    Fits depth (list ds) = (count_elements ds < fuel) × ElementsFit depth ds
    Fits zero (dict es) = ⊥
    Fits (suc depth) (dict es) = (count_entries es < fuel) × EntriesFit depth es

    pub ElementsFit : ℕ → Documents → Type 0
    ElementsFit depth nil = Unit
    ElementsFit depth (cons d ds) = Fits depth d × ElementsFit depth ds

    pub EntriesFit : ℕ → Entries → Type 0
    EntriesFit depth end = Unit
    EntriesFit depth (entry key d es) =
        (0 < length key) × (0 < slack (length key)) × Fits depth d × EntriesFit depth es
