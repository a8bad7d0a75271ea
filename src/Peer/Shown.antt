-- ===== src/Peer/Shown.antt =====
-- What `Peer_get_metadata` shows of metadata that is well formed.
use uvg_torrent.Base.{
  ℕ, Bool, true, false, suc, ◌^◌, ◌%◌, ◌<◌, ◌≡◌, refl, ap, ◌∙◌, some, none, Option, List, [], ◌∷◌,
  ◌++◌, take, ok, fault, arith,
}
use uvg_torrent.Libc.{CString, c_string}
use uvg_torrent.Words.{Host, little, store, store_le, load, load_le}
use uvg_torrent.Hashmap
use uvg_torrent.Hashmap.{Hashmap, Bucket, null, bucket, max_hashtable_keys, bucket_index}
use uvg_torrent.Hashmap.Map.{set_all}
use uvg_torrent.Hashmap.Spread.{set_all-Singles, found_alone}
use uvg_torrent.Bencode.{Reader, Item, text_item, number, items, Table}
use uvg_torrent.Bencode.Documents.{
  Document, Documents, Entries, int, string, list, dict, nil, cons, Reads, keep, value, elements,
  entries, Fits,
}
use uvg_torrent.Bencode.Tables.{to_hashmap-set_all}
use uvg_torrent.Peer.{Layout}
use uvg_torrent.Peer.Files.{
  files_key, length_key, path_key, list_of, last_text, destroy_list, show_file, show_item,
  show_items, show_table, show_metadata,
}
use uvg_torrent.Bencode.Lookup.{
  find, texts, value_found, IsTable, made, few_entries, get-made, destroy-made,
}

module _ (layout : Layout) (depth : ℕ) (es : Entries) (h : IsTable depth es) where
  destroy_list-made :
      (key : CString) (ds : Documents)
      → find key es ≡ some (list ds)
      → destroy_list layout (Hashmap.get_bucket (made depth es h) (some key)) ≡ ok tt
  unfolding Hashmap.get_bucket destroy_list Hashmap.get value
  destroy_list-made key ds found =
      let (k, e) =
        found_alone 0 ((made depth es h).buckets (bucket_index key)) key (items (elements depth ds))
          (set_all-Singles (entries depth es) h.spread (few_entries depth es h) (bucket_index key))
          (get-made depth es h 1 key (omega arith) ∙ ap (λ o. ok (value_found depth o)) found) in
      ap (destroy_list layout) e

abbrev text_items : (T : Type 0) → List (List ℕ) → List (Item T)
text_items T [] = []
text_items T (name ∷ names) = text_item name ∷ text_items T names

elements-texts :
    (depth : ℕ) (names : List (List ℕ))
    → elements depth (texts names) ≡ text_items (Table depth) names
unfolding elements value keep
elements-texts depth [] = refl
elements-texts depth (name ∷ names) = ap (λ l. text_item name ∷ l) (elements-texts depth names)

last_text-text_items :
    (layout : Layout) (T : Type 0) (folders : List (List ℕ)) (name : List ℕ)
    → last_text layout (text_items T (folders ++ name ∷ [])) ≡ ok (c_string name)
unfolding last_text
last_text-text_items layout T [] name = refl
last_text-text_items layout T (folder ∷ []) name = refl
last_text-text_items layout T (folder ∷ next ∷ folders) name =
    last_text-text_items layout T (next ∷ folders) name

-- The lower half of a `long`.
load-take-store : (n : ℕ) → load little (take 4 (store little 8 n)) ≡ n % 2 ^ 32
unfolding load store load_le store_le
load-take-store n = omega arith

-- An entry of "files": its size, and its name behind the folders of its path.
pub record IsFile (depth : ℕ) (fs : Entries) (name : List ℕ) (size : ℕ) : Type 0 where
  pub made : IsTable depth fs
  pub has_size : find length_key fs ≡ some (int size)
  pub folders : List (List ℕ)
  pub has_path : find path_key fs ≡ some (list (texts (folders ++ name ∷ [])))

abbrev pub AreFiles : ℕ → Documents → List (List ℕ × ℕ) → Type 0
AreFiles depth nil [] = Unit
AreFiles depth (cons (dict fs) ds) ((name, size) ∷ files) =
    IsFile depth fs name size × AreFiles depth ds files
AreFiles depth nil (file ∷ files) = ⊥
AreFiles depth (cons (int n) ds) files = ⊥
AreFiles depth (cons (string bytes) ds) files = ⊥
AreFiles depth (cons (list es) ds) files = ⊥
AreFiles depth (cons (dict fs) ds) [] = ⊥

-- What is printed: of a name what is before its first zero, of a size the lower half of the number.
abbrev pub printed : List (List ℕ × ℕ) → List (CString × ℕ)
printed [] = []
printed ((name, size) ∷ files) = (c_string name, size % 2 ^ 32) ∷ printed files

show_file-IsFile :
    (layout : Layout) (fuel depth : ℕ) (fs : Entries) (name : List ℕ) (size : ℕ)
    → 0 < fuel
    → IsFile depth fs name size
    → show_file layout little fuel (set_all Hashmap.new (entries depth fs))
      ≡ ok (c_string name, size % 2 ^ 32)
unfolding show_file list_of value
show_file-IsFile layout fuel depth fs name size some_left h =
    let size_got : Hashmap.get fuel (made depth fs h.made) (some length_key)
        ≡ ok (some (number size)) =
      get-made depth fs h.made fuel length_key some_left
      ∙ ap (λ o. ok (value_found depth o)) h.has_size in
    rw
      (
        size_got,
        get-made depth fs h.made fuel path_key some_left,
        h.has_path,
        elements-texts depth (h.folders ++ name ∷ []),
        last_text-text_items layout (Table depth) h.folders name,
        load-take-store size,
        destroy_list-made layout depth fs h.made path_key (texts (h.folders ++ name ∷ []))
            h.has_path,
        destroy-made depth fs h.made,
      )
      refl

show_items-AreFiles :
    (layout : Layout) (fuel depth : ℕ) (ds : Documents) (files : List (List ℕ × ℕ))
    → 0 < fuel
    → AreFiles depth ds files
    → show_items layout little fuel (elements (suc depth) ds) ≡ ok (printed files)
unfolding show_items show_item elements value keep
show_items-AreFiles layout fuel depth nil [] some_left h = refl
show_items-AreFiles layout fuel depth nil (file ∷ files) some_left h = absurd h
show_items-AreFiles layout fuel depth (cons (int n) ds) files some_left h = absurd h
show_items-AreFiles layout fuel depth (cons (string bytes) ds) files some_left h = absurd h
show_items-AreFiles layout fuel depth (cons (list es) ds) files some_left h = absurd h
show_items-AreFiles layout fuel depth (cons (dict fs) ds) [] some_left h = absurd h
show_items-AreFiles layout fuel depth (cons (dict fs) ds) ((name, size) ∷ files) some_left h =
    rw
      (
        show_file-IsFile layout fuel depth fs name size some_left h.0,
        show_items-AreFiles layout fuel depth ds files some_left h.1,
      )
      refl

-- Metadata that is a dictionary with a list of files is shown file by file, on hosts of little-endian
-- order: the last name of each path up to its first zero, and the lower 32 bits of each size. All that was made for it
-- is destroyed without a fault. The keys of the metadata, and those of each file, are in different
-- buckets; the reader reads the metadata; it fits the fuel and the platform.
pub show_metadata-printed :
    (reader : Reader) (law : Reads reader) (layout : Layout) (fuel : ℕ) (bytes : List ℕ)
    (es : Entries) (ds : Documents) (files : List (List ℕ × ℕ))
    → law.At (reader.init bytes) (dict es)
    → Fits layout.dict_key fuel (suc (suc fuel)) (dict es)
    → IsTable (suc fuel) es
    → find files_key es ≡ some (list ds)
    → AreFiles fuel ds files
    → 0 < fuel
    → show_metadata reader layout little fuel bytes ≡ ok (printed files)
unfolding show_metadata show_table list_of value
show_metadata-printed reader law layout fuel bytes es ds files at fits is_table found are
      some_left =
    rw
      (
        to_hashmap-set_all reader layout.dict_key layout.unset_long law fuel (suc fuel) es
            (reader.init bytes) at fits,
        get-made (suc fuel) es is_table fuel files_key some_left,
        found,
        show_items-AreFiles layout fuel fuel ds files some_left are,
        destroy_list-made layout (suc fuel) es is_table files_key ds found,
        destroy-made (suc fuel) es is_table,
      )
      refl

-- The document is there, as a list or a dictionary.
abbrev pub is_struct : Option Document → Bool
is_struct none = false
is_struct (some (int n)) = false
is_struct (some (string bytes)) = false
is_struct (some (list ds)) = true
is_struct (some (dict es)) = true

list_of_other :
    (layout : Layout) (depth : ℕ) (found : Option Document)
    → is_struct found ≡ false
    → list_of layout (value_found (suc depth) found) ≡ fault
unfolding list_of value
list_of_other layout depth none h = refl
list_of_other layout depth (some (int n)) h = refl
list_of_other layout depth (some (string bytes)) h = refl
list_of_other layout depth (some (list ds)) h = absurd cc
list_of_other layout depth (some (dict es)) h = absurd cc

-- Metadata whose "files" is not there, as in a torrent of a single file, or is a number or a text, is
-- read through NULL, past the end of the number, or through the bytes of the text: a fault. The keys of
-- the metadata are in different buckets; the reader reads it; it fits the fuel and the platform.
pub show_metadata_single :
    (reader : Reader) (law : Reads reader) (layout : Layout) (host : Host) (fuel : ℕ)
    (bytes : List ℕ) (es : Entries)
    → law.At (reader.init bytes) (dict es)
    → Fits layout.dict_key fuel (suc (suc fuel)) (dict es)
    → IsTable (suc fuel) es
    → is_struct (find files_key es) ≡ false
    → 0 < fuel
    → show_metadata reader layout host fuel bytes ≡ fault
unfolding show_metadata show_table
show_metadata_single reader law layout host fuel bytes es at fits is_table missing some_left =
    rw
      (
        to_hashmap-set_all reader layout.dict_key layout.unset_long law fuel (suc fuel) es
            (reader.init bytes) at fits,
        get-made (suc fuel) es is_table fuel files_key some_left,
        list_of_other layout fuel (find files_key es) missing,
      )
      refl
