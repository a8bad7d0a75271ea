-- ===== src/Tests/Documents.antt =====
-- The theorems on bencoded documents.
use uvg_torrent.Base.{
  ℕ, Bool, ◌≡◌, refl, ap, true, false, none, some, Option, List, [], ◌∷◌, arith, ok, fault, inl,
}
use uvg_torrent.Libc.{c_string, str_eq}
use uvg_torrent.Words.{little}
use uvg_torrent.Hashmap
use uvg_torrent.Hashmap.{bucket_index}
use uvg_torrent.Hashmap.Map.{set_all}
use uvg_torrent.Bencode.{Reader, to_hashmap}
use uvg_torrent.Bencode.Lookup.{texts}
use uvg_torrent.Bencode.Tables.{to_hashmap-set_all}
use uvg_torrent.Bencode.Documents.{
  Document, Entries, int, string, list, dict, nil, cons, end, entry, is_int_doc, is_string_doc,
  is_list_doc, is_dict_doc, Reads, Fits, entries, value, elements, keep,
}
use uvg_torrent.Peer.Files.{files_key, length_key, path_key, show_metadata}
use uvg_torrent.Peer.Shown.{IsFile, printed, show_metadata-printed, show_metadata_single}
use uvg_torrent.Peer.Described.{Described}
use uvg_torrent.Tests.Peers.{usual_layout, seven, talking_os}

-- A reader whose objects are documents.
abbrev int_value_doc : Document → Option ℕ
int_value_doc (int n) = some n
int_value_doc (string bytes) = none
int_value_doc (list ds) = none
int_value_doc (dict es) = none

abbrev string_value_doc : Document → Option (List ℕ)
string_value_doc (int n) = none
string_value_doc (string bytes) = some bytes
string_value_doc (list ds) = none
string_value_doc (dict es) = none

abbrev next_entry : Document → Option (Document × List ℕ × Document)
next_entry (int n) = none
next_entry (string bytes) = none
next_entry (list ds) = none
next_entry (dict end) = none
next_entry (dict (entry key d es)) = some (d, key, dict es)

abbrev has_entry : Document → Bool
has_entry (int n) = false
has_entry (string bytes) = false
has_entry (list ds) = false
has_entry (dict end) = false
has_entry (dict (entry key d es)) = true

abbrev has_element : Document → Bool × Document
has_element (int n) = (false, int n)
has_element (string bytes) = (false, string bytes)
has_element (list nil) = (false, list nil)
has_element (list (cons d ds)) = (true, list (cons d ds))
has_element (dict es) = (false, dict es)

abbrev next_element : Document → Option Document × Document
next_element (int n) = (none, int n)
next_element (string bytes) = (none, string bytes)
next_element (list nil) = (none, list nil)
next_element (list (cons d ds)) = (some d, list ds)
next_element (dict es) = (none, dict es)

abbrev pub documents : Document → Reader
documents whole = record {
  Bencode = Document;
  init = λ bytes. whole;
  is_dict = is_dict_doc;
  is_int = is_int_doc;
  is_string = is_string_doc;
  is_list = is_list_doc;
  dict_has_next = has_entry;
  dict_get_next = next_entry;
  int_value = int_value_doc;
  string_value = string_value_doc;
  list_has_next = has_element;
  list_get_next = next_element;
}

abbrev pub documents-Reads : (whole : Document) → Reads (documents whole)
documents-Reads whole = record {
  At = λ be d. be ≡ d;
  InDict = λ be es. be ≡ dict es;
  InList = λ be ds. be ≡ list ds;
  ints = λ be d at. ap is_int_doc at;
  strings = λ be d at. ap is_string_doc at;
  lists = λ be d at. ap is_list_doc at;
  dicts = λ be d at. ap is_dict_doc at;
  int_value = λ be n at. ap int_value_doc at;
  string_value = λ be bytes at. ap string_value_doc at;
  dict_starts = λ be es at. at;
  dict_ends = λ be at. ap has_entry at;
  dict_goes_on = λ be key d es at. ap has_entry at;
  dict_next = λ be key d es at. (d, dict es, ap next_entry at, refl, refl);
  list_starts = λ be ds at. at;
  list_ends = λ be at. (list nil, ap has_element at);
  list_goes_on = λ be d ds at. (list (cons d ds), ap has_element at, refl);
  list_next = λ be d ds at. (d, list ds, ap next_element at, refl, refl);
}

-- A file "7" of five bytes in the folder "d".
abbrev one_file : Entries
one_file = entry length_key (int 5) (entry path_key (list (texts ((b'd' ∷ []) ∷ seven ∷ []))) end)

abbrev pub one_file_metadata : Entries
one_file_metadata = entry files_key (list (cons (dict one_file) nil)) end

one_file-IsFile : (depth : ℕ) → IsFile depth one_file seven 5
unfolding bucket_index entries value elements keep c_string str_eq
one_file-IsFile depth = record {
  made = record { spread = ((λ e. absurd (omega (arith, e)), tt), (tt, tt)); few = omega arith };
  has_size = refl;
  folders = (b'd' ∷ []) ∷ [];
  has_path = refl;
}

to_hashmap-set_all_example :
    to_hashmap (documents (dict one_file_metadata)) (λ n. 16) 0 3 9 (dict one_file_metadata)
    ≡ ok (set_all Hashmap.new (entries 2 one_file_metadata))
unfolding Fits
to_hashmap-set_all_example =
    to_hashmap-set_all (documents (dict one_file_metadata)) (λ n. 16) 0
      (documents-Reads (dict one_file_metadata)) 9 2 one_file_metadata (dict one_file_metadata) refl
      (omega arith)

pub one_file_shown :
    (bytes : List ℕ)
    → show_metadata (documents (dict one_file_metadata)) usual_layout little 9 bytes
      ≡ ok ((seven, 5) ∷ [])
unfolding Fits entries value elements keep c_string str_eq
one_file_shown bytes =
    show_metadata-printed (documents (dict one_file_metadata))
      (documents-Reads (dict one_file_metadata)) usual_layout 9 bytes one_file_metadata
      (cons (dict one_file) nil) ((seven, 5) ∷ []) refl (omega arith)
      (record { spread = (tt, tt); few = omega arith }) refl (one_file-IsFile 9, tt) (omega arith)

show_metadata-printed_example :
    show_metadata (documents (dict one_file_metadata)) usual_layout little 9 []
    ≡ ok (printed ((seven, 5) ∷ []))
unfolding Fits entries value elements keep c_string str_eq
show_metadata-printed_example =
    show_metadata-printed (documents (dict one_file_metadata))
      (documents-Reads (dict one_file_metadata)) usual_layout 9 [] one_file_metadata
      (cons (dict one_file) nil) ((seven, 5) ∷ []) refl (omega arith)
      (record { spread = (tt, tt); few = omega arith }) refl (one_file-IsFile 9, tt) (omega arith)

-- A torrent of a single file has its length, but no list.
abbrev single : Entries
single = entry length_key (int 5) end

show_metadata_single_example :
    show_metadata (documents (dict single)) usual_layout little 9 [] ≡ fault
unfolding Fits entries value c_string str_eq
show_metadata_single_example =
    show_metadata_single (documents (dict single)) (documents-Reads (dict single)) usual_layout
      little 9 [] single refl (omega arith) (record { spread = (tt, tt); few = omega arith }) refl
      (omega arith)

-- Whatever the peers answer is read as the metadata of that one file.
pub one_file-Described :
    Described talking_os
      (documents (dict one_file_metadata))
      (documents-Reads (dict one_file_metadata))
      usual_layout
      34813
unfolding Fits entries value elements keep c_string str_eq
one_file-Described bytes collected = record {
  es = one_file_metadata;
  at = refl;
  fits = omega arith;
  is_table = record { spread = (tt, tt); few = omega arith };
  described = inl (record {
    ds = cons (dict one_file) nil;
    files = (seven, 5) ∷ [];
    found = refl;
    are = (one_file-IsFile 34813, tt);
  });
}
