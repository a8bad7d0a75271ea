-- ===== src/Bencode/Tables.antt =====
-- `bencode_to_hashmap` makes of a document the table that it stands for.
use uvg_torrent.Base.{
  ℕ, zero, suc, ◌<◌, ◌≡◌, ◌||◌, refl, sym, ap, ◌∙◌, true, false, some, List, [], ◌∷◌, ◌++◌,
  append_assoc, append-nil, ◌==◌, length, Run, ok, ◌>>=◌, arith,
}
use uvg_torrent.Libc.{c_string}
use uvg_torrent.Hashmap
use uvg_torrent.Hashmap.{Hashmap}
use uvg_torrent.Hashmap.Map.{set_all}
use uvg_torrent.Bencode
use uvg_torrent.Bencode.{
  Reader, Item, table_item, text_item, Value, number, text, table, items, Table, append_text,
  append_item, list_more, read_list, number_value, text_value, value_of, store, read_dict,
  to_hashmap,
}
use uvg_torrent.Bencode.Documents.{
  Document, Documents, Entries, int, string, list, dict, nil, cons, end, entry, Reads, keep, value,
  elements, entries, count_elements, count_entries, Fits, ElementsFit, EntriesFit,
}

module _ (reader : Reader) (slack : ℕ → ℕ) (unset : ℕ) (law : Reads reader) (fuel : ℕ) where
  open law use {
    At, InDict, InList, ints, strings, lists, dicts, int_value, string_value, dict_starts,
    dict_ends, dict_goes_on, dict_next, list_starts, list_ends, list_goes_on, list_next,
  }

  abbrev Be : Type 0
  Be = reader.Bencode

  -- `bencode_to_hashmap` on a nested dictionary.
  abbrev child : (depth : ℕ) → Be → Run (Table depth)
  child depth = to_hashmap reader slack unset depth fuel

  has_no_key : (n s : ℕ) → 0 < n → 0 < s → (n == 0 || s == 0) ≡ false
  has_no_key n s p q = ground arith

  -- A loop with a round left.
  on_suc : (P : ℕ → Type 0) (left : ℕ) → 0 < left → ((k : ℕ) → left ≡ suc k → P (suc k)) → P left
  on_suc P zero some_left h = absurd (omega arith)
  on_suc P (suc k) some_left h = h k refl

  keep-append :
      {T : Type 0} (v : Value T) (members : List (Item T)) → keep v [] ++ members ≡ keep v members
  unfolding keep
  keep-append (number n) members = refl
  keep-append (items others) members = refl
  keep-append (text bytes) members = refl
  keep-append (table t) members = refl

  module _ {T : Type 0} (nested : Be → Run T) where
    -- An item is stored as `v`, and appended to a list as what a list keeps of `v`.
    abbrev IsRead : Be → Value T → Type 0
    IsRead be v =
        (value_of reader slack unset nested fuel be ≡ ok (some v))
        × ((done : List (Item T))
            → append_item reader slack unset nested be done ≡ ok (done ++ keep v []))

    int-IsRead : (n : ℕ) (be : Be) → At be (int n) → IsRead be (number n)
    unfolding value_of append_item keep
    int-IsRead n be at =
        let d = dicts be (int n) at in
        (
          rw (d, ints be (int n) at, int_value be n at) refl,
          λ done. rw (d, strings be (int n) at, append-nil done) refl,
        )

    string-IsRead : (bytes : List ℕ) (be : Be) → At be (string bytes) → IsRead be (text bytes)
    unfolding value_of append_item keep
    string-IsRead bytes be at =
        let d = dicts be (string bytes) at in
        let s = strings be (string bytes) at in
        let got = string_value be bytes at in
        (rw (d, ints be (string bytes) at, s, got) refl, λ done. rw (d, s, got) refl)

    list-IsRead :
        (ds : Documents) (be : Be) (members : List (Item T))
        → At be (list ds)
        → read_list reader slack unset nested fuel be [] ≡ ok members
        → IsRead be (items members)
    unfolding value_of append_item keep
    list-IsRead ds be members at got =
        let d = dicts be (list ds) at in
        let s = strings be (list ds) at in
        (
          rw (d, ints be (list ds) at, s, lists be (list ds) at, got) refl,
          λ done. rw (d, s, append-nil done) refl,
        )

    dict-IsRead :
        (es : Entries) (be : Be) (t : T) → At be (dict es) → nested be ≡ ok t → IsRead be (table t)
    unfolding value_of append_item keep
    dict-IsRead es be t at got =
        let d = dicts be (dict es) at in (rw (d, got) refl, λ done. rw (d, got) refl)

    list_stops :
        (k : ℕ) (be : Be) (done : List (Item T))
        → InList be nil
        → read_list reader slack unset nested (suc k) be done ≡ ok done
    unfolding read_list
    list_stops k be done at =
        ap (λ r. list_more reader slack unset nested (read_list reader slack unset nested k) r done)
          (list_ends be at).1

    list_goes :
        (k : ℕ) (be : Be) (d : Document) (ds : Documents) (v : Value T)
        (members done : List (Item T))
        → InList be (cons d ds)
        → ((item : Be) → At item d → IsRead item v)
        → ((rest : Be) (done : List (Item T))
            → InList rest ds
            → read_list reader slack unset nested k rest done ≡ ok (done ++ members))
        → read_list reader slack unset nested (suc k) be done ≡ ok (done ++ keep v members)
    unfolding read_list
    list_goes k be d ds v members done at read on =
        let (same, more, at_same) = list_goes_on be d ds at in
        let (item, rest, next, at_item, at_rest) = list_next same d ds at_same in
        let again = read_list reader slack unset nested k in
        ap (λ r. list_more reader slack unset nested again r done) more
        ∙ ap (λ r. Bencode.list_next reader slack unset nested again r done) next
        ∙ ap (λ r. r >>= λ l. again rest l) ((read item at_item).1 done)
        ∙ on rest (done ++ keep v []) at_rest
        ∙ ap ok
            (append_assoc done (keep v []) members ∙ ap (λ l. done ++ l) (keep-append v members))

    dict_stops :
        (k : ℕ) (be : Be) (m : Hashmap (Value T))
        → InDict be end
        → read_dict reader slack unset nested (suc k) fuel be m ≡ ok m
    unfolding read_dict
    dict_stops k be m at = rw (dict_ends be at) refl

    dict_goes :
        (k : ℕ) (be : Be) (key : List ℕ) (d : Document) (es : Entries) (v : Value T)
        (m : Hashmap (Value T)) (r : Run (Hashmap (Value T)))
        → InDict be (entry key d es)
        → 0 < length key
        → 0 < slack (length key)
        → ((item : Be) → At item d → IsRead item v)
        → ((rest : Be)
            → InDict rest es
            → read_dict reader slack unset nested k fuel rest
                (Hashmap.set m (some (c_string key)) (some v) true).1
              ≡ r)
        → read_dict reader slack unset nested (suc k) fuel be m ≡ r
    unfolding read_dict store
    dict_goes k be key d es v m r at named room read on =
        let (item, rest, next, at_item, at_rest) = dict_next be key d es at in
        let again = read_dict reader slack unset nested k fuel in
        rw (dict_goes_on be key d es at) (
          ap (λ o. Bencode.dict_next reader slack unset nested again fuel o m) next
          ∙ rw (has_no_key (length key) (slack (length key)) named room) (
              ap (λ o. o >>= λ w. again rest (store reader slack unset nested (c_string key) w m))
                (read item at_item).0)
          ∙ on rest at_rest)

  mutual
    unfolding value elements entries Fits to_hashmap set_all

    value-IsRead :
        (depth : ℕ) (d : Document) (be : Be)
        → At be d
        → Fits slack fuel depth d
        → IsRead (child depth) be (value depth d)
    value-IsRead depth (int n) be at fits = int-IsRead (child depth) n be at
    value-IsRead depth (string bytes) be at fits = string-IsRead (child depth) bytes be at
    value-IsRead depth (list ds) be at fits =
        list-IsRead (child depth) ds be (elements depth ds) at
          (read_list-elements depth ds fuel be [] (list_starts be ds at) fits.0 fits.1)
    value-IsRead zero (dict es) be at fits = absurd fits
    value-IsRead (suc depth) (dict es) be at fits =
        dict-IsRead (child (suc depth)) es be (set_all Hashmap.new (entries depth es)) at (
          rw (dicts be (dict es) at)
            (read_dict-entries depth es fuel be Hashmap.new (dict_starts be es at) fits.0 fits.1))

    read_list-elements :
        (depth : ℕ) (ds : Documents) (left : ℕ) (be : Be) (done : List (Item (Table depth)))
        → InList be ds
        → count_elements ds < left
        → ElementsFit slack fuel depth ds
        → read_list reader slack unset (child depth) left be done ≡ ok (done ++ elements depth ds)
    read_list-elements depth nil left be done at enough fits =
        on_suc (λ l. read_list reader slack unset (child depth) l be done ≡ ok (done ++ [])) left
          (omega arith) λ k e. list_stops (child depth) k be done at ∙ ap ok (sym (append-nil done))
    read_list-elements depth (cons d ds) left be done at enough fits =
        on_suc
          (λ l.
            read_list reader slack unset (child depth) l be done
            ≡ ok (done ++ keep (value depth d) (elements depth ds)))
          left (omega arith)
          λ k e.
            list_goes (child depth) k be d ds (value depth d) (elements depth ds) done at
              (λ item at_item. value-IsRead depth d item at_item fits.0)
              λ rest so_far at_rest.
                read_list-elements depth ds k rest so_far at_rest (omega arith) fits.1

    read_dict-entries :
        (depth : ℕ) (es : Entries) (left : ℕ) (be : Be) (m : Hashmap (Value (Table depth)))
        → InDict be es
        → count_entries es < left
        → EntriesFit slack fuel depth es
        → read_dict reader slack unset (child depth) left fuel be m
          ≡ ok (set_all m (entries depth es))
    read_dict-entries depth end left be m at enough fits =
        on_suc (λ l. read_dict reader slack unset (child depth) l fuel be m ≡ ok (set_all m []))
          left (omega arith) λ k e. dict_stops (child depth) k be m at
    read_dict-entries depth (entry key d es) left be m at enough fits =
        on_suc
          (λ l.
            read_dict reader slack unset (child depth) l fuel be m
            ≡ ok (set_all m ((c_string key, value depth d) ∷ entries depth es)))
          left (omega arith)
          λ k e.
            dict_goes (child depth) k be key d es (value depth d) m
              (ok (set_all m ((c_string key, value depth d) ∷ entries depth es))) at fits.0 fits.1
              (λ item at_item. value-IsRead depth d item at_item fits.2)
              λ rest at_rest.
                read_dict-entries depth es k rest
                  (Hashmap.set m (some (c_string key)) (some (value depth d)) true).1 at_rest
                  (omega arith) fits.3

  -- `bencode_to_hashmap`, for a dictionary that the reader reads: the table in which its entries were
  -- stored in their order, a nested dictionary as its own table, and a list as the list of the texts and
  -- the dictionaries in it: numbers and lists in a list are dropped. The keys have
  -- characters and the platform leaves a byte behind each; the fuel is above the members of each
  -- dictionary and list, and the depth at least that of the dictionaries in one another.
  pub to_hashmap-set_all :
      (depth : ℕ) (es : Entries) (be : Be)
      → At be (dict es)
      → Fits slack fuel (suc depth) (dict es)
      → to_hashmap reader slack unset (suc depth) fuel be
        ≡ ok (set_all Hashmap.new (entries depth es))
  unfolding to_hashmap Fits
  to_hashmap-set_all depth es be at fits =
      rw (dicts be (dict es) at)
        (read_dict-entries depth es fuel be Hashmap.new (dict_starts be es at) fits.0 fits.1)
