-- ===== src/Torrent/Parse/Pairs.antt =====
-- The loop of `Torrent_parse` on a query of `key=value` pairs between ampersands.
use uvg_torrent.Base.{
  ℕ, ◌+◌, ◌<◌, ◌≡◌, refl, ap, ◌∙◌, Bool, true, false, ◌&&◌, not, some, List, [], ◌∷◌, ◌++◌, arith,
  ◌==◌, lt→ltb, inl, inr, Bool-cases, Run, ok, fault, halted, out_of_fuel, Exit, exit_success,
  exit_failure, length, length-append, append_assoc, append-nil, All,
}
use uvg_torrent.Libc.{CString, str_eq}
use uvg_torrent.Hashmap
use uvg_torrent.Hashmap.{Hashmap}
use uvg_torrent.Tracker.State
use uvg_torrent.Tracker.State.{Tracker}
use uvg_torrent.Os.{Os, Cmd, World, pure, ◌>>=◌, and_then, lift, ask}
use uvg_torrent.Torrent.Parse.{
  key_tr, stored, add_tracker, Parsing, is_last, closing, terminated, cleared, store_pair, end_pair,
  key_char, value_char, switch_char, on, parse_chars,
}

-- Text without the character `d`.
abbrev pub free_of : ℕ → CString → Bool
free_of d [] = true
free_of d (c ∷ cs) = not (c == d) && free_of d cs

abbrev pub IsKey : CString → Type 0
IsKey key = (free_of b'=' key ≡ true) × (length key < 256)

abbrev pub IsValue : CString → Type 0
IsValue value = (free_of b'&' value ≡ true) × (0 < length value) × (length value < 256)

-- key=value&key=value… The last pair has no ampersand behind it.
abbrev pub print_query : List (CString × CString) → CString
print_query [] = []
print_query ((key, value) ∷ []) = key ++ b'=' ∷ value
print_query ((key, value) ∷ p ∷ ps) = key ++ b'=' ∷ (value ++ b'&' ∷ print_query (p ∷ ps))

is_last-append : (a : CString) (c : ℕ) (b : CString) → is_last (a ++ c ∷ b) ≡ false
is_last-append [] c b = refl
is_last-append (x ∷ a) c b = refl

free_head : (d c : ℕ) (cs : CString) → free_of d (c ∷ cs) ≡ true → (c == d) ≡ false
free_head d c cs h = ground arith

free_tail : (d c : ℕ) (cs : CString) → free_of d (c ∷ cs) ≡ true → free_of d cs ≡ true
free_tail d c cs h = ground arith

module _ (os : Os) where
  abbrev in_key : Parsing → CString → Parsing
  in_key st buffer = record st { key_buffer = buffer; key = true }

  abbrev in_value : Parsing → CString → CString → Parsing
  in_value st key_buffer buffer = record st {
    key_buffer = key_buffer;
    value_buffer = buffer;
    key = false;
  }

  key_char_more :
      (c : ℕ) (st : Parsing) (w : World)
      → (c == b'=') ≡ false
      → length st.key_buffer < 256
      → key_char os false c st w
        ≡ ok ((exit_success, record st { key_buffer = st.key_buffer ++ c ∷ [] }), w)
  unfolding key_char
  key_char_more c st w other short = rw (other, lt→ltb (length st.key_buffer) 256 short) refl

  value_char_more :
      (c : ℕ) (st : Parsing) (w : World)
      → (c == b'&') ≡ false
      → length st.value_buffer < 256
      → value_char os false c st w
        ≡ ok ((exit_success, record st { value_buffer = st.value_buffer ++ c ∷ [] }), w)
  unfolding value_char
  value_char_more c st w other short = rw (other, lt→ltb (length st.value_buffer) 256 short) refl

  value_char_last :
      (c : ℕ) (st : Parsing) (w : World)
      → length st.value_buffer < 256
      → value_char os true c st w
        ≡ end_pair os (record st { value_buffer = st.value_buffer ++ c ∷ []; key = true }) w
  unfolding value_char closing
  value_char_last c st w short = elim (Bool-cases (c == b'&')) [
    | inl ampersand ↦ rw (ampersand, lt→ltb (length st.value_buffer) 256 short) refl
    | inr other ↦ rw (other, lt→ltb (length st.value_buffer) 256 short) refl
  ]

  -- A key up to its `=`.
  parse-key :
      (key acc : CString) (c : ℕ) (more : CString) (st : Parsing) (w : World)
      → free_of b'=' key ≡ true
      → length acc + length key < 256
      → parse_chars os (key ++ b'=' ∷ c ∷ more) (in_key st acc) w
        ≡ parse_chars os (c ∷ more) (record st { key_buffer = acc ++ key; key = false }) w
  unfolding parse_chars switch_char key_char closing
  parse-key [] acc c more st w free short = rw (append-nil acc) refl
  parse-key (x ∷ key) acc c more st w free short =
      let next = on os (parse_chars os (key ++ b'=' ∷ c ∷ more)) in
      ap (λ l. and_then (key_char os l x (in_key st acc) w) next)
        (is_last-append key b'=' (c ∷ more))
      ∙ ap (λ r. and_then r next)
          (key_char_more x (in_key st acc) w (free_head b'=' x key free) (omega arith))
      ∙ parse-key key (acc ++ x ∷ []) c more st w (free_tail b'=' x key free)
          (omega (arith, length-append acc (x ∷ [])))
      ∙ ap (λ b. parse_chars os (c ∷ more) (record st { key_buffer = b; key = false }) w)
          (append_assoc acc (x ∷ []) key)

  -- A value up to its `&`.
  parse-value :
      (value key acc more : CString) (st : Parsing) (w : World)
      → is_last more ≡ false
      → free_of b'&' value ≡ true
      → length acc + length value < 256
      → parse_chars os (value ++ b'&' ∷ more) (in_value st key acc) w
        ≡ and_then
            (end_pair os
              (record st { key_buffer = key; value_buffer = acc ++ value; key = true })
              w)
            (on os (parse_chars os more))
  unfolding parse_chars switch_char value_char closing
  parse-value [] key acc more st w rest free short = rw (append-nil acc, rest) refl
  parse-value (x ∷ value) key acc more st w rest free short =
      let next = on os (parse_chars os (value ++ b'&' ∷ more)) in
      ap (λ l. and_then (value_char os l x (in_value st key acc) w) next)
        (is_last-append value b'&' more)
      ∙ ap (λ r. and_then r next)
          (value_char_more x (in_value st key acc) w (free_head b'&' x value free) (omega arith))
      ∙ parse-value value key (acc ++ x ∷ []) more st w rest (free_tail b'&' x value free)
          (omega (arith, length-append acc (x ∷ [])))
      ∙ ap
          (λ b.
            and_then (end_pair os (record st { key_buffer = key; value_buffer = b; key = true }) w)
              (on os (parse_chars os more)))
          (append_assoc acc (x ∷ []) value)

  -- The value that ends the query.
  parse-last :
      (value key acc : CString) (c : ℕ) (st : Parsing) (w : World)
      → free_of b'&' (c ∷ value) ≡ true
      → length acc + length (c ∷ value) < 256
      → parse_chars os (c ∷ value) (in_value st key acc) w
        ≡ and_then
            (end_pair os
              (record st { key_buffer = key; value_buffer = acc ++ c ∷ value; key = true })
              w)
            (on os (parse_chars os []))
  unfolding parse_chars switch_char
  parse-last [] key acc c st w free short =
      ap (λ r. and_then r (on os (parse_chars os [])))
        (value_char_last c (in_value st key acc) w (omega arith))
  parse-last (x ∷ value) key acc c st w free short =
      let next = on os (parse_chars os (x ∷ value)) in
      ap (λ r. and_then r next)
        (value_char_more c (in_value st key acc) w (free_head b'&' c (x ∷ value) free)
          (omega arith))
      ∙ parse-last value key (acc ++ c ∷ []) x st w (free_tail b'&' c (x ∷ value) free)
          (omega (arith, length-append acc (c ∷ [])))
      ∙ ap
          (λ b.
            and_then (end_pair os (record st { key_buffer = key; value_buffer = b; key = true }) w)
              (on os (parse_chars os [])))
          (append_assoc acc (c ∷ []) (x ∷ value))

  end_pair-store :
      (st : Parsing) (key value : CString) (w : World)
      → length key < 256
      → length value < 256
      → end_pair os (record st { key_buffer = key; value_buffer = value; key = true }) w
        ≡ store_pair os
            (record st { key_buffer = key; value_buffer = value; key = true })
            key
            value
            w
  unfolding end_pair terminated
  end_pair-store st key value w k v =
      rw (lt→ltb (length key) 256 k, lt→ltb (length value) 256 v) refl

-- What the loop does with the pairs, one after the other.
abbrev pub store_all : Os → List (CString × CString) → Parsing → Cmd (Exit × Parsing)
store_all os [] st = pure (exit_success, st)
store_all os ((key, value) ∷ ps) st =
    store_pair os (record st { key_buffer = key; value_buffer = value; key = true }) key value
    >>= on os (store_all os ps)

-- The parser between two pairs.
abbrev pub start : Hashmap CString → List Tracker → Parsing
start hashmap trackers = record {
  key_buffer = [];
  value_buffer = [];
  key = true;
  hashmap = hashmap;
  trackers = trackers;
}

module _ (os : Os) (f g : Parsing → Cmd (Exit × Parsing)) where
  abbrev Agree : Type 0
  Agree =
      (m : Hashmap CString) (ts : List Tracker) (w : World) → f (start m ts) w ≡ g (start m ts) w

  stored_next :
      (r : Exit × Hashmap CString) (st : Parsing) (w : World)
      → Agree
      → st.key ≡ true
      → and_then (stored st r w) (on os f) ≡ and_then (stored st r w) (on os g)
  unfolding stored
  stored_next (exit_success, m) st w agree key = rw key (agree m st.trackers w)
  stored_next (exit_failure, m) st w agree key = refl

  made_next :
      (r : Run Tracker) (st : Parsing) (w : World)
      → Agree
      → st.key ≡ true
      → let add : Tracker → Cmd (Exit × Parsing) =
          λ t. pure (exit_success, cleared (record st { trackers = st.trackers ++ t ∷ [] })) in
        and_then (and_then (lift r w) add) (on os f) ≡ and_then (and_then (lift r w) add) (on os g)
  made_next (ok t) st w agree key = rw key (agree st.hashmap (st.trackers ++ t ∷ []) w)
  made_next fault st w agree key = refl
  made_next halted st w agree key = refl
  made_next out_of_fuel st w agree key = refl

  store_pair_next :
      (key value : CString) (st : Parsing) (w : World)
      → Agree
      → st.key ≡ true
      → and_then (store_pair os st key value w) (on os f)
        ≡ and_then (store_pair os st key value w) (on os g)
  unfolding store_pair add_tracker ask
  store_pair_next key value st w agree k = elim (Bool-cases (str_eq key key_tr)) [
    | inl tracker ↦ rw tracker (
        made_next (State.init (os.gethostbyname w.now) value) st (record w { now = w.now + 1 })
          agree k)
    | inr other ↦
        rw other (stored_next (Hashmap.set st.hashmap (some key) (some value) true) st w agree k)
  ]

print_query-is_last :
    (p : CString × CString) (ps : List (CString × CString)) → is_last (print_query (p ∷ ps)) ≡ false
print_query-is_last (key, value) [] = is_last-append key b'=' value
print_query-is_last (key, value) (q ∷ ps) =
    is_last-append key b'=' (value ++ b'&' ∷ print_query (q ∷ ps))

-- Parsing a printed query is to store its pairs one after the other, if no key has an equals sign,
-- no value an ampersand, no value is empty, and all are shorter than the buffers.
pub parse_chars-print_query :
    (os : Os) (p : CString × CString) (ps : List (CString × CString)) (m : Hashmap CString)
    (ts : List Tracker) (w : World)
    → All (λ p. IsKey p.0 × IsValue p.1) (p ∷ ps)
    → parse_chars os (print_query (p ∷ ps)) (start m ts) w ≡ store_all os (p ∷ ps) (start m ts) w
parse_chars-print_query os (key, []) ps m ts w h = absurd (omega (arith, h.0.1.1))
parse_chars-print_query os (key, c ∷ value) [] m ts w h =
    parse-key os key [] c value (start m ts) w h.0.0.0 (omega (arith, h.0.0.1))
    ∙ parse-last os value key [] c (start m ts) w h.0.1.0 (omega (arith, h.0.1.2))
    ∙ ap (λ r. and_then r (on os (parse_chars os [])))
        (end_pair-store os (start m ts) key (c ∷ value) w h.0.0.1 h.0.1.2)
    ∙ store_pair_next os (parse_chars os []) (store_all os []) key (c ∷ value)
        (record (start m ts) { key_buffer = key; value_buffer = c ∷ value; key = true }) w
        (λ m' ts' w'. unfold parse_chars in refl) refl
parse_chars-print_query os (key, c ∷ value) (q ∷ ps) m ts w h =
    let more = print_query (q ∷ ps) in
    parse-key os key [] c (value ++ b'&' ∷ more) (start m ts) w h.0.0.0 (omega (arith, h.0.0.1))
    ∙ parse-value os (c ∷ value) key [] more (start m ts) w (print_query-is_last q ps) h.0.1.0
        (omega (arith, h.0.1.2))
    ∙ ap (λ r. and_then r (on os (parse_chars os more)))
        (end_pair-store os (start m ts) key (c ∷ value) w h.0.0.1 h.0.1.2)
    ∙ store_pair_next os (parse_chars os more) (store_all os (q ∷ ps)) key (c ∷ value)
        (record (start m ts) { key_buffer = key; value_buffer = c ∷ value; key = true }) w
        (λ m' ts' w'. parse_chars-print_query os q ps m' ts' w' h.1) refl
