-- ===== src/Torrent/Parse.antt =====
-- `Torrent_parse` of torrent/torrent.c. A buffer is the list of the characters written to it since
-- it was last cleared, all at its front, and `str_pos` is their number; `input_len` is the
-- index of the last character. The file is NULL, or its bytes. Allocations succeed.
pub mod Pairs
pub mod Text
pub mod Link
pub mod Magnet
use uvg_torrent.Base.{
  ℕ, zero, suc, ◌+◌, Bool, true, false, ◌&&◌, not, Option, none, some, List, [], ◌∷◌, ◌++◌, ◌==◌,
  ltb, if◌then◌else◌, Run, ok, fault, Exit, exit_success, exit_failure, length, drop,
}
use uvg_torrent.Libc.{CString, c_string, str_eq}
use uvg_torrent.Str.{urldecode}
use uvg_torrent.Hashmap
use uvg_torrent.Hashmap.{Hashmap}
use uvg_torrent.Os.{Os, Cmd, World, pure, ◌>>=◌, and_then, lift, ask}
use uvg_torrent.Tracker.State
use uvg_torrent.Tracker.State.{Tracker, at_pointer}
use uvg_torrent.Torrent.{Torrent}

abbrev pub key_tr : CString
key_tr = b't' ∷ b'r' ∷ []

abbrev pub key_dn : CString
key_dn = b'd' ∷ b'n' ∷ []

abbrev pub key_xt : CString
key_xt = b'x' ∷ b't' ∷ []

pub record Parsing : Type 0 where
  pub key_buffer : CString
  pub value_buffer : CString
  -- whether a key is being extracted, or a value
  pub key : Bool
  pub hashmap : Hashmap CString
  pub trackers : List Tracker

abbrev pub is_last : CString → Bool
is_last [] = true
is_last (c ∷ cs) = false

-- The last character goes to the buffer too, outside of it if it is full.
unfoldable pub closing : Bool → ℕ → CString → Run CString
closing false c buffer = ok buffer
closing true c buffer = if ltb (length buffer) 256 then ok (buffer ++ c ∷ []) else fault

-- A full buffer has no terminating zero.
unfoldable pub terminated : CString → Run CString
terminated buffer = if ltb (length buffer) 256 then ok buffer else fault

-- The buffers after `memset`.
abbrev pub cleared : Parsing → Parsing
cleared st = record st { key_buffer = []; value_buffer = [] }

-- On a failure of `set` the loop is left by `throw`.
unfoldable pub stored : Parsing → Exit × Hashmap CString → Cmd (Exit × Parsing)
stored st (exit_success, hashmap) = pure (exit_success, cleared (record st { hashmap = hashmap }))
stored st (exit_failure, hashmap) = pure (exit_failure, st)

module _ (os : Os) where
  -- `NEW(Tracker, value_buffer)`, which looks the host up, and its copy at the end of the list.
  unfoldable pub add_tracker : Parsing → CString → Cmd (Exit × Parsing)
  unfolding ask
  add_tracker st value = do
    answer ← ask os.gethostbyname
    tracker ← lift (State.init answer value)
    pure (exit_success, cleared (record st { trackers = st.trackers ++ tracker ∷ [] }))

  unfoldable pub store_pair : Parsing → CString → CString → Cmd (Exit × Parsing)
  unfolding add_tracker stored
  store_pair st key value =
      if str_eq key key_tr
      then add_tracker st value
      else stored st (Hashmap.set st.hashmap (some key) (some value) true)

  unfoldable pub end_pair : Parsing → Cmd (Exit × Parsing)
  unfolding store_pair
  end_pair st = do
    key ← lift (terminated st.key_buffer)
    value ← lift (terminated st.value_buffer)
    store_pair st key value

  -- The two cases of the switch.
  unfoldable pub key_char : Bool → ℕ → Parsing → Cmd (Exit × Parsing)
  key_char last c st =
      if not (c == b'=') && (ltb (length st.key_buffer) 256 && not last)
      then pure (exit_success, record st { key_buffer = st.key_buffer ++ c ∷ [] })
      else (do
        buffer ← lift (closing last c st.key_buffer)
        pure (exit_success, record st { key_buffer = buffer; key = false }))

  unfoldable pub value_char : Bool → ℕ → Parsing → Cmd (Exit × Parsing)
  unfolding end_pair
  value_char last c st =
      if not (c == b'&') && (ltb (length st.value_buffer) 256 && not last)
      then pure (exit_success, record st { value_buffer = st.value_buffer ++ c ∷ [] })
      else (do
        buffer ← lift (closing last c st.value_buffer)
        end_pair (record st { value_buffer = buffer; key = true }))

  unfoldable pub switch_char : Bool → Bool → ℕ → Parsing → Cmd (Exit × Parsing)
  unfolding key_char value_char
  switch_char true last c st = key_char last c st
  switch_char false last c st = value_char last c st

  abbrev pub on : (Parsing → Cmd (Exit × Parsing)) → Exit × Parsing → Cmd (Exit × Parsing)
  on next (exit_failure, st) = pure (exit_failure, st)
  on next (exit_success, st) = next st

  unfoldable pub parse_chars : CString → Parsing → Cmd (Exit × Parsing)
  unfolding switch_char
  parse_chars [] st = pure (exit_success, st)
  parse_chars (c ∷ cs) st = switch_char st.key (is_last cs) c st >>= on (parse_chars cs)

  -- `dn` and `xt`: a key that is missing is a NULL pointer, which is read.
  unfoldable pub finish : ℕ → Torrent → Exit × Parsing → Cmd (Exit × Torrent)
  finish fuel this (exit_failure, st) = do
    done ← lift (Hashmap.destroy st.hashmap)
    pure (exit_failure, record this { trackers = some st.trackers })
  finish fuel this (exit_success, st) = do
    dn ← lift (Hashmap.get fuel st.hashmap (some key_dn))
    dn_text ← lift (at_pointer dn)
    xt ← lift (Hashmap.get fuel st.hashmap (some key_xt))
    xt_text ← lift (at_pointer xt)
    done ← lift (Hashmap.destroy st.hashmap)
    pure (
      exit_success,
      record this {
        name = some (urldecode dn_text);
        hash = some xt_text;
        trackers = some st.trackers;
      },
    )

  abbrev pub fresh : Parsing
  fresh = record {
    key_buffer = [];
    value_buffer = [];
    key = true;
    hashmap = Hashmap.new;
    trackers = [];
  }

  -- `sub_string` starts behind "magnet:?", which must be within the file.
  unfoldable pub parse_content : ℕ → Torrent → List ℕ → Cmd (Exit × Torrent)
  unfolding parse_chars finish
  parse_content fuel this content =
      if ltb (length content) 8
      then (λ w. fault)
      else (parse_chars (c_string (drop 8 content)) fresh >>= finish fuel this)

  -- Where `fopen` or `fread` fails the label `error` tests `hashmap`, which is not declared until
  -- later and holds nothing that was written: a fault.
  unfoldable pub parse : ℕ → Option (List ℕ) → Torrent → Cmd (Exit × Torrent)
  unfolding parse_content
  parse fuel none this = λ w. fault
  parse fuel (some []) this = λ w. fault
  parse fuel (some (c ∷ content)) this = parse_content fuel this (c ∷ content)
