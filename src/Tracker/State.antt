-- ===== src/Tracker/State.antt =====
-- The struct of tracker/tracker.h; `Tracker_init`, `Tracker_generate_transID` and `Tracker_destroy`
-- of tracker/tracker.c. Allocations succeed.
use uvg_torrent.Base.{ℕ, ◌%◌, Bool, false, Option, none, some, List, [], ◌∷◌, Run, ok, fault, ◌>>=◌}
use uvg_torrent.Libc.{CString, c_string}
use uvg_torrent.LinkedList.View.{list_get}
use uvg_torrent.Str.{urldecode, split}
use uvg_torrent.Net.{hostname_to_ip}
use uvg_torrent.Os
use uvg_torrent.Os.{Os, Cmd, World, ask}
use uvg_torrent.Socket
use uvg_torrent.Socket.{Socket}

-- `ip` is none while its 32 bytes are uninitialised.
pub record Tracker : Type 0 where
  pub url : CString
  pub port : CString
  pub ip : Option CString
  pub connected : Bool
  pub attempts : ℕ
  pub max_attempts : ℕ
  pub connection_id : ℕ
  pub last_transaction_id : ℕ
  pub tracker_socket : Option Socket

-- A string is read through the pointer that `get` answers.
unfoldable pub at_pointer : Option CString → Run CString
at_pointer none = fault
at_pointer (some s) = ok s

-- `(char *) … + 2`: past the two slashes.
unfoldable pub past_slashes : CString → Run CString
past_slashes [] = fault
past_slashes (a ∷ []) = fault
past_slashes (a ∷ b ∷ url) = ok url

-- `Tracker_init`, with what the resolver answers for the host. That the lookup failed is not read.
unfoldable pub init : Option (List CString) → CString → Run Tracker
unfolding at_pointer past_slashes
init answer address = do
  url_port ← split (c_string (urldecode address)) b':'
  second ← list_get url_port 1
  slashed ← at_pointer second
  url ← past_slashes slashed
  third ← list_get url_port 2
  port ← at_pointer third
  ok (record {
    url = url;
    port = port;
    ip = (hostname_to_ip answer).1;
    connected = false;
    attempts = 0;
    max_attempts = 5;
    connection_id = 0;
    last_transaction_id = 0;
    tracker_socket = none;
  })

module _ (os : Os) where
  unfoldable pub generate_trans_id : Tracker → Cmd Tracker
  unfolding ask
  generate_trans_id this =
      Os.◌>>=◌ (ask os.rand) λ r. Os.pure (record this { last_transaction_id = r % 1000000 })

  -- `Tracker_destroy`.
  unfoldable pub destroy : Tracker → Cmd (Unit {0})
  destroy this = elim this.tracker_socket [
    | none ↦ Os.pure tt
    | some socket ↦ Socket.destroy os socket
  ]
