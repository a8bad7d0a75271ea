-- ===== src/Peer.antt =====
-- peer/peer.c: one peer of the swarm, and the messages that are exchanged with it (peer/packets).
-- What is printed is left out.
pub mod Stream
pub mod Handshake
pub mod ExtendedHandshake
pub mod Metadata
pub mod RequestPiece
pub mod Session
pub mod Reassembly
pub mod Numbers
pub mod Wire
pub mod Pieces
pub mod Ends
pub mod Refused
pub mod Files
pub mod Shown
pub mod Described
pub mod Fetch
use uvg_torrent.Base.{
  ℕ, zero, suc, ◌+◌, ◌-◌, ◌*◌, ◌^◌, Bool, true, false, ◌||◌, Option, none, some, List, [], ◌∷◌,
  ◌++◌, take, length, ◌==◌, ltb, leb, if◌then◌else◌, Run, ok, fault, Exit, exit_success,
  exit_failure,
}
use uvg_torrent.Base
use uvg_torrent.Libc.{CString}
use uvg_torrent.Words.{Host}
use uvg_torrent.Os.{Os, Cmd, pure, ◌>>=◌, lift}
use uvg_torrent.Socket
use uvg_torrent.Socket.{Socket, SocketType}
use uvg_torrent.Bencode.{Item}
use Metadata.{Slack}

-- The last four fields are none until the extended handshake sets them.
pub record Peer : Type 0 where
  pub ip : CString
  pub port : ℕ
  pub socket : Socket
  pub ut_metadata : Option ℕ
  pub metadata_size : Option ℕ
  pub num_pieces : Option ℕ
  pub piece_size : Option ℕ

-- `Peer_new` and `_init`.
unfoldable pub new : CString → ℕ → Peer
unfolding Socket.new
new ip port = record {
  ip = ip;
  port = port;
  socket = Socket.new ip port SocketType.tcp;
  ut_metadata = none;
  metadata_size = none;
  num_pieces = none;
  piece_size = none;
}

-- `Peer_destroy`: the memory apart, the destruction of the socket.
unfoldable pub destroy : Os → Peer → Cmd (Unit {0})
unfolding Socket.destroy
destroy os this = Socket.destroy os this.socket

-- "-UVG012345678912345-".
abbrev pub our_peer_id : CString
our_peer_id =
    b'-' ∷ b'U' ∷ b'V' ∷ b'G' ∷ b'0' ∷ b'1' ∷ b'2' ∷ b'3' ∷ b'4' ∷ b'5' ∷ b'6' ∷ b'7' ∷ b'8' ∷ b'9'
    ∷ b'1' ∷ b'2' ∷ b'3' ∷ b'4' ∷ b'5' ∷ b'-' ∷ []

-- What the bytes of a struct come to where the program reads it as another type: those of a
-- `Hashmap` or a `Linkedlist` as an `int`, those of a `Hashmap` as a text, and as a `Linkedlist`, which
-- finds one of the buckets where the head would be. `destroyed` is the call through its `destroy`.
pub record Mistaken : Type 1 where
  pub table_int : ℕ
  pub list_int : ℕ
  pub table_text : CString
  pub table_list : {T : Type 0} → T → Run (List (Item T))
  pub destroyed : {T : Type 0} → T → Run (Unit {0})

-- How many bytes the platform leaves behind the arrays that `strcpy` and `sprintf` fill, and how it
-- lays out the structs.
pub record Layout : Type 1 where
  pub handshake : ℕ
  pub metadata : Slack
  -- behind `dict_key`, an array of so many characters
  pub dict_key : ℕ → ℕ
  -- what the uninitialised `long` of `bencode_to_hashmap` holds
  pub unset_long : ℕ
  pub mistaken : Mistaken

-- `char meta_data[a * b]` of two signed numbers: none if the product is negative or overflows.
unfoldable pub array_size : ℕ → ℕ → Option ℕ
array_size a b =
    let fits = λ (n : ℕ). if leb (2 ^ 31) n then none else some n in
    if ltb a (2 ^ 31)
    then (if ltb b (2 ^ 31) then fits (a * b) else if a == 0 then some 0 else none)
    else if ltb b (2 ^ 31)
    then (if b == 0 then some 0 else none)
    else fits ((2 ^ 32 - a) * (2 ^ 32 - b))

-- The rounds of `for (piece = 0; piece < n; piece++)`.
unfoldable pub rounds : ℕ → ℕ
rounds n = if ltb n (2 ^ 31) then n else 0
