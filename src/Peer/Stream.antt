-- ===== src/Peer/Stream.antt =====
-- What `receive` of peer/packets/peer_metadata_packet.c and of peer_request_piece_packet.c have in
-- common: a length of four bytes, and a loop that reads as many bytes behind it.
use uvg_torrent.Base.{
  ℕ, zero, suc, ◌+◌, ◌-◌, ◌^◌, Bool, true, false, Option, none, some, List, [], ◌∷◌, ◌++◌, take,
  drop, length, ltb, if◌then◌else◌, fault, out_of_fuel,
}
use uvg_torrent.Words.{Host, load}
use uvg_torrent.Net
use uvg_torrent.Os.{Os, Cmd, pure, ◌>>=◌}
use uvg_torrent.Socket
use uvg_torrent.Socket.{Socket}

-- `char out[17*2048] = {0}`: the bytes written so far; zeros stand behind them.
abbrev pub buffer_size : ℕ
buffer_size = 34816

unfoldable pub zeros : ℕ → List ℕ
zeros zero = []
zeros (suc n) = 0 ∷ zeros n

unfoldable pub write_at : ℕ → List ℕ → List ℕ → List ℕ
write_at pos chunk out = take pos out ++ (chunk ++ drop (pos + length chunk) out)

-- A `uint32_t` handed over as an `int`, which `recv` takes as a `size_t`.
unfoldable pub read_size : ℕ → ℕ
read_size n = if ltb n (2 ^ 31) then n else n + (2 ^ 64 - 2 ^ 32)

-- The locals of `receive` behind the loop; `bytes_received` is none for -1.
pub record Message : Type 0 where
  pub size : ℕ
  pub bytes_received : Option ℕ
  pub out : List ℕ

-- `bytes_received > 0`.
unfoldable pub is_positive : Option ℕ → Bool
is_positive none = false
is_positive (some zero) = false
is_positive (some (suc n)) = true

-- The answer to one read. An error counts as -1 byte: from 0 it gives -1, which the loop compares
-- as the largest unsigned number, and so stops.
unfoldable pub count_chunk :
    (List ℕ → ℕ → Cmd Message) → ℕ → List ℕ → ℕ → Option (List ℕ) → Cmd Message
unfolding write_at
count_chunk again size out zero none =
    pure (record { size = size; bytes_received = none; out = out })
count_chunk again size out (suc received) none = again out received
count_chunk again size out received (some chunk) =
    if ltb buffer_size (4 + received + length chunk)
    then (λ w. fault)
    else again (write_at (4 + received) chunk out) (received + length chunk)

-- The first four bytes; what the read leaves out stays zero.
unfoldable pub prefix : Option (List ℕ) → List ℕ
unfolding zeros
prefix none = zeros 4
prefix (some chunk) = take 4 (chunk ++ zeros 4)

module _ (os : Os) where
  unfoldable pub receive_loop : ℕ → Socket → ℕ → List ℕ → ℕ → Cmd Message
  unfolding count_chunk
  receive_loop zero socket size out received = λ w. out_of_fuel
  receive_loop (suc fuel) socket size out received =
      if ltb received size
      then (Socket.receive os socket (read_size (size - received))
          >>= count_chunk (receive_loop fuel socket size) size out received)
      else pure (record { size = size; bytes_received = some received; out = out })

  unfoldable pub receive_message : Host → ℕ → Socket → Cmd Message
  unfolding receive_loop prefix
  receive_message host fuel socket = do
    first ← Socket.receive os socket 4
    let out = prefix first
    receive_loop fuel socket (Net.ntohl host (load host out)) out 0
