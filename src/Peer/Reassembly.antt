-- ===== src/Peer/Reassembly.antt =====
-- The reading loop of peer_metadata_packet.c and of peer_request_piece_packet.c when a message comes
-- in pieces, and when the peer closes
-- the connection.
use uvg_torrent.Base.{
  ℕ, zero, suc, ◌+◌, ◌-◌, ◌^◌, ◌≤◌, ◌<◌, ◌≡◌, refl, sym, ap, ap₂, ◌∙◌, some, List, [], ◌∷◌, ◌++◌,
  append_assoc, append-nil, take, drop, length, length-append, take-append, take_whole, lt→ltb,
  le→ltb, arith, ok, out_of_fuel, Run,
}
use uvg_torrent.Words.{Host, store_be, length-store_be}
use uvg_torrent.Net.Order.{ntohl-load}
use uvg_torrent.Os.{Os, Cmd, World, ask}
use uvg_torrent.Socket
use uvg_torrent.Socket.{Socket}
use uvg_torrent.Peer.Stream.{
  Message, buffer_size, zeros, write_at, read_size, count_chunk, prefix, receive_loop,
  receive_message,
}

-- What the reads from time `t` on answer.
abbrev pub Delivers : Os → ℕ → List (List ℕ) → Type 0
Delivers os t [] = Unit
Delivers os t (chunk ∷ chunks) = (os.recv t ≡ some chunk) × Delivers os (t + 1) chunks

abbrev pub joined : List (List ℕ) → List ℕ
joined [] = []
joined (chunk ∷ chunks) = chunk ++ joined chunks

abbrev pub AllFilled : List (List ℕ) → Type 0
AllFilled [] = Unit
AllFilled (chunk ∷ chunks) = (0 < length chunk) × AllFilled chunks

pub take_short : (n : ℕ) (xs : List ℕ) → length xs ≤ n → take n xs ≡ xs
take_short zero [] h = refl
take_short zero (x ∷ xs) h = absurd (omega arith)
take_short (suc n) [] h = refl
take_short (suc n) (x ∷ xs) h = ap (λ t. x ∷ t) (take_short n xs (omega arith))

drop_all : (n : ℕ) (xs : List ℕ) → length xs ≤ n → drop n xs ≡ []
drop_all zero [] h = refl
drop_all zero (x ∷ xs) h = absurd (omega arith)
drop_all (suc n) [] h = refl
drop_all (suc n) (x ∷ xs) h = drop_all n xs (omega arith)

write_at_end :
    (pos : ℕ) (chunk out : List ℕ) → length out ≡ pos → write_at pos chunk out ≡ out ++ chunk
unfolding write_at
write_at_end pos chunk out e =
    rw (take_whole out pos e, drop_all (pos + length chunk) out (omega arith), append-nil) refl

-- The result of a read from an open socket.
read_chunk :
    (os : Os) (s : Socket) (fd n : ℕ) (chunk : List ℕ) (w : World)
    → s.sock_desc ≡ some fd
    → os.recv w.now ≡ some chunk
    → Socket.receive os s n w ≡ ok (some (take n chunk), record w { now = w.now + 1 })
unfolding Socket.receive ask
read_chunk os s fd n chunk w is_open answer = rw (is_open, answer) refl

module _ (os : Os) (s : Socket) (fd size : ℕ) (is_open : s.sock_desc ≡ some fd) where
  -- A round of the loop in which something comes.
  round :
      (fuel : ℕ) (out : List ℕ) (received : ℕ) (chunk : List ℕ) (w : World)
      → received < size
      → os.recv w.now ≡ some chunk
      → receive_loop os (suc fuel) s size out received w
        ≡ count_chunk
            (receive_loop os fuel s size)
            size
            out
            received
            (some (take (read_size (size - received)) chunk))
            (record w { now = w.now + 1 })
  unfolding receive_loop
  round fuel out received chunk w short answer =
      rw
        (
          lt→ltb received size short,
          read_chunk os s fd (read_size (size - received)) chunk w is_open answer,
        )
        refl

  finished :
      (fuel : ℕ) (out : List ℕ) (w : World)
      → receive_loop os (suc fuel) s size out size w
        ≡ ok (record { size = size; bytes_received = some size; out = out }, w)
  unfolding receive_loop
  finished fuel out w = rw (le→ltb size size (omega arith)) refl

  -- A chunk that is asked for whole is written behind the others.
  count_chunk_whole :
      (again : List ℕ → ℕ → Cmd Message) (out : List ℕ) (received : ℕ) (chunk : List ℕ) (w : World)
      → length out ≡ 4 + received
      → received + length chunk ≤ size
      → 4 + size ≤ buffer_size
      → count_chunk again size out received (some (take (read_size (size - received)) chunk)) w
        ≡ again (out ++ chunk) (received + length chunk) w
  unfolding count_chunk read_size
  count_chunk_whole again out received chunk w filled fits small =
      rw
        (
          lt→ltb (size - received) (2 ^ 31) (omega arith),
          take_short (size - received) chunk (omega arith),
          le→ltb buffer_size (4 + received + length chunk) (omega arith),
          write_at_end (4 + received) chunk out filled,
        )
        refl

  -- All of the message read, and `out` the buffer, at time `n`.
  abbrev read_up : List ℕ → ℕ → World → Run (Message × World)
  read_up out n w =
      ok (record { size = size; bytes_received = some size; out = out }, record w { now = n })

  loop_joins :
      (chunks : List (List ℕ)) (fuel : ℕ) (out : List ℕ) (received : ℕ) (w : World)
      → Delivers os w.now chunks
      → AllFilled chunks
      → length out ≡ 4 + received
      → received + length (joined chunks) ≡ size
      → 4 + size ≤ buffer_size
      → length chunks < fuel
      → receive_loop os fuel s size out received w
        ≡ read_up (out ++ joined chunks) (w.now + length chunks) w
  loop_joins chunks zero out received w delivers whole filled total small enough =
      absurd (omega arith)
  loop_joins [] (suc fuel) out received w delivers whole filled total small enough =
      ap (λ r. receive_loop os (suc fuel) s size out r w) (omega (arith, total))
      ∙ finished fuel out w
      ∙ ap₂ (λ o n. read_up o n w) (sym (append-nil out)) (omega arith)
  loop_joins (chunk ∷ chunks) (suc fuel) out received w delivers whole filled total small enough =
      let sum = length-append chunk (joined chunks) in
      round fuel out received chunk w (omega (arith, sum, whole.0)) delivers.0
      ∙ count_chunk_whole (receive_loop os fuel s size) out received chunk
          (record w { now = w.now + 1 }) filled (omega (arith, sum)) small
      ∙ loop_joins chunks fuel (out ++ chunk) (received + length chunk)
          (record w { now = w.now + 1 }) delivers.1 whole.1 (omega (arith, length-append out chunk))
          (omega (arith, sum)) small (omega arith)
      ∙ ap₂ (λ o n. read_up o n w) (append_assoc out chunk (joined chunks)) (omega arith)

  -- The peer has closed the connection: every read gives no byte.
  loop_at_end :
      (fuel : ℕ) (out : List ℕ) (received t : ℕ) (w : World)
      → ((n : ℕ) → t ≤ n → os.recv n ≡ some [])
      → t ≤ w.now
      → received < size
      → 4 + received ≤ buffer_size
      → receive_loop os fuel s size out received w ≡ out_of_fuel
  unfolding receive_loop count_chunk
  loop_at_end zero out received t w closed late short small = refl
  loop_at_end (suc fuel) out received t w closed late short small =
      let next : World = record w { now = w.now + 1 } in
      round fuel out received [] w short (closed w.now late)
      ∙ ap (λ c. count_chunk (receive_loop os fuel s size) size out received (some c) next)
          (take_short (read_size (size - received)) [] (omega arith))
      ∙ rw (le→ltb buffer_size (4 + received + 0) (omega arith)) (
          loop_at_end fuel (write_at (4 + received) [] out) (received + 0) t next closed
            (omega arith) (omega arith) (omega arith))

module _ (os : Os) (host : Host) (s : Socket) (fd size : ℕ) (is_open : s.sock_desc ≡ some fd)
    (small : size < 2 ^ 32) where
  -- The length comes in one read.
  message_size :
      (fuel : ℕ) (w : World)
      → os.recv w.now ≡ some (store_be 4 size)
      → receive_message os host fuel s w
        ≡ receive_loop os fuel s size (store_be 4 size) 0 (record w { now = w.now + 1 })
  unfolding receive_message prefix
  message_size fuel w answer =
      rw
        (
          read_chunk os s fd 4 (store_be 4 size) w is_open answer,
          take_whole (store_be 4 size) 4 (length-store_be 4 size),
          take-append (store_be 4 size) (zeros 4) 4 (length-store_be 4 size),
          ntohl-load host size small,
        )
        refl

-- A message that comes as its length, whole, and then in any number of pieces that are not empty is
-- put together in the buffer, the length in front, on either host. The pieces have the announced length
-- together, it fits the buffer, and there is fuel for one round more than there are pieces.
pub receive_message-joined :
    (os : Os) (host : Host) (fuel : ℕ) (s : Socket) (fd : ℕ) (chunks : List (List ℕ)) (w : World)
    → s.sock_desc ≡ some fd
    → os.recv w.now ≡ some (store_be 4 (length (joined chunks)))
    → Delivers os (w.now + 1) chunks
    → AllFilled chunks
    → 4 + length (joined chunks) ≤ buffer_size
    → length chunks < fuel
    → receive_message os host fuel s w
      ≡ ok (
        record {
          size = length (joined chunks);
          bytes_received = some (length (joined chunks));
          out = store_be 4 (length (joined chunks)) ++ joined chunks;
        },
        record w { now = w.now + 1 + length chunks },
      )
receive_message-joined os host fuel s fd chunks w is_open answer delivers whole small enough =
    let size = length (joined chunks) in
    message_size os host s fd size is_open (omega arith) fuel w answer
    ∙ loop_joins os s fd size is_open chunks fuel (store_be 4 size) 0 (record w { now = w.now + 1 })
        delivers whole (length-store_be 4 size) (omega arith) small enough

-- A peer that sends the length of a message and then closes the connection holds the program for
-- ever: `recv` gives no byte again and again, and the loop is not left after any number of rounds.
-- The announced length is positive, and the length field itself comes whole.
pub receive_message_stuck :
    (os : Os) (host : Host) (fuel : ℕ) (s : Socket) (fd size : ℕ) (w : World)
    → s.sock_desc ≡ some fd
    → 0 < size
    → size < 2 ^ 32
    → os.recv w.now ≡ some (store_be 4 size)
    → ((n : ℕ) → w.now + 1 ≤ n → os.recv n ≡ some [])
    → receive_message os host fuel s w ≡ out_of_fuel
receive_message_stuck os host fuel s fd size w is_open filled small answer closed =
    message_size os host s fd size is_open small fuel w answer
    ∙ loop_at_end os s fd size is_open fuel (store_be 4 size) 0 (w.now + 1)
        (record w { now = w.now + 1 }) closed (omega arith) filled (omega arith)
