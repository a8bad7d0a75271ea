-- ===== src/Peer/Ends/Reading.antt =====
-- The calls of the socket, and the reading loop when something always comes.
use uvg_torrent.Base.{
  ℕ, zero, suc, ◌+◌, ◌-◌, ◌≤◌, ◌<◌, ◌≡◌, Option, none, some, List, [], ◌∷◌, length, length-take,
  ltb, arith, Option-cases, Bool-cases, inl, inr, exit_failure,
}
use uvg_torrent.Words.{Host, load}
use uvg_torrent.Net
use uvg_torrent.Os.{Os, World, ask, emit, pure, and_then, Finishes, Finishes-bind}
use uvg_torrent.Os.Ends.{Any, Any-bind, Any-if}
use uvg_torrent.Socket
use uvg_torrent.Socket.{Socket, SocketType, tcp, udp}
use uvg_torrent.Peer.Stream.{
  buffer_size, write_at, read_size, count_chunk, prefix, receive_loop, receive_message,
}

-- Every read gives something: no connection is closed or fails.
pub record IsTalking (os : Os) : Type 0 where
  pub talks : (n : ℕ) → (chunk : List ℕ) × (os.recv n ≡ some chunk) × (0 < length chunk)

module _ (os : Os) where
  pub send-Any : (s : Socket) (bytes : List ℕ) (w : World) → Finishes Any (Socket.send os s bytes w)
  unfolding Socket.send ask emit
  send-Any s bytes w = elim (Option-cases s.sock_desc) [
    | inl closed ↦ rw closed tt
    | inr (fd, is_open) ↦
        rw is_open
          (Any-if (os.send w.now) _ (pure exit_failure) (record w { now = w.now + 1 }) tt tt)
  ]

  pub receive-Any : (s : Socket) (n : ℕ) (w : World) → Finishes Any (Socket.receive os s n w)
  unfolding Socket.receive ask
  receive-Any s n w = elim (Option-cases s.sock_desc) [
    | inl closed ↦ rw closed tt
    | inr (fd, is_open) ↦ rw is_open tt
  ]

  attach-Any : (t : SocketType) (w : World) → Finishes Any (Socket.attach os t w)
  unfolding Socket.attach ask
  attach-Any udp w = Any-if (os.bind w.now) _ _ (record w { now = w.now + 1 }) tt tt
  attach-Any tcp w = tt

  connect_error-Any :
      (s : Socket) (d : Option ℕ) (w : World) → Finishes Any (Socket.connect_error os s d w)
  unfolding Socket.connect_error emit
  connect_error-Any s none w = tt
  connect_error-Any s (some fd) w = tt

  connected-Any :
      (s : Socket) (fd : ℕ) (addrs : List (List ℕ)) (w : World)
      → Finishes Any (Socket.connected os s fd addrs w)
  unfolding Socket.connected
  connected-Any s fd [] w = tt
  connected-Any s fd (addr ∷ more) w =
      Any-bind (Socket.attach os s.type w) _ (attach-Any s.type w)
        λ attached w'. Any-if attached _ _ w' tt (connect_error-Any s (some fd) w')

  resolved-Any :
      (s : Socket) (fd : ℕ) (host : Option (List (List ℕ))) (w : World)
      → Finishes Any (Socket.resolved os s fd host w)
  unfolding Socket.resolved
  resolved-Any s fd none w = tt
  resolved-Any s fd (some addrs) w = connected-Any s fd addrs w

  opened_as-Any : (s : Socket) (d : Option ℕ) (w : World) → Finishes Any (Socket.opened_as os s d w)
  unfolding Socket.opened_as ask emit
  opened_as-Any s none w = connect_error-Any s none w
  opened_as-Any s (some fd) w = resolved-Any s fd _ _

  pub connect-Any : (s : Socket) (w : World) → Finishes Any (Socket.connect os s w)
  unfolding Socket.connect ask
  connect-Any s w = opened_as-Any s (os.socket w.now) (record w { now = w.now + 1 })

  abbrev Filled : Option (List ℕ) → World → Type 0
  Filled none w = ⊥
  Filled (some chunk) w = 0 < length chunk

  receive-Filled :
      (s : Socket) (n : ℕ) (w : World)
      → IsTalking os
      → 0 < n
      → Finishes Filled (Socket.receive os s n w)
  unfolding Socket.receive ask
  receive-Filled s n w talking some_wanted = elim (Option-cases s.sock_desc) [
    | inl closed ↦ rw closed tt
    | inr (fd, is_open) ↦
        let (chunk, answer, filled) = talking.talks w.now in
        rw (is_open, answer) (omega (arith, length-take n chunk))
  ]

  read_size-positive : (n : ℕ) → 0 < n → 0 < read_size n
  unfolding read_size
  read_size-positive n h = ground arith

  module _ (talking : IsTalking os) (s : Socket) (size : ℕ) where
    abbrev LoopEnds : ℕ → Type 0
    LoopEnds fuel =
        (out : List ℕ) (received : ℕ) (w : World)
        → 4 + received ≤ buffer_size
        → buffer_size < fuel + (4 + received)
        → Finishes Any (receive_loop os fuel s size out received w)

    -- What comes is at least one byte, so that the buffer is full in the end.
    chunk-Any :
        (fuel : ℕ) (out : List ℕ) (received : ℕ) (chunk : List ℕ) (w : World)
        → LoopEnds fuel
        → 0 < length chunk
        → buffer_size < suc fuel + (4 + received)
        → Finishes Any (count_chunk (receive_loop os fuel s size) size out received (some chunk) w)
    unfolding count_chunk
    chunk-Any fuel out received chunk w ends filled enough =
        elim (Bool-cases (ltb buffer_size (4 + received + length chunk))) [
          | inl over ↦ rw over tt
          | inr fits ↦ rw fits (
              ends (write_at (4 + received) chunk out) (received + length chunk) w (ground arith)
                (omega arith))
        ]

    round-Any :
        (fuel : ℕ) (out : List ℕ) (received : ℕ) (w : World)
        → LoopEnds fuel
        → received < size
        → buffer_size < suc fuel + (4 + received)
        → Finishes Any (
            and_then
              (Socket.receive os s (read_size (size - received)) w)
              (count_chunk (receive_loop os fuel s size) size out received))
    round-Any fuel out received w ends short enough =
        Finishes-bind Filled Any (Socket.receive os s (read_size (size - received)) w) _
          (receive-Filled s (read_size (size - received)) w talking
            (read_size-positive (size - received) (omega arith)))
          λ answer w' filled. of_answer answer w' filled
      where
        of_answer :
            (answer : Option (List ℕ)) (w' : World)
            → Filled answer w'
            → Finishes Any (count_chunk (receive_loop os fuel s size) size out received answer w')
        of_answer none w' filled = absurd filled
        of_answer (some chunk) w' filled = chunk-Any fuel out received chunk w' ends filled enough

    receive_loop-Any : (fuel : ℕ) → LoopEnds fuel
    unfolding receive_loop
    receive_loop-Any zero out received w small enough = absurd (omega arith)
    receive_loop-Any (suc fuel) out received w small enough =
        elim (Bool-cases (ltb received size)) [
          | inl short ↦
              rw short (round-Any fuel out received w (receive_loop-Any fuel) (ground arith) enough)
          | inr done ↦ rw done tt
        ]

  pub receive_message-Any :
      (host : Host) (fuel : ℕ) (s : Socket) (w : World)
      → IsTalking os
      → buffer_size < fuel + 4
      → Finishes Any (receive_message os host fuel s w)
  unfolding receive_message
  receive_message-Any host fuel s w talking enough =
      Any-bind (Socket.receive os s 4 w) _ (receive-Any s 4 w) λ first w'.
        receive_loop-Any talking s (Net.ntohl host (load host (prefix first))) fuel (prefix first) 0
          w' (omega arith) (omega arith)
