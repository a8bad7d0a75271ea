-- ===== src/Socket/Counts.antt =====
-- How much the operations of utils/sock/socket.c send.
use uvg_torrent.Base.{
  ℕ, ◌+◌, ◌≤◌, ◌≡◌, Bool, true, false, Option, none, some, List, [], ◌∷◌, arith, if◌then◌else◌, inl,
  inr, Bool-cases, Option-cases, exit_success,
}
use uvg_torrent.Os.{
  Os, World, sent, opened, closed, pure, sent_count, sent_count-append, Finishes, Finishes-bind,
}
use uvg_torrent.Socket
use uvg_torrent.Socket.{Socket, SocketType, tcp, udp}

-- So many have been sent.
abbrev pub Sent : {A : Type 0} → ℕ → A → World → Type 0
Sent n a w = sent_count w.log ≡ n

-- The steps of connecting a socket send nothing.
module _ (os : Os) (n : ℕ) where
  attach_quiet :
      (t : SocketType) (w : World) → sent_count w.log ≡ n → Finishes (Sent n) (Socket.attach os t w)
  unfolding Socket.attach
  attach_quiet tcp w e = e
  attach_quiet udp w e = elim (Bool-cases (os.bind w.now)) [
    | inl yes_bound ↦ rw yes_bound e
    | inr not_bound ↦ rw not_bound e
  ]

  connect_error_quiet :
      (s : Socket) (fd : Option ℕ) (w : World)
      → sent_count w.log ≡ n
      → Finishes (Sent n) (Socket.connect_error os s fd w)
  unfolding Socket.connect_error sent_count
  connect_error_quiet s none w e = e
  connect_error_quiet s (some fd) w e = omega (arith, sent_count-append w.log (closed fd ∷ []))

  connected_quiet :
      (s : Socket) (fd : ℕ) (addrs : List (List ℕ)) (w : World)
      → sent_count w.log ≡ n
      → Finishes (Sent n) (Socket.connected os s fd addrs w)
  connected_quiet s fd [] w e = unfold Socket.connected in tt
  connected_quiet s fd (addr ∷ more) w e =
      unfold Socket.connected in
      Finishes-bind (Sent n) (Sent n) (Socket.attach os s.type w) _ (attach_quiet s.type w e) after
    where
      after :
          (b : Bool) (w' : World)
          → sent_count w'.log ≡ n
          → Finishes (Sent n) (
              (if b
                  then pure
                      (exit_success, record s { sock_desc = some fd; remote_addr = some addr })
                  else Socket.connect_error os s (some fd))
                w')
      after true w' e' = e'
      after false w' e' = connect_error_quiet s (some fd) w' e'

  resolved_quiet :
      (s : Socket) (fd : ℕ) (host : Option (List (List ℕ))) (w : World)
      → sent_count w.log ≡ n
      → Finishes (Sent n) (Socket.resolved os s fd host w)
  resolved_quiet s fd none w e = unfold Socket.resolved in tt
  resolved_quiet s fd (some addrs) w e = unfold Socket.resolved in connected_quiet s fd addrs w e

  opened_quiet :
      (s : Socket) (fd : Option ℕ) (w : World)
      → sent_count w.log ≡ n
      → Finishes (Sent n) (Socket.opened_as os s fd w)
  unfolding Socket.opened_as sent_count
  opened_quiet s none w e = connect_error_quiet s none w e
  opened_quiet s (some fd) w e =
      resolved_quiet s fd (os.gethostbyname w.now) _
        (omega (arith, sent_count-append w.log (opened fd ∷ [])))

  pub connect_quiet :
      (s : Socket) (w : World) → sent_count w.log ≡ n → Finishes (Sent n) (Socket.connect os s w)
  unfolding Socket.connect
  connect_quiet s w e = opened_quiet s (os.socket w.now) _ e

module _ (os : Os) (n : ℕ) where
  -- A send adds at most one, a receive none.
  pub send_one :
      (s : Socket) (bytes : List ℕ) (w : World)
      → sent_count w.log ≤ n
      → Finishes (λ r w'. sent_count w'.log ≤ n + 1) (Socket.send os s bytes w)
  unfolding Socket.send sent_count
  send_one s bytes w e = elim (Option-cases s.sock_desc) [
    | inl none_open ↦ rw none_open tt
    | inr (fd, is_open) ↦ rw is_open (elim (Bool-cases (os.send w.now)) [
      | inl done ↦ rw done (omega (arith, sent_count-append w.log (sent fd bytes ∷ [])))
      | inr failed ↦ rw failed (omega arith)
    ])
  ]

  pub receive_none :
      (s : Socket) (size : ℕ) (w : World)
      → sent_count w.log ≤ n
      → Finishes (λ r w'. sent_count w'.log ≤ n) (Socket.receive os s size w)
  unfolding Socket.receive
  receive_none s size w e = elim (Option-cases s.sock_desc) [
    | inl none_open ↦ rw none_open tt
    | inr (fd, is_open) ↦ rw is_open e
  ]
