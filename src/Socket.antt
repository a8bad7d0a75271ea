-- ===== src/Socket.antt =====
-- utils/sock/socket.c. `sock_desc` is none for NULL. The results of `setsockopt` are not read, and
-- the addresses that are filled in matter only as the remote end of a datagram.
pub mod Counts
use uvg_torrent.Base.{
  ℕ, zero, suc, Bool, true, false, not, Option, none, some, List, [], ◌∷◌, take, if◌then◌else◌,
  fault, halted, Exit, exit_success, exit_failure,
}
use mathlib.Core.Option
use uvg_torrent.Libc.{CString}
use uvg_torrent.Os.{
  Os, Cmd, World, Event, opened, closed, sent, pure, ◌>>=◌, ◌>>◌, and_then, ask, emit,
}

pub data SocketType : Type 0 where
  tcp udp : SocketType

pub record Socket : Type 0 where
  pub ip : CString
  pub port : ℕ
  pub sock_desc : Option ℕ
  pub type : SocketType
  -- the first address of the host, once connected
  pub remote_addr : Option (List ℕ)

-- `Socket_new` and `_init`.
unfoldable pub new : CString → ℕ → SocketType → Socket
new ip port type = record {
  ip = ip;
  port = port;
  sock_desc = none;
  type = type;
  remote_addr = none;
}

module _ (os : Os) where
  -- The label `error` of `Socket_connect`.
  unfoldable pub connect_error : Socket → Option ℕ → Cmd (Exit × Socket)
  unfolding emit
  connect_error s none = pure (exit_failure, record s { sock_desc = none })
  connect_error s (some fd) = do
    emit (closed fd)
    pure (exit_failure, record s { sock_desc = none })

  -- Binding and naming a datagram socket, or connecting a stream.
  unfoldable pub attach : SocketType → Cmd Bool
  unfolding ask
  attach udp = do bound ← ask os.bind; if bound then ask os.getsockname else pure false
  attach tcp = ask os.connect

  unfoldable pub connected : Socket → ℕ → List (List ℕ) → Cmd (Exit × Socket)
  unfolding attach connect_error
  connected s fd [] = λ w. fault
  connected s fd (addr ∷ more) = do
    attached ← attach s.type
    if attached
        then pure (exit_success, record s { sock_desc = some fd; remote_addr = some addr })
        else connect_error s (some fd)

  unfoldable pub resolved : Socket → ℕ → Option (List (List ℕ)) → Cmd (Exit × Socket)
  unfolding connected
  resolved s fd none = λ w. halted
  resolved s fd (some addrs) = connected s fd addrs

  unfoldable pub opened_as : Socket → Option ℕ → Cmd (Exit × Socket)
  unfolding resolved connect_error ask emit
  opened_as s none = connect_error s none
  opened_as s (some fd) = do emit (opened fd); host ← ask os.gethostbyname; resolved s fd host

  -- `Socket_connect`. A descriptor that the socket holds already is overwritten, not closed.
  unfoldable pub connect : Socket → Cmd (Exit × Socket)
  unfolding opened_as
  connect s = do fd ← ask os.socket; opened_as s fd

  -- `Socket_receive`: at most `read_size` bytes, or none for -1.
  unfoldable pub receive : Socket → ℕ → Cmd (Option (List ℕ))
  unfolding ask
  receive s read_size = elim s.sock_desc [
    | none ↦ λ w. fault
    | some fd ↦ ask (λ now. Option.map (take read_size) (os.recv now))
  ]

  -- `Socket_send`: a call that does not answer -1 counts as sent.
  unfoldable pub send : Socket → List ℕ → Cmd Exit
  unfolding ask emit
  send s message = elim s.sock_desc [
    | none ↦ λ w. fault
    | some fd ↦ do
      done ← ask os.send
      if done then (do emit (sent fd message); pure exit_success) else pure exit_failure
  ]

  -- `Socket_destroy` closes the descriptor that the socket holds.
  unfoldable pub destroy : Socket → Cmd (Unit {0})
  unfolding emit
  destroy s = elim s.sock_desc [ none ↦ pure tt | some fd ↦ emit (closed fd) ]
