-- ===== src/Tracker/Connect.antt =====
-- `Tracker_connect` of tracker/tracker.c. It calls itself when no response comes; each such call
-- has one attempt less to go, which bounds the fuel. What it prints is left out.
use uvg_torrent.Base.{
  ℕ, zero, suc, ◌+◌, true, ◌&&◌, Option, none, some, ◌==◌, ltb, if◌then◌else◌, fault, out_of_fuel,
  Exit, exit_success, exit_failure,
}
use uvg_torrent.Libc.{atoi}
use uvg_torrent.Words.{Host}
use uvg_torrent.Os.{Os, Cmd, pure, ◌>>=◌}
use uvg_torrent.Socket
use uvg_torrent.Socket.{Socket, udp}
use uvg_torrent.Tracker.ConnectPacket
use uvg_torrent.Tracker.ConnectPacket.{Packet, Response, packet_init}
use uvg_torrent.Tracker.State.{Tracker, generate_trans_id}

module _ (os : Os) (host : Host) where
  -- The tracker's socket, made when it is NULL. `Socket_new` copies the address.
  unfoldable pub tracker_socket_of : Tracker → Cmd Socket
  tracker_socket_of this = elim this.tracker_socket [
    | some s ↦ pure s
    | none ↦ elim this.ip [
      | none ↦ λ w. fault
      | some ip ↦ pure (Socket.new ip (atoi this.port) udp)
    ]
  ]

  -- The label `error`.
  unfoldable pub connect_error : Tracker → Cmd (Exit × Tracker)
  connect_error this = pure (exit_failure, record this { attempts = 0 })

  unfoldable pub check_response : Tracker → Option Response → Cmd (Exit × Tracker)
  unfolding connect_error
  check_response this none = λ w. fault
  check_response this (some response) =
      if response.action == 0 && this.last_transaction_id == response.transaction_id
      then pure (
        exit_success,
        record this { connected = true; attempts = 0; connection_id = response.connection_id },
      )
      else connect_error this

  -- After `receive`: `again` is the call of `connect` that a lost response leads to.
  unfoldable pub after_receive :
      (Tracker → Cmd (Exit × Tracker)) → Tracker → Exit → Packet → Cmd (Exit × Tracker)
  unfolding check_response connect_error
  after_receive again this exit_success packet = check_response this packet.response
  after_receive again this exit_failure packet =
      if ltb this.attempts this.max_attempts
      then again (record this { attempts = this.attempts + 1 })
      else connect_error this

  unfoldable pub after_connect :
      (Tracker → Cmd (Exit × Tracker)) → Tracker → Socket → Exit → Cmd (Exit × Tracker)
  unfolding after_receive
  after_connect again this s exit_failure = connect_error this
  after_connect again this s exit_success = do
    drawn ← generate_trans_id os this
    let packet = packet_init host drawn.last_transaction_id
    ignored ← ConnectPacket.send os host packet s
    (result, received) ← ConnectPacket.receive os host packet s
    after_receive again drawn result received

  unfoldable pub connect : ℕ → Tracker → Cmd (Exit × Tracker)
  unfolding tracker_socket_of after_connect
  connect zero this = λ w. out_of_fuel
  connect (suc fuel) this = do
    s ← tracker_socket_of this
    (result, s') ← Socket.connect os s
    after_connect (connect fuel) (record this { tracker_socket = some s' }) s' result
