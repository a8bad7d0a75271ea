-- ===== src/Tracker/Bounds.antt =====
-- `Tracker_connect` comes to an end, after a bounded number of datagrams.
use uvg_torrent.Base.{
  ℕ, zero, suc, ◌+◌, ◌-◌, ◌%◌, ◌≤◌, ◌<◌, ◌≡◌, refl, Bool, true, ◌&&◌, Option, none, some, List,
  arith, ◌==◌, ltb, inl, inr, Bool-cases, Option-cases, Exit, exit_success, exit_failure,
}
use uvg_torrent.Words.{Host}
use uvg_torrent.Os.{Os, Cmd, World, sent_count, Finishes, Finishes-bind}
use uvg_torrent.Socket
use uvg_torrent.Socket.{Socket}
use uvg_torrent.Socket.Counts.{Sent, connect_quiet, send_one, receive_none}
use uvg_torrent.Tracker.ConnectPacket
use uvg_torrent.Tracker.State.{Tracker, generate_trans_id}
use uvg_torrent.Tracker.Connect.{
  tracker_socket_of, connect_error, check_response, after_receive, after_connect, connect,
}

-- What a call of `connect` leaves in the fields of the tracker.
abbrev pub Kept : Bool → ℕ → Exit → Tracker → Type 0
Kept was id exit_success t = t.connected ≡ true
Kept was id exit_failure t = (t.connected ≡ was) × (t.connection_id ≡ id)

abbrev pub Connected : Bool → ℕ → ℕ → ℕ → Exit × Tracker → World → Type 0
Connected was id max n (e, t) w =
    (t.attempts ≡ 0) × (t.max_attempts ≡ max) × (sent_count w.log ≤ n) × Kept was id e t

module _ (os : Os) (host : Host) where
  packet_send_one :
      (n : ℕ) (p : ConnectPacket.Packet) (s : Socket) (w : World)
      → sent_count w.log ≤ n
      → Finishes (λ r w'. sent_count w'.log ≤ n + 1) (ConnectPacket.send os host p s w)
  unfolding ConnectPacket.send
  packet_send_one n p s w e = send_one os n s p.request.bytes w e

  packet_receive_none :
      (n : ℕ) (p : ConnectPacket.Packet) (s : Socket) (w : World)
      → sent_count w.log ≤ n
      → Finishes (λ r w'. sent_count w'.log ≤ n) (ConnectPacket.receive os host p s w)
  unfolding ConnectPacket.receive
  packet_receive_none n p s w e =
      Finishes-bind (λ r w'. sent_count w'.log ≤ n) (λ r w'. sent_count w'.log ≤ n)
        (Socket.receive os s 2048 w) _ (receive_none os n s 2048 w e) answered
    where
      answered :
          (bytes : Option (List ℕ)) (w' : World)
          → sent_count w'.log ≤ n
          → Finishes (λ r w'. sent_count w'.log ≤ n) (ConnectPacket.answered os host p bytes w')
      answered none w' e' = e'
      answered (some bytes) w' e' = e'

  socket_of_quiet :
      (t : Tracker) (w : World) → Finishes (Sent (sent_count w.log)) (tracker_socket_of os host t w)
  unfolding tracker_socket_of
  socket_of_quiet t w = elim (Option-cases t.tracker_socket) [
    | inr (s, open_socket) ↦ rw open_socket refl
    | inl closed_socket ↦
        rw closed_socket
          (elim (Option-cases t.ip) [ inl no_ip ↦ rw no_ip tt | inr (ip, known) ↦ rw known refl ])
  ]

module _ (os : Os) (host : Host) (was : Bool) (id max : ℕ) where
  -- The fields that `connect` compares with at the end.
  abbrev Same : Tracker → Type 0
  Same t = (t.connected ≡ was) × (t.connection_id ≡ id) × (t.max_attempts ≡ max)

  connect_error-Connected :
      (n : ℕ) (t : Tracker) (w : World)
      → Same t
      → sent_count w.log ≤ n
      → Finishes (Connected was id max n) (connect_error os host t w)
  unfolding connect_error
  connect_error-Connected n t w same e = (refl, same.2, e, (same.0, same.1))

  check_Connected :
      (n : ℕ) (t : Tracker) (r : Option ConnectPacket.Response) (w : World)
      → Same t
      → sent_count w.log ≤ n
      → Finishes (Connected was id max n) (check_response os host t r w)
  unfolding check_response
  check_Connected n t none w same e = tt
  check_Connected n t (some r) w same e =
      elim (Bool-cases (r.action == 0 && t.last_transaction_id == r.transaction_id)) [
        | inl good ↦ rw good (refl, same.2, e, refl)
        | inr bad ↦ rw bad (connect_error-Connected n t w same e)
      ]

  -- What one call may still send: its own datagram and one for each attempt left.
  abbrev budget : Tracker → ℕ
  budget t = t.max_attempts - t.attempts + 1

  abbrev Keeps : ℕ → (Tracker → Cmd (Exit × Tracker)) → Type 0
  Keeps fuel again =
      (n : ℕ) (t : Tracker) (w : World)
      → Same t
      → t.max_attempts - t.attempts < fuel
      → sent_count w.log + budget t ≤ n
      → Finishes (Connected was id max n) (again t w)

  module _ (fuel : ℕ) (again : Tracker → Cmd (Exit × Tracker)) (keeps : Keeps fuel again) where
    after_receive-Connected :
        (n : ℕ) (t : Tracker) (r : Exit) (p : ConnectPacket.Packet) (w : World)
        → Same t
        → t.max_attempts - t.attempts < suc fuel
        → sent_count w.log + (t.max_attempts - t.attempts) ≤ n
        → Finishes (Connected was id max n) (after_receive os host again t r p w)
    unfolding after_receive
    after_receive-Connected n t exit_success p w same left e =
        check_Connected n t p.response w same (omega arith)
    after_receive-Connected n t exit_failure p w same left e =
        elim (Bool-cases (ltb t.attempts t.max_attempts)) [
          | inl more ↦ rw more (
              keeps n (record t { attempts = t.attempts + 1 }) w same (ground arith) (ground arith))
          | inr last ↦ rw last (connect_error-Connected n t w same (omega arith))
        ]

    after_connect-Connected :
        (n : ℕ) (t : Tracker) (s : Socket) (r : Exit) (w : World)
        → Same t
        → t.max_attempts - t.attempts < suc fuel
        → sent_count w.log + budget t ≤ n
        → Finishes (Connected was id max n) (after_connect os host again t s r w)
    unfolding after_connect generate_trans_id
    after_connect-Connected n t s exit_failure w same left e =
        connect_error-Connected n t w same (omega arith)
    after_connect-Connected n t s exit_success w same left e =
        let k = sent_count w.log in
        let id' = os.rand w.now % 1000000 in
        let u : Tracker = record t { last_transaction_id = id' } in
        let packet = ConnectPacket.packet_init host id' in
        let w₁ : World = record w { now = w.now + 1 } in
        Finishes-bind (λ r w'. sent_count w'.log ≤ k + 1) (Connected was id max n)
          (ConnectPacket.send os host packet s w₁) _
          (packet_send_one os host k packet s w₁ (omega arith))
          λ ignored w₂ e₂.
            Finishes-bind (λ r w'. sent_count w'.log ≤ k + 1) (Connected was id max n)
              (ConnectPacket.receive os host packet s w₂) _
              (packet_receive_none os host (k + 1) packet s w₂ e₂)
              λ r w₃ e₃. after_receive-Connected n u r.0 r.1 w₃ same left (omega arith)

  connect_Keeps : (fuel : ℕ) → Keeps fuel (connect os host fuel)
  unfolding connect
  connect_Keeps zero n t w same left e = absurd (omega arith)
  connect_Keeps (suc fuel) n t w same left e =
      Finishes-bind (Sent (sent_count w.log)) (Connected was id max n)
        (tracker_socket_of os host t w) _ (socket_of_quiet os host t w)
        λ s w₁ e₁.
          Finishes-bind (Sent (sent_count w.log)) (Connected was id max n) (Socket.connect os s w₁)
            _ (connect_quiet os (sent_count w.log) s w₁ e₁)
            λ r w₂ e₂.
              after_connect-Connected fuel (connect os host fuel) (connect_Keeps fuel) n
                (record t { tracker_socket = some r.1 }) r.1 r.0 w₂ same left (omega arith)

-- With fuel for the attempts left, `connect` does not run out of it. When it returns, the attempts are reset, at most one datagram
-- for each attempt left and one more have been sent; success means that the tracker is connected,
-- and failure leaves the connection as it was.
pub connect-Connected :
    (os : Os) (host : Host) (fuel : ℕ) (t : Tracker) (w : World)
    → t.max_attempts - t.attempts < fuel
    → Finishes
        (Connected t.connected t.connection_id t.max_attempts
          (sent_count w.log + (t.max_attempts - t.attempts + 1)))
        (connect os host fuel t w)
connect-Connected os host fuel t w enough =
    connect_Keeps os host t.connected t.connection_id t.max_attempts fuel _ t w (refl, refl, refl)
      enough (omega arith)
