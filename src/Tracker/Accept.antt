-- ===== src/Tracker/Accept.antt =====
-- What `Tracker_connect` makes of the datagram that comes back.
use uvg_torrent.Base.{
  ℕ, ◌-◌, ◌^◌, ◌<◌, ◌≡◌, refl, ap, ◌∙◌, true, ◌&&◌, Option, some, List, ◌++◌, ◌==◌, inl, inr,
  Bool-cases, if◌then◌else◌, ok, Exit, exit_success, exit_failure, length, regroup,
}
use uvg_torrent.Words.{Host, store, store_be}
use uvg_torrent.Os.{Os, Cmd, World, ◌>>=◌, uninitialised, received_into}
use uvg_torrent.Tracker.ConnectPacket
use uvg_torrent.Tracker.Layout.{connect_response_decode}
use uvg_torrent.Tracker.State.{Tracker}
use uvg_torrent.Tracker.Connect.{after_receive, check_response, connect_error}

-- A connect response of the protocol: the action, the transaction id, the connection id.
abbrev pub connect_response : Host → ℕ → ℕ → ℕ → List ℕ
connect_response host action tid connection_id =
    store_be 4 action ++ (store host 4 tid ++ store_be 8 connection_id)

module _ (os : Os) (host : Host) where
  -- A full response is decoded whatever the rest of the buffer holds.
  response-received :
      (action tid connection_id n : ℕ) (garbage : ℕ → ℕ)
      → action < 2 ^ 32
      → tid < 2 ^ 32
      → connection_id < 2 ^ 64
      → ConnectPacket.response_init host
          (received_into garbage n (connect_response host action tid connection_id))
        ≡ record { action = action; transaction_id = tid; connection_id = connection_id }
  unfolding received_into
  response-received action tid connection_id n garbage a t c =
      let bytes = connect_response host action tid connection_id in
      let tail = uninitialised garbage (length bytes) (n - length bytes) in
      ap (ConnectPacket.response_init host)
        (regroup (store_be 4 action) (store host 4 tid) (store_be 8 connection_id) tail)
      ∙ connect_response_decode host action tid connection_id tail a t c

  -- From the datagram to the tracker: what `connect` does once its request is out.
  unfoldable pub read_answer :
      (Tracker → Cmd (Exit × Tracker))
      → Tracker
      → ConnectPacket.Packet
      → Option (List ℕ)
      → Cmd (Exit × Tracker)
  unfolding ConnectPacket.answered
  read_answer again t packet bytes = do
    (result, received) ← ConnectPacket.answered os host packet bytes
    after_receive os host again t result received

-- Numbers that fit their fields given, a tracker accepts a connect response exactly if its action is 0 and it echoes the transaction id
-- sent last. Then it is connected under the connection id of the response; otherwise the call fails
-- and the connection is left as it was. The attempts are reset either way.
pub read_answer-response :
    (os : Os) (host : Host) (again : Tracker → Cmd (Exit × Tracker)) (t : Tracker)
    (packet : ConnectPacket.Packet) (action tid connection_id : ℕ) (w : World)
    → action < 2 ^ 32
    → tid < 2 ^ 32
    → connection_id < 2 ^ 64
    → read_answer os host again t packet (some (connect_response host action tid connection_id)) w
      ≡ (if action == 0 && t.last_transaction_id == tid
          then ok (
            (
              exit_success,
              record t { connected = true; attempts = 0; connection_id = connection_id },
            ),
            w,
          )
          else ok ((exit_failure, record t { attempts = 0 }), w))
unfolding read_answer ConnectPacket.answered after_receive check_response connect_error
read_answer-response os host again t packet action tid connection_id w a b c =
    ap (λ r. after_receive os host again t exit_success (record packet { response = some r }) w)
      (response-received os host action tid connection_id 2048 (os.stack w.now) a b c)
    ∙ elim (Bool-cases (action == 0 && t.last_transaction_id == tid)) [
      | inl good ↦ rw good refl
      | inr bad ↦ rw bad refl
    ]
