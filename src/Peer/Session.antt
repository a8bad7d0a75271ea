-- ===== src/Peer/Session.antt =====
-- The four operations of peer/peer.c, and the loop body of `Tracker_announce` (tracker/tracker.c)
-- that goes through them with a peer. The reader of bencoded text is an argument.
use uvg_torrent.Base.{
  ℕ, zero, suc, ◌+◌, ◌-◌, ◌*◌, ◌^◌, Bool, true, false, ◌||◌, Option, none, some, List, [], ◌∷◌,
  ◌++◌, take, length, ◌==◌, ltb, leb, if◌then◌else◌, Run, ok, fault, Exit, exit_success,
  exit_failure,
}
use uvg_torrent.Base
use uvg_torrent.Libc.{CString}
use uvg_torrent.Words.{Host}
use uvg_torrent.Os.{Os, Cmd, pure, ◌>>=◌, lift}
use uvg_torrent.Socket
use uvg_torrent.Peer
use uvg_torrent.Peer.{Peer, Layout, our_peer_id, array_size, rounds}
use uvg_torrent.Peer.Handshake
use uvg_torrent.Peer.ExtendedHandshake
use uvg_torrent.Peer.Metadata
use uvg_torrent.Peer.RequestPiece
use uvg_torrent.Peer.Files
use uvg_torrent.Bencode.{Reader}
use uvg_torrent.Tracker.AnnouncePacket.{PeerAddress}

module _ (os : Os) (host : Host) (layout : Layout) where
  -- Once the request is sent, the handshake counts as done: whether `receive` failed is printed only.
  unfoldable pub handshake_sent : Peer → Handshake.Packet → Exit → Cmd (Exit × Peer)
  handshake_sent this packet exit_failure = pure (exit_failure, this)
  handshake_sent this packet exit_success = do
    ignored ← Handshake.receive os packet this.socket
    pure (exit_success, this)

  unfoldable pub handshake_connected : Peer → CString → Exit → Cmd (Exit × Peer)
  unfolding handshake_sent
  handshake_connected this info_hash exit_failure = pure (exit_failure, this)
  handshake_connected this info_hash exit_success = λ w.
      (do
        packet ← lift (
            Handshake.packet_init layout.handshake (λ i. os.stack w.now (100 + i)) (os.stack w.now)
              info_hash our_peer_id)
        result ← Handshake.send os packet this.socket
        handshake_sent this packet result)
        w

  unfoldable pub handshake : Peer → CString → Cmd (Exit × Peer)
  unfolding handshake_connected
  handshake this info_hash = do
    (result, socket) ← Socket.connect os this.socket
    handshake_connected (record this { socket = socket }) info_hash result

  -- What the response says, if its metadata is not empty.
  unfoldable pub take_over : Peer → Option ExtendedHandshake.Response → Run (Exit × Peer)
  take_over this none = fault
  take_over this (some response) =
      if response.metadata_size == 0
      then ok (exit_failure, this)
      else ok (
        exit_success,
        record this {
          ut_metadata = some response.ut_metadata;
          metadata_size = some response.metadata_size;
          num_pieces = response.num_pieces;
          piece_size = response.piece_size;
        },
      )

  unfoldable pub extended_received : Peer → Exit → ExtendedHandshake.Packet → Run (Exit × Peer)
  unfolding take_over
  extended_received this exit_failure packet = ok (exit_failure, this)
  extended_received this exit_success packet = take_over this packet.response

  unfoldable pub extended_sent : Peer → ExtendedHandshake.Packet → Exit → Cmd (Exit × Peer)
  unfolding extended_received
  extended_sent this packet exit_failure = pure (exit_failure, this)
  extended_sent this packet exit_success = do
    (result, received) ← ExtendedHandshake.receive os packet this.socket
    lift (extended_received this result received)

  unfoldable pub extended_handshake : Peer → Cmd (Exit × Peer)
  unfolding extended_sent
  extended_handshake this = do
    let packet = ExtendedHandshake.packet_init host
    result ← ExtendedHandshake.send os packet this.socket
    extended_sent this packet result

  module _ (fuel : ℕ) where
    -- A piece that came is copied behind `meta_data`, an array of `room` bytes. The number of bytes
    -- is `response_len`. A piece that did not come ends the loop with none.
    unfoldable pub keep_piece :
        (List ℕ → Cmd (Option (List ℕ)))
        → ℕ
        → List ℕ
        → Exit
        → Option Metadata.Response
        → Cmd (Option (List ℕ))
    keep_piece next room meta_data exit_failure response = pure none
    keep_piece next room meta_data exit_success none = λ w. fault
    keep_piece next room meta_data exit_success (some response) =
        if ltb room (length meta_data + response.response_len)
        then (λ w. fault)
        else next (meta_data ++ take response.response_len response.response)

    -- A request that is not sent is passed over.
    unfoldable pub piece_sent :
        (List ℕ → Cmd (Option (List ℕ)))
        → Peer
        → ℕ
        → List ℕ
        → Metadata.Packet
        → Exit
        → Cmd (Option (List ℕ))
    unfolding keep_piece
    piece_sent next this room meta_data packet exit_failure = next meta_data
    piece_sent next this room meta_data packet exit_success = do
      (result, received) ← Metadata.receive os host fuel packet this.socket
      keep_piece next room meta_data result received.response

    -- The loop over the pieces, `n` of them from `piece` on.
    unfoldable pub get_pieces :
        ℕ → Peer → (ut_metadata piece room : ℕ) → List ℕ → Cmd (Option (List ℕ))
    unfolding piece_sent
    get_pieces zero this ut_metadata piece room meta_data = pure (some meta_data)
    get_pieces (suc n) this ut_metadata piece room meta_data = λ w.
        (do
          packet ← lift (
              Metadata.packet_init host layout.metadata (λ i. os.stack w.now (100 + i)) piece
                ut_metadata)
          result ← Metadata.send os host fuel packet this.socket
          piece_sent (get_pieces n this ut_metadata (piece + 1) room) this room meta_data packet
              result)
          w

    module _ (reader : Reader) where
      -- `meta_data[metadata_pos+1] = '\0'`, and the files.
      unfoldable pub pieces_received : ℕ → Option (List ℕ) → Run Exit
      unfolding Files.show_metadata
      pieces_received room none = ok exit_failure
      pieces_received room (some meta_data) =
          if leb room (length meta_data + 1)
          then fault
          else (Base.◌>>=◌ (Files.show_metadata reader layout host fuel meta_data)
              λ shown. ok exit_success)

      unfoldable pub get_in_array : Peer → (ut_metadata num_pieces : ℕ) → Option ℕ → Cmd Exit
      unfolding get_pieces pieces_received rounds
      get_in_array this ut_metadata num_pieces none = λ w. fault
      get_in_array this ut_metadata num_pieces (some room) = do
        pieces ← get_pieces (rounds num_pieces) this ut_metadata 0 room []
        lift (pieces_received room pieces)

      -- The fields that are read must have been set.
      unfoldable pub get_with : Peer → ℕ → Option ℕ → Option ℕ → Cmd Exit
      unfolding get_in_array array_size
      get_with this metadata_size (some ut_metadata) (some num_pieces) =
          get_in_array this ut_metadata num_pieces (array_size metadata_size num_pieces)
      get_with this metadata_size none num_pieces = λ w. fault
      get_with this metadata_size (some ut_metadata) none = λ w. fault

      unfoldable pub get_metadata : Peer → ℕ → Cmd Exit
      unfolding get_with
      get_metadata this metadata_size = get_with this metadata_size this.ut_metadata this.num_pieces

    unfoldable pub piece_requested : Peer → RequestPiece.Packet → Exit → Cmd Exit
    piece_requested this packet exit_failure = pure exit_failure
    piece_requested this packet exit_success = do
      (result, received) ← RequestPiece.receive os host fuel packet this.socket
      pure result

    -- "test".
    unfoldable pub get_piece : Peer → ℕ → Cmd Exit
    unfolding piece_requested
    get_piece this piece = do
      let packet = RequestPiece.packet_init host 0 32 (b't' ∷ b'e' ∷ b's' ∷ b't' ∷ [])
      result ← RequestPiece.send os host fuel packet this.socket
      piece_requested this packet result

    module _ (reader : Reader) where
      -- `char metadata[peer->metadata_size]`: its size must not be negative.
      unfoldable pub fetch : Peer → Option ℕ → Cmd Exit
      unfolding get_metadata
      fetch peer none = λ w. fault
      fetch peer (some metadata_size) =
          if leb (2 ^ 31) metadata_size
          then (λ w. fault)
          else get_metadata reader peer metadata_size

      unfoldable pub after_extended : Exit × Peer → Cmd (Unit {0})
      unfolding fetch
      after_extended (exit_failure, peer) = pure tt
      after_extended (exit_success, peer) = do ignored ← fetch peer peer.metadata_size; pure tt

      unfoldable pub after_handshake : Exit × Peer → Cmd (Unit {0})
      unfolding after_extended
      after_handshake (exit_failure, peer) = pure tt
      after_handshake (exit_success, peer) = extended_handshake peer >>= after_extended

      -- The piece is asked for whatever came before. The answer is the peer, with its socket as it is
      -- then.
      unfoldable pub contact : CString → PeerAddress → Cmd Peer
      unfolding after_handshake get_piece
      contact info_hash address = do
        (result, peer) ← handshake (Peer.new address.ip address.port) info_hash
        done ← after_handshake (result, peer)
        ignored ← get_piece peer 0
        pure peer
