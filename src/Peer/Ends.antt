-- ===== src/Peer/Ends.antt =====
-- The contact with a peer that goes on sending comes to an end.
mod Parsing
mod Reading
pub use Reading.{IsTalking}
use uvg_torrent.Base.{
  ℕ, zero, suc, ◌+◌, ◌^◌, ◌<◌, ◌||◌, Option, none, some, List, [], ◌∷◌, ◌++◌, take, length, ◌==◌,
  ltb, leb, if◌then◌else◌, Run, ok, fault, halted, out_of_fuel, ◌≡◌, refl, Exit, exit_success,
  exit_failure,
}
use uvg_torrent.Libc.{CString}
use uvg_torrent.Words.{Host}
use uvg_torrent.Os.{Os, Cmd, World, pure, ◌>>=◌, lift, Finishes, Finishes-bind}
use uvg_torrent.Os.Ends.{Any, Ends, lift-Ends, Ends-bind, Ends-if, Any-bind, Any-if}
use uvg_torrent.Socket
use uvg_torrent.Peer
use uvg_torrent.Peer.{Peer, Layout, our_peer_id, array_size, rounds}
use uvg_torrent.Peer.Stream.{buffer_size}
use uvg_torrent.Peer.Handshake
use uvg_torrent.Peer.ExtendedHandshake
use uvg_torrent.Peer.Metadata
use uvg_torrent.Peer.RequestPiece
use uvg_torrent.Peer.Session.{
  handshake_sent, handshake_connected, handshake, take_over, extended_received, extended_sent,
  extended_handshake, keep_piece, piece_sent, get_pieces, pieces_received, get_in_array, get_with,
  get_metadata, piece_requested, get_piece, fetch, after_extended, after_handshake, contact,
}
use uvg_torrent.Peer.Files.{show_metadata}
use uvg_torrent.Bencode.{Reader}
use uvg_torrent.Tracker.Ends.{ContactEnds}
use Parsing.{handshake-Ends, extended_answered-Ends, metadata-Ends, metadata_answered-Ends}
use Reading.{send-Any, receive-Any, connect-Any, receive_message-Any}

-- The bytes are what some peer answers, at some time, to the requests for its pieces.
abbrev pub Collected : Os → Host → Layout → ℕ → List ℕ → Type 0
Collected os host layout fuel bytes =
    (this : Peer) × (n : ℕ) × (ut : ℕ) × (room : ℕ) × (w : World) × (w' : World) × (get_pieces os
        host layout fuel n this ut 0 room [] w
      ≡ ok (some bytes, w'))

-- What such metadata holds is shown, or refused, without an endless recursion.
abbrev pub ShowsEnd : Os → Reader → Layout → Host → ℕ → Type 0
ShowsEnd os reader layout host fuel =
    (bytes : List ℕ)
    → Collected os host layout fuel bytes
    → Ends (show_metadata reader layout host fuel bytes)

-- What a run that comes to an end answers is its answer.
Finishes-itself :
    {A : Type 0} (r : Run (A × World)) → Finishes Any r → Finishes (λ a w. r ≡ ok (a, w)) r
Finishes-itself (ok (a, w)) h = refl
Finishes-itself fault h = tt
Finishes-itself halted h = tt
Finishes-itself out_of_fuel h = h

module _ (os : Os) (host : Host) (layout : Layout) where
  handshake_sent-Any :
      (this : Peer) (p : Handshake.Packet) (e : Exit) (w : World)
      → Finishes Any (handshake_sent os host layout this p e w)
  unfolding handshake_sent Handshake.receive
  handshake_sent-Any this p exit_failure w = tt
  handshake_sent-Any this p exit_success w =
      Any-bind (Handshake.receive os p this.socket w) _
        (Any-bind (Socket.receive os this.socket 2048 w) _ (receive-Any os this.socket 2048 w)
          λ out w'. tt)
        λ ignored w'. tt

  handshake_connected-Any :
      (this : Peer) (info_hash : CString) (e : Exit) (w : World)
      → Finishes Any (handshake_connected os host layout this info_hash e w)
  unfolding handshake_connected Handshake.send
  handshake_connected-Any this info_hash exit_failure w = tt
  handshake_connected-Any this info_hash exit_success w =
      Any-bind _ _
        (lift-Ends _ w (
          handshake-Ends layout.handshake (λ i. os.stack w.now (100 + i)) (os.stack w.now)
            info_hash))
        λ packet w₁.
          Any-bind _ _ (send-Any os this.socket packet.request.bytes w₁)
            λ result w₂. handshake_sent-Any this packet result w₂

  handshake-Any :
      (this : Peer) (info_hash : CString) (w : World)
      → Finishes Any (handshake os host layout this info_hash w)
  unfolding handshake
  handshake-Any this info_hash w =
      Any-bind (Socket.connect os this.socket w) _ (connect-Any os this.socket w)
        λ r w'. handshake_connected-Any (record this { socket = r.1 }) info_hash r.0 w'

  take_over-Ends :
      (this : Peer) (r : Option ExtendedHandshake.Response) → Ends (take_over os host layout this r)
  unfolding take_over
  take_over-Ends this none = tt
  take_over-Ends this (some response) = Ends-if (response.metadata_size == 0) _ _ tt tt

  extended_received-Ends :
      (this : Peer) (e : Exit) (p : ExtendedHandshake.Packet)
      → Ends (extended_received os host layout this e p)
  unfolding extended_received
  extended_received-Ends this exit_failure p = tt
  extended_received-Ends this exit_success p = take_over-Ends this p.response

  extended_sent-Any :
      (this : Peer) (p : ExtendedHandshake.Packet) (e : Exit) (w : World)
      → Finishes Any (extended_sent os host layout this p e w)
  unfolding extended_sent ExtendedHandshake.receive
  extended_sent-Any this p exit_failure w = tt
  extended_sent-Any this p exit_success w =
      Any-bind (ExtendedHandshake.receive os p this.socket w) _
        (Any-bind (Socket.receive os this.socket 2048 w) _ (receive-Any os this.socket 2048 w)
          λ out w'. lift-Ends _ w' (extended_answered-Ends (os.frame w.now) (os.stack w.now) p out))
        λ r w'. lift-Ends _ w' (extended_received-Ends this r.0 r.1)

  extended_handshake-Any :
      (this : Peer) (w : World) → Finishes Any (extended_handshake os host layout this w)
  unfolding extended_handshake ExtendedHandshake.send
  extended_handshake-Any this w =
      let packet = ExtendedHandshake.packet_init host in
      Any-bind _ _ (send-Any os this.socket packet.request.bytes w)
        λ result w'. extended_sent-Any this packet result w'

  module _ (fuel : ℕ) (talking : IsTalking os) (enough : buffer_size < fuel + 4) where
    abbrev NextEnds : (List ℕ → Cmd (Option (List ℕ))) → Type 0
    NextEnds next = (meta_data : List ℕ) (w : World) → Finishes Any (next meta_data w)

    keep_piece-Any :
        (next : List ℕ → Cmd (Option (List ℕ))) (room : ℕ) (meta_data : List ℕ) (e : Exit)
        (r : Option Metadata.Response) (w : World)
        → NextEnds next
        → Finishes Any (keep_piece os host layout fuel next room meta_data e r w)
    unfolding keep_piece
    keep_piece-Any next room meta_data exit_failure r w ends = tt
    keep_piece-Any next room meta_data exit_success none w ends = tt
    keep_piece-Any next room meta_data exit_success (some r) w ends =
        Any-if (ltb room (length meta_data + r.response_len)) _ _ w tt (ends _ w)

    piece_sent-Any :
        (next : List ℕ → Cmd (Option (List ℕ))) (this : Peer) (room : ℕ) (meta_data : List ℕ)
        (p : Metadata.Packet) (e : Exit) (w : World)
        → NextEnds next
        → Finishes Any (piece_sent os host layout fuel next this room meta_data p e w)
    unfolding piece_sent Metadata.receive
    piece_sent-Any next this room meta_data p exit_failure w ends = ends meta_data w
    piece_sent-Any next this room meta_data p exit_success w ends =
        Any-bind (Metadata.receive os host fuel p this.socket w) _
          (Any-bind _ _ (receive_message-Any os host fuel this.socket w talking enough)
            λ message w'.
              lift-Ends _ w'
                (metadata_answered-Ends host (os.frame w.now) (os.stack w.now) p message))
          λ r w'. keep_piece-Any next room meta_data r.0 r.1.response w' ends

    get_pieces-Any :
        (n : ℕ) (this : Peer) (ut piece room : ℕ)
        → NextEnds (get_pieces os host layout fuel n this ut piece room)
    unfolding get_pieces Metadata.send
    get_pieces-Any zero this ut piece room meta_data w = tt
    get_pieces-Any (suc n) this ut piece room meta_data w =
        Any-bind _ _
          (lift-Ends _ w
            (metadata-Ends host layout.metadata (λ i. os.stack w.now (100 + i)) piece ut))
          λ packet w₁. Any-bind _ _ (send-Any os this.socket packet.request.bytes w₁) λ result w₂.
            piece_sent-Any (get_pieces os host layout fuel n this ut (piece + 1) room) this room
              meta_data packet result w₂ (get_pieces-Any n this ut (piece + 1) room)

    piece_requested-Any :
        (this : Peer) (p : RequestPiece.Packet) (e : Exit) (w : World)
        → Finishes Any (piece_requested os host layout fuel this p e w)
    unfolding piece_requested RequestPiece.receive
    piece_requested-Any this p exit_failure w = tt
    piece_requested-Any this p exit_success w =
        Any-bind (RequestPiece.receive os host fuel p this.socket w) _
          (Any-bind _ _ (receive_message-Any os host fuel this.socket w talking enough)
            λ message w'. tt)
          λ r w'. tt

    get_piece-Any :
        (this : Peer) (piece : ℕ) (w : World)
        → Finishes Any (get_piece os host layout fuel this piece w)
    unfolding get_piece RequestPiece.send
    get_piece-Any this piece w =
        let packet = RequestPiece.packet_init host 0 32 (b't' ∷ b'e' ∷ b's' ∷ b't' ∷ []) in
        Any-bind _ _ (send-Any os this.socket packet.request.bytes w)
          λ result w'. piece_requested-Any this packet result w'

    module _ (reader : Reader) (shows : ShowsEnd os reader layout host fuel) where
      pieces_received-Ends :
          (this : Peer) (n ut room : ℕ) (w w' : World) (pieces : Option (List ℕ))
          → get_pieces os host layout fuel n this ut 0 room [] w ≡ ok (pieces, w')
          → Ends (pieces_received os host layout fuel reader room pieces)
      unfolding pieces_received
      pieces_received-Ends this n ut room w w' none got = tt
      pieces_received-Ends this n ut room w w' (some meta_data) got =
          Ends-if (leb room (length meta_data + 1)) fault _ tt (
            Ends-bind (show_metadata reader layout host fuel meta_data) _
              (shows meta_data (this, n, ut, room, w, w', got)) λ shown. tt)

      get_in_array-Any :
          (this : Peer) (ut pieces : ℕ) (room : Option ℕ) (w : World)
          → Finishes Any (get_in_array os host layout fuel reader this ut pieces room w)
      unfolding get_in_array
      get_in_array-Any this ut pieces none w = tt
      get_in_array-Any this ut pieces (some room) w =
          let asked = get_pieces os host layout fuel (rounds pieces) this ut 0 room [] w in
          Finishes-bind (λ got w'. asked ≡ ok (got, w')) Any asked _
            (Finishes-itself asked (get_pieces-Any (rounds pieces) this ut 0 room [] w))
            λ got w' same.
              lift-Ends _ w' (pieces_received-Ends this (rounds pieces) ut room w w' got same)

      get_with-Any :
          (this : Peer) (size : ℕ) (ut pieces : Option ℕ) (w : World)
          → Finishes Any (get_with os host layout fuel reader this size ut pieces w)
      unfolding get_with
      get_with-Any this size (some ut) (some pieces) w =
          get_in_array-Any this ut pieces (array_size size pieces) w
      get_with-Any this size none pieces w = tt
      get_with-Any this size (some ut) none w = tt

      fetch-Any :
          (this : Peer) (size : Option ℕ) (w : World)
          → Finishes Any (fetch os host layout fuel reader this size w)
      unfolding fetch get_metadata
      fetch-Any this none w = tt
      fetch-Any this (some size) w =
          Any-if (leb (2 ^ 31) size) _ _ w tt
            (get_with-Any this size this.ut_metadata this.num_pieces w)

      after_extended-Any :
          (r : Exit × Peer) (w : World)
          → Finishes Any (after_extended os host layout fuel reader r w)
      unfolding after_extended
      after_extended-Any (exit_failure, peer) w = tt
      after_extended-Any (exit_success, peer) w =
          Any-bind _ _ (fetch-Any peer peer.metadata_size w) λ ignored w'. tt

      after_handshake-Any :
          (r : Exit × Peer) (w : World)
          → Finishes Any (after_handshake os host layout fuel reader r w)
      unfolding after_handshake
      after_handshake-Any (exit_failure, peer) w = tt
      after_handshake-Any (exit_success, peer) w =
          Any-bind _ _ (extended_handshake-Any peer w) λ r w'. after_extended-Any r w'

-- With fuel for the bytes that the buffer holds, the whole contact with a peer of the response comes to
-- an end if every read gives something, as the buffer runs full at the latest, and if the showing of
-- the metadata that peers answer ends. It may end in a fault.
pub contact-ContactEnds :
    (os : Os) (host : Host) (layout : Layout) (fuel : ℕ) (reader : Reader)
    → IsTalking os
    → buffer_size < fuel + 4
    → ShowsEnd os reader layout host fuel
    → ContactEnds (contact os host layout fuel reader)
unfolding contact
contact-ContactEnds os host layout fuel reader talking enough shows text address w =
    Any-bind _ _ (handshake-Any os host layout (Peer.new address.ip address.port) text w) λ r w₁.
      Any-bind _ _ (after_handshake-Any os host layout fuel talking enough reader shows r w₁)
        λ done w₂.
          Any-bind _ _ (get_piece-Any os host layout fuel talking enough r.1 0 w₂) λ ignored w₃. tt
