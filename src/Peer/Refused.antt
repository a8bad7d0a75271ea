-- ===== src/Peer/Refused.antt =====
-- Where the contact with a peer leaves the memory that it owns.
use native.Mathlib.Nat.{mul-zero}
use uvg_torrent.Base.{
  ℕ, ◌+◌, ◌/◌, ◌^◌, ◌<◌, ◌≤◌, ◌≡◌, refl, ap, ap₂, ◌∙◌, true, false, some, List, [], ◌∷◌, ◌++◌, ok,
  fault, arith, lt→ltb, length, drop, ◌==◌, exit_success,
}
use uvg_torrent.Libc.{CString}
use uvg_torrent.Words.{Host}
use uvg_torrent.Os.{Os, World, received_into, sent, ask, emit}
use uvg_torrent.Socket
use uvg_torrent.Peer
use uvg_torrent.Peer.{Peer, Layout, array_size, rounds}
use uvg_torrent.Peer.RequestPiece
use uvg_torrent.Peer.ExtendedHandshake
use uvg_torrent.Peer.ExtendedHandshake.{metadata_size_key, ut_metadata_key}
use uvg_torrent.Peer.Numbers.{IsShown, response_init-numbers}
use uvg_torrent.Peer.Reassembly.{take_short}
use uvg_torrent.Peer.Fetch.{send_sent, gt→leb}
use uvg_torrent.Bencode.{Reader}
use uvg_torrent.Peer.Session.{
  handshake_connected, handshake, get_pieces, pieces_received, get_in_array, get_with, get_metadata,
  get_piece, after_handshake, contact, take_over, extended_received, extended_sent,
  extended_handshake, fetch, after_extended,
}
use uvg_torrent.Tracker.AnnouncePacket.{PeerAddress}

-- A peer that refuses the connection ends the program: the socket is closed and its descriptor set to
-- NULL, and the request for a piece, which follows in any case, reads through it. The socket could be
-- opened and the address of the peer resolved.
pub contact_refused :
    (os : Os) (host : Host) (layout : Layout) (fuel : ℕ) (reader : Reader) (text : CString)
    (address : PeerAddress) (fd : ℕ) (addr : List ℕ) (more : List (List ℕ)) (w : World)
    → os.socket w.now ≡ some fd
    → os.gethostbyname (w.now + 1) ≡ some (addr ∷ more)
    → os.connect (w.now + 1 + 1) ≡ false
    → contact os host layout fuel reader text address w ≡ fault
unfolding contact handshake handshake_connected after_handshake get_piece RequestPiece.send Peer.new
    Socket.new Socket.connect Socket.opened_as Socket.resolved Socket.connected Socket.attach
    Socket.connect_error Socket.send ask emit
contact_refused os host layout fuel reader text address fd addr more w opens resolves refused =
    rw (opens, resolves, refused) refl

-- Without pieces there is no room for the zero that is written behind them.
get_metadata_no_room :
    (os : Os) (host : Host) (layout : Layout) (fuel : ℕ) (reader : Reader) (peer : Peer) (ut m : ℕ)
    (w : World)
    → peer.ut_metadata ≡ some ut
    → peer.num_pieces ≡ some 0
    → m < 2 ^ 31
    → get_metadata os host layout fuel reader peer m w ≡ fault
unfolding get_metadata get_with get_in_array get_pieces pieces_received array_size rounds
get_metadata_no_room os host layout fuel reader peer ut m w known counted fits =
    let no_room : array_size m 0 ≡ some 0 = rw (lt→ltb m (2 ^ 31) fits, mul-zero m) refl in
    ap₂ (λ u n. get_with os host layout fuel reader peer m u n w) known counted
    ∙ ap (λ room. get_in_array os host layout fuel reader peer ut 0 room w) no_room

-- What `recv` put into the buffer of the extended handshake.
abbrev pub arrived : Os → ℕ → List ℕ → List ℕ
arrived os now bytes = received_into (os.stack now) 2048 bytes

extended_small :
    (os : Os) (host : Host) (layout : Layout) (peer : Peer) (fd u m : ℕ) (bytes : List ℕ)
    (w : World)
    → peer.socket.sock_desc ≡ some fd
    → os.recv w.now ≡ some bytes
    → 0 < length bytes
    → length bytes ≤ 2048
    → 0 < m
    → m < 16384
    → IsShown metadata_size_key m (length bytes) (drop 6 (arrived os w.now bytes))
    → IsShown ut_metadata_key u (length bytes) (drop 6 (arrived os w.now bytes))
    → extended_sent os host layout peer (ExtendedHandshake.packet_init host) exit_success w
      ≡ ok (
        (
          exit_success,
          record peer {
            ut_metadata = some u;
            metadata_size = some m;
            num_pieces = some 0;
            piece_size = some 16384;
          },
        ),
        record w { now = w.now + 1 },
      )
unfolding extended_sent extended_received take_over ExtendedHandshake.receive
    ExtendedHandshake.answered Socket.receive ask
extended_small os host layout peer fd u m bytes w is_open heard some_bytes fits some_size small
      size_shown ut_shown =
    let no_pieces : m / 16384 ≡ 0 = omega arith in
    let nonzero : (m == 0) ≡ false = ground arith in
    rw
      (
        is_open,
        heard,
        take_short 2048 bytes fits,
        lt→ltb 0 (length bytes) some_bytes,
        response_init-numbers (os.frame w.now) m u (length bytes) (arrived os w.now bytes)
            size_shown ut_shown fits,
        nonzero,
        no_pieces,
      )
      refl

-- A peer that offers metadata of less than 16384 bytes, and not none, ends the program: the number of
-- its pieces is rounded down to 0, and with it the size of the array for them, behind which the
-- terminating zero is written. Our extended handshake could be sent; the answer of the peer came in one
-- read, and shows the size and the number of the extension as they are printed.
pub metadata_small :
    (os : Os) (host : Host) (layout : Layout) (fuel : ℕ) (reader : Reader) (peer : Peer)
    (fd u m : ℕ) (bytes : List ℕ) (w : World)
    → peer.socket.sock_desc ≡ some fd
    → os.send w.now ≡ true
    → os.recv (w.now + 1) ≡ some bytes
    → 0 < length bytes
    → length bytes ≤ 2048
    → 0 < m
    → m < 16384
    → IsShown metadata_size_key m (length bytes) (drop 6 (arrived os (w.now + 1) bytes))
    → IsShown ut_metadata_key u (length bytes) (drop 6 (arrived os (w.now + 1) bytes))
    → after_handshake os host layout fuel reader (exit_success, peer) w ≡ fault
unfolding after_handshake extended_handshake ExtendedHandshake.send after_extended fetch
metadata_small os host layout fuel reader peer fd u m bytes w is_open sends heard some_bytes fits
      some_size small size_shown ut_shown =
    let message = (ExtendedHandshake.packet_init host).request.bytes in
    let w₁ : World = record w { now = w.now + 1; log = w.log ++ sent fd message ∷ [] } in
    let told : Peer = record peer {
      ut_metadata = some u;
      metadata_size = some m;
      num_pieces = some 0;
      piece_size = some 16384;
    } in
    rw
      (
        send_sent os peer.socket message fd w is_open sends,
        extended_small os host layout peer fd u m bytes w₁ is_open heard some_bytes fits some_size
            small size_shown ut_shown,
        gt→leb (2 ^ 31) m (omega arith),
        get_metadata_no_room os host layout fuel reader told u m (record w₁ { now = w₁.now + 1 })
            refl refl (omega arith),
      )
      refl
