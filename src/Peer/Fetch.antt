-- ===== src/Peer/Fetch.antt =====
-- `Peer_get_metadata`, from the requests to the files.
use uvg_torrent.Base.{
  exit_success, ℕ, suc, ◌+◌, ◌%◌, ◌^◌, ◌*◌, ◌≤◌, ◌<◌, ◌≡◌, true, false, refl, sym, ap, ap₂, ◌∙◌,
  some, none, List, [], ◌∷◌, ◌++◌, take, length, length-append, length-take, append-nil,
  append_assoc, le→ltb, leb, ok, arith,
}
use uvg_torrent.Libc.Search.{is_absent}
use uvg_torrent.Libc.Decimal.{decimal, length-decimal-pos}
use uvg_torrent.Words.{Host, store_be}
use uvg_torrent.Os.{Os, World, received_into, sent, ask, emit}
use uvg_torrent.Socket
use uvg_torrent.Socket.{Socket}
use uvg_torrent.Bencode.{Reader}
use uvg_torrent.Peer.{Peer, Layout, array_size, rounds}
use uvg_torrent.Peer.Stream.{buffer_size}
use uvg_torrent.Peer.Reassembly.{Delivers, joined, AllFilled}
use uvg_torrent.Peer.Metadata
use uvg_torrent.Peer.Pieces.{metadata_request_layout, receive-piece}
use uvg_torrent.Peer.Files.{show_metadata}
use uvg_torrent.Peer.Session.{
  keep_piece, piece_sent, get_pieces, pieces_received, get_in_array, get_with, get_metadata,
}

-- The request for piece `n`.
abbrev pub piece_request : (n ut : ℕ) → List ℕ
piece_request n ut =
    take 31 (store_be 4 (26 + length (decimal n)) ++ 20 ∷ ut % 256 ∷ Metadata.bencoded_message n)

-- The message that answers a request: two ids, a dictionary up to its "ee", and the piece; and the
-- parts in which the network delivers it.
pub record Answer : Type 0 where
  pub id : ℕ
  pub ut : ℕ
  pub front : List ℕ
  pub piece : List ℕ
  pub chunks : List (List ℕ)

-- The length that the answer is said to have.
abbrev pub size : Answer → ℕ
size a = length a.front + 2 + length a.piece

-- What is taken for the piece: it, and as many bytes behind it as its dictionary has.
abbrev pub fetched : (ℕ → ℕ) → Answer → List ℕ
fetched heap a = take (size a) (received_into heap (size a + 1) a.piece)

pub send_sent :
    (os : Os) (s : Socket) (message : List ℕ) (fd : ℕ) (w : World)
    → s.sock_desc ≡ some fd
    → os.send w.now ≡ true
    → Socket.send os s message w
      ≡ ok (exit_success, record w { now = w.now + 1; log = w.log ++ sent fd message ∷ [] })
unfolding Socket.send ask emit
send_sent os s message fd w is_open sends = rw (is_open, sends) refl

array_size-fits :
    (m n : ℕ) → m < 2 ^ 31 → n < 2 ^ 31 → 0 < m * n → m * n < 2 ^ 31 → array_size m n ≡ some (m * n)
unfolding array_size
array_size-fits m n a b some_room bounded = ground arith

pub gt→leb : (a b : ℕ) → b < a → leb a b ≡ false
gt→leb a b h = ground arith

rounds-small : (n : ℕ) → n < 2 ^ 31 → rounds n ≡ n
unfolding rounds
rounds-small n h = ground arith

abbrev pub sizes : List Answer → ℕ
sizes [] = 0
sizes (a ∷ answers) = size a + sizes answers

module _ (os : Os) (host : Host) (layout : Layout) (fuel : ℕ) (fd ut : ℕ) where
  -- The request for piece `n` goes out at `w`, the answer comes, and fits the buffer.
  pub record IsServed (n : ℕ) (a : Answer) (w : World) : Type 0 where
    pub sends : os.send w.now ≡ true
    pub text : joined a.chunks ≡ a.id ∷ a.ut ∷ (a.front ++ b'e' ∷ b'e' ∷ a.piece)
    pub announced : os.recv (w.now + 1) ≡ some (store_be 4 (length (joined a.chunks)))
    pub delivers : Delivers os (w.now + 1 + 1) a.chunks
    pub whole : AllFilled a.chunks
    pub small : 6 + size a ≤ buffer_size
    pub absent : is_absent (b'e' ∷ b'e' ∷ []) a.front (b'e' ∷ b'e' ∷ (a.piece ++ 0 ∷ [])) ≡ true
    pub enough : length a.chunks < fuel
    pub message_room : length (decimal n) ≤ layout.metadata.message
    pub bytes_room : length (decimal n) ≤ layout.metadata.bytes

  -- The world behind the request for piece `n` and its answer.
  abbrev pub served : ℕ → Answer → World → World
  served n a w = record w {
    now = w.now + 1 + 1 + length a.chunks;
    log = w.log ++ sent fd (piece_request n ut) ∷ [];
  }

  abbrev pub AllServed : ℕ → List Answer → World → Type 0
  AllServed n [] w = Unit
  AllServed n (a ∷ answers) w = IsServed n a w × AllServed (n + 1) answers (served n a w)

  abbrev pub all_served : ℕ → List Answer → World → World
  all_served n [] w = w
  all_served n (a ∷ answers) w = all_served (n + 1) answers (served n a w)

  abbrev pub all_fetched : ℕ → List Answer → World → List ℕ
  all_fetched n [] w = []
  all_fetched n (a ∷ answers) w =
      fetched (os.stack (w.now + 1)) a ++ all_fetched (n + 1) answers (served n a w)

  length-all_fetched :
      (n : ℕ) (answers : List Answer) (w : World) → length (all_fetched n answers w) ≤ sizes answers
  length-all_fetched n [] w = omega arith
  length-all_fetched n (a ∷ answers) w =
      let got = fetched (os.stack (w.now + 1)) a in
      omega (
        arith,
        length-append got (all_fetched (n + 1) answers (served n a w)),
        length-take (size a) (received_into (os.stack (w.now + 1)) (size a + 1) a.piece),
        length-all_fetched (n + 1) answers (served n a w),
      )

  packet_init-piece_request :
      (heap : ℕ → ℕ) (n : ℕ)
      → length (decimal n) ≤ layout.metadata.message
      → length (decimal n) ≤ layout.metadata.bytes
      → Metadata.packet_init host layout.metadata heap n ut
        ≡ ok (record { request = record { bytes = piece_request n ut }; response = none })
  unfolding Metadata.packet_init
  packet_init-piece_request heap n message_room bytes_room =
      rw
        (metadata_request_layout host layout.metadata heap n ut message_room bytes_room
          (length-decimal-pos n))
        refl

  -- One round of the loop.
  get_pieces-next :
      (peer : Peer) (left n room : ℕ) (done : List ℕ) (a : Answer) (w : World)
      → peer.socket.sock_desc ≡ some fd
      → IsServed n a w
      → length done + size a ≤ room
      → get_pieces os host layout fuel (suc left) peer ut n room done w
        ≡ get_pieces os host layout fuel left peer ut
            (n + 1)
            room
            (done ++ fetched (os.stack (w.now + 1)) a)
            (served n a w)
  unfolding get_pieces piece_sent keep_piece Metadata.send
  get_pieces-next peer left n room done a w is_open h room_left =
      let packet : Metadata.Packet = record {
        request = record { bytes = piece_request n ut };
        response = none;
      } in
      let w₁ : World = record w {
        now = w.now + 1;
        log = w.log ++ sent fd (piece_request n ut) ∷ [];
      } in
      rw
        (
          packet_init-piece_request (λ i. os.stack w.now (100 + i)) n h.message_room h.bytes_room,
          send_sent os peer.socket (piece_request n ut) fd w is_open h.sends,
          receive-piece os host fuel packet peer.socket fd a.id a.ut a.front a.piece a.chunks w₁
              is_open h.text h.announced h.delivers h.whole h.small h.absent h.enough,
          le→ltb room (length done + size a) room_left,
        )
        refl

  get_pieces-all_fetched :
      (answers : List Answer) (peer : Peer) (n room : ℕ) (done : List ℕ) (w : World)
      → peer.socket.sock_desc ≡ some fd
      → AllServed n answers w
      → length done + sizes answers ≤ room
      → get_pieces os host layout fuel (length answers) peer ut n room done w
        ≡ ok (some (done ++ all_fetched n answers w), all_served n answers w)
  get_pieces-all_fetched [] peer n room done w is_open h room_left =
      unfold get_pieces in ap (λ d. ok (some d, w)) (sym (append-nil done))
  get_pieces-all_fetched (a ∷ answers) peer n room done w is_open h room_left =
      let got = fetched (os.stack (w.now + 1)) a in
      get_pieces-next peer (length answers) n room done a w is_open h.0 (omega arith)
      ∙ get_pieces-all_fetched answers peer (n + 1) room (done ++ got) (served n a w) is_open h.1 (
          omega (
            arith,
            length-append done got,
            length-take (size a) (received_into (os.stack (w.now + 1)) (size a + 1) a.piece),
          ))
      ∙ ap (λ d. ok (some d, all_served (n + 1) answers (served n a w)))
          (append_assoc done got (all_fetched (n + 1) answers (served n a w)))

  -- The metadata is fetched and shown: the requests go out in their order, each answer is put
  -- together however the network cuts it, and the files are found in the pieces one behind the
  -- other, each with as many uninitialised bytes behind it as its dictionary has. The peer has told
  -- `ut_metadata` and as many pieces as there are answers; these and the zero behind them fit the
  -- array of that many times `m` bytes, whose size fits an `int`.
  pub get_metadata-all_fetched :
      (reader : Reader) (peer : Peer) (answers : List Answer) (m : ℕ) (shown : List (List ℕ × ℕ))
      (w : World)
      → peer.socket.sock_desc ≡ some fd
      → peer.ut_metadata ≡ some ut
      → peer.num_pieces ≡ some (length answers)
      → m < 2 ^ 31
      → length answers < 2 ^ 31
      → m * length answers < 2 ^ 31
      → sizes answers + 1 < m * length answers
      → AllServed 0 answers w
      → show_metadata reader layout host fuel (all_fetched 0 answers w) ≡ ok shown
      → get_metadata os host layout fuel reader peer m w ≡ ok (exit_success, all_served 0 answers w)
  unfolding get_metadata get_with get_in_array pieces_received
  get_metadata-all_fetched reader peer answers m shown w is_open known counted m_fits n_fits
        room_fits room_left h shows =
      let room = m * length answers in
      let short = length-all_fetched 0 answers w in
      ap₂ (λ u n. get_with os host layout fuel reader peer m u n w) known counted
      ∙ ap (λ r. get_in_array os host layout fuel reader peer ut (length answers) r w)
          (array_size-fits m (length answers) m_fits n_fits (omega arith) room_fits)
      ∙ rw
          (
            rounds-small (length answers) n_fits,
            get_pieces-all_fetched answers peer 0 room [] w is_open h (omega arith),
            gt→leb room (length (all_fetched 0 answers w) + 1) (omega (arith, short)),
            shows,
          )
          refl
