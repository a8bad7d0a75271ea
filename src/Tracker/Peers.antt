-- ===== src/Tracker/Peers.antt =====
-- The peers of an announce response of tracker/packets/tracker_announce_packet.c.
use uvg_torrent.Base.{
  ℕ, zero, suc, ◌+◌, ◌*◌, ◌^◌, ◌≤◌, ◌<◌, ◌≡◌, refl, sym, ap, ◌∙◌, true, false, List, [], ◌∷◌, ◌++◌,
  map, arith, ◌==◌, leb, le→ltb, inl, inr, Bool-cases, All, All-append, ok, Returns, Returns-bind,
  take, drop, length, take-append, drop-append, drop_past, length-append, append_assoc, regroup,
  append-nil,
}
use mathlib.Core.Path.{subst}
use uvg_torrent.Words.{Host, store, load, store_be, length-store, length-store_be, load-store}
use uvg_torrent.Net.{ntohl}
use uvg_torrent.Net.Order.{ntohl-load}
use uvg_torrent.Tracker.AnnouncePacket
use uvg_torrent.Tracker.AnnouncePacket.{PeerAddress, loopback, peers_loop}

-- At most 338 peers, every one of them the same address.
abbrev pub OnlyLoopback : List PeerAddress → Type 0
OnlyLoopback peers = All (λ p. p ≡ loopback) peers × (length peers ≤ 338)

module _ (host : Host) (raw : List ℕ) (res_size : ℕ) (fits : res_size ≤ 2048) where
  peers_loop-OnlyLoopback :
      (fuel k : ℕ) (peers : List PeerAddress)
      → All (λ p. p ≡ loopback) peers
      → length peers ≡ k
      → k ≤ 338
      → 0 < fuel
      → res_size < 20 + 6 * k + fuel
      → Returns OnlyLoopback (peers_loop fuel host raw res_size (20 + 6 * k) peers)
  unfolding peers_loop
  peers_loop-OnlyLoopback zero k peers all count few left enough = absurd (omega arith)
  peers_loop-OnlyLoopback (suc fuel) k peers all count few left enough =
      elim (Bool-cases (leb res_size (20 + 6 * k))) [
        | inl end ↦ rw end (all, omega arith)
        | inr more ↦
            rw (more, le→ltb 2048 (20 + 6 * k + 6) (ground arith))
              (elim (Bool-cases (ntohl host (load host (take 4 (drop (20 + 6 * k) raw))) == 0)) [
                | inl null ↦ rw null (all, omega arith)
                | inr address ↦ rw address (
                    subst
                      (λ o.
                        Returns OnlyLoopback
                          (peers_loop fuel host raw res_size o (peers ++ loopback ∷ [])))
                      (omega arith)
                      (peers_loop-OnlyLoopback fuel (k + 1) (peers ++ loopback ∷ [])
                        (All-append (λ p. p ≡ loopback) peers (loopback ∷ []) all (refl, tt))
                        (omega (arith, length-append peers (loopback ∷ []))) (ground arith)
                        (ground arith) (ground arith)))
              ])
      ]

-- A response of any content that fits into the buffer is read without a fault, within the fuel.
-- It yields at most 338 peers, and all of them are 127.0.0.1:51413.
pub response_init-OnlyLoopback :
    (host : Host) (raw : List ℕ) (res_size : ℕ)
    → res_size ≤ 2048
    → Returns (λ r. OnlyLoopback r.peers) (AnnouncePacket.response_init host raw res_size)
unfolding AnnouncePacket.response_init
response_init-OnlyLoopback host raw res_size fits =
    Returns-bind OnlyLoopback _ (peers_loop (res_size + 1) host raw res_size 20 []) _
      (peers_loop-OnlyLoopback host raw res_size fits (res_size + 1) 0 [] tt refl (omega arith)
        (omega arith) (omega arith))
      λ peers only. only

-- The peers of a response as the protocol lays them out: addresses and ports of 4 and 2 bytes.
abbrev pub peer_entries : List (ℕ × ℕ) → List ℕ
peer_entries [] = []
peer_entries ((ip, port) ∷ es) = store_be 4 ip ++ (store_be 2 port ++ peer_entries es)

abbrev pub IsAddress : ℕ × ℕ → Type 0
IsAddress (ip, port) = (0 < ip) × (ip < 2 ^ 32)

leb_end : (offset size : ℕ) → size ≤ offset → leb size offset ≡ true
leb_end offset size h = ground arith

leb_more : (offset size : ℕ) → offset < size → leb size offset ≡ false
leb_more offset size h = ground arith

nonzero : (x : ℕ) → 0 < x → (x == 0) ≡ false
nonzero x h = ground arith

module _ (host : Host) (raw : List ℕ) (garbage : List ℕ) (res_size : ℕ)
    (fits : res_size ≤ 2048) where
  peers_loop-entries :
      (fuel offset : ℕ) (before : List ℕ) (es : List (ℕ × ℕ)) (peers : List PeerAddress)
      → raw ≡ before ++ (peer_entries es ++ garbage)
      → length before ≡ offset
      → offset + 6 * length es ≡ res_size
      → length es < fuel
      → All IsAddress es
      → peers_loop fuel host raw res_size offset peers ≡ ok (peers ++ map (λ e. loopback) es)
  unfolding peers_loop
  peers_loop-entries zero offset before es peers layout at size enough valid = absurd (omega arith)
  peers_loop-entries (suc fuel) offset before [] peers layout at size enough valid =
      rw (leb_end offset res_size (omega arith), append-nil peers) refl
  peers_loop-entries (suc fuel) offset before ((ip, port) ∷ es) peers layout at size enough valid =
      let head = store_be 4 ip in
      let middle = store_be 2 port in
      let tail = peer_entries es ++ garbage in
      let entry = head ++ middle in
      let parts : raw ≡ before ++ (head ++ (middle ++ tail)) =
        layout ∙ ap (λ t. before ++ t) (regroup head middle (peer_entries es) garbage) in
      let address : ntohl host (load host (take 4 (drop offset raw))) ≡ ip =
        ap (λ r. ntohl host (load host (take 4 (drop offset r)))) parts
        ∙ ap (λ r. ntohl host (load host (take 4 r)))
            (drop-append before (head ++ (middle ++ tail)) offset at)
        ∙ ap (λ r. ntohl host (load host r))
            (take-append head (middle ++ tail) 4 (length-store_be 4 ip))
        ∙ ntohl-load host ip valid.0.1 in
      rw
        (
          leb_more offset res_size (omega arith),
          le→ltb 2048 (offset + 6) (omega arith),
          address,
          nonzero ip valid.0.0,
        )
        (peers_loop-entries fuel (offset + 6) (before ++ entry) es (peers ++ loopback ∷ [])
            (parts ∙ sym (regroup before head middle tail))
            (omega (
              arith,
              at,
              length-append before entry,
              length-append head middle,
              length-store_be 4 ip,
              length-store_be 2 port,
            ))
            (omega (arith, size)) (omega (arith, enough)) valid.1
          ∙ ap (λ ps. ok ps) (append_assoc peers (loopback ∷ []) (map (λ e. loopback) es)))

-- An announce response of the protocol.
abbrev pub announce_header : Host → (action tid interval leechers seeders : ℕ) → List ℕ → List ℕ
announce_header host action tid interval leechers seeders rest =
    store_be 4 action
    ++ (store host 4 tid
        ++ (store_be 4 interval ++ (store_be 4 leechers ++ (store_be 4 seeders ++ rest))))

-- The numbers of a response, each below 2^32, are read as what the tracker put into it, and it gives
-- one peer for each of its addresses, if none is zero and the whole fits the buffer, whatever the
-- rest of the buffer holds.
pub response_init-entries :
    (host : Host) (action tid interval leechers seeders : ℕ) (es : List (ℕ × ℕ)) (garbage : List ℕ)
    → action < 2 ^ 32
    → tid < 2 ^ 32
    → interval < 2 ^ 32
    → leechers < 2 ^ 32
    → seeders < 2 ^ 32
    → All IsAddress es
    → 20 + 6 * length es ≤ 2048
    → AnnouncePacket.response_init host
        (announce_header host action tid interval leechers seeders (peer_entries es ++ garbage))
        (20 + 6 * length es)
      ≡ ok (record {
        action = action;
        transaction_id = tid;
        interval = interval;
        leechers = leechers;
        seeders = seeders;
        peers = map (λ e. loopback) es;
      })
unfolding AnnouncePacket.response_init
response_init-entries host action tid interval leechers seeders es garbage a t i l s valid fits =
    let r₅ = peer_entries es ++ garbage in
    let r₄ = store_be 4 seeders ++ r₅ in
    let r₃ = store_be 4 leechers ++ r₄ in
    let r₂ = store_be 4 interval ++ r₃ in
    let r₁ = store host 4 tid ++ r₂ in
    let header =
      store_be 4 action
      ++ (store host 4 tid
          ++ (store_be 4 interval ++ (store_be 4 leechers ++ store_be 4 seeders))) in
    let peers =
      peers_loop-entries host (announce_header host action tid interval leechers seeders r₅) garbage
        (20 + 6 * length es) fits (20 + 6 * length es + 1) 20 header es [] (simp append_assoc)
        (simp (length-append, length-store_be, length-store)) refl (omega arith) valid in
    rw
      (
        take-append (store_be 4 action) r₁ 4 (length-store_be 4 action),
        drop_past 0 (store_be 4 action) r₁ 4 (length-store_be 4 action),
        drop_past 4 (store_be 4 action) r₁ 4 (length-store_be 4 action),
        drop_past 8 (store_be 4 action) r₁ 4 (length-store_be 4 action),
        drop_past 12 (store_be 4 action) r₁ 4 (length-store_be 4 action),
        drop_past 0 (store host 4 tid) r₂ 4 (length-store host 4 tid),
        drop_past 4 (store host 4 tid) r₂ 4 (length-store host 4 tid),
        drop_past 8 (store host 4 tid) r₂ 4 (length-store host 4 tid),
        drop_past 0 (store_be 4 interval) r₃ 4 (length-store_be 4 interval),
        drop_past 4 (store_be 4 interval) r₃ 4 (length-store_be 4 interval),
        drop_past 0 (store_be 4 leechers) r₄ 4 (length-store_be 4 leechers),
        take-append (store host 4 tid) r₂ 4 (length-store host 4 tid),
        take-append (store_be 4 interval) r₃ 4 (length-store_be 4 interval),
        take-append (store_be 4 leechers) r₄ 4 (length-store_be 4 leechers),
        take-append (store_be 4 seeders) r₅ 4 (length-store_be 4 seeders),
        ntohl-load host action a,
        load-store host 4 tid t,
        ntohl-load host interval i,
        ntohl-load host leechers l,
        ntohl-load host seeders s,
        peers,
      )
      refl
