-- ===== src/Tracker/Layout.antt =====
-- The packets of tracker/packets are the ones of the UDP tracker protocol: fixed fields in network
-- byte order, on hosts of both kinds, and the transaction id as the tracker echoes it.
use uvg_torrent.Base.{
  ℕ, ◌^◌, ◌<◌, ◌≡◌, refl, sym, ap, take_whole, ◌∙◌, List, ◌++◌, arith, drop, length, append_assoc,
  take-append, drop-append, length-append,
}
use uvg_torrent.Words.{Host, store, store_be, length-store, length-store_be, load-store}
use uvg_torrent.Net.Order.{store-htonl, store-htonll, store-htons, ntohl-load, ntohll-load}
use uvg_torrent.Tracker.ConnectPacket
use uvg_torrent.Tracker.AnnouncePacket

-- A connect request is the protocol id, action 0 and the transaction id: 16 bytes.
connect_request_layout :
    (host : Host) (tid : ℕ)
    → ((ConnectPacket.request_init host tid).bytes
        ≡ store_be 8 0x41727101980 ++ (store_be 4 0 ++ store host 4 tid))
      × (length (ConnectPacket.request_init host tid).bytes ≡ 16)
unfolding ConnectPacket.request_init
connect_request_layout host tid =
    rw (store-htonll host 0x41727101980 (omega arith), store-htonl host 0)
      (refl, simp (length-append, length-store_be, length-store))

drop_8 :
    (host : Host) (action tid : ℕ) (rest : List ℕ)
    → drop 8 (store_be 4 action ++ (store host 4 tid ++ rest)) ≡ rest
drop_8 host action tid rest =
    ap (λ t. drop 8 t) (sym (append_assoc (store_be 4 action) (store host 4 tid) rest))
    ∙ drop-append (store_be 4 action ++ store host 4 tid) rest 8
        (simp (length-append, length-store_be, length-store))

-- A connect response, with numbers that fit their fields, is read as what the tracker put into it; the
-- transaction id is read as the one that was sent, if the tracker echoes its four bytes.
pub connect_response_decode :
    (host : Host) (action tid connection_id : ℕ) (rest : List ℕ)
    → action < 2 ^ 32
    → tid < 2 ^ 32
    → connection_id < 2 ^ 64
    → ConnectPacket.response_init host
        (store_be 4 action ++ (store host 4 tid ++ (store_be 8 connection_id ++ rest)))
      ≡ record { action = action; transaction_id = tid; connection_id = connection_id }
unfolding ConnectPacket.response_init
connect_response_decode host action tid connection_id rest a t c =
    let tail₂ = store_be 8 connection_id ++ rest in
    let tail₁ = store host 4 tid ++ tail₂ in
    rw
      (
        take-append (store_be 4 action) tail₁ 4 (length-store_be 4 action),
        drop-append (store_be 4 action) tail₁ 4 (length-store_be 4 action),
        take-append (store host 4 tid) tail₂ 4 (length-store host 4 tid),
        drop_8 host action tid tail₂,
        take-append (store_be 8 connection_id) rest 8 (length-store_be 8 connection_id),
        ntohl-load host action a,
        load-store host 4 tid t,
        ntohll-load host connection_id c,
      )
      refl

-- An announce request has the fields of the protocol in its order, 100 bytes, if the hash and the
-- peer id have 20 bytes each and the connection id is below 2^64.
pub announce_request_layout :
    (host : Host) (hash_slot id_slot : List ℕ) (connection_id tid : ℕ) (info_hash peer_id : List ℕ)
    → connection_id < 2 ^ 64
    → length info_hash ≡ 20
    → length peer_id ≡ 20
    → let bytes =
        (AnnouncePacket.request_init host hash_slot id_slot connection_id tid info_hash
          peer_id).bytes in
      (bytes
        ≡ store_be 8 connection_id
          ++ (store_be 4 1
              ++ (store host 4 tid
                  ++ (info_hash
                      ++ (peer_id
                          ++ (store_be 8 0
                              ++ (store_be 8 0
                                  ++ (store_be 8 0
                                      ++ (store_be 4 2
                                          ++ (store_be 4 0
                                              ++ (store_be 4 1
                                                  ++ (store_be 4 1
                                                      ++ (store_be 2 0 ++ store_be 2 0)))))))))))))
      × (length bytes ≡ 100)
unfolding AnnouncePacket.request_init
announce_request_layout host hash_slot id_slot connection_id tid info_hash peer_id c h p =
    rw
      (
        store-htonll host connection_id c,
        store-htonll host 0 (omega arith),
        store-htonl host 0,
        store-htonl host 1,
        store-htonl host 2,
        store-htons host 0,
        take_whole info_hash 20 h,
        take_whole peer_id 20 p,
      )
      (refl, simp (length-append, length-store_be, length-store, h, p))
