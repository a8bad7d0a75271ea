-- ===== src/Torrent/Parse/Link.antt =====
-- What `Torrent_parse` keeps of the pairs of a magnet link: the trackers, and the hashmap.
use uvg_torrent.Base.{
  ℕ, suc, ◌+◌, ◌<◌, ◌≡◌, refl, sym, ap, ap₂, ◌∙◌, true, false, Option, none, some, List, [], ◌∷◌,
  ◌++◌, arith, ok, exit_success, length, append_assoc, append-nil, All,
}
use uvg_torrent.Libc.{CString, str_eq}
use uvg_torrent.Str.{urlencode}
use uvg_torrent.Hashmap
use uvg_torrent.Hashmap.Destroy.{destroy_two}
use uvg_torrent.Hashmap.{
  Hashmap, hash_round, hash_loop, sign_extend, get_hash, bucket_index, bucket_set, bucket_new,
  bucket_get, store_at, store_in, get_at,
}
use uvg_torrent.Net.{hostname_to_ip}
use uvg_torrent.Os.{Os, World, and_then, ask}
use uvg_torrent.Tracker.State.{Tracker}
use uvg_torrent.Tracker.Url.{IsPart, address, init-urlencode}
use uvg_torrent.Torrent.Parse.{key_tr, key_dn, key_xt, stored, add_tracker, Parsing, store_pair, on}
use uvg_torrent.Torrent.Parse.Pairs.{start, store_all}

-- The scheme, the host and the port of a tracker.
abbrev pub Address : Type 0
Address = CString × CString × CString

abbrev pub encoded : Address → CString
encoded (scheme, url, port) = urlencode (address scheme url port)

abbrev pub IsAddress : Address → Type 0
IsAddress (scheme, url, port) =
    IsPart scheme × IsPart url × IsPart port × (length (encoded (scheme, url, port)) < 256)

-- The tracker of an address when the resolver answers `answer` for its host.
abbrev pub tracker_of : Option (List CString) → Address → Tracker
tracker_of answer (scheme, url, port) = record {
  url = url;
  port = port;
  ip = (hostname_to_ip answer).1;
  connected = false;
  attempts = 0;
  max_attempts = 5;
  connection_id = 0;
  last_transaction_id = 0;
  tracker_socket = none;
}

-- The trackers of a link, the hosts of which are looked up in its order.
abbrev pub trackers_at : Os → ℕ → List Address → List Tracker
trackers_at os now [] = []
trackers_at os now (a ∷ addrs) =
    tracker_of (os.gethostbyname now) a ∷ trackers_at os (now + 1) addrs

abbrev pub tracker_pairs : List Address → List (CString × CString)
tracker_pairs [] = []
tracker_pairs (a ∷ addrs) = (key_tr, encoded a) ∷ tracker_pairs addrs

abbrev pub later : World → ℕ → World
later w n = record w { now = w.now + n }

later_zero : (w : World) → w ≡ later w 0
later_zero w = ap (λ n. record w { now = n }) (omega arith)

later-later : (w : World) (n : ℕ) → later (later w 1) n ≡ later w (suc n)
later-later w n = ap (λ n. record w { now = n }) (omega arith)

module _ (os : Os) where
  store_tracker :
      (a : Address) (m : Hashmap CString) (ts : List Tracker) (w : World) (st : Parsing)
      → IsAddress a
      → store_pair os
          (record (start m ts) { key_buffer = key_tr; value_buffer = encoded a })
          key_tr
          (encoded a)
          w
        ≡ ok ((exit_success, start m (ts ++ tracker_of (os.gethostbyname w.now) a ∷ [])), later w 1)
  unfolding store_pair add_tracker ask str_eq
  store_tracker (scheme, url, port) m ts w st h =
      rw (init-urlencode (os.gethostbyname w.now) scheme url port h.0 h.1 h.2) refl

  pub store_trackers :
      (addrs : List Address) (m : Hashmap CString) (ts : List Tracker) (w : World)
      → All IsAddress addrs
      → store_all os (tracker_pairs addrs) (start m ts) w
        ≡ ok ((exit_success, start m (ts ++ trackers_at os w.now addrs)), later w (length addrs))
  store_trackers [] m ts w h =
      ap₂ (λ l v. ok ((exit_success, start m l), v)) (sym (append-nil ts)) (later_zero w)
  store_trackers (a ∷ addrs) m ts w h =
      ap (λ r. and_then r (on os (store_all os (tracker_pairs addrs))))
        (store_tracker a m ts w (start m ts) h.0)
      ∙ store_trackers addrs m (ts ++ tracker_of (os.gethostbyname w.now) a ∷ []) (later w 1) h.1
      ∙ ap₂ (λ l v. ok ((exit_success, start m l), v))
          (append_assoc ts (tracker_of (os.gethostbyname w.now) a ∷ [])
            (trackers_at os (w.now + 1) addrs))
          (later-later w (length addrs))

-- The hashmap of a link.
abbrev pub link_map : CString → CString → Hashmap CString
link_map hash dn = Hashmap.store_in true key_dn dn (Hashmap.store_in true key_xt hash Hashmap.new)

pub link_map-destroy : (hash dn : CString) → Hashmap.destroy (link_map hash dn) ≡ ok tt
unfolding Hashmap.new store_in store_at bucket_new bucket_index get_hash hash_loop hash_round
    sign_extend
link_map-destroy hash dn =
    destroy_two (bucket_index key_xt) (bucket_index key_dn) 2 key_xt key_dn hash dn

pub link_map-dn :
    (fuel : ℕ) (hash dn : CString)
    → Hashmap.get (suc fuel) (link_map hash dn) (some key_dn) ≡ ok (some dn)
unfolding Hashmap.get Hashmap.new get_at bucket_get store_in store_at bucket_new bucket_index
    get_hash hash_loop hash_round sign_extend str_eq
link_map-dn fuel hash dn = refl

pub link_map-xt :
    (fuel : ℕ) (hash dn : CString)
    → Hashmap.get (suc fuel) (link_map hash dn) (some key_xt) ≡ ok (some hash)
unfolding Hashmap.get Hashmap.new get_at bucket_get store_in store_at bucket_new bucket_index
    get_hash hash_loop hash_round sign_extend str_eq
link_map-xt fuel hash dn = refl

module _ (os : Os) where
  pub store_names :
      (hash dn : CString) (ps : List (CString × CString)) (w : World)
      → store_all os ((key_xt, hash) ∷ (key_dn, dn) ∷ ps) (start Hashmap.new []) w
        ≡ store_all os ps (start (link_map hash dn) []) w
  unfolding store_pair stored str_eq Hashmap.set Hashmap.new store_in store_at bucket_new
      bucket_index get_hash hash_loop hash_round sign_extend
  store_names hash dn ps w = refl
