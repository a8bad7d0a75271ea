-- ===== src/Torrent/Parse/Magnet.antt =====
-- `Torrent_parse` on magnet links: magnet:?xt=…&dn=…&tr=…&tr=…
use uvg_torrent.Base.{
  ℕ, suc, ◌<◌, ◌≡◌, refl, ap, ◌∙◌, true, some, List, [], ◌∷◌, ◌++◌, arith, le→ltb, ok, exit_success,
  length, length-append, All, All-append,
}
use uvg_torrent.Libc.{CString}
use uvg_torrent.Str.{urlencode}
use uvg_torrent.Str.Url.{IsChars, urldecode-urlencode}
use uvg_torrent.Hashmap
use uvg_torrent.Hashmap.{
  Hashmap, hash_round, hash_loop, sign_extend, get_hash, bucket_index, bucket_set, bucket_new,
  bucket_get, store_at, store_in, get_at,
}
use uvg_torrent.Os.{Os, World, and_then}
use uvg_torrent.Tracker.State.{at_pointer}
use uvg_torrent.Tracker.Url
use uvg_torrent.Tracker.Url.{IsPart, address, init-urlencode, c_string-id}
use uvg_torrent.Torrent.{Torrent}
use uvg_torrent.Torrent.Parse.{key_dn, key_xt, parse_chars, finish, parse_content, parse}
use uvg_torrent.Torrent.Parse.Pairs.{IsKey, IsValue, print_query, start, parse_chars-print_query}
use uvg_torrent.Torrent.Parse.Text.{
  is_plain, urlencode-plain, is_plain-free, is_plain-IsChars, urlencode-nonempty,
}
use uvg_torrent.Torrent.Parse.Link.{
  Address, encoded, IsAddress, trackers_at, tracker_pairs, later, link_map, link_map-dn,
  link_map-destroy, link_map-xt, store_trackers, store_names,
}

print_query-IsChars :
    (ps : List (CString × CString))
    → All (λ p. IsChars p.0 × IsChars p.1) ps
    → IsChars (print_query ps)
print_query-IsChars [] h = tt
print_query-IsChars ((key, value) ∷ []) h =
    All-append (λ c. (0 < c) × (c < 256)) key (b'=' ∷ value) h.0.0
      ((omega arith, omega arith), h.0.1)
print_query-IsChars ((key, value) ∷ q ∷ ps) h =
    All-append (λ c. (0 < c) × (c < 256)) key (b'=' ∷ (value ++ b'&' ∷ print_query (q ∷ ps))) h.0.0
      (
        (omega arith, omega arith),
        All-append (λ c. (0 < c) × (c < 256)) value (b'&' ∷ print_query (q ∷ ps)) h.0.1
            ((omega arith, omega arith), print_query-IsChars (q ∷ ps) h.1),
      )

address-IsChars : (a : Address) → IsAddress a → IsChars (address a.0 a.1 a.2)
address-IsChars (scheme, url, port) h = Url.address-IsChars scheme url port h.0 h.1 h.2

address-nonempty : (scheme rest : CString) (c : ℕ) → 0 < length (scheme ++ c ∷ rest)
address-nonempty scheme rest c = omega (arith, length-append scheme (c ∷ rest))

-- The keys and values of the trackers are ones that a query can hold.
tracker_pairs-valid :
    (addrs : List Address)
    → All IsAddress addrs
    → All (λ p. IsKey p.0 × IsValue p.1) (tracker_pairs addrs)
tracker_pairs-valid [] h = tt
tracker_pairs-valid (a ∷ addrs) h = (
  (
    (refl, omega arith),
    (
      is_plain-free (encoded a) (urlencode-plain (address a.0 a.1 a.2) (address-IsChars a h.0)),
      urlencode-nonempty (address a.0 a.1 a.2) (address-nonempty a.0 _ b':'),
      h.0.3,
    ),
  ),
  tracker_pairs-valid addrs h.1,
)

tracker_pairs-IsChars :
    (addrs : List Address)
    → All IsAddress addrs
    → All (λ p. IsChars p.0 × IsChars p.1) (tracker_pairs addrs)
tracker_pairs-IsChars [] h = tt
tracker_pairs-IsChars (a ∷ addrs) h = (
  (
    ((omega arith, omega arith), ((omega arith, omega arith), tt)),
    is_plain-IsChars (encoded a) (urlencode-plain (address a.0 a.1 a.2) (address-IsChars a h.0)),
  ),
  tracker_pairs-IsChars addrs h.1,
)

-- The pairs of a link, and the link.
abbrev pub link_pairs : CString → CString → List Address → List (CString × CString)
link_pairs hash name addrs = (key_xt, hash) ∷ (key_dn, urlencode name) ∷ tracker_pairs addrs

abbrev pub magnet : CString → CString → List Address → List ℕ
magnet hash name addrs =
    b'm' ∷ b'a' ∷ b'g' ∷ b'n' ∷ b'e' ∷ b't' ∷ b':' ∷ b'?' ∷ print_query (link_pairs hash name addrs)

abbrev pub IsHash : CString → Type 0
IsHash hash = (is_plain hash ≡ true) × (0 < length hash) × (length hash < 256)

abbrev pub IsName : CString → Type 0
IsName name = IsChars name × (0 < length name) × (length (urlencode name) < 256)

parse_query :
    (os : Os) (fuel : ℕ) (this : Torrent) (q : CString) (w : World)
    → IsChars q
    → parse_content os fuel this (b'm' ∷ b'a' ∷ b'g' ∷ b'n' ∷ b'e' ∷ b't' ∷ b':' ∷ b'?' ∷ q) w
      ≡ and_then (parse_chars os q (start Hashmap.new []) w) (finish os fuel this)
unfolding parse_content
parse_query os fuel this q w h =
    rw
      (
        le→ltb (length (b'm' ∷ b'a' ∷ b'g' ∷ b'n' ∷ b'e' ∷ b't' ∷ b':' ∷ b'?' ∷ q)) 8 (omega arith),
        c_string-id q h,
      )
      refl

-- The file of a magnet link with a hash, a name and trackers, each of which fits the buffers when
-- encoded, is parsed with success into a torrent of that hash, that name and those trackers, in order, each with the host's address as the resolver answered.
pub parse-magnet :
    (os : Os) (fuel : ℕ) (this : Torrent) (hash name : CString) (addrs : List Address) (w : World)
    → IsHash hash
    → IsName name
    → All IsAddress addrs
    → parse os (suc fuel) (some (magnet hash name addrs)) this w
      ≡ ok (
        (
          exit_success,
          record this {
            name = some name;
            hash = some hash;
            trackers = some (trackers_at os w.now addrs);
          },
        ),
        later w (length addrs),
      )
unfolding parse finish at_pointer
parse-magnet os fuel this hash name addrs w h n a =
    let pairs = link_pairs hash name addrs in
    let dn = urlencode name in
    let m = link_map hash dn in
    let dn_plain = urlencode-plain name n.0 in
    let valid : All (λ p. IsKey p.0 × IsValue p.1) pairs = (
      ((refl, omega arith), (is_plain-free hash h.0, h.1, h.2)),
      (
        ((refl, omega arith), (is_plain-free dn dn_plain, urlencode-nonempty name n.1, n.2)),
        tracker_pairs-valid addrs a,
      ),
    ) in
    let chars : All (λ p. IsChars p.0 × IsChars p.1) pairs = (
      (((omega arith, omega arith), ((omega arith, omega arith), tt)), is_plain-IsChars hash h.0),
      (
        (
          ((omega arith, omega arith), ((omega arith, omega arith), tt)),
          is_plain-IsChars dn dn_plain,
        ),
        tracker_pairs-IsChars addrs a,
      ),
    ) in
    parse_query os (suc fuel) this (print_query pairs) w (print_query-IsChars pairs chars)
    ∙ ap (λ r. and_then r (finish os (suc fuel) this))
        (parse_chars-print_query os (key_xt, hash) ((key_dn, dn) ∷ tracker_pairs addrs) Hashmap.new
            [] w valid
          ∙ store_names os hash dn (tracker_pairs addrs) w
          ∙ store_trackers os addrs m [] w a)
    ∙ rw
        (
          link_map-dn fuel hash dn,
          link_map-xt fuel hash dn,
          link_map-destroy hash dn,
          urldecode-urlencode name n.0,
        )
        refl
