-- ===== src/Tracker/Url.antt =====
-- `Tracker_init` on the addresses that magnet links have.
use uvg_torrent.Base.{
  ℕ, ◌<◌, ◌≡◌, refl, ap, ◌∙◌, true, false, Option, none, List, [], ◌∷◌, ◌++◌, arith, ◌==◌, lt→ltb,
  if◌then◌else◌, All-append, ok, fault, length,
}
use uvg_torrent.Libc.{CString, c_string}
use uvg_torrent.Str.{urlencode, split}
use uvg_torrent.Str.Url.{IsChars, urldecode-urlencode}
use uvg_torrent.Str.Split.{
  pieces, has_colon, all_short, split-pieces, pieces_from-append, pieces_from-end,
}
use uvg_torrent.LinkedList.View.{list_get, get_from}
use uvg_torrent.Net.{hostname_to_ip}
use uvg_torrent.Tracker.State.{at_pointer, past_slashes, init}

-- scheme://url:port
abbrev pub address : CString → CString → CString → CString
address scheme url port = scheme ++ b':' ∷ ((b'/' ∷ b'/' ∷ url) ++ b':' ∷ port)

-- What a part of an address is made of.
abbrev pub IsPart : CString → Type 0
IsPart s = IsChars s × (has_colon s ≡ false) × (length s < 254)

nonzero : (x : ℕ) → 0 < x → (x == 0) ≡ false
nonzero x h = ground arith

pub c_string-id : (s : CString) → IsChars s → c_string s ≡ s
unfolding c_string
c_string-id [] h = refl
c_string-id (c ∷ s) h = rw (nonzero c h.0.0, c_string-id s h.1) refl

no_colon_head :
    (c : ℕ) (s : CString) → (c == b':') ≡ false → has_colon s ≡ false → has_colon (c ∷ s) ≡ false
no_colon_head c s h t = ground arith

-- The address falls into three parts.
split-address :
    (scheme url port : CString)
    → IsPart scheme
    → IsPart url
    → IsPart port
    → split (address scheme url port) b':' ≡ ok (scheme ∷ (b'/' ∷ b'/' ∷ url) ∷ port ∷ [])
unfolding all_short
split-address scheme url port a b c =
    let slashed = b'/' ∷ b'/' ∷ url in
    let parts : pieces (address scheme url port) ≡ scheme ∷ slashed ∷ port ∷ [] =
      pieces_from-append scheme (slashed ++ b':' ∷ port) [] a.1
      ∙ ap (λ ps. scheme ∷ ps)
          (pieces_from-append slashed port []
            (no_colon_head b'/' (b'/' ∷ url) refl (no_colon_head b'/' url refl b.1)))
      ∙ ap (λ ps. scheme ∷ slashed ∷ ps) (pieces_from-end port [] c.1) in
    let short : all_short (scheme ∷ slashed ∷ port ∷ []) ≡ true =
      rw
        (
          lt→ltb (length scheme) 256 (omega arith),
          lt→ltb (length slashed) 256 (omega arith),
          lt→ltb (length port) 256 (omega arith),
        )
        refl in
    split-pieces (address scheme url port) b':'
    ∙ ap (λ ps. if all_short ps then ok ps else fault) parts
    ∙ ap (λ b. if b then ok (scheme ∷ slashed ∷ port ∷ []) else fault) short

pub address-IsChars :
    (scheme url port : CString)
    → IsPart scheme
    → IsPart url
    → IsPart port
    → IsChars (address scheme url port)
address-IsChars scheme url port a b c =
    All-append (λ c. (0 < c) × (c < 256)) scheme _ a.0
      (
        (omega arith, omega arith),
        (
          (omega arith, omega arith),
          (
            (omega arith, omega arith),
            All-append (λ c. (0 < c) × (c < 256)) url _ b.0 ((omega arith, omega arith), c.0),
          ),
        ),
      )

-- A tracker made from the percent-encoded address scheme://url:port, whose parts have no colon and
-- are shorter than 254, has that url and that port; whatever the resolver answers, it is not connected and has its five attempts.
pub init-urlencode :
    (answer : Option (List CString)) (scheme url port : CString)
    → IsPart scheme
    → IsPart url
    → IsPart port
    → init answer (urlencode (address scheme url port))
      ≡ ok (record {
        url = url;
        port = port;
        ip = (hostname_to_ip answer).1;
        connected = false;
        attempts = 0;
        max_attempts = 5;
        connection_id = 0;
        last_transaction_id = 0;
        tracker_socket = none;
      })
unfolding init list_get get_from at_pointer past_slashes
init-urlencode answer scheme url port a b c =
    let chars = address-IsChars scheme url port a b c in
    rw
      (
        urldecode-urlencode (address scheme url port) chars,
        c_string-id (address scheme url port) chars,
        split-address scheme url port a b c,
      )
      refl
