-- ===== src/Peer/Ends/Parsing.antt =====
-- What a peer's message is turned into takes no fuel.
use uvg_torrent.Base.{
  ℕ, zero, suc, ◌+◌, ◌%◌, ◌^◌, ◌-◌, true, false, Option, none, some, List, [], ◌∷◌, ◌++◌, take,
  drop, length, ◌==◌, ltb, leb, if◌then◌else◌, Run, ok, fault,
}
use uvg_torrent.Base
use uvg_torrent.Libc.{CString, skip_space}
use uvg_torrent.Libc.Search.{starts_with, strstr, distance}
use uvg_torrent.Words.{Host}
use uvg_torrent.Os.{received_into}
use uvg_torrent.Os.Ends.{Ends, Ends-bind, Ends-if}
use uvg_torrent.Tracker.Announce.{hash_bytes}
use uvg_torrent.Tracker.Ends.Parts.{hash_bytes-Ends}
use uvg_torrent.Peer.{our_peer_id}
use uvg_torrent.Peer.Stream.{Message, is_positive}
use uvg_torrent.Peer.Handshake
use uvg_torrent.Peer.ExtendedHandshake
use uvg_torrent.Peer.ExtendedHandshake.{
  copy_number, read_number, number_after, all_digits, without_sign,
}
use uvg_torrent.Peer.Metadata
use uvg_torrent.Peer.Metadata.{Slack}

pub handshake-Ends :
    (slack : ℕ) (heap garbage : ℕ → ℕ) (info_hash : CString)
    → Ends (Handshake.packet_init slack heap garbage info_hash our_peer_id)
unfolding Handshake.packet_init Handshake.request_init
handshake-Ends slack heap garbage info_hash =
    Ends-bind (Handshake.request_init slack heap garbage info_hash our_peer_id) _
      (Ends-bind (hash_bytes 20 0 garbage info_hash) _ (hash_bytes-Ends 20 0 garbage info_hash)
        λ bytes. search (Ends-if, tt))
      λ request. tt

strstr-Ends : (p : ℕ) (text : List ℕ) (key : CString) → Ends (strstr p text key)
unfolding strstr
strstr-Ends p [] key = tt
strstr-Ends p (c ∷ text) key =
    Ends-if (starts_with key (c ∷ text)) (ok (some p)) _ tt
      (Ends-if (c == 0) (ok none) _ tt (strstr-Ends (p + 1) text key))

copy_number-Ends : (n : ℕ) (text : List ℕ) → Ends (copy_number n text)
unfolding copy_number
copy_number-Ends zero text = tt
copy_number-Ends (suc n) [] = tt
copy_number-Ends (suc n) (c ∷ text) =
    Ends-if (c == b'e') (ok ([], true)) _ tt
      (Ends-bind (copy_number n text) _ (copy_number-Ends n text) λ copied. tt)

read_number-Ends : (copied : List ℕ × Base.Bool) → Ends (read_number copied)
unfolding read_number
read_number-Ends (chars, true) = tt
read_number-Ends (chars, false) =
    Ends-if (all_digits (without_sign (skip_space chars))) fault _ tt tt

number_after-Ends :
    (address : ℕ) (text : List ℕ) (key : CString) (res_size : ℕ)
    → Ends (number_after address text key res_size)
unfolding number_after
number_after-Ends address text key res_size =
    Ends-bind (strstr 0 text key) _ (strstr-Ends 0 text key) λ result.
      let position = distance address result in
      Ends-if (leb (2 ^ 31) position) fault _ tt (
        Ends-if (ltb position res_size) _ (ok none)
          (Ends-bind (copy_number 10 (drop (position + length key) text)) _
            (copy_number-Ends 10 (drop (position + length key) text))
            λ copied. Ends-bind (read_number copied) _ (read_number-Ends copied) λ number. tt)
          tt)

pub extended_answered-Ends :
    (frame : ℕ) (garbage : ℕ → ℕ) (p : ExtendedHandshake.Packet) (out : Option (List ℕ))
    → Ends (ExtendedHandshake.answered frame garbage p out)
unfolding ExtendedHandshake.answered ExtendedHandshake.response_init
extended_answered-Ends frame garbage p none = tt
extended_answered-Ends frame garbage p (some bytes) =
    let raw = received_into garbage 2048 bytes in
    let find = λ (key : CString). number_after-Ends (frame + 6) (drop 6 raw) key (length bytes) in
    Ends-if (ltb 0 (length bytes)) _ _
      (Ends-bind (ExtendedHandshake.response_init frame raw (length bytes)) _
        (Ends-bind _ _ (find ExtendedHandshake.metadata_size_key)
          λ m. Ends-bind _ _ (find ExtendedHandshake.ut_metadata_key) λ u. tt)
        λ response. tt)
      tt

pub metadata-Ends :
    (host : Host) (slack : Slack) (heap : ℕ → ℕ) (piece ut : ℕ)
    → Ends (Metadata.packet_init host slack heap piece ut)
unfolding Metadata.packet_init Metadata.request_init Metadata.fill_bytes
metadata-Ends host slack heap piece ut =
    Ends-bind (Metadata.request_init host slack heap piece ut) _ (search (Ends-if, tt))
      λ request. tt

pub metadata_answered-Ends :
    (host : Host) (frame : ℕ) (heap : ℕ → ℕ) (p : Metadata.Packet) (m : Message)
    → Ends (Metadata.answered host frame heap p m)
unfolding Metadata.answered Metadata.response_init
metadata_answered-Ends host frame heap p m =
    Ends-if (is_positive m.bytes_received) _ _
      (Ends-bind (Metadata.response_init host frame heap m.out) _
        (search (Ends-if, Ends-bind, strstr-Ends, tt)) λ response. tt)
      tt
