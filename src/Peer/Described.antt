-- ===== src/Peer/Described.antt =====
-- Peers that answer the requests of `Peer_get_metadata` (peer/peer.c) with metadata that is as it
-- should be: the showing of it comes to an end.
use uvg_torrent.Base.{ℕ, suc, ◌<◌, ◌≡◌, false, some, List, ◌⊎◌, inl, inr, sym}
use mathlib.Core.Path.{subst}
use uvg_torrent.Words.{little}
use uvg_torrent.Os.{Os}
use uvg_torrent.Os.Ends.{Ends}
use uvg_torrent.Bencode.{Reader}
use uvg_torrent.Bencode.Documents.{Entries, Documents, dict, list, Reads, Fits}
use uvg_torrent.Bencode.Lookup.{find, IsTable}
use uvg_torrent.Peer.{Layout}
use uvg_torrent.Peer.Files.{files_key}
use uvg_torrent.Peer.Shown.{AreFiles, is_struct, show_metadata-printed, show_metadata_single}
use uvg_torrent.Peer.Ends.{Collected, ShowsEnd}

-- "files" is a list of files with a length and a path.
pub record HasFiles (fuel : ℕ) (es : Entries) : Type 0 where
  pub ds : Documents
  pub files : List (List ℕ × ℕ)
  pub found : find files_key es ≡ some (list ds)
  pub are : AreFiles fuel ds files

-- The reader reads a dictionary in these bytes, its keys in different buckets; "files" is a list of
-- files, or it is not there, or a number or a text.
pub record IsMetadata (reader : Reader) (law : Reads reader) (layout : Layout) (fuel : ℕ)
    (bytes : List ℕ) : Type 0 where
  pub es : Entries
  pub at : law.At (reader.init bytes) (dict es)
  pub fits : Fits layout.dict_key fuel (suc (suc fuel)) (dict es)
  pub is_table : IsTable (suc fuel) es
  pub described : HasFiles fuel es ⊎ (is_struct (find files_key es) ≡ false)

-- Whatever the peers answer is such metadata.
abbrev pub Described : Os → (reader : Reader) → Reads reader → Layout → ℕ → Type 0
Described os reader law layout fuel =
    (bytes : List ℕ)
    → Collected os little layout fuel bytes
    → IsMetadata reader law layout fuel bytes

pub Described-ShowsEnd :
    (os : Os) (reader : Reader) (law : Reads reader) (layout : Layout) (fuel : ℕ)
    → 0 < fuel
    → Described os reader law layout fuel
    → ShowsEnd os reader layout little fuel
Described-ShowsEnd os reader law layout fuel some_left described bytes collected =
    let m = described bytes collected in
    elim m.described [
      | inl h ↦
          subst Ends
            (sym (
              show_metadata-printed reader law layout fuel bytes m.es h.ds h.files m.at m.fits
                m.is_table h.found h.are some_left))
            tt
      | inr missing ↦
          subst Ends
            (sym (
              show_metadata_single reader law layout little fuel bytes m.es m.at m.fits m.is_table
                missing some_left))
            tt
    ]
