-- ===== src/Hashmap/Map.antt =====
-- hashmap.c refines an association list, as long as no two stored keys share a bucket.
use uvg_torrent.Base.{
  ℕ, suc, ◌+◌, ◌≤◌, ◌<◌, ◌≡◌, ◌≢◌, refl, sym, ap, ◌∙◌, true, false, inl, inr, Bool-cases, Option,
  none, some, List, [], ◌∷◌, arith, ◌==◌, if◌then◌else◌, Exit, Run, ok, length,
}
use uvg_torrent.Libc.{CString, str_eq, str_eq_sound}
use uvg_torrent.Hashmap.{max_hashtable_keys, null, Hashmap, bucket_index, new, set, get, get_at}
use uvg_torrent.Hashmap.Lookup.{with_bucket, set_fresh, get-set}

module _ {V : Type 0} where
  unfoldable pub set_all : Hashmap V → List (CString × V) → Hashmap V
  set_all m [] = m
  set_all m ((k, v) ∷ kvs) = set_all (set m (some k) (some v) true).1 kvs

  unfoldable pub lookup : CString → List (CString × V) → Option V
  lookup j [] = none
  lookup j ((k, v) ∷ kvs) = if str_eq k j then some v else lookup j kvs

  -- No key of the list hashes to bucket `i`.
  abbrev pub Elsewhere : ℕ → List (CString × V) → Type 0
  Elsewhere i [] = Unit
  Elsewhere i ((k, v) ∷ kvs) = (bucket_index k ≢ i) × Elsewhere i kvs

  abbrev pub IsSpread : List (CString × V) → Type 0
  IsSpread [] = Unit
  IsSpread ((k, v) ∷ kvs) = Elsewhere (bucket_index k) kvs × IsSpread kvs

  abbrev pub IsFree : Hashmap V → List (CString × V) → Type 0
  IsFree m [] = Unit
  IsFree m ((k, v) ∷ kvs) = (m.buckets (bucket_index k) ≡ null) × IsFree m kvs

  lookup-Elsewhere :
      (j : CString) (kvs : List (CString × V))
      → Elsewhere (bucket_index j) kvs
      → lookup j kvs ≡ none
  unfolding lookup
  lookup-Elsewhere j [] h = refl
  lookup-Elsewhere j ((k, v) ∷ kvs) h = elim (Bool-cases (str_eq k j)) [
    | inl e ↦ absurd (h.0 (ap bucket_index (str_eq_sound k j e)))
    | inr e ↦ rw e (lookup-Elsewhere j kvs h.1)
  ]

  pub IsFree-with_bucket :
      (m : Hashmap V) (k : CString) (v : V) (kvs : List (CString × V))
      → Elsewhere (bucket_index k) kvs
      → IsFree m kvs
      → IsFree (with_bucket m k v) kvs
  IsFree-with_bucket m k v [] away free = tt
  IsFree-with_bucket m k v ((j, w) ∷ kvs) away free =
      let apart : (bucket_index k == bucket_index j) ≡ false = ground arith in
      (rw apart free.0, IsFree-with_bucket m k v kvs away.1 free.1)

  or_get : Option V → Run (Option V) → Run (Option V)
  or_get none r = r
  or_get (some v) r = ok (some v)

  get-set_all_from :
      (fuel : ℕ) (j : CString) (kvs : List (CString × V)) (m : Hashmap V)
      → IsSpread kvs
      → IsFree m kvs
      → m.bucket_count + length kvs ≤ max_hashtable_keys
      → get (suc fuel) (set_all m kvs) (some j) ≡ or_get (lookup j kvs) (get (suc fuel) m (some j))
  unfolding set_all lookup or_get
  get-set_all_from fuel j [] m spread free room = refl
  get-set_all_from fuel j ((k, v) ∷ kvs) m spread free room =
      let m' = with_bucket m k v in
      let space : m.bucket_count < max_hashtable_keys = omega arith in
      let stored = set_fresh m k v free.0 space in
      let rest =
        get-set_all_from fuel j kvs m' spread.1 (IsFree-with_bucket m k v kvs spread.0 free.1)
          (omega arith) in
      let here =
        ap (λ r. get (suc fuel) r (some j)) (ap (λ (r : Exit × Hashmap V). r.1) (sym stored))
        ∙ get-set m k v fuel j free.0 space in
      ap (λ (r : Exit × Hashmap V). get (suc fuel) (set_all r.1 kvs) (some j)) stored
      ∙ rest
      ∙ rw here (elim (Bool-cases (str_eq k j)) [
        | inl e ↦ rw (e, lookup-Elsewhere j kvs (rw (str_eq_sound k j e) at spread.0)) refl
        | inr e ↦ rw e refl
      ])

  -- After storing keys of distinct buckets, no more than there are buckets, into an empty map, `get` is lookup in the list of what was
  -- stored: it answers for stored and for absent keys alike, and never recurses.
  pub get-set_all :
      (fuel : ℕ) (j : CString) (kvs : List (CString × V))
      → IsSpread kvs
      → length kvs ≤ max_hashtable_keys
      → get (suc fuel) (set_all new kvs) (some j) ≡ ok (lookup j kvs)
  get-set_all fuel j kvs spread room =
      get-set_all_from fuel j kvs new spread (free kvs) (unfold new in omega arith)
      ∙ collapse (lookup j kvs)
    where
      free : (kvs : List (CString × V)) → IsFree new kvs
      free [] = tt
      free ((k, v) ∷ kvs) = (unfold new in refl, free kvs)

      collapse : (o : Option V) → or_get o (get (suc fuel) new (some j)) ≡ ok o
      collapse none = unfold or_get get new get_at in refl
      collapse (some v) = unfold or_get in refl
