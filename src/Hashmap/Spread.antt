-- ===== src/Hashmap/Spread.antt =====
-- A hash table whose keys are in different buckets.
use uvg_torrent.Base.{
  ℕ, zero, suc, ◌+◌, ◌≤◌, ◌≡◌, refl, sym, some, inl, inr, ◌==◌, Bool-cases, List, [], ◌∷◌, length,
  ok, arith, Exit,
}
use mathlib.Core.Path.{subst}
use uvg_torrent.Libc.{CString, str_eq}
use uvg_torrent.Hashmap.{
  Hashmap, Bucket, null, bucket, new, get_at, bucket_get, bucket_index, bucket_destroy,
  destroy_buckets, destroy, max_hashtable_keys,
}
use uvg_torrent.Hashmap.Lookup.{with_bucket, set_fresh}
use uvg_torrent.Hashmap.Map.{set_all, IsSpread, IsFree, IsFree-with_bucket}

module _ {V : Type 0} where
  abbrev pub IsSingle : Bucket V → Type 0
  IsSingle null = Unit
  IsSingle (bucket k v null) = Unit
  IsSingle (bucket k v (bucket k' v' next)) = ⊥

  abbrev pub Singles : Hashmap V → Type 0
  Singles m = (i : ℕ) → IsSingle (m.buckets i)

  with_bucket-Singles :
      (m : Hashmap V) (k : CString) (v : V) → Singles m → Singles (with_bucket m k v)
  with_bucket-Singles m k v h i = elim (Bool-cases (bucket_index k == i)) [
    | inl here ↦ rw here tt
    | inr other ↦ rw other (h i)
  ]

  set_all-Singles_from :
      (kvs : List (CString × V)) (m : Hashmap V)
      → IsSpread kvs
      → IsFree m kvs
      → m.bucket_count + length kvs ≤ max_hashtable_keys
      → Singles m
      → Singles (set_all m kvs)
  unfolding set_all
  set_all-Singles_from [] m spread free room h = h
  set_all-Singles_from ((k, v) ∷ kvs) m spread free room h =
      subst (λ (r : Exit × Hashmap V). Singles (set_all r.1 kvs))
        (sym (set_fresh m k v free.0 (omega arith)))
        (set_all-Singles_from kvs (with_bucket m k v) spread.1
          (IsFree-with_bucket m k v kvs spread.0 free.1) (omega arith)
          (with_bucket-Singles m k v h))

  new-IsFree : (kvs : List (CString × V)) → IsFree new kvs
  unfolding new
  new-IsFree [] = tt
  new-IsFree ((k, v) ∷ kvs) = (refl, new-IsFree kvs)

  pub set_all-Singles :
      (kvs : List (CString × V))
      → IsSpread kvs
      → length kvs ≤ max_hashtable_keys
      → Singles (set_all new kvs)
  unfolding new
  set_all-Singles kvs spread room =
      set_all-Singles_from kvs new spread (new-IsFree kvs) (omega arith) λ i. tt

  bucket_destroy-IsSingle : (b : Bucket V) → IsSingle b → bucket_destroy b ≡ ok tt
  unfolding bucket_destroy
  bucket_destroy-IsSingle null h = refl
  bucket_destroy-IsSingle (bucket k v null) h = refl
  bucket_destroy-IsSingle (bucket k v (bucket k' v' next)) h = absurd h

  destroy_buckets-Singles :
      (n i : ℕ) (buckets : ℕ → Bucket V)
      → ((j : ℕ) → IsSingle (buckets j))
      → destroy_buckets n i buckets ≡ ok tt
  unfolding destroy_buckets
  destroy_buckets-Singles zero i buckets h = refl
  destroy_buckets-Singles (suc n) i buckets h =
      rw (bucket_destroy-IsSingle (buckets i) (h i)) (destroy_buckets-Singles n (i + 1) buckets h)

  -- A table whose buckets have one value each can be destroyed.
  pub destroy-Singles : (m : Hashmap V) → Singles m → destroy m ≡ ok tt
  unfolding destroy
  destroy-Singles m h = destroy_buckets-Singles max_hashtable_keys 0 m.buckets h

  -- What `get` finds in such a bucket is its value.
  pub found_alone :
      (fuel : ℕ) (b : Bucket V) (key : CString) (v : V)
      → IsSingle b
      → get_at (suc fuel) b key ≡ ok (some v)
      → (k : CString) × (b ≡ bucket k v null)
  unfolding get_at bucket_get
  found_alone fuel null key v h e = absurd cc
  found_alone fuel (bucket k w null) key v h e = elim (Bool-cases (str_eq k key)) [
    | inl same ↦ (k, let f = (rw same at e) in cc)
    | inr other ↦ absurd (let f = (rw other at e) in cc)
  ]
  found_alone fuel (bucket k w (bucket k' v' next)) key v h e = absurd h
