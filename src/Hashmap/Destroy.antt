-- ===== src/Hashmap/Destroy.antt =====
-- The end of a hash table.
use uvg_torrent.Base.{
  ℕ, zero, suc, ◌+◌, ◌≤◌, ◌<◌, ◌≡◌, refl, ap, ◌∙◌, true, some, ◌⊎◌, inl, inr, ◌==◌, ==_self, lt→ltb,
  ok, fault, ◌>>=◌, Bool-cases, eq_of_==, arith,
}
use uvg_torrent.Libc.{CString}
use uvg_torrent.Hashmap.Count.{bucket_index-lt}
use uvg_torrent.Hashmap.{
  Bucket, null, bucket, Hashmap, max_hashtable_keys, bucket_index, bucket_new, bucket_set,
  write_bucket, store_at, store_in, set, bucket_destroy, destroy_buckets, destroy,
}

module _ {V : Type 0} where
  bucket_destroy-cases : (b : Bucket V) → (bucket_destroy b ≡ ok tt) ⊎ (bucket_destroy b ≡ fault)
  unfolding bucket_destroy
  bucket_destroy-cases null = inl refl
  bucket_destroy-cases (bucket k v null) = inl refl
  bucket_destroy-cases (bucket k v (bucket k' v' next)) =
      elim (bucket_destroy-cases (bucket k' v' next)) [
        | inl e ↦ inr (rw e refl)
        | inr e ↦ inr (rw e refl)
      ]

  -- A bucket with another one behind it.
  bucket_destroy_chain :
      (k k' : CString) (v v' : V) (next : Bucket V)
      → bucket_destroy (bucket k v (bucket k' v' next)) ≡ fault
  unfolding bucket_destroy
  bucket_destroy_chain k k' v v' next = elim (bucket_destroy-cases (bucket k' v' next)) [
    | inl e ↦ rw e refl
    | inr e ↦ rw e refl
  ]

  bucket_destroy_set :
      (key k : CString) (value v : V) (next : Bucket V)
      → bucket_destroy (bucket_set true key value (bucket k v next)) ≡ fault
  unfolding bucket_set bucket_new
  bucket_destroy_set key k value v null = bucket_destroy_chain k key v value null
  bucket_destroy_set key k value v (bucket k' v' null) =
      bucket_destroy_chain k k' v v' (bucket key value null)
  bucket_destroy_set key k value v (bucket k' v' (bucket k₂ v₂ next)) =
      bucket_destroy_chain k k' v v' (bucket_set true key value (bucket k₂ v₂ next))

  destroy_buckets_fault :
      (n i j : ℕ) (buckets : ℕ → Bucket V)
      → i ≤ j
      → j < i + n
      → bucket_destroy (buckets j) ≡ fault
      → destroy_buckets n i buckets ≡ fault
  unfolding destroy_buckets
  destroy_buckets_fault zero i j buckets from below broken = absurd (omega arith)
  destroy_buckets_fault (suc n) i j buckets from below broken = elim (Bool-cases (i == j)) [
    | inl here ↦
        ap (λ b. b >>= λ done. destroy_buckets n (i + 1) buckets)
          (ap (λ k. bucket_destroy (buckets k)) (eq_of_== i j here) ∙ broken)
    | inr later ↦ elim (bucket_destroy-cases (buckets i)) [
      | inl done ↦
          rw done (destroy_buckets_fault n (i + 1) j buckets (ground arith) (omega arith) broken)
      | inr wrong ↦ rw wrong refl
    ]
  ]

  stored :
      (m : Hashmap V) (key k : CString) (value v : V) (next : Bucket V)
      → m.bucket_count < max_hashtable_keys
      → m.buckets (bucket_index key) ≡ bucket k v next
      → (set m (some key) (some value) true).1.buckets (bucket_index key)
        ≡ bucket_set true key value (bucket k v next)
  unfolding set store_in store_at
  stored m key k value v next room taken =
      let i = bucket_index key in
      rw (lt→ltb m.bucket_count max_hashtable_keys room)
        (ap (λ b. (store_at b i true key value m).buckets i) taken ∙ rw (==_self i) refl)

  -- A table in which a second value was stored in a bucket cannot be destroyed: its bucket is freed
  -- twice. There was a bucket where the key hashes to, the table is not full, and memory is left.
  pub set-destroy :
      (m : Hashmap V) (key k : CString) (value v : V) (next : Bucket V)
      → m.bucket_count < max_hashtable_keys
      → m.buckets (bucket_index key) ≡ bucket k v next
      → destroy (set m (some key) (some value) true).1 ≡ fault
  unfolding destroy
  set-destroy m key k value v next room taken =
      destroy_buckets_fault max_hashtable_keys 0 (bucket_index key)
        (set m (some key) (some value) true).1.buckets (omega arith) (bucket_index-lt key)
        (ap bucket_destroy (stored m key k value v next room taken)
          ∙ bucket_destroy_set key k value v next)

  destroy_buckets_done :
      (n i : ℕ) (buckets : ℕ → Bucket V)
      → ((j : ℕ) → bucket_destroy (buckets j) ≡ ok tt)
      → destroy_buckets n i buckets ≡ ok tt
  unfolding destroy_buckets
  destroy_buckets_done zero i buckets fine = refl
  destroy_buckets_done (suc n) i buckets fine =
      rw (fine i) (destroy_buckets_done n (i + 1) buckets fine)

  -- A table of two buckets, each with one key, is destroyed.
  pub destroy_two :
      (i i' count : ℕ) (k k' : CString) (v v' : V)
      → destroy (record {
        bucket_count = count;
        buckets =
            write_bucket (write_bucket (λ j. null) i (bucket k v null)) i' (bucket k' v' null);
      })
        ≡ ok tt
  unfolding destroy
  destroy_two i i' count k k' v v' = destroy_buckets_done max_hashtable_keys 0 _ at_bucket
    where
      at_bucket :
          (j : ℕ)
          → bucket_destroy
              (write_bucket (write_bucket (λ j. null) i (bucket k v null)) i' (bucket k' v' null) j)
            ≡ ok tt
      at_bucket j = elim (Bool-cases (i' == j)) [
        | inl second ↦ rw second (unfold bucket_destroy in refl)
        | inr other ↦ rw other (elim (Bool-cases (i == j)) [
          | inl first ↦ rw first (unfold bucket_destroy in refl)
          | inr free ↦ rw free (unfold bucket_destroy in refl)
        ])
      ]
