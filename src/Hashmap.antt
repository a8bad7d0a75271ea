-- ===== src/Hashmap.antt =====
-- data_structures/hashmap: bucket.c and hashmap.c. A C string is the list of its bytes without
-- the terminating zero. A pointer to a bucket is the chain that it heads: NULL, or a bucket with
-- its `next`; a bucket owns its key, its copied value and its chain. `memory` says whether the
-- three allocations of a new bucket succeed.
pub mod Lookup
pub mod Count
pub mod Collisions
pub mod Map
pub mod Destroy
pub mod Spread
use uvg_torrent.Libc.{CString, str_eq}
use uvg_torrent.Base.{
  ℕ, zero, suc, ◌+◌, ◌-◌, ◌*◌, ◌/◌, ◌%◌, ◌^◌, ◌≡◌, bit_xor, Bool, true, false, Option, none, some,
  List, [], ◌∷◌, ◌==◌, ltb, if◌then◌else◌, Run, ok, fault, out_of_fuel, Exit, exit_success,
  exit_failure, length, ◌>>=◌,
}

abbrev pub max_hashtable_keys : ℕ
max_hashtable_keys = 10000

pub data Bucket (V : Type 0) : Type 0 where
  null : Bucket V
  bucket : CString → V → Bucket V → Bucket V

pub record Hashmap (V : Type 0) : Type 0 where
  pub bucket_count : ℕ
  pub buckets : ℕ → Bucket V

-- A `char` is signed: added to a `uint32_t` it is extended by its sign.
unfoldable pub sign_extend : ℕ → ℕ
sign_extend c = if ltb c 128 then c else 2 ^ 32 - 256 + c

-- One round of the loop of `Hashmap_get_hash`, in 32-bit arithmetic.
unfoldable pub hash_round : ℕ → ℕ → ℕ
unfolding sign_extend
hash_round hash c =
    let h₁ = (hash + sign_extend c) % 2 ^ 32 in
    let h₂ = (h₁ + h₁ * 2 ^ 10 % 2 ^ 32) % 2 ^ 32 in bit_xor h₂ (h₂ / 2 ^ 6)

unfoldable pub hash_loop : ℕ → CString → ℕ
unfolding hash_round
hash_loop hash [] = hash
hash_loop hash (c ∷ cs) = hash_loop (hash_round hash c) cs

unfoldable pub get_hash : CString → ℕ
unfolding hash_loop
get_hash key =
    let h₀ = hash_loop 0 key in
    let h₁ = (h₀ + h₀ * 2 ^ 3 % 2 ^ 32) % 2 ^ 32 in
    let h₂ = bit_xor h₁ (h₁ / 2 ^ 11) in (h₂ + h₂ * 2 ^ 15 % 2 ^ 32) % 2 ^ 32

unfoldable pub bucket_index : CString → ℕ
unfolding get_hash
bucket_index key = get_hash key % max_hashtable_keys

module _ {V : Type 0} where
  -- `NEW(Bucket, key, value, value_size)`: a bucket whose key or value cannot be copied is destroyed.
  unfoldable pub bucket_new : Bool → CString → V → Bucket V
  bucket_new memory key value = if memory then bucket key value null else null

  -- `Bucket_set` on a bucket that has a key: a new bucket goes to the end of the chain, whatever
  -- the keys on the way are, and success is reported whether or not it was made.
  unfoldable pub bucket_set : Bool → CString → V → Bucket V → Bucket V
  unfolding bucket_new
  bucket_set memory key value null = null
  bucket_set memory key value (bucket k v null) = bucket k v (bucket_new memory key value)
  bucket_set memory key value (bucket k v (bucket k' v' next)) =
      bucket k v (bucket_set memory key value (bucket k' v' next))

  -- `this->next->get(this, key)`: the call goes to the next bucket's function, with `this` again.
  unfoldable pub bucket_get : ℕ → Bucket V → CString → Run (Option V)
  unfolding str_eq
  bucket_get zero b key = out_of_fuel
  bucket_get (suc fuel) null key = fault
  bucket_get (suc fuel) (bucket k v next) key =
      let again = bucket_get fuel (bucket k v next) key in
      if str_eq k key then ok (some v) else elim next [ null ↦ ok none | bucket k' v' n ↦ again ]

  -- `Hashmap_init`.
  unfoldable pub new : Hashmap V
  new = record { bucket_count = 0; buckets = λ i. null }

  abbrev pub write_bucket : (ℕ → Bucket V) → ℕ → Bucket V → ℕ → Bucket V
  write_bucket bs i b j = if i == j then b else bs j

  -- The branches of `Hashmap_set` on the bucket that the key hashes to.
  unfoldable pub store_at : Bucket V → ℕ → Bool → CString → V → Hashmap V → Hashmap V
  unfolding bucket_set bucket_new
  store_at null i memory key value m = record {
    bucket_count = m.bucket_count + 1;
    buckets = write_bucket m.buckets i (bucket_new memory key value);
  }
  store_at (bucket k v next) i memory key value m = record m {
    buckets = write_bucket m.buckets i (bucket_set memory key value (bucket k v next));
  }

  unfoldable pub store_in : Bool → CString → V → Hashmap V → Hashmap V
  unfolding store_at
  store_in memory key value m =
      let i = bucket_index key in store_at (m.buckets i) i memory key value m

  -- The key and the value may be NULL.
  unfoldable pub set : Hashmap V → Option CString → Option V → Bool → Exit × Hashmap V
  unfolding store_in
  set m none value memory = (exit_failure, m)
  set m (some key) none memory = (exit_failure, m)
  set m (some key) (some value) memory =
      if ltb m.bucket_count max_hashtable_keys
      then (exit_success, store_in memory key value m)
      else (exit_failure, m)

  unfoldable pub get_at : ℕ → Bucket V → CString → Run (Option V)
  unfolding bucket_get
  get_at fuel null key = ok none
  get_at fuel (bucket k v next) key = bucket_get fuel (bucket k v next) key

  unfoldable pub get : ℕ → Hashmap V → Option CString → Run (Option V)
  unfolding get_at
  get fuel m none = ok none
  get fuel m (some key) = get_at fuel (m.buckets (bucket_index key)) key

  unfoldable pub get_bucket : Hashmap V → Option CString → Bucket V
  get_bucket m none = null
  get_bucket m (some key) = m.buckets (bucket_index key)

  -- `Bucket_destroy`: the next bucket frees itself, and is freed once more by the one before it.
  unfoldable pub bucket_destroy : Bucket V → Run (Unit {0})
  bucket_destroy null = ok tt
  bucket_destroy (bucket k v null) = ok tt
  bucket_destroy (bucket k v (bucket k' v' next)) =
      bucket_destroy (bucket k' v' next) >>= λ done. fault

  -- The loop of `Hashmap_destroy`, over `n` buckets from `i` on.
  unfoldable pub destroy_buckets : ℕ → ℕ → (ℕ → Bucket V) → Run (Unit {0})
  unfolding bucket_destroy
  destroy_buckets zero i buckets = ok tt
  destroy_buckets (suc n) i buckets =
      bucket_destroy (buckets i) >>= λ done. destroy_buckets n (i + 1) buckets

  unfoldable pub destroy : Hashmap V → Run (Unit {0})
  destroy m = destroy_buckets max_hashtable_keys 0 m.buckets
