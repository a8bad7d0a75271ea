-- ===== src/Hashmap/Collisions.antt =====
-- What happens to two keys in one bucket of hashmap.c.
use uvg_torrent.Base.{
  ℕ, zero, suc, ◌<◌, ◌≡◌, refl, ap, ◌∙◌, true, false, some, lt→ltb, ltb, inl, inr, Bool-cases, ok,
  out_of_fuel, exit_success, ==_self,
}
use uvg_torrent.Libc.{CString, str_eq, str_eq_self}
use uvg_torrent.Hashmap.{
  max_hashtable_keys, Bucket, null, bucket, Hashmap, bucket_index, bucket_set, bucket_get, store_at,
  get_at, set, get,
}

module _ {V : Type 0} where
  -- `Bucket_get` on a chain of two or more never returns, if the first key is another one.
  pub bucket_get_diverges :
      (fuel : ℕ) (k key : CString) (v : V) (k' : CString) (v' : V) (next : Bucket V)
      → str_eq k key ≡ false
      → bucket_get fuel (bucket k v (bucket k' v' next)) key ≡ out_of_fuel
  unfolding bucket_get
  bucket_get_diverges zero k key v k' v' next other = refl
  bucket_get_diverges (suc fuel) k key v k' v' next other =
      rw other (bucket_get_diverges fuel k key v k' v' next other)

  -- A key that is stored, below the table's size, into a bucket that another key holds alone cannot be
  -- read back: `get` uses up any fuel.
  pub get-set_collision :
      (fuel : ℕ) (m : Hashmap V) (k key : CString) (v w : V)
      → m.buckets (bucket_index key) ≡ bucket k v null
      → str_eq k key ≡ false
      → m.bucket_count < max_hashtable_keys
      → (set m (some key) (some w) true).0 ≡ exit_success
        × (get fuel (set m (some key) (some w) true).1 (some key) ≡ out_of_fuel)
  unfolding get set
  get-set_collision fuel m k key v w held other room =
      rw (lt→ltb m.bucket_count max_hashtable_keys room) (
        refl,
        (ap
              (λ b.
                get_at fuel
                  ((store_at b (bucket_index key) true key w m).buckets (bucket_index key)) key)
              held
            ∙ rw (==_self (bucket_index key)) (get_at_diverges fuel)),
      )
    where
      get_at_diverges : (n : ℕ) → get_at n (bucket k v (bucket key w null)) key ≡ out_of_fuel
      get_at_diverges n = bucket_get_diverges n k key v key w null other

  first_key :
      (fuel : ℕ) (key : CString) (v : V) (next : Bucket V)
      → get_at (suc fuel) (bucket key v next) key ≡ ok (some v)
  unfolding get_at
  first_key fuel key v next = rw (str_eq_self key) refl

  first_key_kept :
      (fuel : ℕ) (key : CString) (v w : V) (next : Bucket V)
      → get_at (suc fuel) (bucket_set true key w (bucket key v next)) key ≡ ok (some v)
  unfolding bucket_set
  first_key_kept fuel key v w null = first_key fuel key v (bucket key w null)
  first_key_kept fuel key v w (bucket k u n) =
      first_key fuel key v (bucket_set true key w (bucket k u n))

  -- `set` of the first key of a bucket keeps the value that the key has.
  pub get-set_again :
      (fuel : ℕ) (m : Hashmap V) (key : CString) (v w : V) (next : Bucket V)
      → m.buckets (bucket_index key) ≡ bucket key v next
      → get (suc fuel) (set m (some key) (some w) true).1 (some key) ≡ ok (some v)
  unfolding get set
  get-set_again fuel m key v w next held =
      let i = bucket_index key in
      elim (Bool-cases (ltb m.bucket_count max_hashtable_keys)) [
        | inl room ↦ rw room (
            ap (λ b. get_at (suc fuel) ((store_at b i true key w m).buckets i) key) held
            ∙ rw (==_self i) (first_key_kept fuel key v w next))
        | inr full ↦ rw full (ap (λ b. get_at (suc fuel) b key) held ∙ first_key fuel key v next)
      ]
