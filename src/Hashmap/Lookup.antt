-- ===== src/Hashmap/Lookup.antt =====
-- hashmap.c as a map: what `get` answers after `set`, while no two stored keys share a bucket.
use uvg_torrent.Base.{
  ℕ, suc, ◌+◌, ◌<◌, ◌≡◌, refl, sym, ap, true, false, inl, inr, Bool-cases, some, ◌==◌, lt→ltb,
  if◌then◌else◌, ok, exit_success, ==_self, eq_of_==,
}
use uvg_torrent.Libc.{CString, str_eq, str_eq_sound}
use uvg_torrent.Hashmap.{
  max_hashtable_keys, null, bucket, Hashmap, bucket_index, write_bucket, store_at, get_at, set, get,
}

module _ {V : Type 0} (m : Hashmap V) (k : CString) (v : V) where
  -- The map that `set` leaves when the key's bucket is empty, with room and memory.
  abbrev pub with_bucket : Hashmap V
  with_bucket = record {
    bucket_count = m.bucket_count + 1;
    buckets = write_bucket m.buckets (bucket_index k) (bucket k v null);
  }

  pub set_fresh :
      m.buckets (bucket_index k) ≡ null
      → m.bucket_count < max_hashtable_keys
      → set m (some k) (some v) true ≡ (exit_success, with_bucket)
  unfolding set
  set_fresh empty room =
      rw (lt→ltb m.bucket_count max_hashtable_keys room)
        (ap (λ b. (exit_success, store_at b (bucket_index k) true k v m)) empty)

  get-with_bucket :
      (fuel : ℕ) (j : CString)
      → m.buckets (bucket_index k) ≡ null
      → get (suc fuel) with_bucket (some j)
        ≡ (if str_eq k j then ok (some v) else get (suc fuel) m (some j))
  unfolding get
  get-with_bucket fuel j empty = elim (Bool-cases (bucket_index k == bucket_index j)) [
    | inl same ↦ rw same (elim (Bool-cases (str_eq k j)) [
      | inl e ↦ rw e
      | inr e ↦ rw e (
          sym (
            ap (λ b. get_at (suc fuel) b j)
              (rw (eq_of_== (bucket_index k) (bucket_index j) same) at empty)))
    ])
    | inr apart ↦ rw (apart, other j apart) refl
  ]
    where
      other : (j : CString) → (bucket_index k == bucket_index j) ≡ false → str_eq k j ≡ false
      other j apart = elim (Bool-cases (str_eq k j)) [
        | inl e ↦ absurd (clash (rw (str_eq_sound k j e, ==_self (bucket_index j)) at apart))
        | inr e ↦ e
      ]
        where
          clash : true ≡ false → ⊥
          clash e = cc

  -- After `set` of a key whose bucket is empty, `get` answers the new value for that key and the
  -- old answer for every other key.
  pub get-set :
      (fuel : ℕ) (j : CString)
      → m.buckets (bucket_index k) ≡ null
      → m.bucket_count < max_hashtable_keys
      → get (suc fuel) (set m (some k) (some v) true).1 (some j)
        ≡ (if str_eq k j then ok (some v) else get (suc fuel) m (some j))
  get-set fuel j empty room = rw (set_fresh empty room) (get-with_bucket fuel j empty)
