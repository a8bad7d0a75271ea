-- ===== src/Hashmap/Count.antt =====
-- `bucket_count` of hashmap.c counts the buckets in use, and `set` stops at the table's size.
use uvg_torrent.Base.{
  ℕ, zero, suc, ◌+◌, ◌≤◌, ◌<◌, ◌≡◌, refl, sym, ap, ◌∙◌, Bool, true, false, inl, inr, Bool-cases,
  none, some, arith, ◌==◌, ltb, lt→ltb, if◌then◌else◌, ok, exit_success, exit_failure, ==_self,
  eq_of_==,
}
use uvg_torrent.Libc.{CString}
use uvg_torrent.Hashmap.{
  max_hashtable_keys, Bucket, null, bucket, Hashmap, bucket_index, bucket_new, bucket_set, new,
  write_bucket, store_in, store_at, set, get, get_at,
}

pub bucket_index-lt : (key : CString) → bucket_index key < max_hashtable_keys
unfolding bucket_index
bucket_index-lt key = omega arith

module _ {V : Type 0} where
  unfoldable pub used : Bucket V → ℕ
  used null = 0
  used (bucket k v next) = 1

  -- The buckets in use among the first `n`.
  unfoldable pub occupied : ℕ → (ℕ → Bucket V) → ℕ
  unfolding used
  occupied zero bs = 0
  occupied (suc n) bs = used (bs n) + occupied n bs

  occupied-write_above :
      (n i : ℕ) (b : Bucket V) (bs : ℕ → Bucket V)
      → n ≤ i
      → occupied n (write_bucket bs i b) ≡ occupied n bs
  unfolding occupied
  occupied-write_above zero i b bs h = refl
  occupied-write_above (suc n) i b bs h =
      let apart : (i == n) ≡ false = ground arith in
      rw (apart, occupied-write_above n i b bs (omega arith)) refl

  occupied-write :
      (n i : ℕ) (b : Bucket V) (bs : ℕ → Bucket V)
      → i < n
      → occupied n (write_bucket bs i b) + used (bs i) ≡ occupied n bs + used b
  occupied-write zero i b bs h = absurd (omega arith)
  occupied-write (suc n) i b bs h = elim (Bool-cases (i == n)) [
    | inl same ↦ at_top n i b bs same
    | inr apart ↦ below n i b bs apart (occupied-write n i b bs (ground arith))
  ]
    where
      at_top :
          (n i : ℕ) (b : Bucket V) (bs : ℕ → Bucket V)
          → (i == n) ≡ true
          → occupied (suc n) (write_bucket bs i b) + used (bs i) ≡ occupied (suc n) bs + used b
      at_top n i b bs same =
          let e : i ≡ n = eq_of_== i n same in
          unfold occupied in rw (same, occupied-write_above n i b bs (omega arith), e) (omega arith)

      below :
          (n i : ℕ) (b : Bucket V) (bs : ℕ → Bucket V)
          → (i == n) ≡ false
          → occupied n (write_bucket bs i b) + used (bs i) ≡ occupied n bs + used b
          → occupied (suc n) (write_bucket bs i b) + used (bs i) ≡ occupied (suc n) bs + used b
      below n i b bs apart ih = unfold occupied in rw apart (omega (arith, ih))

  abbrev pub IsCounted : Hashmap V → Type 0
  IsCounted m = m.bucket_count ≡ occupied max_hashtable_keys m.buckets

  used_set :
      (memory : Bool) (key : CString) (w : V) (k : CString) (v : V) (next : Bucket V)
      → used (bucket_set memory key w (bucket k v next)) ≡ 1
  unfolding used bucket_set
  used_set memory key w k v null = refl
  used_set memory key w k v (bucket k' v' next) = refl

  store_at-IsCounted :
      (b : Bucket V) (i : ℕ) (key : CString) (w : V) (m : Hashmap V)
      → m.buckets i ≡ b
      → i < max_hashtable_keys
      → IsCounted m
      → IsCounted (store_at b i true key w m)
  unfolding store_at bucket_new
  store_at-IsCounted null i key w m held lt counted =
      let moved = occupied-write max_hashtable_keys i (bucket key w null) m.buckets lt in
      let before : used (m.buckets i) ≡ 0 = rw held (unfold used in refl) in
      let after : used (bucket key w null) ≡ 1 = unfold used in refl in
      omega (arith, moved, before, after, counted)
  store_at-IsCounted (bucket k v next) i key w m held lt counted =
      let b' = bucket_set true key w (bucket k v next) in
      let moved = occupied-write max_hashtable_keys i b' m.buckets lt in
      let before : used (m.buckets i) ≡ 1 = rw held (unfold used in refl) in
      omega (arith, moved, before, used_set true key w k v next, counted)

  -- While memory lasts, `bucket_count` is the number of buckets in use after every `set`, and a
  -- `set` of a key and a value succeeds exactly when the count is below the table's size.
  pub set-IsCounted :
      (m : Hashmap V) (key : CString) (w : V)
      → IsCounted m
      → IsCounted (set m (some key) (some w) true).1
        × ((set m (some key) (some w) true).0 ≡ (
            if ltb (occupied max_hashtable_keys m.buckets) max_hashtable_keys
            then exit_success
            else exit_failure))
  unfolding set store_in
  set-IsCounted m key w counted = elim (Bool-cases (ltb m.bucket_count max_hashtable_keys)) [
    | inl room ↦ (
      rw room (
          store_at-IsCounted (m.buckets (bucket_index key)) (bucket_index key) key w m refl
            (bucket_index-lt key) counted),
      rw (← counted) (rw room refl),
    )
    | inr full ↦ (rw full counted, rw (← counted) (rw full refl))
  ]

  -- When memory is exhausted a `set` into an empty bucket, below the table's size, reports success, counts a bucket, and
  -- stores nothing.
  set_exhausted :
      (fuel : ℕ) (m : Hashmap V) (key : CString) (w : V)
      → m.buckets (bucket_index key) ≡ null
      → m.bucket_count < max_hashtable_keys
      → let r = set m (some key) (some w) false in
        (r.0 ≡ exit_success)
        × (r.1.bucket_count ≡ m.bucket_count + 1)
        × (get fuel r.1 (some key) ≡ ok none)
  unfolding set store_in get
  set_exhausted fuel m key w empty room =
      let i = bucket_index key in
      rw (lt→ltb m.bucket_count max_hashtable_keys room) (
        refl,
        ap (λ b. (store_at b i false key w m).bucket_count) empty,
        ap (λ b. get_at fuel ((store_at b i false key w m).buckets i) key) empty
            ∙ rw (==_self i) refl,
      )

none_used : (V : Type 0) (n : ℕ) → occupied n (new {V = V}).buckets ≡ 0
unfolding occupied new
none_used V zero = refl
none_used V (suc n) = omega (arith, none_used V n)

-- The empty map is counted.
pub new-IsCounted : (V : Type 0) → IsCounted (new {V = V})
unfolding new
new-IsCounted V = sym (none_used V max_hashtable_keys)
