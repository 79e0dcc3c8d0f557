-- ===== src/Sharding/Placement.antt =====
-- src/sharding.rs: where keys go.
use pgcat.Prelude.{
  ℕ, ◌+◌, ◌-◌, ◌/◌, ◌%◌, ◌^◌, ◌≤◌, ◌<◌, ◌≡◌, ◌⊎◌, arith, List, All, length, ltb, if◌then◌else◌,
}
use pgcat.Prelude.Result.{ok}
use pgcat.Prelude.Words.{bit_xor-zero, zero-bit_xor, not_u32}
use pgcat.Sharding.{
  Sharder, ShardingFunction, dispatch, pg_bigint_hash_function, sha1_function, pg_bigint_hash,
  rem_usize, shard, i64_to_string,
}
use pgcat.Sharding.Hash.{combine, pg_u32_hash, fold_key}
use pgcat.Sharding.Digest.{sha1_last_bytes}

combine_zero : (b : ℕ) → combine 0 b ≡ (b + 0x49a0f4dd15e5a8e3) % 2 ^ 64
unfolding combine
combine_zero b = rw zero-bit_xor (omega arith)

fold_key_int4 :
    (key : ℕ)
    → (key < 2 ^ 32) ⊎ (2 ^ 64 - 2 ^ 32 ≤ key)
    → key < 2 ^ 64
    → fold_key key ≡ key % 2 ^ 32
unfolding fold_key
fold_key_int4 key range h = rw high (bit_xor-zero (key % 2 ^ 32))
  where
    high : (if ltb key (2 ^ 63) then key / 2 ^ 32 % 2 ^ 32 else not_u32 (key / 2 ^ 32 % 2 ^ 32)) ≡ 0
    high = ground arith

-- A key that fits 32 bits, and a negative one down to -(2 ^ 32), is placed by the hash of its low 32
-- bits alone, so that an int and a bigint column agree.
pub pg_bigint_hash_int4 :
    (s : Sharder) (key : ℕ)
    → (key < 2 ^ 32) ⊎ (2 ^ 64 - 2 ^ 32 ≤ key)
    → key < 2 ^ 64
    → pg_bigint_hash s key
      ≡ rem_usize ((pg_u32_hash (key % 2 ^ 32) + 0x49a0f4dd15e5a8e3) % 2 ^ 64) s.shards
unfolding pg_bigint_hash
pg_bigint_hash_int4 s key range h = rw (fold_key_int4 key range h, combine_zero)

rem_usize_lt : (n m : ℕ) → 0 < m → (r : ℕ) × (rem_usize n m ≡ ok r) × (r < m)
unfolding rem_usize
rem_usize_lt n m h = (n % m, ground arith, omega arith)

module _ (digest : List ℕ → List ℕ) (s : Sharder) (key : ℕ) where
  dispatch_lt :
      (f : ShardingFunction)
      → All (λ b. b < 256) (digest (i64_to_string key))
      → 4 ≤ length (digest (i64_to_string key))
      → 0 < s.shards
      → (r : ℕ) × (dispatch digest f s key ≡ ok r) × (r < s.shards)
  unfolding dispatch pg_bigint_hash
  dispatch_lt pg_bigint_hash_function bytes four some_shards = rem_usize_lt _ s.shards some_shards
  dispatch_lt sha1_function bytes four some_shards =
      rw (sha1_last_bytes digest s key bytes four) (rem_usize_lt _ s.shards some_shards)

  -- With a digest of four bytes or more, either function places every key on one of the shards, when
  -- there are any.
  pub shard_lt :
      All (λ b. b < 256) (digest (i64_to_string key))
      → 4 ≤ length (digest (i64_to_string key))
      → 0 < s.shards
      → (r : ℕ) × (shard digest s key ≡ ok r) × (r < s.shards)
  unfolding shard
  shard_lt = dispatch_lt s.sharding_function
