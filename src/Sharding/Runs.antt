-- ===== src/Sharding/Runs.antt =====
-- Test vectors of src/sharding.rs.
use pgcat.Prelude.{ℕ, zero, suc, ◌≡◌, refl, List, [], ◌∷◌, map}
use pgcat.Prelude.Result.{Result, ok}
use pgcat.Sharding.{Sharder, pg_bigint_hash_function, pg_bigint_hash, rem_usize}

abbrev five : Sharder
five = record { shards = 5; sharding_function = pg_bigint_hash_function }

abbrev all_ok : ℕ → ℕ → List (Result ⊥ ℕ)
all_ok zero n = []
all_ok (suc k) n = ok n ∷ all_ok k n

shard_0 :
    map (pg_bigint_hash five) (1 ∷ 4 ∷ 5 ∷ 14 ∷ 19 ∷ 39 ∷ 40 ∷ 46 ∷ 47 ∷ 53 ∷ []) ≡ all_ok 10 0
unfolding pg_bigint_hash rem_usize
shard_0 = refl
