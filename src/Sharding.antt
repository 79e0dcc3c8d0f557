-- ===== src/Sharding.antt =====
-- src/sharding.rs: the shard of a sharding key. A u32, a u64 and an i64 are bit patterns, a usize
-- has 64 bits, and a remainder by zero shards is a panic. The digest of the sha1 crate is a parameter.
pub mod Hash
pub mod Digest
pub mod Placement
mod Runs
use pgcat.Prelude.{
  ℕ, zero, suc, ◌+◌, ◌-◌, ◌*◌, ◌/◌, ◌%◌, ◌^◌, ◌<◌, ◌==◌, ltb, leb, if◌then◌else◌, Bool, ◌&&◌,
  Option, none, some, List, [], ◌∷◌, ◌++◌, map, length, drop,
}
use pgcat.Prelude.Decimal.{decimal}
use pgcat.Prelude.Result.{Result, ok, panic, ◌>>=◌}
use Hash.{combine, pg_u32_hash, fold_key}
use mathlib.Core.List.{flat_map}

pub data ShardingFunction : Type 0 where
  pg_bigint_hash_function sha1_function : ShardingFunction

pub record Sharder : Type 0 where
  pub shards : ℕ
  pub sharding_function : ShardingFunction

unfoldable pub rem_usize : ℕ → ℕ → Result ⊥ ℕ
rem_usize n m = if m == 0 then panic else ok (n % m)

unfoldable pub pg_bigint_hash : Sharder → ℕ → Result ⊥ ℕ
unfolding combine pg_u32_hash fold_key
pg_bigint_hash s key = rem_usize (combine 0 (pg_u32_hash (fold_key key))) s.shards

-- `key.to_string()` of an i64.
pub i64_to_string : ℕ → List ℕ
unfolding decimal
i64_to_string key = if ltb key (2 ^ 63) then decimal 20 key else b'-' ∷ decimal 20 (2 ^ 64 - key)

hex_digit : ℕ → ℕ
hex_digit d = if ltb d 10 then b'0' + d else b'a' + (d - 10)

-- `format!("{:x}", digest)`: two lower-case digits for each byte.
pub to_hex : List ℕ → List ℕ
to_hex [] = []
to_hex (b ∷ bs) = hex_digit (b / 16) ∷ (hex_digit (b % 16) ∷ to_hex bs)

hex_value : ℕ → Option ℕ
hex_value c =
    if leb b'0' c && leb c b'9'
    then some (c - b'0')
    else if leb b'a' c && leb c b'f'
    then some (c - b'a' + 10)
    else if leb b'A' c && leb c b'F'
    then some (c - b'A' + 10)
    else none

-- The digits of `from_str_radix(…, 16)`; the eight that are parsed here cannot overflow an i64.
pub from_hex : ℕ → List ℕ → Option ℕ
from_hex acc [] = some acc
from_hex acc (c ∷ cs) = elim (hex_value c) [ none ↦ none | some d ↦ from_hex (acc * 16 + d) cs ]

abbrev unwrap : Option ℕ → Result ⊥ ℕ
unwrap none = panic
unwrap (some n) = ok n

-- `digest` is `Sha1::digest`, the bytes of the hash.
module _ (digest : List ℕ → List ℕ) where
  -- The last eight digits of the hash as a number.
  pub sha1 : Sharder → ℕ → Result ⊥ ℕ
  unfolding i64_to_string
  sha1 s key =
      let hex = to_hex (digest (i64_to_string key)) in
      if ltb (length hex) 8
      then panic
      else (unwrap (from_hex 0 (drop (length hex - 8) hex)) >>= λ n. rem_usize n s.shards)

  dispatch : ShardingFunction → Sharder → ℕ → Result ⊥ ℕ
  dispatch pg_bigint_hash_function = pg_bigint_hash
  dispatch sha1_function = sha1

  unfoldable pub shard : Sharder → ℕ → Result ⊥ ℕ
  unfolding dispatch
  shard s key = dispatch s.sharding_function s key
