-- ===== src/Sharding/Hash.antt =====
-- src/sharding.rs, the hash that Postgres uses for HASH partitions of a bigint.
use Prim.Native.Nat.{bit_or, bit_xor}
use pgcat.Prelude.{ℕ, ◌+◌, ◌-◌, ◌*◌, ◌/◌, ◌%◌, ◌^◌, ltb, if◌then◌else◌}
use pgcat.Prelude.Words.{wrapping_add_u32, wrapping_sub_u32, wrapping_add_u64, not_u32}

abbrev pub partition_hash_seed : ℕ
partition_hash_seed = 0x7A5B22367996DCFD

-- `(x << k) | (x >> (32 - k))`
rot : ℕ → ℕ → ℕ
rot x k = bit_or (x * 2 ^ k % 2 ^ 32) (x / 2 ^ (32 - k))

-- One line of `mix`: `x -= z; x ^= rot(z, k); z += y`, answering the new x and z.
mix_line : ℕ → ℕ → ℕ → ℕ → ℕ × ℕ
unfolding rot
mix_line x y z k = (bit_xor (wrapping_sub_u32 x z) (rot z k), wrapping_add_u32 z y)

mix : ℕ → ℕ → ℕ → ℕ × ℕ × ℕ
unfolding mix_line
mix a b c =
    let (a, c) = mix_line a b c 4 in
    let (b, a) = mix_line b c a 6 in
    let (c, b) = mix_line c a b 8 in
    let (a, c) = mix_line a b c 16 in
    let (b, a) = mix_line b c a 19 in let (c, b) = mix_line c a b 4 in (a, b, c)

-- One line of `_final`: `x ^= y; x -= rot(y, k)`.
final_line : ℕ → ℕ → ℕ → ℕ
unfolding rot
final_line x y k = wrapping_sub_u32 (bit_xor x y) (rot y k)

final : ℕ → ℕ → ℕ → ℕ × ℕ × ℕ
unfolding final_line
final a b c =
    let c = final_line c b 14 in
    let a = final_line a c 11 in
    let b = final_line b a 25 in
    let c = final_line c b 16 in
    let a = final_line a c 4 in let b = final_line b a 14 in let c = final_line c b 24 in (a, b, c)

unfoldable pub combine : ℕ → ℕ → ℕ
combine a b = bit_xor a (
    wrapping_add_u64
      (wrapping_add_u64 (wrapping_add_u64 b 0x49a0f4dd15e5a8e3) (a * 2 ^ 54 % 2 ^ 64)) (a / 2 ^ 7))

unfoldable pub pg_u32_hash : ℕ → ℕ
unfolding mix final
pg_u32_hash k =
    let init : ℕ = 0x9e3779b9 + 4 + 3923095 in
    let a = wrapping_add_u32 init (partition_hash_seed / 2 ^ 32 % 2 ^ 32) in
    let b = wrapping_add_u32 init (partition_hash_seed % 2 ^ 32) in
    let (a, b, c) = mix a b init in
    let (_, b, c) = final (wrapping_add_u32 a k) b c in bit_or (b * 2 ^ 32 % 2 ^ 64) c

-- The low half of the key, folded with the high half; an i64 is negative from 2 ^ 63 on.
unfoldable pub fold_key : ℕ → ℕ
fold_key key =
    let lohalf = key % 2 ^ 32 in
    let hihalf = key / 2 ^ 32 % 2 ^ 32 in
    bit_xor lohalf (if ltb key (2 ^ 63) then hihalf else not_u32 hihalf)
