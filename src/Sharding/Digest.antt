-- ===== src/Sharding/Digest.antt =====
-- src/sharding.rs: the sha1 function read as a number in base 256.
use pgcat.Prelude.{
  ℕ, zero, suc, ◌+◌, ◌-◌, ◌*◌, ◌/◌, ◌%◌, ◌≤◌, ◌<◌, ◌≡◌, refl, arith, List, [], ◌∷◌, length, drop,
  All, some, le→ltb,
}
use pgcat.Sharding.{Sharder, hex_digit, to_hex, hex_value, from_hex, i64_to_string, sha1, rem_usize}

hex_value-hex_digit : (d : ℕ) → d < 16 → hex_value (hex_digit d) ≡ some d
unfolding hex_value hex_digit
hex_value-hex_digit d h = ground arith

-- A number in base 256, highest byte first.
abbrev pub be_value : ℕ → List ℕ → ℕ
be_value acc [] = acc
be_value acc (b ∷ bs) = be_value (acc * 256 + b) bs

from_hex-to_hex :
    (bs : List ℕ) (acc : ℕ)
    → All (λ b. b < 256) bs
    → from_hex acc (to_hex bs) ≡ some (be_value acc bs)
unfolding from_hex to_hex
from_hex-to_hex [] acc h = refl
from_hex-to_hex (b ∷ bs) acc (hb, hbs) = ground (
  arith,
  hex_value-hex_digit (b / 16) (omega arith),
  hex_value-hex_digit (b % 16) (omega arith),
  from_hex-to_hex bs (acc * 256 + b) hbs,
)

length-to_hex : (bs : List ℕ) → length (to_hex bs) ≡ 2 * length bs
unfolding to_hex
length-to_hex [] = omega arith
length-to_hex (b ∷ bs) = omega (arith, length-to_hex bs)

abbrev double : ℕ → ℕ
double zero = zero
double (suc n) = suc (suc (double n))

double-eq : (n : ℕ) → double n ≡ 2 * n
double-eq zero = omega arith
double-eq (suc n) = omega (arith, double-eq n)

drop-to_hex : (n : ℕ) (bs : List ℕ) → drop (double n) (to_hex bs) ≡ to_hex (drop n bs)
unfolding to_hex
drop-to_hex zero bs = refl
drop-to_hex (suc n) [] = refl
drop-to_hex (suc n) (b ∷ bs) = drop-to_hex n bs

All-drop : (n : ℕ) (bs : List ℕ) → All (λ b. b < 256) bs → All (λ b. b < 256) (drop n bs)
All-drop zero bs h = h
All-drop (suc n) [] h = h
All-drop (suc n) (b ∷ bs) h = All-drop n bs h.1

-- The digits that `sha1` parses are those of the last four bytes.
pub from_hex_tail :
    (bs : List ℕ)
    → All (λ b. b < 256) bs
    → 4 ≤ length bs
    → from_hex 0 (drop (length (to_hex bs) - 8) (to_hex bs))
      ≡ some (be_value 0 (drop (length bs - 4) bs))
from_hex_tail bs h four =
    rw (cut, drop-to_hex (length bs - 4) bs)
      (from_hex-to_hex (drop (length bs - 4) bs) 0 (All-drop (length bs - 4) bs h))
  where
    cut : length (to_hex bs) - 8 ≡ double (length bs - 4)
    cut = omega (arith, length-to_hex bs, double-eq (length bs - 4))

-- On a digest of four bytes or more, the key goes to the shard that the last four bytes of the
-- digest of its decimal form give, as a number with the highest byte first, modulo the shards.
pub sha1_last_bytes :
    (digest : List ℕ → List ℕ) (s : Sharder) (key : ℕ)
    → let bs = digest (i64_to_string key) in
      All (λ b. b < 256) bs
      → 4 ≤ length bs
      → sha1 digest s key ≡ rem_usize (be_value 0 (drop (length bs - 4) bs)) s.shards
unfolding sha1
sha1_last_bytes digest s key h four =
    let bs = digest (i64_to_string key) in
    rw (le→ltb (length (to_hex bs)) 8 (omega (arith, length-to_hex bs)), from_hex_tail bs h four)
