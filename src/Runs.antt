-- ===== src/Runs.antt =====
-- Runs on concrete inputs, with a big-endian codec on bytes, ASCII texts and a cache that never evicts.
mod WireRuns
mod MessageRuns
mod ServerRuns
mod PoolRuns
mod RouterRuns
mod SelectionRuns
mod StatsRuns
mod ClientRuns
mod SessionRuns
mod ConfigRuns
use pgcat.Prelude.{
  ℕ, zero, suc, ◌+◌, ◌*◌, ◌/◌, ◌%◌, ◌^◌, ◌<◌, ◌≡◌, refl, ◌⊎◌, inl, inr, Bool, true, false, ◌&&◌,
  Option, none, some, List, [], ◌∷◌, ◌++◌, length, ltb, if◌then◌else◌, arith, Bool-cases, text_eq,
}
use pgcat.Wire.{Codec, IsCodec}
use pgcat.Server.State.{Lru}
use pgcat.Server.Parameters.{Text}

abbrev is_byte : ℕ → Bool
is_byte n = ltb n 256

abbrev get_16 : List ℕ → Option (ℕ × List ℕ)
get_16 (a ∷ (b ∷ rest)) = some (a * 256 + b, rest)
get_16 _ = none

abbrev get_32 : List ℕ → Option (ℕ × List ℕ)
get_32 (a ∷ (b ∷ (c ∷ (d ∷ rest)))) =
    if is_byte a && (is_byte b && (is_byte c && is_byte d))
    then some (a * 16777216 + b * 65536 + c * 256 + d, rest)
    else none
get_32 _ = none

abbrev is_ascii : List ℕ → Bool
is_ascii [] = true
is_ascii (b ∷ bs) = ltb b 128 && is_ascii bs

abbrev pub codec : Codec
codec = record {
  put_i16 = λ n. n / 256 ∷ (n % 256 ∷ []);
  get_i16 = get_16;
  put_i32 = λ n. n / 16777216 ∷ (n / 65536 % 256 ∷ (n / 256 % 256 ∷ (n % 256 ∷ [])));
  get_i32 = get_32;
  is_utf8 = is_ascii;
  from_utf8_lossy = λ bs. bs;
}

get_put_16 :
    (n : ℕ) (rest : List ℕ) → n < 2 ^ 16 → get_16 (codec.put_i16 n ++ rest) ≡ some (n, rest)
get_put_16 n rest h = ground arith

get_put_32 :
    (n : ℕ) (rest : List ℕ) → n < 2 ^ 32 → get_32 (codec.put_i32 n ++ rest) ≡ some (n, rest)
get_put_32 n rest h = ground arith

get_short_32 : (bs : List ℕ) → length bs < 4 → get_32 bs ≡ none
get_short_32 [] h = refl
get_short_32 (a ∷ []) h = refl
get_short_32 (a ∷ (b ∷ [])) h = refl
get_short_32 (a ∷ (b ∷ (c ∷ []))) h = refl
get_short_32 (a ∷ (b ∷ (c ∷ (d ∷ bs)))) h = absurd (omega arith)

get_32_split :
    (bs rest : List ℕ) (n : ℕ)
    → get_32 bs ≡ some (n, rest)
    → (bs ≡ codec.put_i32 n ++ rest) × (n < 2 ^ 32)
get_32_split [] rest n h = absurd (cc h)
get_32_split (a ∷ []) rest n h = absurd (cc h)
get_32_split (a ∷ (b ∷ [])) rest n h = absurd (cc h)
get_32_split (a ∷ (b ∷ (c ∷ []))) rest n h = absurd (cc h)
get_32_split (a ∷ (b ∷ (c ∷ (d ∷ bs)))) rest n h = ground arith

pub codec-IsCodec : IsCodec codec
codec-IsCodec = record {
  length_i16 = λ n. refl;
  length_i32 = λ n. refl;
  get_put_i16 = get_put_16;
  get_put_i32 = get_put_32;
  get_short_i32 = get_short_32;
  get_i32_split = get_32_split;
  lossy_of_utf8 = λ s h. refl;
}

abbrev member : Text → List Text → Bool
member k [] = false
member k (x ∷ xs) = let rest = member k xs in if text_eq k x then true else rest

abbrev without : Text → List Text → List Text
without k [] = []
without k (x ∷ xs) = let rest = without k xs in if text_eq k x then rest else x ∷ rest

abbrev pub cache : Lru
cache = record {
  Cache = List Text;
  get = λ k l. (member k l, l);
  push = λ k l. (none, k ∷ l);
  pop = without;
  clear = λ l. [];
  peek = λ l k. member k l;
}
