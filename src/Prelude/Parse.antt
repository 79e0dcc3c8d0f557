-- ===== src/Prelude/Parse.antt =====
-- `str::parse` of std for decimal numbers, on the bytes of a text.
use pgcat.Prelude.{
  ℕ, ◌%◌, ◌^◌, ◌-◌, ◌*◌, ◌+◌, Bool, false, Option, none, some, List, [], ◌∷◌, ltb, leb, ◌==◌,
  if◌then◌else◌,
}

abbrev pub is_digit : ℕ → Bool
is_digit b = if ltb b b'0' then false else leb b b'9'

unfoldable pub digits_from : ℕ → List ℕ → Option ℕ
digits_from acc [] = some acc
digits_from acc (b ∷ bs) =
    let rest = digits_from (acc * 10 + (b - b'0')) bs in if is_digit b then rest else none

unfoldable pub parse_digits : List ℕ → Option ℕ
unfolding digits_from
parse_digits [] = none
parse_digits (b ∷ bs) = digits_from 0 (b ∷ bs)

abbrev below : ℕ → Option ℕ → Option ℕ
below bound none = none
below bound (some n) = if ltb n bound then some n else none

abbrev negated : Option ℕ → Option ℕ
negated none = none
negated (some n) = if leb n (2 ^ 63) then some ((2 ^ 64 - n) % 2 ^ 64) else none

-- `parse::<usize>` and `parse::<i64>`; the latter answers a bit pattern.
unfoldable pub parse_usize : List ℕ → Option ℕ
unfolding parse_digits
parse_usize [] = none
parse_usize (b ∷ bs) =
    if b == b'+' then below (2 ^ 64) (parse_digits bs) else below (2 ^ 64) (parse_digits (b ∷ bs))

unfoldable pub parse_i64 : List ℕ → Option ℕ
unfolding parse_digits
parse_i64 [] = none
parse_i64 (b ∷ bs) =
    if b == b'+'
    then below (2 ^ 63) (parse_digits bs)
    else if b == b'-'
    then negated (parse_digits bs)
    else below (2 ^ 63) (parse_digits (b ∷ bs))

abbrev negated_i16 : Option ℕ → Option ℕ
negated_i16 none = none
negated_i16 (some n) = if leb n (2 ^ 15) then some ((2 ^ 16 - n) % 2 ^ 16) else none

-- `parse::<i16>`, which answers a bit pattern too.
unfoldable pub parse_i16 : List ℕ → Option ℕ
unfolding parse_digits
parse_i16 [] = none
parse_i16 (b ∷ bs) =
    if b == b'+'
    then below (2 ^ 15) (parse_digits bs)
    else if b == b'-'
    then negated_i16 (parse_digits bs)
    else below (2 ^ 15) (parse_digits (b ∷ bs))

abbrev extend_first : ℕ → List (List ℕ) → List (List ℕ)
extend_first b [] = (b ∷ []) ∷ []
extend_first b (part ∷ parts) = (b ∷ part) ∷ parts

-- `split` on one byte: one part more than there are such bytes.
unfoldable pub split : ℕ → List ℕ → List (List ℕ)
split separator [] = [] ∷ []
split separator (b ∷ bs) =
    let rest = split separator bs in if b == separator then [] ∷ rest else extend_first b rest

-- `replace` of a one-byte text by the empty text.
unfoldable pub without : ℕ → List ℕ → List ℕ
without b [] = []
without b (x ∷ xs) = let rest = without b xs in if x == b then rest else x ∷ rest
