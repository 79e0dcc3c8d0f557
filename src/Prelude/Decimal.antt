-- ===== src/Prelude/Decimal.antt =====
-- Decimal digits, as `to_string` and `format!` write a number.
use pgcat.Prelude.{
  ℕ, zero, suc, ◌+◌, ◌-◌, ◌*◌, ◌/◌, ◌%◌, ◌^◌, ◌<◌, ◌≡◌, refl, List, [], ◌∷◌, ◌++◌, ltb, arith, ap,
  if◌then◌else◌,
}

-- The digits of a number below 10 ^ fuel.
unfoldable pub decimal : ℕ → ℕ → List ℕ
decimal zero n = []
decimal (suc fuel) n =
    let front = decimal fuel (n / 10) in
    if ltb n 10 then (b'0' + n) ∷ [] else front ++ ((b'0' + n % 10) ∷ [])

-- The number that digits stand for.
abbrev digits_value : ℕ → List ℕ → ℕ
digits_value acc [] = acc
digits_value acc (d ∷ ds) = digits_value (acc * 10 + (d - b'0')) ds

digits_value-append :
    (ds : List ℕ) (acc d : ℕ)
    → digits_value acc (ds ++ (d ∷ [])) ≡ digits_value acc ds * 10 + (d - b'0')
digits_value-append [] acc d = refl
digits_value-append (x ∷ ds) acc d = digits_value-append ds (acc * 10 + (x - b'0')) d

digits_value-decimal : (fuel n : ℕ) → n < 10 ^ fuel → digits_value 0 (decimal fuel n) ≡ n
unfolding decimal
digits_value-decimal zero n h = omega arith
digits_value-decimal (suc fuel) n h = ground (
  arith,
  digits_value-append (decimal fuel (n / 10)) 0 (b'0' + n % 10),
  digits_value-decimal fuel (n / 10),
)

-- Different numbers have different digits.
pub decimal-injective :
    (fuel n m : ℕ) → n < 10 ^ fuel → m < 10 ^ fuel → decimal fuel n ≡ decimal fuel m → n ≡ m
decimal-injective fuel n m hn hm e =
    omega
      (arith, digits_value-decimal fuel n hn, digits_value-decimal fuel m hm, ap (digits_value 0) e)
