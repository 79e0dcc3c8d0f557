-- ===== src/Prelude/Words.antt =====
-- Machine words as native numbers: the wrap-around of each operation is written out.
-- A signed integer of w bits is its bit pattern, a number below 2 ^ w.
use Prim.Native.Nat.{bit_xor, bit_xor-bitwise, differ}
use mathlib.Core.Bool.{Bool, true, false}
use mathlib.Core.Path.{◌≡◌, refl}
use Prim.Native.Nat.{ℕ, zero, suc, ◌+◌, ◌-◌, ◌*◌, ◌/◌, ◌%◌, ◌^◌, ◌≤◌, ◌<◌, digits}
use native.Mathlib.Omega.{arith}
use native.Mathlib.Nat.{le_refl}

abbrev pub u32_mod : ℕ
u32_mod = 2 ^ 32

abbrev pub u64_mod : ℕ
u64_mod = 2 ^ 64

abbrev pub wrapping_add_u32 : ℕ → ℕ → ℕ
wrapping_add_u32 a b = (a + b) % 2 ^ 32

abbrev pub wrapping_sub_u32 : ℕ → ℕ → ℕ
wrapping_sub_u32 a b = (a + 2 ^ 32 - b) % 2 ^ 32

abbrev pub wrapping_add_u64 : ℕ → ℕ → ℕ
wrapping_add_u64 a b = (a + b) % 2 ^ 64

-- `!x` on a u32.
abbrev pub not_u32 : ℕ → ℕ
not_u32 x = 2 ^ 32 - 1 - x

-- `x as usize` for an i32 `x`, on a 64-bit target: the sign is extended.
abbrev pub i32_as_usize : ℕ → ℕ
i32_as_usize x = elim (Prim.Native.Nat.compare x (2 ^ 31)) [
  | Prim.Native.Nat.Ordering.lt ↦ x
  | _ ↦ x + (2 ^ 64 - 2 ^ 32)
]

-- Exclusive or with zero, from the recursion on binary digits that the native operation stands for.
differ-zero : (x : ℕ) → differ x 0 ≡ x
differ-zero zero = refl
differ-zero (suc x) = refl

digits-differ_zero : (n a : ℕ) → a ≤ n → digits (λ b. b) differ n a 0 ≡ a
digits-differ_zero zero zero h = refl
digits-differ_zero zero (suc a) h = absurd (omega arith)
digits-differ_zero (suc n) zero h = refl
digits-differ_zero (suc n) (suc a) h =
    omega (arith, digits-differ_zero n (suc a / 2) (omega arith), differ-zero (suc a % 2))

pub bit_xor-zero : (a : ℕ) → bit_xor a 0 ≡ a
bit_xor-zero a = simp bit_xor-bitwise (digits-differ_zero a a (le_refl a))

pub zero-bit_xor : (b : ℕ) → bit_xor 0 b ≡ b
zero-bit_xor b = bit_xor-bitwise 0 b

-- `n as usize` for an i16 `n`.
abbrev pub i16_as_usize : ℕ → ℕ
i16_as_usize n = elim (Prim.Native.Nat.compare n (2 ^ 15)) [
  | Prim.Native.Nat.Ordering.lt ↦ n
  | _ ↦ n + (2 ^ 64 - 2 ^ 16)
]

-- The number of rounds of `for _ in 0..n` for an i16 `n`: none where it is negative.
abbrev pub i16_rounds : ℕ → ℕ
i16_rounds n = elim (Prim.Native.Nat.compare n (2 ^ 15)) [ Prim.Native.Nat.Ordering.lt ↦ n | _ ↦ 0 ]

-- Whether a buffer of capacity `n as usize + 1` can be asked for: a Vec panics above isize::MAX.
abbrev pub has_capacity : ℕ → Bool
has_capacity n = elim (Prim.Native.Nat.compare ((i32_as_usize n + 1) % 2 ^ 64) (2 ^ 63)) [
  | Prim.Native.Nat.Ordering.lt ↦ true
  | _ ↦ false
]
