-- ===== src/Wire.antt =====
-- Bytes on the wire. A buffer is the list of its bytes: `put_u8` and `put_slice` append, `get_u8` and
-- the cursor take from the front. What is not source of the program is a parameter: the integer
-- codecs of the bytes and tokio crates, and the UTF-8 decoding of std.
pub mod Laws
pub mod Stream
pub mod Sink
use pgcat.Prelude.{
  ℕ, zero, suc, ◌+◌, ◌-◌, ◌^◌, ◌<◌, ◌≡◌, Bool, true, false, Option, none, some, List, [], ◌∷◌, ◌++◌,
  length, take, drop, ltb, ◌==◌, if◌then◌else◌,
}
use pgcat.Prelude.Result.{Result, ok, err, panic}
use pgcat.Errors.{Error, parse_bytes_error, query_router_error}

-- `put_i32` and `get_i32` of the traits Buf and BufMut, and so for i16. Integers are bit patterns.
-- A `get` that finds too few bytes answers `none`.
pub record Codec : Type 0 where
  pub put_i16 : ℕ → List ℕ
  pub get_i16 : List ℕ → Option (ℕ × List ℕ)
  pub put_i32 : ℕ → List ℕ
  pub get_i32 : List ℕ → Option (ℕ × List ℕ)
  pub is_utf8 : List ℕ → Bool
  pub from_utf8_lossy : List ℕ → List ℕ

-- What those crates and std document.
pub record IsCodec (c : Codec) : Type 0 where
  pub length_i16 : (n : ℕ) → length (c.put_i16 n) ≡ 2
  pub length_i32 : (n : ℕ) → length (c.put_i32 n) ≡ 4
  pub get_put_i16 :
      (n : ℕ) (rest : List ℕ) → n < 2 ^ 16 → c.get_i16 (c.put_i16 n ++ rest) ≡ some (n, rest)
  pub get_put_i32 :
      (n : ℕ) (rest : List ℕ) → n < 2 ^ 32 → c.get_i32 (c.put_i32 n ++ rest) ≡ some (n, rest)
  pub get_short_i32 : (bs : List ℕ) → length bs < 4 → c.get_i32 bs ≡ none
  pub get_i32_split :
      (bs rest : List ℕ) (n : ℕ)
      → c.get_i32 bs ≡ some (n, rest)
      → (bs ≡ c.put_i32 n ++ rest) × (n < 2 ^ 32)
  pub lossy_of_utf8 : (s : List ℕ) → c.is_utf8 s ≡ true → c.from_utf8_lossy s ≡ s

-- A computation that takes bytes from the front of a buffer.
abbrev pub Reader : Type 0 → Type 0
Reader A = List ℕ → Result Error (A × List ℕ)

infixl 5 ◌>>=◌ ◌>>◌
abbrev pub ◌>>=◌ : {A B : Type 0} → Reader A → (A → Reader B) → Reader B
◌>>=◌ m f bs = elim (m bs) [ ok (a, rest) ↦ f a rest | err e ↦ err e | panic ↦ panic ]

abbrev pub ◌>>◌ : {B : Type 0} → Reader (Unit {0}) → Reader B → Reader B
m >> k = m >>= λ _. k

abbrev pub return : {A : Type 0} → A → Reader A
return a bs = ok (a, bs)

-- A read past the end of a Buf panics.
abbrev pub or_panic : {A : Type 0} → Option (A × List ℕ) → Result Error (A × List ℕ)
or_panic none = panic
or_panic (some r) = ok r

abbrev pub get_u8 : Reader ℕ
get_u8 [] = panic
get_u8 (b ∷ bs) = ok (b, bs)

abbrev pub advance : ℕ → Reader (Unit {0})
advance n bs = if ltb (length bs) n then panic else ok (tt, drop n bs)

-- `read_until` of std up to and with the null byte, or to the end.
unfoldable pub read_until_nul : List ℕ → List ℕ × List ℕ
read_until_nul [] = ([], [])
read_until_nul (b ∷ bs) =
    let (line, rest) = read_until_nul bs in if b == 0 then (b ∷ [], bs) else (b ∷ line, rest)

abbrev pub drop_last : List ℕ → List ℕ
drop_last [] = []
drop_last (b ∷ []) = []
drop_last (b ∷ (d ∷ bs)) = b ∷ drop_last (d ∷ bs)

unfoldable pub position_nul : List ℕ → Option ℕ
position_nul [] = none
position_nul (b ∷ bs) =
    let rest = position_nul bs in
    if b == 0 then some 0 else (elim rest [ none ↦ none | some i ↦ some (suc i) ])

-- `CString::new(text)?` with its null byte.
unfoldable pub to_c_string : List ℕ → Result Error (List ℕ)
unfolding position_nul
to_c_string s = elim (position_nul s) [
  | none ↦ ok (s ++ (0 ∷ []))
  | some _ ↦ err query_router_error
]

module _ (c : Codec) where
  abbrev pub get_i16 : Reader ℕ
  get_i16 bs = or_panic (c.get_i16 bs)

  abbrev pub get_i32 : Reader ℕ
  get_i32 bs = or_panic (c.get_i32 bs)

  -- `read_string` of a cursor. What `read_until` found loses its last byte, whatever that is; with
  -- nothing left to read the range `..0 - 1` panics.
  abbrev cut_line : List ℕ → List ℕ → Result Error (List ℕ × List ℕ)
  cut_line [] rest = panic
  cut_line (b ∷ line) rest = ok (c.from_utf8_lossy (drop_last (b ∷ line)), rest)

  unfoldable pub read_string : Reader (List ℕ)
  read_string bs = let (line, rest) = read_until_nul bs in cut_line line rest

  -- `read_string` of a BytesMut.
  unfoldable pub read_string_mut : Reader (List ℕ)
  read_string_mut bs = elim (position_nul bs) [
    | none ↦ err parse_bytes_error
    | some i ↦ ok (c.from_utf8_lossy (take i bs), drop (suc i) bs)
  ]
