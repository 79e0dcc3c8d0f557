-- ===== src/Messages/Reply/Rows.antt =====
-- src/messages.rs: the rows that `data_row` and `data_row_nullable` write, as a client reads them.
use pgcat.Prelude.{
  ℕ, zero, suc, ◌+◌, ◌-◌, true, ◌%◌, ◌^◌, ◌<◌, ◌≡◌, refl, ◌∙◌, Option, none, some, List, [], ◌∷◌,
  ◌++◌, length, length-append, map, take, drop, take-append_self, drop-append_self, All, arith,
  false, length-map, ltb, le→ltb, ◌==◌, if◌then◌else◌,
}
use pgcat.Prelude.Result.{ok, panic}
use pgcat.Wire.{Codec, IsCodec, Reader, ◌>>=◌, return, get_u8, get_i32, get_i16}
use pgcat.Wire.Laws.{bind_ok, get_i32_put, get_i16_put}
use pgcat.Messages.Reply.{message, put_row, put_nullable_row, data_row, data_row_nullable}
use mathlib.Core.List.{append_assoc, append-nil}

-- The columns of a DataRow by the protocol: a length and that many bytes, or -1 for a NULL.
take_bytes : ℕ → Reader (List ℕ)
take_bytes n bs = if ltb (length bs) n then panic else ok (take n bs, drop n bs)

-- The length of a message counts itself and all that follows it.
sized : {A : Type 0} → ℕ → Reader A → Reader A
sized len body bs = if length bs + 4 == len then body bs else panic

module _ (c : Codec) where
  read_column_of : ℕ → Reader (Option (List ℕ))
  read_column_of n =
      if n == 2 ^ 32 - 1 then return none else (take_bytes n >>= λ column. return (some column))

  read_columns : ℕ → Reader (List (Option (List ℕ)))
  read_columns zero = return []
  read_columns (suc n) = do
    size ← get_i32 c
    column ← read_column_of size
    columns ← read_columns n
    return (column ∷ columns)

  read_body : ℕ → ℕ → Reader (List (Option (List ℕ)))
  read_body code len =
      if code == b'D' then sized len (do n ← get_i16 c; read_columns n) else (λ bs. panic)

  -- One whole DataRow message.
  pub read_data_row : Reader (List (Option (List ℕ)))
  read_data_row = do code ← get_u8; len ← get_i32 c; read_body code len

-- A column that fits the protocol.
abbrev pub Fits : Option (List ℕ) → Type 0
Fits none = Unit {0}
Fits (some column) = length column < 2 ^ 31

put_row-nullable :
    (c : Codec) (row : List (List ℕ)) → put_row c row ≡ put_nullable_row c (map some row)
unfolding put_row put_nullable_row
put_row-nullable c [] = refl
put_row-nullable c (column ∷ row) = rw (put_row-nullable c row)

take_bytes_lem :
    (n : ℕ) (xs rest : List ℕ) → n ≡ length xs → take_bytes n (xs ++ rest) ≡ ok (xs, rest)
unfolding take_bytes
take_bytes_lem n xs rest e = rw (
  e,
  le→ltb (length (xs ++ rest)) (length xs) (omega (arith, length-append xs rest)),
  take-append_self xs rest,
  drop-append_self xs rest,
)

read_column_none : (c : Codec) (bs : List ℕ) → read_column_of c (2 ^ 32 - 1) bs ≡ ok (none, bs)
unfolding read_column_of
read_column_none c bs = refl

read_column_some :
    (c : Codec) (column rest : List ℕ)
    → length column < 2 ^ 31
    → read_column_of c (length column % 2 ^ 32) (column ++ rest) ≡ ok (some column, rest)
unfolding read_column_of
read_column_some c column rest h = rw (not_null) (
    bind_ok (take_bytes (length column % 2 ^ 32)) (λ x. return (some x)) {bs = column ++ rest}
      (take_bytes_lem (length column % 2 ^ 32) column rest (omega arith)))
  where
    not_null : (length column % 2 ^ 32 == 2 ^ 32 - 1) ≡ false
    not_null = ground (arith, h)

sized_lem :
    {A : Type 0} (body : Reader A) (bs : List ℕ)
    → length bs + 4 < 2 ^ 31
    → sized ((length bs + 4) % 2 ^ 32) body bs ≡ body bs
unfolding sized
sized_lem body bs h = rw (whole) refl
  where
    whole : (length bs + 4 == (length bs + 4) % 2 ^ 32) ≡ true
    whole = ground (arith, h)

module _ (c : Codec) (w : IsCodec c) where
  read_columns-put :
      (row : List (Option (List ℕ))) (rest : List ℕ)
      → All Fits row
      → read_columns c (length row) (put_nullable_row c row ++ rest) ≡ ok (row, rest)
  unfolding read_columns put_nullable_row
  read_columns-put [] rest h = refl
  read_columns-put (none ∷ row) rest (_, hs) =
      rw (append_assoc (c.put_i32 (2 ^ 32 - 1)) (put_nullable_row c row) rest) (
        bind_ok (get_i32 c) _ (get_i32_put c w (2 ^ 32 - 1) _ (omega arith))
        ∙ bind_ok (read_column_of c (2 ^ 32 - 1)) _ (read_column_none c _)
        ∙ bind_ok (read_columns c (length row)) _ (read_columns-put row rest hs))
  read_columns-put (some column ∷ row) rest (h, hs) =
      rw
        (
          append_assoc (c.put_i32 (length column % 2 ^ 32)) (column ++ put_nullable_row c row) rest,
          append_assoc column (put_nullable_row c row) rest,
        )
        (bind_ok (get_i32 c) _ (get_i32_put c w (length column % 2 ^ 32) _ (omega arith))
          ∙ bind_ok (read_column_of c (length column % 2 ^ 32)) _ (read_column_some c column _ h)
          ∙ bind_ok (read_columns c (length row)) _ (read_columns-put row rest hs))

  read_row_body :
      (row : List (Option (List ℕ)))
      → All Fits row
      → length row < 2 ^ 15
      → length (put_nullable_row c row) + 6 < 2 ^ 31
      → read_data_row c (message c b'D' (c.put_i16 (length row % 2 ^ 16) ++ put_nullable_row c row))
        ≡ ok (row, [])
  unfolding read_data_row read_body
  read_row_body row h few fits =
      bind_ok (get_i32 c) _ (get_i32_put c w _ _ (omega arith))
      ∙ sized_lem (do n ← get_i16 c; read_columns c n)
          (c.put_i16 (length row % 2 ^ 16) ++ put_nullable_row c row)
          (omega (
            arith,
            length-append (c.put_i16 (length row % 2 ^ 16)) (put_nullable_row c row),
            w.length_i16 (length row % 2 ^ 16),
          ))
      ∙ bind_ok (get_i16 c) _ (get_i16_put c w (length row % 2 ^ 16) _ (omega arith))
      ∙ rw small (rw append-nil at (read_columns-put row [] h))
    where
      small : length row % 2 ^ 16 ≡ length row
      small = omega arith

  -- A reader of one whole DataRow message, which checks its code and that its length counts all that
  -- follows, gets back the columns that were put into it, NULLs included, from `data_row_nullable`
  -- and from `data_row` alike, for fewer than 2 ^ 15 columns of less than 2 ^ 31 bytes each and a
  -- total that fits an i32.
  pub read_data_row-put :
      (row : List (Option (List ℕ))) (plain : List (List ℕ))
      → All Fits row
      → All Fits (map some plain)
      → length row < 2 ^ 15
      → length plain < 2 ^ 15
      → length (put_nullable_row c row) + 6 < 2 ^ 31
      → length (put_row c plain) + 6 < 2 ^ 31
      → (read_data_row c (data_row_nullable c row) ≡ ok (row, []))
        × (read_data_row c (data_row c plain) ≡ ok (map some plain, []))
  unfolding data_row_nullable data_row
  read_data_row-put row plain h h' few few' fits fits' = (
    read_row_body row h few fits,
    rw (put_row-nullable c plain, ← length-map plain some)
        (read_row_body (map some plain) h' (rw (length-map plain some) few')
          (rw (← put_row-nullable c plain) fits')),
  )
