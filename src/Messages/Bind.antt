-- ===== src/Messages/Bind.antt =====
-- src/messages.rs, the Bind message. A parameter is its stated length with its bytes; the length of a
-- NULL is -1, as a bit pattern 2 ^ 32 - 1.
pub mod RoundTrip
pub mod Rename
use pgcat.Prelude.{
  ℕ, zero, suc, ◌+◌, ◌-◌, ◌*◌, ◌%◌, ◌^◌, Bool, true, false, ◌&&◌, List, [], ◌∷◌, ◌++◌, length, take,
  drop, ltb, if◌then◌else◌,
}
use pgcat.Prelude.Words.{i16_as_usize, i16_rounds, i32_as_usize, has_capacity}
use pgcat.Prelude.Result.{Result, ok, panic, and_then, map_ok}
use pgcat.Errors.{Error}
use pgcat.Wire.{
  Codec, Reader, ◌>>=◌, ◌>>◌, return, get_u8, advance, get_i16, get_i32, read_string, to_c_string,
}

pub record Bind : Type 0 where
  pub code : ℕ
  pub len : ℕ
  pub portal : List ℕ
  pub prepared_statement : List ℕ
  pub num_param_format_codes : ℕ
  pub param_format_codes : List ℕ
  pub num_param_values : ℕ
  pub param_values : List (ℕ × List ℕ)
  pub num_result_column_format_codes : ℕ
  pub result_columns_format_codes : List ℕ

-- `copy_to_slice` into a slice of n bytes.
unfoldable pub copy_to_slice : ℕ → Reader (List ℕ)
copy_to_slice n bs = if ltb (length bs) n then panic else ok (take n bs, drop n bs)

-- `param_len > 0` for an i32.
abbrev pub is_positive : ℕ → Bool
is_positive n = ltb 0 n && ltb n (2 ^ 31)

-- What stands behind the two names.
pub record Tail : Type 0 where
  pub num_param_format_codes : ℕ
  pub param_format_codes : List ℕ
  pub num_param_values : ℕ
  pub param_values : List (ℕ × List ℕ)
  pub num_result_column_format_codes : ℕ
  pub result_columns_format_codes : List ℕ

-- A message from its parts.
abbrev pub with_tail : ℕ → ℕ → List ℕ → List ℕ → Tail → Bind
with_tail code len portal name t = record {
  code = code;
  len = len;
  portal = portal;
  prepared_statement = name;
  num_param_format_codes = t.num_param_format_codes;
  param_format_codes = t.param_format_codes;
  num_param_values = t.num_param_values;
  param_values = t.param_values;
  num_result_column_format_codes = t.num_result_column_format_codes;
  result_columns_format_codes = t.result_columns_format_codes;
}

-- The bytes of one parameter: none unless its length is positive.
unfoldable pub param_bytes : ℕ → Reader (List ℕ)
unfolding copy_to_slice
param_bytes param_len = if is_positive param_len then copy_to_slice param_len else return []

module _ (c : Codec) where
  unfoldable pub read_codes : ℕ → Reader (List ℕ)
  read_codes zero = return []
  read_codes (suc n) = do x ← get_i16 c; xs ← read_codes n; return (x ∷ xs)

  unfoldable pub read_value : Reader (ℕ × List ℕ)
  read_value = do param_len ← get_i32 c; param ← param_bytes param_len; return (param_len, param)

  unfoldable pub read_values : ℕ → Reader (List (ℕ × List ℕ))
  read_values zero = return []
  read_values (suc n) = do v ← read_value; vs ← read_values n; return (v ∷ vs)

  unfoldable pub read_tail : Reader Tail
  read_tail = do
    formats ← get_i16 c
    format_codes ← read_codes (i16_rounds formats)
    values ← get_i16 c
    param_values ← read_values (i16_rounds values)
    results ← get_i16 c
    result_codes ← read_codes (i16_rounds results)
    return (record {
      num_param_format_codes = formats;
      param_format_codes = format_codes;
      num_param_values = values;
      param_values = param_values;
      num_result_column_format_codes = results;
      result_columns_format_codes = result_codes;
    })

  unfoldable pub read_bind : Reader Bind
  read_bind = do
    code ← get_u8
    len ← get_i32 c
    portal ← read_string c
    prepared_statement ← read_string c
    t ← read_tail
    return (with_tail code len portal prepared_statement t)

  -- `Bind::try_from`
  unfoldable pub bind_try_from : List ℕ → Result Error Bind
  bind_try_from buf = map_ok (λ r. r.0) (read_bind buf)

  pub put_codes : List ℕ → List ℕ
  put_codes [] = []
  put_codes (x ∷ xs) = c.put_i16 x ++ put_codes xs

  pub put_values : List (ℕ × List ℕ) → List ℕ
  put_values [] = []
  put_values ((n, v) ∷ vs) = c.put_i32 n ++ (v ++ put_values vs)

  -- `len += 4 + *param_len as usize`, over all parameters.
  pub values_len : ℕ → List (ℕ × List ℕ) → ℕ
  values_len len [] = len
  values_len len ((n, v) ∷ vs) = values_len ((len + (4 + i32_as_usize n)) % 2 ^ 64) vs

  -- `TryFrom<Bind> for BytesMut`
  unfoldable pub bind_to_bytes : Bind → Result Error (List ℕ)
  bind_to_bytes b = and_then (to_c_string b.portal) λ portal.
      and_then (to_c_string b.prepared_statement) λ name.
        let start =
          (4 + length portal + length name + 2 + 2 * i16_as_usize b.num_param_format_codes + 2)
          % 2 ^ 64 in
        let len =
          (values_len start b.param_values + 2 + 2 * i16_as_usize b.num_result_column_format_codes)
          % 2 ^ 64 in
        ok (
          b.code
          ∷ (c.put_i32 (len % 2 ^ 32)
              ++ (portal
                  ++ (name
                      ++ (c.put_i16 b.num_param_format_codes
                          ++ (put_codes b.param_format_codes
                              ++ (c.put_i16 b.num_param_values
                                  ++ (put_values b.param_values
                                      ++ (c.put_i16 b.num_result_column_format_codes
                                          ++ put_codes b.result_columns_format_codes)))))))))

  -- `Bind::get_name`
  unfoldable pub bind_get_name : List ℕ → Result Error (List ℕ)
  bind_get_name buf = map_ok (λ r. r.0) ((do advance 5; portal ← read_string c; read_string c) buf)

  -- `new_len` of `rename`, in i32 arithmetic.
  pub renamed_len : ℕ → List ℕ → List ℕ → ℕ
  renamed_len current_len name new_name =
      (current_len + length new_name % 2 ^ 32 + 2 ^ 32 - length name % 2 ^ 32) % 2 ^ 32

  -- `rename` once the names are read: `rest` is what the cursor has left.
  pub rename_to : ℕ → ℕ → List ℕ → List ℕ → List ℕ → Reader (List ℕ)
  unfolding renamed_len
  rename_to code current_len portal prepared_statement new_name rest =
      let new_len = renamed_len current_len prepared_statement new_name in
      if has_capacity new_len
      then (and_then (to_c_string portal) λ portal_nul.
          and_then (to_c_string new_name)
            λ name_nul. ok (code ∷ (c.put_i32 new_len ++ (portal_nul ++ (name_nul ++ rest))), rest))
      else panic

  -- `Bind::rename`. The cursor's position is given by the bytes that it has left.
  unfoldable pub rename : List ℕ → List ℕ → Result Error (List ℕ)
  rename buf new_name =
      map_ok (λ r. r.0)
        ((do
          code ← get_u8
          current_len ← get_i32 c
          portal ← read_string c
          prepared_statement ← read_string c
          rename_to code current_len portal prepared_statement new_name)
          buf)

pub bind_anonymous : Bind → Bool
bind_anonymous b = elim b.prepared_statement [ [] ↦ true | _ ↦ false ]
