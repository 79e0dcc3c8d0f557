-- ===== src/Messages/Parse.antt =====
-- src/messages.rs, the Parse message. Characters and integers are bit patterns; the counter that
-- names prepared statements is passed in and out.
pub mod RoundTrip
pub mod Naming
use pgcat.Prelude.{
  ℕ, zero, suc, ◌+◌, ◌*◌, ◌%◌, ◌^◌, Bool, true, false, List, [], ◌∷◌, ◌++◌, map, length, codes, ltb,
  ◌-◌, if◌then◌else◌,
}
use pgcat.Prelude.Words.{i16_as_usize, i16_rounds}
use pgcat.Prelude.Decimal.{decimal}
use pgcat.Prelude.Result.{Result, ok, and_then, map_ok}
use pgcat.Errors.{Error}
use pgcat.Wire.{
  Codec, Reader, ◌>>=◌, ◌>>◌, return, get_u8, advance, get_i16, get_i32, read_string, to_c_string,
}

pub record Parse : Type 0 where
  pub code : ℕ
  pub len : ℕ
  pub name : List ℕ
  pub query : List ℕ
  pub num_params : ℕ
  pub param_types : List ℕ

module _ (c : Codec) where
  unfoldable pub read_types : ℕ → Reader (List ℕ)
  read_types zero = return []
  read_types (suc n) = do t ← get_i32 c; ts ← read_types n; return (t ∷ ts)

  unfoldable pub read_parse : Reader Parse
  read_parse = do
    code ← get_u8
    len ← get_i32 c
    name ← read_string c
    query ← read_string c
    num_params ← get_i16 c
    param_types ← read_types (i16_rounds num_params)
    return (record {
      code = code;
      len = len;
      name = name;
      query = query;
      num_params = num_params;
      param_types = param_types;
    })

  -- `Parse::try_from`: bytes behind the message are not looked at.
  unfoldable pub parse_try_from : List ℕ → Result Error Parse
  parse_try_from buf = map_ok (λ r. r.0) (read_parse buf)

  pub put_types : List ℕ → List ℕ
  put_types [] = []
  put_types (t ∷ ts) = c.put_i32 t ++ put_types ts

  -- `TryFrom<Parse> for BytesMut`; the length is computed anew.
  unfoldable pub parse_to_bytes : Parse → Result Error (List ℕ)
  parse_to_bytes p = and_then (to_c_string p.name) λ name. and_then (to_c_string p.query) λ query.
      let len = (4 + length name + length query + 2 + 4 * i16_as_usize p.num_params) % 2 ^ 64 in
      ok (
        p.code
        ∷ (c.put_i32 (len % 2 ^ 32)
            ++ (name ++ (query ++ (c.put_i16 p.num_params ++ put_types p.param_types)))))

  -- `Parse::get_name`
  unfoldable pub parse_get_name : List ℕ → Result Error (List ℕ)
  parse_get_name buf = map_ok (λ r. r.0) ((advance 5 >> read_string c) buf)

-- `Parse::rewrite`: the name is made from the global counter, which moves on by one.
pub rewrite : Parse → ℕ → Parse × ℕ
rewrite p counter =
    (record p { name = codes "PGCAT_" ++ decimal 20 counter }, (counter + 1) % 2 ^ 64)

-- `i32::to_string`
abbrev i32_to_string : ℕ → List ℕ
i32_to_string n = if ltb n (2 ^ 31) then decimal 10 n else b'-' ∷ decimal 10 (2 ^ 32 - n)

abbrev i16_to_string : ℕ → List ℕ
i16_to_string n = if ltb n (2 ^ 15) then decimal 5 n else b'-' ∷ decimal 5 (2 ^ 16 - n)

unfoldable pub join_types : List ℕ → List ℕ
join_types [] = []
join_types (t ∷ []) = i32_to_string t
join_types (t ∷ (u ∷ ts)) = i32_to_string t ++ (b',' ∷ join_types (u ∷ ts))

-- `Parse::get_hash`, with the hasher of std a parameter.
unfoldable pub get_hash : (List ℕ → ℕ) → Parse → ℕ
get_hash hasher p = hasher (p.query ++ (i16_to_string p.num_params ++ join_types p.param_types))

pub parse_anonymous : Parse → Bool
parse_anonymous p = elim p.name [ [] ↦ true | _ ↦ false ]
