-- ===== src/Router/FromBind.antt =====
-- src/query_router.rs, `infer_shard_from_bind`: the shard from the parameters of a Bind message whose
-- statement compares the sharding key with placeholders. A `get_i64` is two reads of 32 bits.
pub mod Reads
use pgcat.Prelude.{
  ℕ, zero, suc, ◌+◌, ◌*◌, ◌%◌, ◌^◌, ◌-◌, Bool, true, false, ◌||◌, ◌&&◌, not, Option, none, some,
  List, [], ◌∷◌, ◌++◌, length, get_elem?, take, drop, ltb, ◌==◌, if◌then◌else◌,
}
use pgcat.Prelude.Words.{i32_as_usize}
use pgcat.Prelude.Result.{Result, ok, err, panic}
use pgcat.Errors.{Error}
use pgcat.Wire.{Codec, Reader, ◌>>=◌, ◌>>◌, return, get_u8, get_i16, get_i32, read_string}
use pgcat.Prelude.Parse.{parse_i64}
use pgcat.Router.{QueryRouter, sharder}
use pgcat.Router.Infer.{insert_shard, only}
use pgcat.Sharding

pub data Format : Type 0 where
  text binary : Format

-- What the message says of the formats: of all parameters, or of each.
pub data ParameterFormat : Type 0 where
  uniform : Format → ParameterFormat
  specified : List Format → ParameterFormat

abbrev pub fail : {A : Type 0} → Reader A
fail bs = panic

-- The `match` on a format code, whose last arm is unreachable.
abbrev pub format_of : ℕ → Reader Format
format_of n = if n == 0 then return text else (if n == 1 then return binary else fail)

unfoldable pub formats_read : Codec → ℕ → Reader (List Format)
formats_read c zero = return []
formats_read c (suc n) = do
  code ← get_i16 c
  format ← format_of code
  formats ← formats_read c n
  return (format ∷ formats)

abbrev pub is_negative_i16 : ℕ → Bool
is_negative_i16 n = not (ltb n (2 ^ 15))

-- A negative number of formats asks for more capacity than a vector can have.
unfoldable pub parameter_format : Codec → ℕ → Reader ParameterFormat
unfolding formats_read
parameter_format c n =
    if n == 0
    then return (uniform text)
    else (if n == 1
        then (get_i16 c >>= λ code. format_of code >>= λ format. return (uniform format))
        else (if is_negative_i16 n
            then fail
            else (formats_read c n >>= λ formats. return (specified formats))))

abbrev found_format : Option Format → Reader Format
found_format none = fail
found_format (some format) = return format

abbrev pub format_at : ParameterFormat → ℕ → Reader Format
format_at (uniform format) i = return format
format_at (specified formats) i = found_format (get_elem? formats i)

-- `value as i64` for an i16 and for an i32.
abbrev pub i16_as_i64 : ℕ → ℕ
i16_as_i64 n = if ltb n (2 ^ 15) then n else n + (2 ^ 64 - 2 ^ 16)

-- The loop over `len` bytes, and `parse`.
abbrev pub text_value : ℕ → Reader (Option ℕ)
text_value len bs = if ltb (length bs) len then panic else ok (parse_i64 (take len bs), drop len bs)

abbrev get_i64 : Codec → Reader ℕ
get_i64 c = get_i32 c >>= λ high. get_i32 c >>= λ low. return (high * 2 ^ 32 + low)

-- A length that is none of these is reported, and nothing is read.
unfoldable pub binary_value : Codec → ℕ → Reader (Option ℕ)
binary_value c len =
    if len == 2
    then (get_i16 c >>= λ n. return (some (i16_as_i64 n)))
    else (if len == 4
        then (get_i32 c >>= λ n. return (some (i32_as_usize n)))
        else (if len == 8 then (get_i64 c >>= λ n. return (some n)) else return none))

abbrev pub value_of_parameter : Codec → Format → ℕ → Reader (Option ℕ)
value_of_parameter c text len = text_value len
value_of_parameter c binary len = binary_value c len

abbrev pub contains : ℕ → List ℕ → Bool
contains n [] = false
contains n (m ∷ ms) = n == m || contains n ms

abbrev pub choose_shard : Option ℕ → QueryRouter → Bool × QueryRouter
choose_shard none r = (false, r)
choose_shard (some n) r = (true, record r { active_shard = some n })

abbrev pub conclude :
    QueryRouter → Result Error (List ℕ × List ℕ) → Result Error (Bool × QueryRouter)
conclude r (ok (shards, rest)) = ok (choose_shard (only shards) (record r { placeholders = [] }))
conclude r (err e) = err e
conclude r panic = panic

abbrev pub is_empty : List ℕ → Bool
is_empty [] = true
is_empty (n ∷ ns) = false

module _ (digest : List ℕ → List ℕ) (c : Codec) where
  abbrev pub sharded : Result ⊥ ℕ → List ℕ → Reader (List ℕ)
  sharded (ok n) shards = return (insert_shard n shards)
  sharded _ shards = fail

  abbrev pub add_value : QueryRouter → Option ℕ → List ℕ → Reader (List ℕ)
  add_value r none shards = return shards
  add_value r (some key) shards = sharded (Sharding.shard digest (sharder r) key) shards

  -- The parameters from the one at `i`, of which `n` are left: the bytes of a parameter are read only
  -- if it is one of the placeholders.
  unfoldable pub read_parameters : QueryRouter → ParameterFormat → ℕ → ℕ → List ℕ → Reader (List ℕ)
  unfolding binary_value
  read_parameters r formats i zero shards = return shards
  read_parameters r formats i (suc n) shards = do
    len ← get_i32 c
    format ← format_at formats i
    shards' ←
        if contains (suc i) r.placeholders
        then (value_of_parameter c format (i32_as_usize len) >>= λ value. add_value r value shards)
        else return shards
    read_parameters r formats (suc i) n shards'

  abbrev pub parameter_count : ℕ → ℕ
  parameter_count n = if is_negative_i16 n then 0 else n

  -- What is read after the checks: the strings are read for their length only.
  unfoldable pub read_shards : QueryRouter → Reader (List ℕ)
  unfolding parameter_format read_parameters read_string
  read_shards r = do
    portal ← read_string c
    name ← read_string c
    num_params ← get_i16 c
    formats ← parameter_format c num_params
    num_parameters ← get_i16 c
    read_parameters r formats 0 (parameter_count num_parameters) []

  abbrev pub checked_bind : QueryRouter → ℕ → ℕ → ℕ → List ℕ → Result Error (Bool × QueryRouter)
  checked_bind r size code len bs =
      if not (code == b'B')
      then ok (false, r)
      else (if not (size == (i32_as_usize len + 1) % 2 ^ 64)
          then ok (false, r)
          else (if is_empty r.placeholders then ok (false, r) else conclude r (read_shards r bs)))

  abbrev pub with_header :
      QueryRouter → ℕ → Result Error ((ℕ × ℕ) × List ℕ) → Result Error (Bool × QueryRouter)
  with_header r size (ok ((code, len), bs)) = checked_bind r size code len bs
  with_header r size (err e) = err e
  with_header r size panic = panic

  unfoldable pub infer_shard_from_bind : List ℕ → QueryRouter → Result Error (Bool × QueryRouter)
  unfolding read_shards
  infer_shard_from_bind message r =
      if r.pool_settings.query_parser_read_write_splitting
      then with_header r (length message)
          ((get_u8 >>= λ code. get_i32 c >>= λ len. return (code, len)) message)
      else ok (false, r)
