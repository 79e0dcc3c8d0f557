-- ===== src/Messages/ErrorFields.antt =====
-- src/messages.rs, the fields of an ErrorResponse. `parse` of a text into a text cannot fail.
use pgcat.Prelude.{
  ℕ, ◌+◌, ◌-◌, ◌*◌, ◌^◌, ◌&&◌, Option, none, some, List, [], ◌∷◌, ◌==◌, leb, ltb, if◌then◌else◌,
}
use pgcat.Wire.{Codec}

pub record PgErrorMsg : Type 0 where
  pub severity_localized : List ℕ
  pub severity : List ℕ
  pub code : List ℕ
  pub message : List ℕ
  pub detail : Option (List ℕ)
  pub hint : Option (List ℕ)
  pub position : Option ℕ
  pub internal_position : Option ℕ
  pub internal_query : Option (List ℕ)
  pub where_context : Option (List ℕ)
  pub schema_name : Option (List ℕ)
  pub table_name : Option (List ℕ)
  pub column_name : Option (List ℕ)
  pub data_type_name : Option (List ℕ)
  pub constraint_name : Option (List ℕ)
  pub file_name : Option (List ℕ)
  pub line : Option ℕ
  pub routine : Option (List ℕ)

pub empty_error : PgErrorMsg
empty_error = record {
  severity_localized = [];
  severity = [];
  code = [];
  message = [];
  detail = none;
  hint = none;
  position = none;
  internal_position = none;
  internal_query = none;
  where_context = none;
  schema_name = none;
  table_name = none;
  column_name = none;
  data_type_name = none;
  constraint_name = none;
  file_name = none;
  line = none;
  routine = none;
}

-- The digits of `u32::from_str`; `none` where the text is no number or does not fit.
u32_digits : ℕ → List ℕ → Option ℕ
u32_digits acc [] = some acc
u32_digits acc (c ∷ cs) =
    let rest = u32_digits (acc * 10 + (c - b'0')) cs in
    if leb b'0' c && (leb c b'9' && ltb (acc * 10 + (c - b'0')) (2 ^ 32)) then rest else none

-- `u32::from_str(text).unwrap_or(0)`; a leading plus sign is allowed.
pub u32_or_zero : List ℕ → ℕ
unfolding u32_digits
u32_or_zero [] = 0
u32_or_zero (c ∷ cs) =
    let number : Option ℕ =
      if c == b'+'
      then (elim cs [ [] ↦ none | d ∷ ds ↦ u32_digits 0 (d ∷ ds) ])
      else u32_digits 0 (c ∷ cs) in
    elim number [ none ↦ 0 | some n ↦ n ]

-- One field: its first byte says which.
pub set_field : ℕ → List ℕ → PgErrorMsg → PgErrorMsg
unfolding u32_or_zero
set_field kind content out =
    if kind == b'S'
    then record out { severity_localized = content }
    else if kind == b'V'
    then record out { severity = content }
    else if kind == b'C'
    then record out { code = content }
    else if kind == b'M'
    then record out { message = content }
    else if kind == b'D'
    then record out { detail = some content }
    else if kind == b'H'
    then record out { hint = some content }
    else if kind == b'P'
    then record out { position = some (u32_or_zero content) }
    else if kind == b'p'
    then record out { internal_position = some (u32_or_zero content) }
    else if kind == b'q'
    then record out { internal_query = some content }
    else if kind == b'W'
    then record out { where_context = some content }
    else if kind == b's'
    then record out { schema_name = some content }
    else if kind == b't'
    then record out { table_name = some content }
    else if kind == b'c'
    then record out { column_name = some content }
    else if kind == b'd'
    then record out { data_type_name = some content }
    else if kind == b'n'
    then record out { constraint_name = some content }
    else if kind == b'F'
    then record out { file_name = some content }
    else if kind == b'L'
    then record out { line = some (u32_or_zero content) }
    else if kind == b'R'
    then record out { routine = some content }
    else out

-- `split` at the null bytes: the first part, and those behind it.
pub split_nul : List ℕ → List ℕ × List (List ℕ)
split_nul [] = ([], [])
split_nul (b ∷ bs) =
    let (part, parts) = split_nul bs in if b == 0 then ([], part ∷ parts) else (b ∷ part, parts)

module _ (c : Codec) where
  pub add_part : List ℕ → PgErrorMsg → PgErrorMsg
  unfolding set_field
  add_part [] out = out
  add_part (kind ∷ content) out = set_field kind (c.from_utf8_lossy content) out

  pub add_parts : List (List ℕ) → PgErrorMsg → PgErrorMsg
  unfolding add_part
  add_parts [] out = out
  add_parts (part ∷ parts) out = add_parts parts (add_part part out)

  -- `PgErrorMsg::parse`
  unfoldable pub parse : List ℕ → PgErrorMsg
  unfolding add_parts split_nul empty_error
  parse error_msg = let (part, parts) = split_nul error_msg in add_parts (part ∷ parts) empty_error
