-- ===== src/Router/Selection.antt =====
-- src/query_router.rs: the sharding keys in the conditions of a statement, and the check of an UPDATE.
-- `to_lowercase` of std is a parameter.
pub mod Sound
pub mod Routes
pub mod Gaps
use pgcat.Prelude.{
  ℕ, Bool, true, false, ◌||◌, ◌&&◌, Option, none, some, List, [], ◌∷◌, ◌++◌, map, codes, text_eq,
  if◌then◌else◌,
}
use pgcat.Prelude.Parse.{parse_i64, parse_i16, split, without}
use pgcat.Prelude.Result.{Result, ok, err, panic, ◌>>=◌}
use pgcat.Errors.{Error, query_router_parser_error}
use pgcat.Server.Parameters.{Text}
use pgcat.Router.{QueryRouter}
use pgcat.Router.Infer.{ShardingKey, value, placeholder, Step, infer_shard_from_exprs}
use pgcat.Router.Syntax.{
  Expr, binary_op, identifier, compound_identifier, number, BinaryOperator, eq_op, and_op, or_op,
  other_op, Query, Statement, update,
}
use pgcat.Router.Syntax
use pgcat.Router.Tables.{Extracted, query_parts, extract_exprs_and_table_names}

-- The two parts of the setting `automatic_sharding_key`.
pub record KeyName : Type 0 where
  pub table : Text
  pub column : Text

abbrev pub is_star : KeyName → Bool
is_star k = text_eq k.table (codes "*")

abbrev pub two_parts : List Text → Result Error KeyName
two_parts (t ∷ (c ∷ [])) = ok (record { table = t; column = c })
two_parts _ = panic

abbrev pub last_part : List Text → Text
last_part [] = []
last_part (p ∷ []) = p
last_part (p ∷ (q ∷ rest)) = last_part (q ∷ rest)

module _ (lowercase : Text → Text) where
  -- It is unwrapped, and it must have two parts.
  unfoldable pub key_name : Option Text → Result Error KeyName
  key_name none = panic
  key_name (some key) = two_parts (map lowercase (split b'.' key))

  -- A table matches by its last part, where it has one part or two.
  abbrev pub is_table : Text → List Text → Bool
  is_table table (t ∷ []) = text_eq table (lowercase t)
  is_table table (schema ∷ (t ∷ [])) = text_eq table (lowercase t)
  is_table table _ = false

  abbrev pub only_table : Text → List (List Text) → Bool
  only_table table (name ∷ []) = is_table table name
  only_table table _ = false

  -- Whether the left side is the key: `found`.
  unfoldable pub is_key : KeyName → List (List Text) → Expr → Bool
  is_key k tables (identifier ident) =
      text_eq (lowercase ident) k.column && (is_star k || only_table k.table tables)
  is_key k tables (compound_identifier (t ∷ (c ∷ []))) =
      (is_star k || text_eq k.table (lowercase t)) && text_eq k.column (lowercase c)
  is_key k tables _ = false

  abbrev pub value_key : Option ℕ → List ShardingKey
  value_key none = []
  value_key (some n) = value n ∷ []

  abbrev pub placeholder_key : Option ℕ → List ShardingKey
  placeholder_key none = []
  placeholder_key (some n) = placeholder n ∷ []

  -- The key on the right side, if it is a literal.
  unfoldable pub literal_keys : Bool → Expr → List ShardingKey
  literal_keys found (number text) = if found then value_key (parse_i64 text) else []
  literal_keys found (Syntax.placeholder text) = placeholder_key (parse_i16 (without b'$' text))
  literal_keys found _ = []

  abbrev pub is_supported : BinaryOperator → Bool
  is_supported other_op = false
  is_supported _ = true

  -- `selection_parser` with the parts of the key. It finds nothing but in a binary operation, so that
  -- it can look into both sides without asking for their form.
  unfoldable pub selection_keys : KeyName → List (List Text) → Expr → List ShardingKey
  unfolding is_key literal_keys
  selection_keys k tables (binary_op left op right) =
      let found_left = selection_keys k tables left in
      let found_right = selection_keys k tables right in
      if is_supported op
      then found_left ++ (found_right ++ literal_keys (is_key k tables left) right)
      else []
  selection_keys k tables _ = []

  unfoldable pub all_keys : KeyName → List (List Text) → List Expr → List ShardingKey
  unfolding selection_keys
  all_keys k tables [] = []
  all_keys k tables (e ∷ exprs) = selection_keys k tables e ++ all_keys k tables exprs

  -- The keys of all conditions; the setting is read at each, so not at all if there are none.
  abbrev pub keys_in : Option Text → List (List Text) → List Expr → Result Error (List ShardingKey)
  keys_in setting tables [] = ok []
  keys_in setting tables (e ∷ exprs) = key_name setting >>= λ k. ok (all_keys k tables (e ∷ exprs))

  unfoldable pub selection_parser : Option Text → Extracted → Result Error (List ShardingKey)
  unfolding key_name all_keys
  selection_parser setting x = keys_in setting x.table_names x.exprs

  unfoldable pub is_refused : KeyName → Text → Bool
  unfolding split
  is_refused k target = is_star k && text_eq k.column (lowercase (last_part (split b'.' target)))

  unfoldable pub check_assignments : KeyName → List Text → Result Error (Unit {0})
  unfolding is_refused
  check_assignments k [] = ok tt
  check_assignments k (target ∷ rest) =
      let more = check_assignments k rest in
      if is_refused k target then err query_router_parser_error else more

  unfoldable pub assignment_parser : Option Text → List Text → Result Error (Unit {0})
  unfolding key_name check_assignments
  assignment_parser setting targets = key_name setting >>= λ k. check_assignments k targets

  abbrev pub checked_assignments : Option Text → Statement → Result Error (Unit {0})
  checked_assignments setting (update u) = assignment_parser setting u.assignments
  checked_assignments setting _ = ok tt

  -- The keys of a write, as `infer_shard_on_write` finds them.
  unfoldable pub write_keys : Option Text → Statement → Result Error (List ShardingKey)
  unfolding selection_parser assignment_parser
  write_keys setting q = elim (extract_exprs_and_table_names q) [
    | ok none ↦ ok []
    | ok (some x) ↦ checked_assignments setting q >>= λ _. selection_parser setting x
    | _ ↦ panic
  ]

  module _ (digest : List ℕ → List ℕ) where
    abbrev pub from_keys :
        Result Error (List ShardingKey) → QueryRouter → Result Error (Option ℕ) × QueryRouter
    from_keys (ok keys) r = infer_shard_from_exprs digest keys r
    from_keys (err e) r = (err e, r)
    from_keys panic r = (panic, r)

    unfoldable pub infer_shard : Query → QueryRouter → Result Error (Option ℕ) × QueryRouter
    unfolding selection_parser query_parts
    infer_shard q r =
        from_keys (selection_parser r.pool_settings.automatic_sharding_key (query_parts q)) r

    unfoldable pub infer_shard_on_write :
        Statement → QueryRouter → Result Error (Option ℕ) × QueryRouter
    unfolding write_keys
    infer_shard_on_write q r = from_keys (write_keys r.pool_settings.automatic_sharding_key q) r
