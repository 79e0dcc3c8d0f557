-- ===== src/Router/Selection/Gaps.antt =====
-- src/query_router.rs: what the search for keys takes for a key, and what it does not.
use pgcat.Prelude.{
  ℕ, ◌≡◌, refl, inl, inr, true, false, none, some, List, [], ◌∷◌, ◌++◌, text_eq, Bool-cases,
}
use pgcat.Prelude.Parse.{parse_i64, parse_i16, without}
use pgcat.Prelude.Result.{ok}
use pgcat.Server.Parameters.{Text}
use pgcat.Sharding
use pgcat.Router.{QueryRouter, sharder}
use pgcat.Router.Infer.{infer_shard_from_exprs, collect_keys}
use pgcat.Router.Syntax.{
  Expr, binary_op, identifier, number, eq_op, or_op, other_op, Query, select, Delete, Statement,
  delete,
}
use pgcat.Router.Syntax
use pgcat.Router.Tables.{
  query_parts, process_query, process_tables_with_join, process_table_with_join, process_joins,
  process_relation, process_selection, process_table, extract_exprs_and_table_names,
}
use pgcat.Router.Selection.{
  KeyName, key_name, is_key, is_star, literal_keys, selection_keys, all_keys, selection_parser,
  is_refused, check_assignments, assignment_parser, write_keys, infer_shard, infer_shard_on_write,
}

-- SELECT … FROM name WHERE condition
abbrev pub from_one : List Text → Expr → Query
from_one name condition = record {
  body = select (record { relation = some name; joins = [] } ∷ []) (some condition);
  has_locks = false;
}

-- DELETE FROM name WHERE condition
abbrev pub delete_from : List Text → Expr → Statement
delete_from name condition = delete (record {
  from_table = name;
  selection = some condition;
  using_tables = none;
  unsupported = false;
})

module _ (lowercase : Text → Text) (digest : List ℕ → List ℕ) (setting : Text) (k : KeyName) where
  module _ (r : QueryRouter) (set : r.pool_settings.automatic_sharding_key ≡ some setting)
      (named : key_name lowercase (some setting) ≡ ok k) where
    -- A query from one table that compares the key with a number goes to the shard of that number,
    -- and so does the query that has any other comparison, not by `=`, joined to this by OR, though
    -- rows of every shard may meet that one.
    pub key_decides_or :
        (name : List Text) (c v : Text) (left right : Expr) (n s : ℕ)
        → is_key lowercase k (name ∷ []) (identifier c) ≡ true
        → parse_i64 v ≡ some n
        → Sharding.shard digest (sharder r) n ≡ ok s
        → (infer_shard lowercase digest
              (from_one name (binary_op (identifier c) eq_op (number v)))
              r
            ≡ (ok (some s), r))
          × (infer_shard lowercase digest
                (from_one name (
                  binary_op
                    (binary_op (identifier c) eq_op (number v))
                    or_op
                    (binary_op left other_op right)))
                r
              ≡ (ok (some s), r))
    unfolding infer_shard query_parts process_query process_tables_with_join process_table_with_join
        process_joins process_relation process_selection process_table selection_parser all_keys
        selection_keys literal_keys infer_shard_from_exprs collect_keys
    key_decides_or name c v left right n s key parsed shard = (
      simp (set, named, key, parsed) (rw (collect_keys, shard) refl),
      simp (set, named, key, parsed) (rw (collect_keys, shard) refl),
    )

    -- A placeholder is taken for the key whatever column it is compared with: its position is kept
    -- for the Bind message, and no shard is inferred.
    pub any_placeholder :
        (name : List Text) (c p : Text) (n : ℕ)
        → parse_i16 (without b'$' p) ≡ some n
        → infer_shard lowercase digest
            (from_one name (binary_op (identifier c) eq_op (Syntax.placeholder p)))
            r
          ≡ (ok none, record r { placeholders = r.placeholders ++ (n ∷ []) })
    unfolding infer_shard query_parts process_query process_tables_with_join process_table_with_join
        process_joins process_relation process_selection process_table selection_parser all_keys
        selection_keys literal_keys infer_shard_from_exprs collect_keys
    any_placeholder name c p n parsed = rw (set, named, parsed) refl

    pub delete_not_keyed :
        (name : List Text) (c v : Text)
        → is_star k ≡ false
        → infer_shard_on_write lowercase digest
            (delete_from name (binary_op (identifier c) eq_op (number v)))
            r
          ≡ (ok none, r)
    unfolding infer_shard_on_write write_keys extract_exprs_and_table_names process_selection
        selection_parser all_keys selection_keys literal_keys is_key infer_shard_from_exprs
        collect_keys
    delete_not_keyed name c v star = elim (Bool-cases (text_eq (lowercase c) k.column)) [
      | inl same ↦ rw (set, named, same, star) refl
      | inr other ↦ rw (set, named, other) refl
    ]

  check_assignments-accepts :
      (targets : List Text) → is_star k ≡ false → check_assignments lowercase k targets ≡ ok tt
  unfolding check_assignments is_refused
  check_assignments-accepts [] star = refl
  check_assignments-accepts (t ∷ targets) star = rw star (check_assignments-accepts targets star)

  -- A key with a table of its own may be updated.
  pub assignment_parser-accepts :
      (targets : List Text)
      → key_name lowercase (some setting) ≡ ok k
      → is_star k ≡ false
      → assignment_parser lowercase (some setting) targets ≡ ok tt
  unfolding assignment_parser
  assignment_parser-accepts targets named star = rw named (check_assignments-accepts targets star)
