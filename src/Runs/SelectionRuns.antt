-- ===== src/Runs/SelectionRuns.antt =====
-- Concrete inputs for the theorems on the conditions of queries in src/query_router.rs.
use pgcat.Prelude.{
  ℕ, ◌≡◌, refl, inl, true, false, Option, none, some, List, [], ◌∷◌, codes, text_eq,
}
use pgcat.Prelude.Parse.{parse_i64, parse_i16, parse_digits, digits_from, split, without}
use pgcat.Prelude.Result.{ok}
use pgcat.Server.Parameters.{Text}
use pgcat.Sharding
use pgcat.Sharding.{pg_bigint_hash, rem_usize}
use pgcat.Router.{QueryRouter, sharder}
use pgcat.Router.Syntax.{
  Expr, binary_op, identifier, compound_identifier, number, other_expr, eq_op, and_op, or_op,
  other_op, Query, Body, select, Update, update, Statement,
}
use pgcat.Router.Syntax
use pgcat.Router.Infer.{
  collect_keys, infer_shard_from_exprs, infer, infer_all, infer_key, handle_inferred_shard,
  query_role, is_mutation_query,
}
use pgcat.Router.Tables.{
  query_parts, query_handles_tables_in_mutation_cache, update_mutation_cache_on_write,
  extract_exprs_and_table_names, process_query, process_tables_with_join, process_table_with_join,
  process_joins, process_relation, process_selection, process_table, cache_keys,
  table_mutation_cache_key,
}
use pgcat.Router.Tables.Written.{written_is_seen}
use pgcat.Router.Selection.{
  KeyName, key_name, is_key, infer_shard, selection_parser, all_keys, selection_keys, literal_keys,
}
use pgcat.Router.Selection.Sound.{Conditions}
use pgcat.Router.Trees.{body_form, query_view, views}
use pgcat.Router.Trees.Places.{infer-IsShard}
use pgcat.Router.Selection.Gaps.{from_one, key_decides_or, any_placeholder}
use pgcat.Runs.PoolRuns.{settings}
use pgcat.Runs.RouterRuns.{digest, router}

-- Texts in lower case only.
abbrev lowercase : Text → Text
lowercase text = text

abbrev id_key : KeyName
id_key = record { table = codes "data"; column = codes "id" }

abbrev keyed : QueryRouter
keyed = record router {
  pool_settings = record settings { shards = 3; automatic_sharding_key = some (codes "data.id") };
}

named : key_name lowercase (some (codes "data.id")) ≡ ok id_key
unfolding key_name split
named = refl

-- WHERE id = 5 AND price > 7
abbrev five : Query
five = from_one (codes "data" ∷ []) (
    binary_op (binary_op (identifier (codes "id")) eq_op (number (codes "5"))) and_op
      (binary_op (identifier (codes "price")) other_op (number (codes "7"))))

-- A row is its key here, and a column in an equation is the key.
abbrev Meets : ℕ → Expr → Type 0
Meets row (binary_op l and_op r) = Meets row l × Meets row r
Meets row (binary_op l eq_op (number text)) = parse_i64 text ≡ some row
Meets row _ = Unit

same_number : (row n : ℕ) (o : Option ℕ) → o ≡ some n → o ≡ some row → row ≡ n
same_number row n o p h = cc

abbrev conditions : (k : KeyName) (tables : List (List Text)) → Conditions lowercase k tables
conditions k tables = record {
  Row = ℕ;
  key = λ n. n;
  Meets = Meets;
  of_and = λ row l r h. h;
  of_key = λ row column text n names parsed h. same_number row n (parse_i64 text) parsed h;
}

five_parsed : parse_i64 (codes "5") ≡ some 5
unfolding parse_i64 parse_digits digits_from
five_parsed = refl

abbrev splitting : QueryRouter
splitting = record keyed {
  pool_settings = record keyed.pool_settings { query_parser_read_write_splitting = true };
}

five_placed :
    (infer digest false
      (views lowercase (codes "db") (some (codes "data.id")) (λ k. false) (Syntax.query five ∷ []))
      splitting).1.active_shard
    ≡ some 2
unfolding views query_view body_form query_handles_tables_in_mutation_cache infer infer_all
    infer_key handle_inferred_shard query_role is_mutation_query query_parts process_query
    process_tables_with_join process_table_with_join process_joins process_relation
    process_selection process_table selection_parser all_keys selection_keys literal_keys is_key
    key_name split text_eq parse_i64 parse_digits digits_from infer_shard_from_exprs collect_keys
    Sharding.shard pg_bigint_hash rem_usize
five_placed = refl

infer-IsShard_example : Sharding.shard digest (sharder splitting) 5 ≡ ok 2
infer-IsShard_example =
    infer-IsShard digest lowercase (codes "db") (codes "data.id") (λ k. false) false id_key five
      splitting 2 (conditions id_key (query_parts five).table_names) 5 refl refl named
      ((tt, tt), ((tt, tt), tt)) ((tt, tt), (five_parsed, tt)) five_placed

id_found : is_key lowercase id_key ((codes "data" ∷ []) ∷ []) (identifier (codes "id")) ≡ true
unfolding is_key text_eq
id_found = refl

five_sharded : Sharding.shard digest (sharder keyed) 5 ≡ ok 2
unfolding Sharding.shard pg_bigint_hash rem_usize
five_sharded = refl

-- WHERE id = 5, and WHERE id = 5 OR price > 7
key_decides_or_example :
    (infer_shard lowercase digest
        (from_one
          (codes "data" ∷ [])
          (binary_op (identifier (codes "id")) eq_op (number (codes "5"))))
        keyed
      ≡ (ok (some 2), keyed))
    × (infer_shard lowercase digest
          (from_one (codes "data" ∷ []) (
            binary_op
              (binary_op (identifier (codes "id")) eq_op (number (codes "5")))
              or_op
              (binary_op (identifier (codes "price")) other_op (number (codes "7")))))
          keyed
        ≡ (ok (some 2), keyed))
key_decides_or_example =
    key_decides_or lowercase digest (codes "data.id") id_key keyed refl named (codes "data" ∷ [])
      (codes "id") (codes "5") (identifier (codes "price")) (number (codes "7")) 5 2 id_found
      five_parsed five_sharded

one_parsed : parse_i16 (without b'$' (codes "$1")) ≡ some 1
unfolding parse_i16 without parse_digits digits_from
one_parsed = refl

-- WHERE price = $1
any_placeholder_example :
    infer_shard lowercase digest
      (from_one
        (codes "data" ∷ [])
        (binary_op (identifier (codes "price")) eq_op (Syntax.placeholder (codes "$1"))))
      keyed
    ≡ (ok none, record keyed { placeholders = 1 ∷ [] })
any_placeholder_example =
    any_placeholder lowercase digest (codes "data.id") id_key keyed refl named (codes "data" ∷ [])
      (codes "price") (codes "$1") 1 one_parsed

abbrev price_set : Update
price_set = record {
  table = record { relation = some (codes "data" ∷ []); joins = [] };
  assignments = codes "price" ∷ [];
  from_tables = none;
  selection = none;
}

written_is_seen_example :
    query_handles_tables_in_mutation_cache (text_eq (codes "db.data")) (codes "db") five ≡ true
unfolding extract_exprs_and_table_names update_mutation_cache_on_write cache_keys
    table_mutation_cache_key query_parts process_query process_tables_with_join
    process_table_with_join process_joins process_relation process_selection process_table text_eq
written_is_seen_example =
    written_is_seen (text_eq (codes "db.data")) (codes "db") (update price_set)
      (codes "db.data" ∷ []) (codes "data") [] five (inl (inl refl)) (inl (inl refl)) refl
      (refl, tt)
