-- ===== src/Router/Tables.antt =====
-- src/query_router.rs: the conditions and the tables of a statement, and the cache of the tables that
-- were written a short time ago. The cache of the crate moka is given by the keys that it holds.
pub mod Named
pub mod Written
use pgcat.Prelude.{ℕ, Bool, true, false, ◌||◌, Option, none, some, List, [], ◌∷◌, ◌++◌, map, codes}
use pgcat.Prelude.Result.{Result, ok, panic}
use pgcat.Server.Parameters.{Text}
use pgcat.Router.Syntax.{
  Expr, binary_op, eq_op, identifier, Relation, Join, TableWithJoins, Body, select, values, nested,
  Query, Insert, Delete, Update, Statement, insert, delete, update,
}

-- The two vectors that the functions below push to.
pub record Extracted : Type 0 where
  pub exprs : List Expr
  pub table_names : List (List Text)

abbrev pub nothing : Extracted
nothing = record { exprs = []; table_names = [] }

abbrev pub push_expr : Expr → Extracted → Extracted
push_expr e x = record x { exprs = x.exprs ++ (e ∷ []) }

unfoldable pub process_table : List Text → Extracted → Extracted
process_table name x = record x { table_names = x.table_names ++ (name ∷ []) }

unfoldable pub process_selection : Option Expr → Extracted → Extracted
process_selection none x = x
process_selection (some e) x = push_expr e x

unfoldable pub process_relation : Relation → Extracted → Extracted
unfolding process_table
process_relation none x = x
process_relation (some name) x = process_table name x

unfoldable pub process_joins : List Join → Extracted → Extracted
unfolding process_relation process_selection
process_joins [] x = x
process_joins (j ∷ joins) x =
    process_joins joins (process_selection j.condition (process_relation j.relation x))

unfoldable pub process_table_with_join : TableWithJoins → Extracted → Extracted
unfolding process_joins process_relation
process_table_with_join t x = process_joins t.joins (process_relation t.relation x)

unfoldable pub process_tables_with_join : List TableWithJoins → Extracted → Extracted
unfolding process_table_with_join
process_tables_with_join [] x = x
process_tables_with_join (t ∷ tables) x =
    process_tables_with_join tables (process_table_with_join t x)

-- The values of one row, each as an equation with its column; what is over is left out.
unfoldable pub process_row : List Text → List Expr → Extracted → Extracted
process_row [] row x = x
process_row (c ∷ columns) [] x = x
process_row (c ∷ columns) (e ∷ row) x =
    process_row columns row (push_expr (binary_op (identifier c) eq_op e) x)

unfoldable pub process_rows : Option (List Text) → List (List Expr) → Extracted → Extracted
unfolding process_row
process_rows none rows x = x
process_rows (some columns) [] x = x
process_rows (some columns) (row ∷ rows) x =
    process_rows (some columns) rows (process_row columns row x)

unfoldable pub process_query : Body → Option (List Text) → Extracted → Extracted
unfolding process_tables_with_join process_selection process_rows
process_query (select tables selection) columns x =
    process_selection selection (process_tables_with_join tables x)
process_query (values rows) columns x = process_rows columns rows x
process_query (nested body) columns x = process_query body columns x
process_query _ columns x = x

-- `table_names`, and the conditions beside them.
unfoldable pub query_parts : Query → Extracted
unfolding process_query
query_parts q = process_query q.body none nothing

abbrev pub process_source : Option Body → List Text → Extracted → Extracted
process_source none columns x = x
process_source (some body) columns x = process_query body (some columns) x

abbrev pub process_using : Option (List TableWithJoins) → Extracted → Extracted
process_using none x = x
process_using (some tables) x = process_tables_with_join tables x

abbrev pub process_from : Option TableWithJoins → Extracted → Extracted
process_from none x = x
process_from (some t) x = process_table_with_join t x

-- An `assert!` on the syntax.
abbrev pub supported : Bool → Extracted → Result ⊥ (Option Extracted)
supported true x = panic
supported false x = ok (some x)

-- The assignments of an UPDATE are read where they are checked.
unfoldable pub extract_exprs_and_table_names : Statement → Result ⊥ (Option Extracted)
unfolding process_query process_tables_with_join process_table_with_join process_selection
    process_table
extract_exprs_and_table_names (insert i) =
    supported i.unsupported (process_source i.source i.columns (process_table i.table_name nothing))
extract_exprs_and_table_names (delete d) = supported d.unsupported (
    process_selection d.selection
      (process_using d.using_tables (process_selection d.selection nothing)))
extract_exprs_and_table_names (update u) = ok (
    some (
      process_selection u.selection
        (process_from u.from_tables (process_table_with_join u.table nothing))))
extract_exprs_and_table_names _ = ok none

unfoldable pub table_mutation_cache_key : Text → Text → Text
table_mutation_cache_key db table = db ++ (codes "." ++ table)

-- Every identifier of every name.
unfoldable pub cache_keys : Text → List (List Text) → List Text
unfolding table_mutation_cache_key
cache_keys db [] = []
cache_keys db (name ∷ names) = map (table_mutation_cache_key db) name ++ cache_keys db names

abbrev pub written_keys : Text → Result ⊥ (Option Extracted) → Result ⊥ (List Text)
written_keys db (ok none) = ok []
written_keys db (ok (some x)) = ok (cache_keys db x.table_names)
written_keys db _ = panic

-- The keys that a write puts into the cache.
unfoldable pub update_mutation_cache_on_write : Text → Statement → Result ⊥ (List Text)
unfolding extract_exprs_and_table_names cache_keys
update_mutation_cache_on_write db q = written_keys db (extract_exprs_and_table_names q)

abbrev pub any_key : (Text → Bool) → List Text → Bool
any_key contains_key [] = false
any_key contains_key (k ∷ ks) = contains_key k || any_key contains_key ks

unfoldable pub query_handles_tables_in_mutation_cache : (Text → Bool) → Text → Query → Bool
unfolding query_parts cache_keys
query_handles_tables_in_mutation_cache contains_key db q =
    any_key contains_key (cache_keys db (query_parts q).table_names)
