-- ===== src/Router/Tables/Named.antt =====
-- src/query_router.rs: the tables that a statement names, and that they are found.
use pgcat.Prelude.{
  ◌≡◌, refl, Bool, true, false, ◌⊎◌, inl, inr, Option, none, some, List, [], ◌∷◌, ◌++◌,
}
use pgcat.Prelude.Result.{Result, ok, err, panic}
use pgcat.Server.Parameters.{Text}
use mathlib.Core.List.{Memᴰ}
use pgcat.Router.Syntax.{
  Expr, Relation, Join, TableWithJoins, Body, select, values, nested, insert_body, update_body,
  other_body, Query, Statement, start_transaction, query, insert, delete, update, other,
}
use pgcat.Router.Tables.{
  Extracted, nothing, process_table, process_selection, process_relation, process_joins,
  process_table_with_join, process_tables_with_join, process_row, process_rows, process_query,
  query_parts, process_source, process_using, process_from, supported,
  extract_exprs_and_table_names,
}

abbrev pub InJoins : List Text → List Join → Type 0
InJoins name [] = ⊥
InJoins name (j ∷ joins) = (j.relation ≡ some name) ⊎ InJoins name joins

abbrev pub InTable : List Text → TableWithJoins → Type 0
InTable name t = (t.relation ≡ some name) ⊎ InJoins name t.joins

abbrev pub InTables : List Text → List TableWithJoins → Type 0
InTables name [] = ⊥
InTables name (t ∷ tables) = InTable name t ⊎ InTables name tables

-- What a query reads: the tables of its FROM, with the joins.
abbrev pub Reads : List Text → Body → Type 0
Reads name (select tables selection) = InTables name tables
Reads name (nested body) = Reads name body
Reads name _ = ⊥

abbrev InSource : List Text → Option Body → Type 0
InSource name none = ⊥
InSource name (some body) = Reads name body

abbrev InUsing : List Text → Option (List TableWithJoins) → Type 0
InUsing name none = ⊥
InUsing name (some tables) = InTables name tables

abbrev InFrom : List Text → Option TableWithJoins → Type 0
InFrom name none = ⊥
InFrom name (some t) = InTable name t

-- The tables that a write names: of an INSERT its table and what its source reads, of an UPDATE its
-- table and its FROM, each with their joins; of a DELETE only its USING.
abbrev pub Names : List Text → Statement → Type 0
Names name (insert i) = (name ≡ i.table_name) ⊎ InSource name i.source
Names name (update u) = InTable name u.table ⊎ InFrom name u.from_tables
Names name (delete d) = InUsing name d.using_tables
Names name _ = ⊥

abbrev Has : List Text → Extracted → Type 0
Has name x = Memᴰ name x.table_names

Mem-left : (name : List Text) (xs ys : List (List Text)) → Memᴰ name xs → Memᴰ name (xs ++ ys)
Mem-left name [] ys m = elim m [ ]
Mem-left name (x ∷ xs) ys (Memᴰ.head e) = Memᴰ.head e
Mem-left name (x ∷ xs) ys (Memᴰ.tail m) = Memᴰ.tail (Mem-left name xs ys m)

Mem-last : (name : List Text) (xs : List (List Text)) → Memᴰ name (xs ++ (name ∷ []))
Mem-last name [] = Memᴰ.head refl
Mem-last name (x ∷ xs) = Memᴰ.tail (Mem-last name xs)

module _ (name : List Text) where
  process_table-Has : (t : List Text) (x : Extracted) → Has name x → Has name (process_table t x)
  unfolding process_table
  process_table-Has t x m = Mem-left name x.table_names (t ∷ []) m

  process_table-found : (x : Extracted) → Has name (process_table name x)
  unfolding process_table
  process_table-found x = Mem-last name x.table_names

  process_relation-Has :
      (o : Relation) (x : Extracted) → Has name x → Has name (process_relation o x)
  unfolding process_relation
  process_relation-Has none x m = m
  process_relation-Has (some t) x m = process_table-Has t x m

  process_relation-found :
      (o : Relation) (x : Extracted) → o ≡ some name → Has name (process_relation o x)
  unfolding process_relation process_table
  process_relation-found o x e = rw e (process_table-found x)

  process_selection-Has :
      (o : Option Expr) (x : Extracted) → Has name x → Has name (process_selection o x)
  unfolding process_selection
  process_selection-Has none x m = m
  process_selection-Has (some e) x m = m

  process_joins-Has :
      (joins : List Join) (x : Extracted) → Has name x → Has name (process_joins joins x)
  unfolding process_joins
  process_joins-Has [] x m = m
  process_joins-Has (j ∷ joins) x m =
      process_joins-Has joins _
        (process_selection-Has j.condition _ (process_relation-Has j.relation x m))

  process_joins-found :
      (joins : List Join) (x : Extracted) → InJoins name joins → Has name (process_joins joins x)
  unfolding process_joins
  process_joins-found [] x h = elim h [ ]
  process_joins-found (j ∷ joins) x (inl e) =
      process_joins-Has joins _
        (process_selection-Has j.condition _ (process_relation-found j.relation x e))
  process_joins-found (j ∷ joins) x (inr h) = process_joins-found joins _ h

  process_table_with_join-Has :
      (t : TableWithJoins) (x : Extracted) → Has name x → Has name (process_table_with_join t x)
  unfolding process_table_with_join
  process_table_with_join-Has t x m =
      process_joins-Has t.joins _ (process_relation-Has t.relation x m)

  process_table_with_join-found :
      (t : TableWithJoins) (x : Extracted) → InTable name t → Has name (process_table_with_join t x)
  unfolding process_table_with_join
  process_table_with_join-found t x (inl e) =
      process_joins-Has t.joins _ (process_relation-found t.relation x e)
  process_table_with_join-found t x (inr h) = process_joins-found t.joins _ h

  process_tables-Has :
      (ts : List TableWithJoins) (x : Extracted)
      → Has name x
      → Has name (process_tables_with_join ts x)
  unfolding process_tables_with_join
  process_tables-Has [] x m = m
  process_tables-Has (t ∷ ts) x m = process_tables-Has ts _ (process_table_with_join-Has t x m)

  process_tables-found :
      (ts : List TableWithJoins) (x : Extracted)
      → InTables name ts
      → Has name (process_tables_with_join ts x)
  unfolding process_tables_with_join
  process_tables-found [] x h = elim h [ ]
  process_tables-found (t ∷ ts) x (inl h) =
      process_tables-Has ts _ (process_table_with_join-found t x h)
  process_tables-found (t ∷ ts) x (inr h) = process_tables-found ts _ h

  process_row-Has :
      (columns : List Text) (row : List Expr) (x : Extracted)
      → Has name x
      → Has name (process_row columns row x)
  unfolding process_row
  process_row-Has [] row x m = m
  process_row-Has (c ∷ columns) [] x m = m
  process_row-Has (c ∷ columns) (e ∷ row) x m = process_row-Has columns row _ m

  process_rows-Has :
      (columns : Option (List Text)) (rows : List (List Expr)) (x : Extracted)
      → Has name x
      → Has name (process_rows columns rows x)
  unfolding process_rows
  process_rows-Has none rows x m = m
  process_rows-Has (some columns) [] x m = m
  process_rows-Has (some columns) (row ∷ rows) x m =
      process_rows-Has (some columns) rows _ (process_row-Has columns row x m)

  process_query-Has :
      (body : Body) (columns : Option (List Text)) (x : Extracted)
      → Has name x
      → Has name (process_query body columns x)
  unfolding process_query
  process_query-Has (select ts o) columns x m =
      process_selection-Has o _ (process_tables-Has ts x m)
  process_query-Has (values rows) columns x m = process_rows-Has columns rows x m
  process_query-Has (nested body) columns x m = process_query-Has body columns x m
  process_query-Has insert_body columns x m = m
  process_query-Has update_body columns x m = m
  process_query-Has other_body columns x m = m

  process_query-found :
      (body : Body) (columns : Option (List Text)) (x : Extracted)
      → Reads name body
      → Has name (process_query body columns x)
  unfolding process_query
  process_query-found (select ts o) columns x h =
      process_selection-Has o _ (process_tables-found ts x h)
  process_query-found (values rows) columns x h = elim h [ ]
  process_query-found (nested body) columns x h = process_query-found body columns x h
  process_query-found insert_body columns x h = elim h [ ]
  process_query-found update_body columns x h = elim h [ ]
  process_query-found other_body columns x h = elim h [ ]

  -- A query is found to read what it reads.
  pub query_parts-Reads : (q : Query) → Reads name q.body → Has name (query_parts q)
  unfolding query_parts
  query_parts-Reads q h = process_query-found q.body none nothing h

  -- What is extracted of a write has the tables that it names.
  abbrev pub Found : Result ⊥ (Option Extracted) → Type 0
  Found (ok (some x)) = Has name x
  Found (ok none) = ⊥
  Found (err e) = ⊥
  Found panic = Unit

  supported-Found : (b : Bool) (x : Extracted) → Has name x → Found (supported b x)
  supported-Found true x m = tt
  supported-Found false x m = m

  source-Has :
      (o : Option Body) (columns : List Text) (x : Extracted)
      → Has name x
      → Has name (process_source o columns x)
  source-Has none columns x m = m
  source-Has (some body) columns x m = process_query-Has body (some columns) x m

  source-found :
      (o : Option Body) (columns : List Text) (x : Extracted)
      → InSource name o
      → Has name (process_source o columns x)
  source-found none columns x h = elim h [ ]
  source-found (some body) columns x h = process_query-found body (some columns) x h

  using-found :
      (o : Option (List TableWithJoins)) (x : Extracted)
      → InUsing name o
      → Has name (process_using o x)
  using-found none x h = elim h [ ]
  using-found (some ts) x h = process_tables-found ts x h

  from-Has : (o : Option TableWithJoins) (x : Extracted) → Has name x → Has name (process_from o x)
  from-Has none x m = m
  from-Has (some t) x m = process_table_with_join-Has t x m

  from-found :
      (o : Option TableWithJoins) (x : Extracted) → InFrom name o → Has name (process_from o x)
  from-found none x h = elim h [ ]
  from-found (some t) x h = process_table_with_join-found t x h

  inserted : (t : List Text) (x : Extracted) → name ≡ t → Has name (process_table t x)
  inserted t x e = rw (← e) (process_table-found x)

  pub extract-Found : (s : Statement) → Names name s → Found (extract_exprs_and_table_names s)
  unfolding extract_exprs_and_table_names
  extract-Found start_transaction h = elim h [ ]
  extract-Found (query q) h = elim h [ ]
  extract-Found other h = elim h [ ]
  extract-Found (insert i) (inl e) =
      supported-Found i.unsupported _
        (source-Has i.source i.columns _ (inserted i.table_name nothing e))
  extract-Found (insert i) (inr h) =
      supported-Found i.unsupported _ (source-found i.source i.columns _ h)
  extract-Found (delete d) h =
      supported-Found d.unsupported _
        (process_selection-Has d.selection _ (using-found d.using_tables _ h))
  extract-Found (update u) (inl h) =
      process_selection-Has u.selection _
        (from-Has u.from_tables _ (process_table_with_join-found u.table nothing h))
  extract-Found (update u) (inr h) =
      process_selection-Has u.selection _ (from-found u.from_tables _ h)
