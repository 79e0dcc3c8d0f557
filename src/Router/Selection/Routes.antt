-- ===== src/Router/Selection/Routes.antt =====
-- src/query_router.rs: a query is sent to the shard of the rows that meet its conditions.
use pgcat.Prelude.{
  subst, ℕ, ◌≡◌, refl, Option, none, some, List, [], ◌∷◌, ◌==◌, All, All-append, inl, inr,
  Bool-cases, ap,
}
use pgcat.Prelude.Result.{Result, ok, err, panic}
use pgcat.Errors.{Error}
use pgcat.Server.Parameters.{Text}
use pgcat.Sharding
use pgcat.Router.{QueryRouter, sharder}
use pgcat.Router.Infer.{
  ShardingKey, value, placeholder, collect_keys, infer_shard_from_exprs, insert_shard, only,
  one_shard,
}
use pgcat.Router.Syntax.{
  Expr, Join, TableWithJoins, Body, select, values, nested, insert_body, update_body, other_body,
  Query,
}
use pgcat.Router.Tables.{
  Extracted, nothing, process_table, process_selection, process_relation, process_joins,
  process_table_with_join, process_tables_with_join, process_rows, process_query, query_parts,
}
use pgcat.Router.Selection.{
  KeyName, key_name, all_keys, selection_parser, infer_shard, keys_in, from_keys,
}
use pgcat.Router.Selection.Sound.{IsConjunctive, Conditions, IsKeyOfRow, all_keys-AreKeys}

-- Every condition of a query: of WHERE, and of the inner joins.
module _ (P : Expr → Type 0) where
  abbrev pub OnCondition : Option Expr → Type 0
  OnCondition none = Unit
  OnCondition (some e) = P e

  abbrev pub EachJoin : List Join → Type 0
  EachJoin [] = Unit
  EachJoin (j ∷ joins) = OnCondition j.condition × EachJoin joins

  abbrev pub EachTable : List TableWithJoins → Type 0
  EachTable [] = Unit
  EachTable (t ∷ tables) = EachJoin t.joins × EachTable tables

  abbrev pub EachCondition : Body → Type 0
  EachCondition (select tables selection) = EachTable tables × OnCondition selection
  EachCondition (nested body) = EachCondition body
  EachCondition _ = Unit

  process_selection-All :
      (o : Option Expr) (x : Extracted)
      → OnCondition o
      → All P x.exprs
      → All P (process_selection o x).exprs
  unfolding process_selection
  process_selection-All none x o h = h
  process_selection-All (some e) x o h = All-append P x.exprs (e ∷ []) h (o, tt)

  process_relation-All :
      (o : Option (List Text)) (x : Extracted) → All P x.exprs → All P (process_relation o x).exprs
  unfolding process_relation process_table
  process_relation-All none x h = h
  process_relation-All (some name) x h = h

  process_joins-All :
      (joins : List Join) (x : Extracted)
      → EachJoin joins
      → All P x.exprs
      → All P (process_joins joins x).exprs
  unfolding process_joins
  process_joins-All [] x e h = h
  process_joins-All (j ∷ joins) x (e, es) h =
      process_joins-All joins _ es
        (process_selection-All j.condition _ e (process_relation-All j.relation x h))

  process_tables-All :
      (tables : List TableWithJoins) (x : Extracted)
      → EachTable tables
      → All P x.exprs
      → All P (process_tables_with_join tables x).exprs
  unfolding process_tables_with_join process_table_with_join
  process_tables-All [] x e h = h
  process_tables-All (t ∷ tables) x (e, es) h =
      process_tables-All tables _ es
        (process_joins-All t.joins _ e (process_relation-All t.relation x h))

  process_query-All :
      (body : Body) (x : Extracted)
      → EachCondition body
      → All P x.exprs
      → All P (process_query body none x).exprs
  unfolding process_query process_rows
  process_query-All (select tables selection) x (e, o) h =
      process_selection-All selection _ o (process_tables-All tables x e h)
  process_query-All (nested body) x e h = process_query-All body x e h
  process_query-All (values rows) x e h = h
  process_query-All insert_body x e h = h
  process_query-All update_body x e h = h
  process_query-All other_body x e h = h

  query_parts-All : (q : Query) → EachCondition q.body → All P (query_parts q).exprs
  unfolding query_parts
  query_parts-All q e = process_query-All q.body nothing e tt

module _ (lowercase : Text → Text) (digest : List ℕ → List ℕ) where
  module _ (k : KeyName) (tables : List (List Text)) (m : Conditions lowercase k tables)
      (row : m.Row) where
    abbrev IsShard : QueryRouter → ℕ → Type 0
    IsShard r s = Sharding.shard digest (sharder r) (m.key row) ≡ ok s

    insert_shard-All :
        (P : ℕ → Type 0) (n : ℕ) (shards : List ℕ)
        → P n
        → All P shards
        → All P (insert_shard n shards)
    insert_shard-All P n [] p h = (p, tt)
    insert_shard-All P n (s ∷ shards) p (q, h) = elim (Bool-cases (n == s)) [
      | inl same ↦ rw same (q, h)
      | inr other ↦ rw other (q, insert_shard-All P n shards p h)
    ]

    abbrev Collects : List ShardingKey → Type 0
    Collects keys =
        (shards found : List ℕ) (r t : QueryRouter)
        → All (IsKeyOfRow lowercase k tables m row) keys
        → All (IsShard r) shards
        → collect_keys digest keys shards r ≡ (some found, t)
        → All (IsShard r) found

    -- A key of the row adds no shard but that of the row.
    collect_value :
        (keys : List ShardingKey) (n : ℕ) (sharded : Result ⊥ ℕ)
        → Collects keys
        → (shards found : List ℕ) (r t : QueryRouter)
        → Sharding.shard digest (sharder r) n ≡ sharded
        → All (IsKeyOfRow lowercase k tables m row) (value n ∷ keys)
        → All (IsShard r) shards
        → collect_keys digest (value n ∷ keys) shards r ≡ (some found, t)
        → All (IsShard r) found
    unfolding collect_keys
    collect_value keys n (ok shard) more shards found r t same (p, h) s e =
        more (insert_shard shard shards) found r t h
          (insert_shard-All (IsShard r) shard shards (rw p same) s) (rw (same, collect_keys) at e)
    collect_value keys n (err x) more shards found r t same h s e = elim x [ ]
    collect_value keys n panic more shards found r t same h s e =
        let e' : ◌≡◌ {A = Option (List ℕ) × QueryRouter} (none, r) (some found, t) =
          rw (same, collect_keys) at e in
        cc

    collect_keys-All : (keys : List ShardingKey) → Collects keys
    unfolding collect_keys
    collect_keys-All [] shards found r t h s e =
        let same : ◌≡◌ {A = Option (List ℕ)} (some shards) (some found) =
          ap (λ (x : Option (List ℕ) × QueryRouter). x.0) e in
        subst (All (IsShard r)) (cc) s
    collect_keys-All (placeholder n ∷ keys) shards found r t (_, h) s e =
        collect_keys-All keys shards found _ t h s e
    collect_keys-All (value n ∷ keys) shards found r t h s e =
        collect_value keys n _ (collect_keys-All keys) shards found r t refl h s e

    only-All :
        (P : ℕ → Type 0) (shards : List ℕ) (s : ℕ) → All P shards → only shards ≡ some s → P s
    only-All P [] s h e = cc
    only-All P (n ∷ []) s (p, h) e = let same : n ≡ s = cc in subst P same p
    only-All P (n ∷ (q ∷ rest)) s h e = cc

    one_shard-IsShard :
        (r t : QueryRouter) (s : ℕ) (found : Option (List ℕ) × QueryRouter)
        → ((shards : List ℕ) (u : QueryRouter) → found ≡ (some shards, u) → All (IsShard r) shards)
        → one_shard digest found ≡ (ok (some s), t)
        → IsShard r s
    one_shard-IsShard r t s (none, u) h e = cc
    one_shard-IsShard r t s (some shards, u) h e =
        let same : ◌≡◌ {A = Result Error (Option ℕ)} (ok (only shards)) (ok (some s)) =
          ap (λ (x : Result Error (Option ℕ) × QueryRouter). x.0) e in
        only-All (IsShard r) shards s (h shards u refl) (cc)

    infer_shard_from_exprs-IsShard :
        (keys : List ShardingKey) (r t : QueryRouter) (s : ℕ)
        → All (IsKeyOfRow lowercase k tables m row) keys
        → infer_shard_from_exprs digest keys r ≡ (ok (some s), t)
        → IsShard r s
    unfolding infer_shard_from_exprs
    infer_shard_from_exprs-IsShard keys r t s h e =
        one_shard-IsShard r t s (collect_keys digest keys [] r)
          (λ shards u found. collect_keys-All keys [] shards r u h tt found) e

  keys_in-AreKeys :
      (setting : Text) (k : KeyName) (tables : List (List Text)) (m : Conditions lowercase k tables)
      (row : m.Row) (exprs : List Expr) (keys : List ShardingKey)
      → key_name lowercase (some setting) ≡ ok k
      → All IsConjunctive exprs
      → All (m.Meets row) exprs
      → keys_in lowercase (some setting) tables exprs ≡ ok keys
      → All (IsKeyOfRow lowercase k tables m row) keys
  keys_in-AreKeys setting k tables m row [] keys named c h e =
      let same : ◌≡◌ {A = List ShardingKey} [] keys = cc in
      subst (All (IsKeyOfRow lowercase k tables m row)) same tt
  keys_in-AreKeys setting k tables m row (x ∷ exprs) keys named c h e =
      let found : ◌≡◌ {A = Result Error (List ShardingKey)}
          (ok (all_keys lowercase k tables (x ∷ exprs))) (ok keys) =
        rw named at e in
      let same : all_keys lowercase k tables (x ∷ exprs) ≡ keys = cc in
      subst (All (IsKeyOfRow lowercase k tables m row)) same
        (all_keys-AreKeys lowercase k tables m row (x ∷ exprs) c h)

  from_keys-IsShard :
      (k : KeyName) (tables : List (List Text)) (m : Conditions lowercase k tables) (row : m.Row)
      (r t : QueryRouter) (s : ℕ) (keys : Result Error (List ShardingKey))
      → ((found : List ShardingKey)
          → keys ≡ ok found
          → All (IsKeyOfRow lowercase k tables m row) found)
      → from_keys lowercase digest keys r ≡ (ok (some s), t)
      → IsShard k tables m row r s
  from_keys-IsShard k tables m row r t s (ok keys) h e =
      infer_shard_from_exprs-IsShard k tables m row keys r t s (h keys refl) e
  from_keys-IsShard k tables m row r t s (err x) h e = cc
  from_keys-IsShard k tables m row r t s panic h e = cc

  -- Where every condition of a query, of WHERE and of its inner joins, is a conjunction, a shard
  -- that is inferred from them is the shard of every row that meets them all. That a row which meets
  -- a conjunction meets both its sides, and that a row which meets an equation of the key with a
  -- number has that key, are hypotheses on Postgres.
  pub infer_shard-IsShard :
      (setting : Text) (k : KeyName) (q : Query) (r t : QueryRouter) (s : ℕ)
      (m : Conditions lowercase k (query_parts q).table_names) (row : m.Row)
      → r.pool_settings.automatic_sharding_key ≡ some setting
      → key_name lowercase (some setting) ≡ ok k
      → EachCondition IsConjunctive q.body
      → EachCondition (m.Meets row) q.body
      → infer_shard lowercase digest q r ≡ (ok (some s), t)
      → Sharding.shard digest (sharder r) (m.key row) ≡ ok s
  unfolding infer_shard selection_parser
  infer_shard-IsShard setting k q r t s m row set named c h e =
      from_keys-IsShard k (query_parts q).table_names m row r t s _
        (λ found read.
          keys_in-AreKeys setting k (query_parts q).table_names m row (query_parts q).exprs found
            named (query_parts-All IsConjunctive q c) (query_parts-All (m.Meets row) q h)
            (rw set at read))
        e
