-- ===== src/Router/Infer.antt =====
-- src/query_router.rs, `infer`: the role, and with a sharding key the shard, from the statements of a
-- query. Of the syntax trees of the crate sqlparser the model reads a view.
pub mod Roles
use pgcat.Prelude.{
  ℕ, Bool, true, false, ◌||◌, ◌&&◌, not, Option, none, some, List, [], ◌∷◌, ◌++◌, ◌==◌,
  if◌then◌else◌,
}
use pgcat.Prelude.Result.{Result, ok, err, panic}
use pgcat.Errors.{Error, query_router_parser_error}
use pgcat.Config.{Role, primary, replica}
use pgcat.Pool.{PoolSettings}
use pgcat.Sharding
use pgcat.Router.{QueryRouter, primary_reads, sharder}

-- The body of a query, as far as `is_mutation_query` looks: a nested query by its own body.
pub data SetExpr : Type 0 where
  insert_expr update_expr other_expr : SetExpr
  nested : SetExpr → SetExpr

pub data ShardingKey : Type 0 where
  value : ℕ → ShardingKey
  placeholder : ℕ → ShardingKey

-- A query: whether it takes locks, its body, whether it reads a table in the mutation cache, and the
-- keys that `selection_parser` finds in its expressions, if it reads the setting without a panic.
pub record Query : Type 0 where
  pub has_locks : Bool
  pub body : SetExpr
  pub recently_mutated : Bool
  pub keys : Result Error (List ShardingKey)

-- A statement that is neither a query nor the start of a transaction: whether the assertions on its
-- syntax fail, and the keys of its expressions, or the error that finding them gives.
pub data Statement : Type 0 where
  start_transaction : Statement
  query : Query → Statement
  other : Bool → Result Error (List ShardingKey) → Statement

unfoldable pub is_mutation_query : SetExpr → Bool
is_mutation_query insert_expr = true
is_mutation_query update_expr = true
is_mutation_query other_expr = false
is_mutation_query (nested body) = is_mutation_query body

-- A BTreeSet of shards, which the code only counts: its distinct members, the last one first.
abbrev pub insert_shard : ℕ → List ℕ → List ℕ
insert_shard n [] = n ∷ []
insert_shard n (m ∷ ms) = let rest = insert_shard n ms in if n == m then m ∷ ms else m ∷ rest

-- The shard of a set that has one member.
abbrev pub only : List ℕ → Option ℕ
only (n ∷ []) = some n
only _ = none

module _ (digest : List ℕ → List ℕ) where
  -- What a computation leaves of the router: its value or error, or a panic.
  abbrev pub Step : Type 0 → Type 0
  Step A = Result Error A × QueryRouter

  -- `infer_shard_from_exprs`: the shards of the values, and the placeholders for later.
  abbrev pub add_key : Result ⊥ ℕ → List ℕ → Option (List ℕ)
  add_key (ok n) shards = some (insert_shard n shards)
  add_key _ shards = none

  unfoldable pub collect_keys :
      List ShardingKey → List ℕ → QueryRouter → Option (List ℕ) × QueryRouter
  collect_keys [] shards r = (some shards, r)
  collect_keys (placeholder position ∷ keys) shards r =
      collect_keys keys shards (record r { placeholders = r.placeholders ++ (position ∷ []) })
  collect_keys (value key ∷ keys) shards r =
      elim (add_key (Sharding.shard digest (sharder r) key) shards) [
        | none ↦ (none, r)
        | some shards' ↦ collect_keys keys shards' r
      ]

  abbrev pub one_shard : Option (List ℕ) × QueryRouter → Step (Option ℕ)
  one_shard (none, r) = (panic, r)
  one_shard (some shards, r) = (ok (only shards), r)

  unfoldable pub infer_shard_from_exprs : List ShardingKey → QueryRouter → Step (Option ℕ)
  unfolding collect_keys
  infer_shard_from_exprs keys r = one_shard (collect_keys keys [] r)

  -- `handle_inferred_shard`, with the shard inferred before; the new one is returned.
  unfoldable pub handle_inferred_shard : Option ℕ → Option ℕ → QueryRouter → Step (Option ℕ)
  handle_inferred_shard none prev r = (ok prev, r)
  handle_inferred_shard (some shard) none r =
      (ok (some shard), record r { active_shard = some shard })
  handle_inferred_shard (some shard) (some prev) r =
      if prev == shard
      then (ok (some shard), record r { active_shard = some shard })
      else (err query_router_parser_error, r)

  abbrev pub then_handle : Option ℕ → Step (Option ℕ) → Step (Option ℕ)
  then_handle prev (ok inferred, r) = handle_inferred_shard inferred prev r
  then_handle prev (err e, r) = (err e, r)
  then_handle prev (panic, r) = (panic, r)

  abbrev pub keys_step : Result Error (List ShardingKey) → QueryRouter → Step (Option ℕ)
  keys_step (ok keys) r = infer_shard_from_exprs keys r
  keys_step (err e) r = (err e, r)
  keys_step panic r = (panic, r)

  -- The `match &self.pool_settings.automatic_sharding_key`.
  unfoldable pub infer_key :
      Option (List ℕ) → Result Error (List ShardingKey) → Option ℕ → QueryRouter → Step (Option ℕ)
  unfolding infer_shard_from_exprs handle_inferred_shard
  infer_key none keys prev r = (ok prev, r)
  infer_key (some key) keys prev r = then_handle prev (keys_step keys r)

  abbrev pub with_role : Option Role → QueryRouter → QueryRouter
  with_role role r = record r { active_role = role }

  -- The role after a query: locks and mutations go to the primary, and what follows a write does too.
  unfoldable pub query_role : Query → Bool → QueryRouter → QueryRouter
  unfolding is_mutation_query
  query_role q visited r =
      if q.has_locks || is_mutation_query q.body
      then with_role (some primary) r
      else if visited
      then r
      else with_role (if primary_reads r then none else some replica) r

  -- The loop: `by_activity` and `visited` are its two flags, `prev` the shard inferred before.
  abbrev pub Loop : Type 0
  Loop = Bool → Bool → Option ℕ → QueryRouter → Result Error (Unit {0}) × QueryRouter

  abbrev pub after_query :
      Loop → Query → Bool → Bool → Step (Option ℕ) → Result Error (Unit {0}) × QueryRouter
  after_query more q by_activity visited (ok prev, r) =
      more by_activity visited prev (query_role q visited r)
  after_query more q by_activity visited (err e, r) = (err e, r)
  after_query more q by_activity visited (panic, r) = (panic, r)

  abbrev pub after_write : Loop → Bool → Step (Option ℕ) → Result Error (Unit {0}) × QueryRouter
  after_write more by_activity (ok prev, r) =
      more by_activity true prev (with_role (some primary) r)
  after_write more by_activity (err e, r) = (err e, r)
  after_write more by_activity (panic, r) = (panic, r)

  unfoldable pub infer_all : List Statement → Loop
  unfolding infer_key query_role
  infer_all [] by_activity visited prev r = (ok tt, r)
  infer_all (start_transaction ∷ rest) by_activity visited prev r =
      (ok tt, with_role (some primary) r)
  infer_all (query q ∷ rest) by_activity visited prev r =
      let skipped = infer_all rest true visited prev r in
      let to_primary = infer_all rest true visited prev (with_role (some primary) r) in
      let inferred =
        after_query (infer_all rest) q by_activity visited
          (infer_key r.pool_settings.automatic_sharding_key q.keys prev r) in
      if by_activity
      then skipped
      else (if r.pool_settings.db_activity_based_routing
          then (if q.recently_mutated then to_primary else inferred)
          else inferred)
  infer_all (other asserts_fail keys ∷ rest) by_activity visited prev r =
      let inferred =
        after_write (infer_all rest) by_activity
          (infer_key r.pool_settings.automatic_sharding_key keys prev r) in
      if r.pool_settings.db_activity_based_routing && asserts_fail then (panic, r) else inferred

  -- `initializing` is what the cache of database activity says.
  unfoldable pub infer : Bool → List Statement → QueryRouter → Result Error (Unit {0}) × QueryRouter
  unfolding infer_all
  infer initializing [] r =
      if r.pool_settings.query_parser_read_write_splitting
      then (err query_router_parser_error, with_role (some primary) r)
      else (ok tt, r)
  infer initializing (q ∷ ast) r =
      let active = infer_all (q ∷ ast) false false none r in
      let starting = infer_all (q ∷ ast) true false none (with_role (some primary) r) in
      if r.pool_settings.query_parser_read_write_splitting
      then (if r.pool_settings.db_activity_based_routing
          then (if initializing then starting else active)
          else active)
      else (ok tt, r)
