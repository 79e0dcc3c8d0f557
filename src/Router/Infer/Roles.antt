-- ===== src/Router/Infer/Roles.antt =====
-- src/query_router.rs: to which role the statements of one message go.
use pgcat.Prelude.{
  ℕ, ◌≡◌, refl, ◌∙◌, inl, inr, Bool, true, false, ◌||◌, ◌&&◌, Option, none, some, List, [], ◌∷◌,
  ◌++◌, ◌==◌, if◌then◌else◌, Bool-cases,
}
use pgcat.Prelude.Result.{Result, ok, err, panic}
use pgcat.Errors.{Error}
use pgcat.Config.{primary, replica}
use pgcat.Router.{QueryRouter, primary_reads, sharder}
use pgcat.Sharding
use pgcat.Router.Infer.{
  ShardingKey, value, placeholder, Query, Statement, start_transaction, query, other,
  is_mutation_query, collect_keys, add_key, one_shard, infer_shard_from_exprs,
  handle_inferred_shard, then_handle, keys_step, infer_key, with_role, query_role, Loop,
  after_query, after_write, infer_all, infer, Step,
}

-- A message with a write, or with the start of a transaction, in any place.
abbrev pub HasWrite : List Statement → Type 0
HasWrite [] = ⊥
HasWrite (start_transaction ∷ rest) = Unit
HasWrite (query q ∷ rest) = HasWrite rest
HasWrite (other asserts_fail keys ∷ rest) = Unit

-- Where a message goes for which inferring succeeds.
abbrev pub GoesPrimary : Result Error (Unit {0}) × QueryRouter → Type 0
GoesPrimary (ok _, r) = r.active_role ≡ some primary
GoesPrimary _ = Unit

module _ (digest : List ℕ → List ℕ) where
  -- The role and the settings are left as they are.
  abbrev SameRole : QueryRouter → QueryRouter → Type 0
  SameRole r t = (t.active_role ≡ r.active_role) × (t.pool_settings ≡ r.pool_settings)

  same : (r : QueryRouter) → SameRole r r
  same r = (refl, refl)

  trans : (r s t : QueryRouter) → SameRole r s → SameRole s t → SameRole r t
  trans r s t (a, b) (a', b') = (a' ∙ a, b' ∙ b)

  collect_keys-SameRole :
      (keys : List ShardingKey) (shards : List ℕ) (r : QueryRouter)
      → SameRole r (collect_keys digest keys shards r).1
  unfolding collect_keys
  collect_keys-SameRole [] shards r = same r
  collect_keys-SameRole (placeholder position ∷ keys) shards r =
      collect_keys-SameRole keys shards
        (record r { placeholders = r.placeholders ++ (position ∷ []) })
  collect_keys-SameRole (value key ∷ keys) shards r =
      added (add_key digest (Sharding.shard digest (sharder r) key) shards)
        (λ shards'. collect_keys-SameRole keys shards' r)
    where
      added :
          (o : Option (List ℕ))
          → ((shards' : List ℕ) → SameRole r (collect_keys digest keys shards' r).1)
          → let t : Option (List ℕ) × QueryRouter = elim o [
            | none ↦ (none, r)
            | some shards' ↦ collect_keys digest keys shards' r
          ] in
            SameRole r t.1
      added none h = same r
      added (some shards') h = h shards'

  one_shard-SameRole :
      (r : QueryRouter) (x : Option (List ℕ) × QueryRouter)
      → SameRole r x.1
      → SameRole r (one_shard digest x).1
  one_shard-SameRole r (none, t) h = h
  one_shard-SameRole r (some shards, t) h = h

  handle-SameRole :
      (inferred prev : Option ℕ) (r : QueryRouter)
      → SameRole r (handle_inferred_shard digest inferred prev r).1
  unfolding handle_inferred_shard
  handle-SameRole none prev r = same r
  handle-SameRole (some shard) none r = same r
  handle-SameRole (some shard) (some prev) r = elim (Bool-cases (prev == shard)) [
    | inl e ↦ rw e (same r)
    | inr e ↦ rw e (same r)
  ]

  then_handle-SameRole :
      (r : QueryRouter) (prev : Option ℕ) (x : Step digest (Option ℕ))
      → SameRole r x.1
      → SameRole r (then_handle digest prev x).1
  then_handle-SameRole r prev (ok inferred, t) h =
      trans r t (handle_inferred_shard digest inferred prev t).1 h (handle-SameRole inferred prev t)
  then_handle-SameRole r prev (err e, t) h = h
  then_handle-SameRole r prev (panic, t) h = h

  keys_step-SameRole :
      (keys : Result Error (List ShardingKey)) (r : QueryRouter)
      → SameRole r (keys_step digest keys r).1
  unfolding infer_shard_from_exprs
  keys_step-SameRole (ok keys) r =
      one_shard-SameRole r (collect_keys digest keys [] r) (collect_keys-SameRole keys [] r)
  keys_step-SameRole (err e) r = same r
  keys_step-SameRole panic r = same r

  infer_key-SameRole :
      (key : Option (List ℕ)) (keys : Result Error (List ShardingKey)) (prev : Option ℕ)
      (r : QueryRouter)
      → SameRole r (infer_key digest key keys prev r).1
  unfolding infer_key
  infer_key-SameRole none keys prev r = same r
  infer_key-SameRole (some key) keys prev r =
      then_handle-SameRole r prev (keys_step digest keys r) (keys_step-SameRole keys r)

  -- After a write, a query leaves the primary chosen.
  query_role-primary :
      (q : Query) (r : QueryRouter)
      → r.active_role ≡ some primary
      → (query_role digest q true r).active_role ≡ some primary
  unfolding query_role
  query_role-primary q r e = elim (Bool-cases (q.has_locks || is_mutation_query q.body)) [
    | inl w ↦ rw w refl
    | inr w ↦ rw w e
  ]

  after_query-primary :
      (more : Loop digest) (q : Query) (by_activity : Bool) (r : QueryRouter)
      (x : Step digest (Option ℕ))
      → SameRole r x.1
      → r.active_role ≡ some primary
      → ((b : Bool) (prev : Option ℕ) (t : QueryRouter)
          → t.active_role ≡ some primary
          → GoesPrimary (more b true prev t))
      → GoesPrimary (after_query digest more q by_activity true x)
  after_query-primary more q b r (ok prev, t) h e k =
      k b prev (query_role digest q true t) (query_role-primary q t (h.0 ∙ e))
  after_query-primary more q b r (err x, t) h e k = tt
  after_query-primary more q b r (panic, t) h e k = tt

  after_write-primary :
      (more : Loop digest) (by_activity : Bool) (x : Step digest (Option ℕ))
      → ((b : Bool) (prev : Option ℕ) (t : QueryRouter)
          → t.active_role ≡ some primary
          → GoesPrimary (more b true prev t))
      → GoesPrimary (after_write digest more by_activity x)
  after_write-primary more b (ok prev, t) k = k b prev (with_role digest (some primary) t) refl
  after_write-primary more b (err x, t) k = tt
  after_write-primary more b (panic, t) k = tt

  -- Which of the three ways a query takes makes no difference to what holds of all three.
  three_ways :
      (P : Result Error (Unit {0}) × QueryRouter → Type 0) (a b d : Bool)
      (x y z : Result Error (Unit {0}) × QueryRouter)
      → P x
      → P y
      → P z
      → P (if a then x else (if b then (if d then y else z) else z))
  three_ways P true b d x y z p q s = p
  three_ways P false true true x y z p q s = q
  three_ways P false true false x y z p q s = s
  three_ways P false false d x y z p q s = s

  asserted :
      (a : Bool) (x : Result Error (Unit {0}) × QueryRouter) (r : QueryRouter)
      → GoesPrimary x
      → GoesPrimary (if a then (panic, r) else x)
  asserted true x r p = tt
  asserted false x r p = p

  visited-primary :
      (ast : List Statement) (by_activity : Bool) (prev : Option ℕ) (r : QueryRouter)
      → r.active_role ≡ some primary
      → GoesPrimary (infer_all digest ast by_activity true prev r)
  unfolding infer_all
  visited-primary [] b prev r e = e
  visited-primary (start_transaction ∷ rest) b prev r e = refl
  visited-primary (query q ∷ rest) b prev r e =
      three_ways GoesPrimary b r.pool_settings.db_activity_based_routing q.recently_mutated _ _ _
        (visited-primary rest true prev r e)
        (visited-primary rest true prev (with_role digest (some primary) r) refl)
        (after_query-primary (infer_all digest rest) q b r _
          (infer_key-SameRole r.pool_settings.automatic_sharding_key q.keys prev r) e
          (λ b' prev' t e'. visited-primary rest b' prev' t e'))
  visited-primary (other asserts_fail keys ∷ rest) b prev r e =
      asserted (r.pool_settings.db_activity_based_routing && asserts_fail) _ r (
        after_write-primary (infer_all digest rest) b _
          (λ b' prev' t e'. visited-primary rest b' prev' t e'))

  after_query-write :
      (more : Loop digest) (q : Query) (b visited : Bool) (x : Step digest (Option ℕ))
      → ((b : Bool) (prev : Option ℕ) (t : QueryRouter) → GoesPrimary (more b visited prev t))
      → GoesPrimary (after_query digest more q b visited x)
  after_query-write more q b visited (ok prev, t) k = k b prev (query_role digest q visited t)
  after_query-write more q b visited (err x, t) k = tt
  after_query-write more q b visited (panic, t) k = tt

  write-primary :
      (ast : List Statement) (by_activity visited : Bool) (prev : Option ℕ) (r : QueryRouter)
      → HasWrite ast
      → GoesPrimary (infer_all digest ast by_activity visited prev r)
  unfolding infer_all
  write-primary [] b v prev r h = elim h [ ]
  write-primary (start_transaction ∷ rest) b v prev r h = refl
  write-primary (query q ∷ rest) b v prev r h =
      three_ways GoesPrimary b r.pool_settings.db_activity_based_routing q.recently_mutated _ _ _
        (write-primary rest true v prev r h)
        (write-primary rest true v prev (with_role digest (some primary) r) h)
        (after_query-write (infer_all digest rest) q b v _
          (λ b' prev' t. write-primary rest b' v prev' t h))
  write-primary (other asserts_fail keys ∷ rest) b v prev r h =
      asserted (r.pool_settings.db_activity_based_routing && asserts_fail) _ r (
        after_write-primary (infer_all digest rest) b _
          (λ b' prev' t e'. visited-primary rest b' prev' t e'))

  -- With read and write splitting on, a message that starts a transaction or holds a statement other
  -- than a query goes to the primary, wherever that statement stands in it, if inferring succeeds.
  pub infer-GoesPrimary :
      (initializing : Bool) (ast : List Statement) (r : QueryRouter)
      → r.pool_settings.query_parser_read_write_splitting ≡ true
      → HasWrite ast
      → GoesPrimary (infer digest initializing ast r)
  unfolding infer
  infer-GoesPrimary initializing [] r e h = elim h [ ]
  infer-GoesPrimary initializing (q ∷ ast) r e h =
      let x = infer_all digest (q ∷ ast) true false none (with_role digest (some primary) r) in
      let y = infer_all digest (q ∷ ast) false false none r in
      let a = r.pool_settings.db_activity_based_routing in
      enabled r.pool_settings.query_parser_read_write_splitting
        (if a then (if initializing then x else y) else y) (ok tt, r) e
        (three_ways GoesPrimary false a initializing y x y
          (write-primary (q ∷ ast) false false none r h)
          (write-primary (q ∷ ast) true false none (with_role digest (some primary) r) h)
          (write-primary (q ∷ ast) false false none r h))
    where
      enabled :
          (b : Bool) (x y : Result Error (Unit {0}) × QueryRouter)
          → b ≡ true
          → GoesPrimary x
          → GoesPrimary (if b then x else y)
      enabled true x y e p = p
      enabled false x y e p = absurd (cc e)

  -- A query that takes locks, followed in one message by a query that neither locks nor writes, goes
  -- where the second would go alone: to any server, or to a replica. Splitting is on, routing by
  -- activity and the sharding key are off.
  pub lock_overridden :
      (q p : Query) (initializing : Bool) (r : QueryRouter)
      → r.pool_settings.query_parser_read_write_splitting ≡ true
      → r.pool_settings.db_activity_based_routing ≡ false
      → r.pool_settings.automatic_sharding_key ≡ none
      → q.has_locks ≡ true
      → p.has_locks ≡ false
      → is_mutation_query p.body ≡ false
      → infer digest initializing (query q ∷ (query p ∷ [])) r
        ≡ (ok tt, with_role digest (if primary_reads r then none else some replica) r)
  unfolding infer infer_all infer_key query_role primary_reads
  lock_overridden q p initializing r e a k lock plain read = rw (e, a, k, lock, plain, read) refl
