-- ===== src/Router/Trees/Places.antt =====
-- src/query_router.rs: the shard that `infer` chooses for the tree of one query.
use pgcat.Prelude.{
  ℕ, ◌≡◌, refl, ap, ◌∙◌, ◌⊎◌, inl, inr, Bool, true, false, ◌||◌, Option, none, some, List, [], ◌∷◌,
  ◌++◌, if◌then◌else◌,
}
use pgcat.Prelude.Result.{Result, ok, err, panic}
use pgcat.Errors.{Error}
use pgcat.Config.{primary, replica}
use pgcat.Server.Parameters.{Text}
use pgcat.Sharding
use pgcat.Router.{QueryRouter, primary_reads, sharder}
use pgcat.Router.Infer as Infer
use pgcat.Router.Infer.{
  ShardingKey, value, placeholder, collect_keys, add_key, one_shard, infer_shard_from_exprs,
  handle_inferred_shard, then_handle, keys_step, infer_key, with_role, query_role, after_query,
  infer_all, infer, Step, is_mutation_query,
}
use pgcat.Router.Syntax.{Query, query}
use pgcat.Router.Tables.{query_parts}
use pgcat.Router.Selection.{KeyName, key_name, selection_parser, infer_shard, from_keys}
use pgcat.Router.Selection.Sound.{IsConjunctive, Conditions}
use pgcat.Router.Selection.Routes.{EachCondition, infer_shard-IsShard}
use pgcat.Router.Trees.{query_view, views}

module _ (digest : List ℕ → List ℕ) where
  abbrev Same : QueryRouter → QueryRouter → Type 0
  Same r t = t.active_shard ≡ r.active_shard

  collect_keys-Same :
      (keys : List ShardingKey) (shards : List ℕ) (r : QueryRouter)
      → Same r (collect_keys digest keys shards r).1
  unfolding collect_keys
  collect_keys-Same [] shards r = refl
  collect_keys-Same (placeholder position ∷ keys) shards r =
      collect_keys-Same keys shards (record r { placeholders = r.placeholders ++ (position ∷ []) })
  collect_keys-Same (value key ∷ keys) shards r =
      added (add_key digest (Sharding.shard digest (sharder r) key) shards)
        (λ more. collect_keys-Same keys more r)
    where
      added :
          (o : Option (List ℕ))
          → ((more : List ℕ) → Same r (collect_keys digest keys more r).1)
          → let t : Option (List ℕ) × QueryRouter = elim o [
            | none ↦ (none, r)
            | some more ↦ collect_keys digest keys more r
          ] in
            Same r t.1
      added none h = refl
      added (some more) h = h more

  one_shard-Same :
      (r : QueryRouter) (x : Option (List ℕ) × QueryRouter)
      → Same r x.1
      → Same r (one_shard digest x).1
  one_shard-Same r (none, t) h = h
  one_shard-Same r (some shards, t) h = h

  keys_step-Same :
      (keys : Result Error (List ShardingKey)) (r : QueryRouter)
      → Same r (keys_step digest keys r).1
  unfolding infer_shard_from_exprs
  keys_step-Same (ok keys) r = one_shard-Same r _ (collect_keys-Same keys [] r)
  keys_step-Same (err e) r = refl
  keys_step-Same panic r = refl

  picked :
      (a b : Bool) (x y z : QueryRouter) (o : Option ℕ)
      → x.active_shard ≡ o
      → y.active_shard ≡ o
      → z.active_shard ≡ o
      → (if a then x else (if b then y else z)).active_shard ≡ o
  picked true b x y z o p q s = p
  picked false true x y z o p q s = q
  picked false false x y z o p q s = s

  query_role-Same :
      (q : Infer.Query) (visited : Bool) (r : QueryRouter) → Same r (query_role digest q visited r)
  unfolding query_role
  query_role-Same q visited r =
      picked (q.has_locks || is_mutation_query q.body) visited (with_role digest (some primary) r) r
        (with_role digest (if primary_reads r then none else some replica) r) r.active_shard refl
        refl refl

  -- The shard stays, or it is the one that the keys give.
  abbrev Chosen : Step digest (Option ℕ) → QueryRouter → QueryRouter → Type 0
  Chosen x r t =
      Same r t ⊎ ((s : ℕ) × (u : QueryRouter) × (x ≡ (ok (some s), u)) × (t.active_shard ≡ some s))

  handled-Chosen :
      (q : Infer.Query) (r : QueryRouter) (x : Step digest (Option ℕ))
      → Same r x.1
      → Chosen x r
          (after_query digest (infer_all digest []) q false false (then_handle digest none x)).1
  unfolding handle_inferred_shard infer_all
  handled-Chosen q r (ok none, u) h = inl (query_role-Same q false u ∙ h)
  handled-Chosen q r (ok (some s), u) h =
      inr (s, u, refl, query_role-Same q false (record u { active_shard = some s }))
  handled-Chosen q r (err e, u) h = inl h
  handled-Chosen q r (panic, u) h = inl h

  keyed-Chosen :
      (q : Infer.Query) (key : Option Text) (r : QueryRouter)
      → Chosen
          (keys_step digest q.keys r)
          r
          (after_query digest
            (infer_all digest [])
            q
            false
            false
            (infer_key digest key q.keys none r)).1
  unfolding infer_key infer_all
  keyed-Chosen q none r = inl (query_role-Same q false r)
  keyed-Chosen q (some key) r = handled-Chosen q r _ (keys_step-Same q.keys r)

  two_ways :
      (P : QueryRouter → Type 0) (a b : Bool) (x y : Result Error (Unit {0}) × QueryRouter)
      → P x.1
      → P y.1
      → P (if a then (if b then x else y) else y).1
  two_ways P true true x y p q = p
  two_ways P true false x y p q = q
  two_ways P false b x y p q = q

  one_way :
      (P : QueryRouter → Type 0) (a : Bool) (x y : Result Error (Unit {0}) × QueryRouter)
      → P x.1
      → P y.1
      → P (if a then x else y).1
  one_way P true x y p q = p
  one_way P false x y p q = q

  infer_all-Chosen :
      (q : Infer.Query) (r : QueryRouter)
      → Chosen
          (keys_step digest q.keys r)
          r
          (infer_all digest (Infer.query q ∷ []) false false none r).1
  unfolding infer_all
  infer_all-Chosen q r =
      two_ways (Chosen (keys_step digest q.keys r) r) r.pool_settings.db_activity_based_routing
        q.recently_mutated _ _ (inl refl) (keyed-Chosen q r.pool_settings.automatic_sharding_key r)

  infer-Chosen :
      (initializing : Bool) (q : Infer.Query) (r : QueryRouter)
      → Chosen (keys_step digest q.keys r) r (infer digest initializing (Infer.query q ∷ []) r).1
  unfolding infer infer_all
  infer-Chosen initializing q r =
      let P = Chosen (keys_step digest q.keys r) r in
      one_way P r.pool_settings.query_parser_read_write_splitting _ (ok tt, r)
        (two_ways P r.pool_settings.db_activity_based_routing initializing
          (infer_all digest (Infer.query q ∷ []) true false none
            (with_role digest (some primary) r))
          (infer_all digest (Infer.query q ∷ []) false false none r) (inl refl)
          (infer_all-Chosen q r))
        (inl refl)

  module _ (lowercase : Text → Text) where
    same_step :
        (keys : Result Error (List ShardingKey)) (r : QueryRouter)
        → from_keys lowercase digest keys r ≡ keys_step digest keys r
    same_step (ok keys) r = refl
    same_step (err e) r = refl
    same_step panic r = refl

    infer_shard_keys :
        (setting : Text) (q : Query) (r : QueryRouter)
        → r.pool_settings.automatic_sharding_key ≡ some setting
        → infer_shard lowercase digest q r
          ≡ keys_step digest (selection_parser lowercase (some setting) (query_parts q)) r
    unfolding infer_shard
    infer_shard_keys setting q r set =
        ap (λ key. from_keys lowercase digest (selection_parser lowercase key (query_parts q)) r)
          set
        ∙ same_step (selection_parser lowercase (some setting) (query_parts q)) r

    placed :
        (x y : Step digest (Option ℕ)) (r t : QueryRouter) (s : ℕ)
        → r.active_shard ≡ none
        → t.active_shard ≡ some s
        → y ≡ x
        → Chosen x r t
        → (u : QueryRouter) × (y ≡ (ok (some s), u))
    placed x y r t s unset set same (inl kept) = absurd (cc)
    placed x y r t s unset set same (inr (n, u, e, chosen)) = (u, cc)

    -- From a router with no shard chosen, when inferring leaves a shard for a message of one query
    -- all of whose conditions, of WHERE and of its inner joins, are conjunctions, it is the shard of
    -- every row that meets them all, whatever is read of the caches. That a row which meets a
    -- conjunction meets both its sides, and that a row which meets an equation of the key with a
    -- number has that key, are hypotheses on Postgres.
    pub infer-IsShard :
        (db setting : Text) (contains_key : Text → Bool) (initializing : Bool) (k : KeyName)
        (q : Query) (r : QueryRouter) (s : ℕ)
        (m : Conditions lowercase k (query_parts q).table_names) (row : m.Row)
        → r.pool_settings.automatic_sharding_key ≡ some setting
        → r.active_shard ≡ none
        → key_name lowercase (some setting) ≡ ok k
        → EachCondition IsConjunctive q.body
        → EachCondition (m.Meets row) q.body
        → (infer digest initializing
            (views lowercase db (some setting) contains_key (query q ∷ []))
            r).1.active_shard
          ≡ some s
        → Sharding.shard digest (sharder r) (m.key row) ≡ ok s
    unfolding views query_view
    infer-IsShard db setting contains_key initializing k q r s m row set unset named c h chosen =
        let v = query_view lowercase db (some setting) contains_key q in
        let (u, found) =
          placed (keys_step digest v.keys r) (infer_shard lowercase digest q r) r
            (infer digest initializing (Infer.query v ∷ []) r).1 s unset chosen
            (infer_shard_keys setting q r set) (infer-Chosen initializing v r) in
        infer_shard-IsShard lowercase digest setting k q r u s m row set named c h found
