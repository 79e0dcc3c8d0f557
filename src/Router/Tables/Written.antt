-- ===== src/Router/Tables/Written.antt =====
-- src/query_router.rs: what a write leaves in the cache of the tables that were written.
use pgcat.Prelude.{
  ◌≡◌, refl, subst, inl, inr, Bool-cases, Bool, true, false, Option, none, some, List, [], ◌∷◌,
  ◌++◌, map, All,
}
use pgcat.Prelude.Result.{Result, ok, err, panic}
use pgcat.Server.Parameters.{Text}
use mathlib.Core.List.{Memᴰ}
use pgcat.Router.Syntax.{Expr, Query, Statement, delete, Delete}
use pgcat.Router.Tables.Named.{Names, Reads, Found, extract-Found, query_parts-Reads}
use pgcat.Router.Tables.{
  Extracted, nothing, written_keys, any_key, table_mutation_cache_key, cache_keys,
  extract_exprs_and_table_names, query_parts, update_mutation_cache_on_write,
  query_handles_tables_in_mutation_cache, process_selection,
}

module _ (contains_key : Text → Bool) (db : Text) where
  abbrev Holds : Text → Type 0
  Holds key = contains_key key ≡ true

  All-append_right : (xs ys : List Text) → All Holds (xs ++ ys) → All Holds ys
  All-append_right [] ys h = h
  All-append_right (x ∷ xs) ys (p, h) = All-append_right xs ys h

  All-append_left : (xs ys : List Text) → All Holds (xs ++ ys) → All Holds xs
  All-append_left [] ys h = tt
  All-append_left (x ∷ xs) ys (p, h) = (p, All-append_left xs ys h)

  any_key-append :
      (xs ys : List Text) → any_key contains_key ys ≡ true → any_key contains_key (xs ++ ys) ≡ true
  any_key-append [] ys h = h
  any_key-append (x ∷ xs) ys h = elim (Bool-cases (contains_key x)) [
    | inl yes_first ↦ rw yes_first refl
    | inr no_first ↦ rw no_first (any_key-append xs ys h)
  ]

  -- The keys of one of the names.
  cache_keys-Mem :
      (name : List Text) (names : List (List Text))
      → Memᴰ name names
      → All Holds (cache_keys db names)
      → All Holds (map (table_mutation_cache_key db) name)
  unfolding cache_keys
  cache_keys-Mem name [] m h = elim m [ ]
  cache_keys-Mem name (x ∷ names) (Memᴰ.head e) h =
      rw e (All-append_left (map (table_mutation_cache_key db) x) _ h)
  cache_keys-Mem name (x ∷ names) (Memᴰ.tail m) h =
      cache_keys-Mem name names m (All-append_right (map (table_mutation_cache_key db) x) _ h)

  any_key-Mem :
      (part : Text) (parts : List Text) (names : List (List Text))
      → Memᴰ (part ∷ parts) names
      → All Holds (map (table_mutation_cache_key db) (part ∷ parts))
      → any_key contains_key (cache_keys db names) ≡ true
  unfolding cache_keys
  any_key-Mem part parts [] m h = elim m [ ]
  any_key-Mem part parts (x ∷ names) (Memᴰ.head e) (h, _) = rw (← e) (rw h refl)
  any_key-Mem part parts (x ∷ names) (Memᴰ.tail m) h =
      any_key-append (map (table_mutation_cache_key db) x) (cache_keys db names)
        (any_key-Mem part parts names m h)

  extracted_is_seen :
      (r : Result ⊥ (Option Extracted)) (keys : List Text) (part : Text) (parts : List Text)
      (names : List (List Text))
      → Found (part ∷ parts) r
      → Memᴰ (part ∷ parts) names
      → written_keys db r ≡ ok keys
      → All Holds keys
      → any_key contains_key (cache_keys db names) ≡ true
  extracted_is_seen (ok none) keys part parts names found read updated held = elim found [ ]
  extracted_is_seen (err e) keys part parts names found read updated held = elim found [ ]
  extracted_is_seen panic keys part parts names found read updated held = absurd (cc)
  extracted_is_seen (ok (some x)) keys part parts names found read updated held =
      let same : keys ≡ cache_keys db x.table_names = cc in
      any_key-Mem part parts names read
        (cache_keys-Mem (part ∷ parts) x.table_names found (subst (All Holds) same held))

  -- A query that reads a table which a write names is seen to read a table that was written a short
  -- time ago, as long as the cache holds what the write put there. A write names the table of an
  -- INSERT and those its source reads, the table of an UPDATE and those of its FROM, and those of
  -- the USING of a DELETE, each with their joins, but not the table of a DELETE itself. A query
  -- reads the tables of its FROM with their joins.
  pub written_is_seen :
      (w : Statement) (keys : List Text) (part : Text) (parts : List Text) (q : Query)
      → Names (part ∷ parts) w
      → Reads (part ∷ parts) q.body
      → update_mutation_cache_on_write db w ≡ ok keys
      → All Holds keys
      → query_handles_tables_in_mutation_cache contains_key db q ≡ true
  unfolding update_mutation_cache_on_write query_handles_tables_in_mutation_cache
  written_is_seen w keys part parts q written read updated held =
      extracted_is_seen (extract_exprs_and_table_names w) keys part parts
        (query_parts q).table_names (extract-Found (part ∷ parts) w written)
        (query_parts-Reads (part ∷ parts) q read) updated held

tables_of-selection :
    (db : Text) (o : Option Expr)
    → written_keys db (ok (some (process_selection o (process_selection o nothing)))) ≡ ok []
unfolding cache_keys process_selection
tables_of-selection db none = refl
tables_of-selection db (some e) = refl

-- A DELETE with no USING leaves nothing in the cache.
pub delete_is_not_seen :
    (db : Text) (d : Delete)
    → d.unsupported ≡ false
    → d.using_tables ≡ none
    → update_mutation_cache_on_write db (delete d) ≡ ok []
unfolding update_mutation_cache_on_write extract_exprs_and_table_names cache_keys
delete_is_not_seen db d supported no_using =
    simp (supported, no_using) (tables_of-selection db d.selection)
