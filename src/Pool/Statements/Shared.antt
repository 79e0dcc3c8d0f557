-- ===== src/Pool/Statements/Shared.antt =====
-- src/pool.rs, PreparedStatementCache: which clients share a statement.
use pgcat.Prelude.{
  ℕ, ◌≡◌, refl, ap, sym, ◌∙◌, Option, none, some, List, [], ◌∷◌, ◌++◌, codes, arith,
}
use mathlib.Core.List.{append_assoc}
use pgcat.Messages.Parse.{Parse, get_hash, join_types}
use pgcat.Prelude.Decimal.{decimal}
use pgcat.Pool.Statements.{
  ParseLru, IsParseLru, Statements, get_or_insert, or_insert, register_parse_to_cache,
}

same_hash :
    (hasher : List ℕ → ℕ) (first second : Parse) (q : List ℕ)
    → (first.query ≡ q ++ codes "1") × (first.num_params ≡ 0) × (first.param_types ≡ [])
    → (second.query ≡ q) × (second.num_params ≡ 1) × (second.param_types ≡ 0 ∷ [])
    → get_hash hasher second ≡ get_hash hasher first
unfolding get_hash join_types decimal
same_hash hasher first second q (fq, fn, ft) (sq, sn, st) =
    ap hasher (rw (fq, fn, ft, sq, sn, st, append_assoc) refl)

module _ (P : ParseLru) (w : IsParseLru P) where
  abbrev peeks : ℕ → Option P.Cache → Option Parse
  peeks hash none = none
  peeks hash (some m) = P.peek m hash

  -- What `get_or_insert` answers is what the cache holds from then on.
  held_at :
      (parse : Parse) (hash : ℕ) (m : P.Cache) (counter : ℕ) (r : Option Parse × P.Cache)
      → P.get hash m ≡ r
      → peeks hash (or_insert P parse hash counter r).1.cache
        ≡ some (or_insert P parse hash counter r).0
  held_at parse hash m counter (some p, m') e =
      ap (λ (z : Option Parse × P.Cache). P.peek z.1 hash) (sym e)
      ∙ w.peek_get hash hash m
      ∙ sym (w.get_peek hash m)
      ∙ ap (λ (z : Option Parse × P.Cache). z.0) e
  held_at parse hash m counter (none, m') e = w.peek_push hash _ m'

  held :
      (parse : Parse) (hash : ℕ) (m : P.Cache) (counter : ℕ)
      → peeks hash (get_or_insert P parse hash m counter).1.cache
        ≡ some (get_or_insert P parse hash m counter).0
  unfolding get_or_insert
  held parse hash m counter = held_at parse hash m counter (P.get hash m) refl

  found_at :
      (parse : Parse) (hash counter : ℕ) (p : Parse) (r : Option Parse × P.Cache)
      → r.0 ≡ some p
      → (or_insert P parse hash counter r).0 ≡ p
  found_at parse hash counter p (some q, m) e = ground arith
  found_at parse hash counter p (none, m) e = absurd (cc e)

  found_in :
      (parse : Parse) (hash counter : ℕ) (p : Parse) (cache : Option P.Cache)
      → peeks hash cache ≡ some p
      → (register_parse_to_cache P hash parse (record { cache = cache; counter = counter })).0
        ≡ some p
  unfolding register_parse_to_cache get_or_insert
  found_in parse hash counter p none h = absurd (cc h)
  found_in parse hash counter p (some m) h =
      ap some (found_at parse hash counter p (P.get hash m) (w.get_peek hash m ∙ h))

  registered :
      (first second : Parse) (hash counter : ℕ) (m : P.Cache)
      → let s : Statements P.Cache = record { cache = some m; counter = counter } in
        let r = register_parse_to_cache P hash first s in
        (register_parse_to_cache P hash second r.1).0 ≡ r.0
  unfolding register_parse_to_cache
  registered first second hash counter m = found_in second hash _ _ _ (held first hash m counter)

  -- Whatever statement a client registers, the next client with the same hash gets that statement.
  pub register_parse_to_cache-twice :
      (first second : Parse) (hash : ℕ) (s : Statements P.Cache) (m : P.Cache)
      → s.cache ≡ some m
      → (register_parse_to_cache P hash second (register_parse_to_cache P hash first s).1).0
        ≡ (register_parse_to_cache P hash first s).0
  register_parse_to_cache-twice first second hash s m e =
      rw e (registered first second hash s.counter m)

  -- A query that ends in 1 and has no parameters, and the query without that digit with one
  -- parameter of type 0, are hashed as the same text, whatever the hash function is: when one client
  -- has registered the first with the pool, a client that registers the second is given the first.
  pub texts_collide :
      (hasher : List ℕ → ℕ) (first second : Parse) (q : List ℕ) (s : Statements P.Cache)
      (m : P.Cache)
      → s.cache ≡ some m
      → (first.query ≡ q ++ codes "1") × (first.num_params ≡ 0) × (first.param_types ≡ [])
      → (second.query ≡ q) × (second.num_params ≡ 1) × (second.param_types ≡ 0 ∷ [])
      → (register_parse_to_cache P
          (get_hash hasher second)
          second
          (register_parse_to_cache P (get_hash hasher first) first s).1).0
        ≡ (register_parse_to_cache P (get_hash hasher first) first s).0
  texts_collide hasher first second q s m e f g =
      rw (same_hash hasher first second q f g)
        (register_parse_to_cache-twice first second (get_hash hasher first) s m e)
