-- ===== src/Pool/Statements.antt =====
-- src/pool.rs, PreparedStatementCache: the statements of all clients of a pool, by the hash of their text.
pub mod Shared
use pgcat.Prelude.{ℕ, ◌≡◌, Option, none, some, List, ◌==◌, if◌then◌else◌}
use pgcat.Messages.Parse.{Parse, rewrite}

-- The cache type of the lru crate, for parses by hash. `peek` is what it holds.
pub record ParseLru : Type 1 where
  pub Cache : Type 0
  pub get : ℕ → Cache → Option Parse × Cache
  pub push : ℕ → Parse → Cache → Cache
  pub promote : ℕ → Cache → Cache
  pub peek : Cache → ℕ → Option Parse

-- What that crate documents, for a cache with room for one entry at least.
pub record IsParseLru (P : ParseLru) : Type 0 where
  pub get_peek : (hash : ℕ) (m : P.Cache) → (P.get hash m).0 ≡ P.peek m hash
  pub peek_get : (hash k : ℕ) (m : P.Cache) → P.peek (P.get hash m).1 k ≡ P.peek m k
  pub peek_push : (hash : ℕ) (p : Parse) (m : P.Cache) → P.peek (P.push hash p m) hash ≡ some p

-- The pool's cache if it has one, and the counter of the process that names are made from.
pub record Statements (C : Type 0) : Type 0 where
  pub cache : Option C
  pub counter : ℕ

module _ (P : ParseLru) where
  abbrev pub insert_new : ℕ → Parse × ℕ → P.Cache → Parse × Statements P.Cache
  insert_new hash new m = (new.0, record { cache = some (P.push hash new.0 m); counter = new.1 })

  abbrev pub or_insert : Parse → ℕ → ℕ → Option Parse × P.Cache → Parse × Statements P.Cache
  or_insert parse hash counter (some rewritten, m) =
      (rewritten, record { cache = some m; counter = counter })
  or_insert parse hash counter (none, m) = insert_new hash (rewrite parse counter) m

  unfoldable pub get_or_insert : Parse → ℕ → P.Cache → ℕ → Parse × Statements P.Cache
  get_or_insert parse hash m counter = or_insert parse hash counter (P.get hash m)

  abbrev pub stored : Parse × Statements P.Cache → Option Parse × Statements P.Cache
  stored r = (some r.0, r.1)

  unfoldable pub register_parse_to_cache :
      ℕ → Parse → Statements P.Cache → Option Parse × Statements P.Cache
  unfolding get_or_insert
  register_parse_to_cache hash parse s = elim s.cache [
    | none ↦ (none, s)
    | some m ↦ stored (get_or_insert parse hash m s.counter)
  ]

  unfoldable pub promote_prepared_statement_hash : ℕ → Statements P.Cache → Statements P.Cache
  promote_prepared_statement_hash hash s = elim s.cache [
    | none ↦ s
    | some m ↦ record s { cache = some (P.promote hash m) }
  ]
