-- ===== src/Router/Trees.antt =====
-- src/query_router.rs: what `infer` reads of the trees of a message.
pub mod Places
use pgcat.Prelude.{Bool, true, false, ◌||◌, Option, List, [], ◌∷◌, text_eq}
use pgcat.Prelude.Result.{Result, ok, err, panic}
use pgcat.Server.Parameters.{Text}
use pgcat.Router.Infer
use pgcat.Router.Infer.{SetExpr, insert_expr, update_expr, other_expr}
use pgcat.Router.Syntax.{
  Body, nested, insert_body, update_body, Query, Statement, start_transaction, query,
}
use pgcat.Router.Tables.{
  query_parts, any_key, query_handles_tables_in_mutation_cache, update_mutation_cache_on_write,
}
use pgcat.Router.Selection.{selection_parser, write_keys}

-- The forms of a body that `is_mutation_query` tells apart.
unfoldable pub body_form : Body → SetExpr
body_form insert_body = insert_expr
body_form update_body = update_expr
body_form (nested body) = Infer.nested (body_form body)
body_form _ = other_expr

-- The cache with the keys of a write put in.
abbrev pub with_keys : Result ⊥ (List Text) → (Text → Bool) → Text → Bool
with_keys (ok keys) contains_key k = any_key (text_eq k) keys || contains_key k
with_keys _ contains_key k = contains_key k

-- Whether the assertions on the syntax of a write fail.
abbrev pub fails : Result ⊥ (List Text) → Bool
fails (ok keys) = false
fails _ = true

module _ (lowercase : Text → Text) (db : Text) (setting : Option Text) where
  unfoldable pub query_view : (Text → Bool) → Query → Infer.Query
  unfolding body_form
  query_view contains_key q = record {
    has_locks = q.has_locks;
    body = body_form q.body;
    recently_mutated = query_handles_tables_in_mutation_cache contains_key db q;
    keys = selection_parser lowercase setting (query_parts q);
  }

  -- Each statement with the cache as the writes before it leave it.
  unfoldable pub views : (Text → Bool) → List Statement → List Infer.Statement
  unfolding query_view
  views contains_key [] = []
  views contains_key (start_transaction ∷ rest) = Infer.start_transaction ∷ views contains_key rest
  views contains_key (query q ∷ rest) =
      Infer.query (query_view contains_key q) ∷ views contains_key rest
  views contains_key (write ∷ rest) =
      Infer.other (fails (update_mutation_cache_on_write db write))
        (write_keys lowercase setting write)
      ∷ views (with_keys (update_mutation_cache_on_write db write) contains_key) rest
