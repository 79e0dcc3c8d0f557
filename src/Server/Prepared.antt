-- ===== src/Server/Prepared.antt =====
-- src/server.rs, prepared statements on a server: the cache of names, and registering one.
pub mod Register
use pgcat.Prelude.{
  ℕ, suc, Bool, true, false, Option, none, some, List, [], ◌∷◌, ◌++◌, length, text_eq,
  if◌then◌else◌,
}
use pgcat.Prelude.Result.{Result, ok, err, panic, and_then}
use pgcat.Errors.{Error, prepared_statement_error}
use pgcat.Wire.{Codec}
use pgcat.Messages.Parse.{Parse, parse_to_bytes}
use pgcat.Messages.Target.{close_new, close_to_bytes}
use pgcat.Messages.Reply.{sync}
use pgcat.Server.Parameters.{Text}
use pgcat.Server.State.{Lru, Server, Outcome, done, failed, panicked, stuck, M, ◌>>=◌, ◌>>◌, return}
use pgcat.Server.Query.{send, recv_all}

module _ (c : Codec) (L : Lru) where
  abbrev pub with_cache : Option L.Cache → Server L.Cache → Server L.Cache
  with_cache cache s = record s { prepared_statement_cache = cache }

  abbrev pub looked_up : Text → Option L.Cache → Bool × Option L.Cache
  looked_up name none = (false, none)
  looked_up name (some cache) = let (hit, cache') = L.get name cache in (hit, some cache')

  unfoldable pub has_prepared_statement : Text → M L.Cache Bool
  has_prepared_statement name s =
      let (hit, cache) = looked_up name s.prepared_statement_cache in (done hit, with_cache cache s)

  -- The evicted name, unless it is the one that was pushed.
  abbrev pub other_than : Text → Option Text → Option Text
  other_than name none = none
  other_than name (some evicted) = if text_eq evicted name then none else some evicted

  abbrev pub pushed : Text → Option L.Cache → Option Text × Option L.Cache
  pushed name none = (none, none)
  pushed name (some cache) =
      let (evicted, cache') = L.push name cache in (other_than name evicted, some cache')

  pub add_prepared_statement_to_cache : Text → M L.Cache (Option Text)
  add_prepared_statement_to_cache name s =
      let (evicted, cache) = pushed name s.prepared_statement_cache in
      (done evicted, with_cache cache s)

  abbrev pub popped : Text → Option L.Cache → Option L.Cache
  popped name none = none
  popped name (some cache) = some (L.pop name cache)

  pub remove_prepared_statement_from_cache : Text → M L.Cache (Unit {0})
  remove_prepared_statement_from_cache name s =
      (done tt, with_cache (popped name s.prepared_statement_cache) s)

  -- `?` on a conversion that does not touch the connection.
  abbrev pub lift : {A : Type 0} → Result Error A → M L.Cache A
  lift (ok a) s = (done a, s)
  lift (err e) s = (failed e, s)
  lift panic s = (panicked, s)

  pub enqueue : Text → M L.Cache (Unit {0})
  enqueue name s = (
    done tt,
    record s { registering_prepared_statement = s.registering_prepared_statement ++ (name ∷ []) },
  )

  abbrev pub parse_bytes : Parse → Bool → Result Error (List ℕ)
  parse_bytes parse true = parse_to_bytes c parse
  parse_bytes parse false = ok []

  pub close_evicted : Option Text → M L.Cache (List ℕ)
  unfolding remove_prepared_statement_from_cache
  close_evicted none = return []
  close_evicted (some evicted) = do
    remove_prepared_statement_from_cache evicted
    lift (close_to_bytes c (close_new evicted))

  pub flush_bytes : List ℕ → M L.Cache (Unit {0})
  flush_bytes [] = return tt
  flush_bytes (b ∷ bytes) = do
    send ((b ∷ bytes) ++ sync c)
    λ s. recv_all c L (suc (length s.inbox)) s

  -- The body of the first condition.
  pub register_missing : Parse → Bool → M L.Cache (Unit {0})
  unfolding enqueue add_prepared_statement_to_cache close_evicted flush_bytes
  register_missing parse should_send = do
    enqueue parse.name
    bytes ← lift (parse_bytes parse should_send)
    evicted ← add_prepared_statement_to_cache parse.name
    close ← close_evicted evicted
    flush_bytes (bytes ++ close)

  abbrev pub unless : Bool → M L.Cache (Unit {0}) → M L.Cache (Unit {0})
  unless true m = return tt
  unless false m = m

  abbrev pub missing_is_error : Bool → M L.Cache (Unit {0})
  missing_is_error true s = (done tt, s)
  missing_is_error false s = (failed prepared_statement_error, s)

  unfoldable pub register_prepared_statement : Parse → Bool → M L.Cache (Unit {0})
  unfolding has_prepared_statement register_missing
  register_prepared_statement parse should_send = do
    has_it ← has_prepared_statement parse.name
    unless has_it (register_missing parse should_send)
    still ← has_prepared_statement parse.name
    missing_is_error still
