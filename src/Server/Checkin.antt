-- ===== src/Server/Checkin.antt =====
-- src/server.rs, `checkin_cleanup`, which runs before a connection goes back to the pool.
pub mod Clean
pub mod Discards
pub mod Ends
use pgcat.Prelude.{
  ℕ, Bool, true, false, ◌&&◌, Option, none, some, List, [], ◌∷◌, ◌++◌, codes, if◌then◌else◌,
}
use pgcat.Prelude.Result.{Result, ok, err, panic}
use pgcat.Wire.{Codec}
use pgcat.Server.Parameters.{Text}
use pgcat.Server.State.{
  Lru, CleanupState, Server, Outcome, done, failed, panicked, stuck, M, ◌>>=◌, ◌>>◌, return,
  cleanup_reset, needs_cleanup,
}
use pgcat.Server.Query.{query}

pub reset_string : CleanupState → Text
reset_string state =
    codes "RESET ROLE;"
    ++ ((if state.needs_cleanup_set then codes "RESET ALL;" else [])
        ++ (if state.needs_cleanup_prepare then codes "DEALLOCATE ALL;" else []))

module _ (c : Codec) (L : Lru) where
  abbrev pub clear_cache : Option L.Cache → Option L.Cache
  clear_cache none = none
  clear_cache (some cache) = some (L.clear cache)

  -- `if self.cleanup_state.needs_cleanup_prepare { cache.clear() }`
  pub forget_statements : M L.Cache (Unit {0})
  forget_statements s =
      let cleared = clear_cache s.prepared_statement_cache in
      (
        done tt,
        record s {
          prepared_statement_cache =
              if s.cleanup_state.needs_cleanup_prepare then cleared else s.prepared_statement_cache;
        },
      )

  pub reset_state : M L.Cache (Unit {0})
  reset_state s = (done tt, record s { cleanup_state = cleanup_reset s.cleanup_state })

  pub rollback : M L.Cache (Unit {0})
  rollback s =
      let r = query c L (codes "ROLLBACK") s in if s.in_transaction then r else (done tt, s)

  -- The body of the second condition.
  pub discard : M L.Cache (Unit {0})
  unfolding forget_statements reset_state
  discard = λ s. (forget_statements >> query c L (reset_string s.cleanup_state) >> reset_state) s

  pub discard_altered : M L.Cache (Unit {0})
  discard_altered s =
      let r = discard s in
      if needs_cleanup s.cleanup_state && s.cleanup_connections then r else (done tt, s)

  pub checkin_cleanup : M L.Cache (Unit {0})
  unfolding rollback discard_altered
  checkin_cleanup = rollback >> discard_altered
