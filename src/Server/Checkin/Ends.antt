-- ===== src/Server/Checkin/Ends.antt =====
-- src/server.rs: queries, and what is made of them, come to an end.
use pgcat.Prelude.{Bool, true, false, ◌&&◌, List, [], ◌∷◌, codes, if◌then◌else◌}
use pgcat.Wire.{Codec, IsCodec}
use pgcat.Server.Parameters.{Text, ServerParameters, compare_params}
use pgcat.Server.State.{Lru, Server, Outcome, done, failed, panicked, stuck, needs_cleanup}
use pgcat.Server.Query.{query, sync_diff, set_statements, sync_parameters}
use pgcat.Server.Query.Sent.{Queried, query-Queried}
use pgcat.Server.Checkin.{
  reset_string, forget_statements, reset_state, rollback, discard, discard_altered, checkin_cleanup,
}
use pgcat.Server.Prepared.Register.{Ends, after-Ends}

module _ (c : Codec) (w : IsCodec c) (L : Lru) where
  Queried-Ends :
      (text : Text) (s t : Server L.Cache) (o : Outcome (Unit {0}))
      → Queried c w L text s o t
      → Ends o
  Queried-Ends text s t (done _) h = tt
  Queried-Ends text s t (failed e) h = tt
  Queried-Ends text s t panicked h = tt
  Queried-Ends text s t stuck h = h

  query-Ends : (text : Text) (s : Server L.Cache) → Ends (query c L text s).0
  query-Ends text s = Queried-Ends text s _ _ (query-Queried c w L text s)

  if-Ends :
      (b : Bool) (r : Outcome (Unit {0}) × Server L.Cache) (s : Server L.Cache)
      → Ends r.0
      → Ends (if b then r else (done tt, s)).0
  if-Ends true r s h = h
  if-Ends false r s h = tt

  discard-Ends : (s : Server L.Cache) → Ends (discard c L s).0
  unfolding discard forget_statements reset_state
  discard-Ends s =
      after-Ends _ _ _ (query-Ends (reset_string s.cleanup_state) (forget_statements c L s).1)
        λ a u. tt

  discard_altered-Ends : (s : Server L.Cache) → Ends (discard_altered c L s).0
  unfolding discard_altered
  discard_altered-Ends s =
      if-Ends (needs_cleanup s.cleanup_state && s.cleanup_connections) (discard c L s) s
        (discard-Ends s)

  rollback-Ends : (s : Server L.Cache) → Ends (rollback c L s).0
  unfolding rollback
  rollback-Ends s =
      if-Ends s.in_transaction (query c L (codes "ROLLBACK") s) s (query-Ends (codes "ROLLBACK") s)

  pub checkin_cleanup-Ends : (s : Server L.Cache) → Ends (checkin_cleanup c L s).0
  unfolding checkin_cleanup
  checkin_cleanup-Ends s =
      after-Ends (rollback c L s).0 (rollback c L s).1 (λ _. discard_altered c L) (rollback-Ends s)
        (λ a u. discard_altered-Ends u)

  sync_diff-Ends : (diff : List (Text × Text)) (s : Server L.Cache) → Ends (sync_diff c L diff s).0
  sync_diff-Ends [] s = tt
  sync_diff-Ends (entry ∷ diff) s = query-Ends (set_statements c L (entry ∷ diff)) s

  pub sync_parameters-Ends :
      (p : ServerParameters) (s : Server L.Cache) → Ends (sync_parameters c L p s).0
  unfolding sync_parameters
  sync_parameters-Ends p s = sync_diff-Ends (compare_params s.server_parameters p) s
