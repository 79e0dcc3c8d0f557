-- ===== src/Server/Checkin/Clean.antt =====
-- src/server.rs: what a connection is like when it goes back to the pool.
use pgcat.Prelude.{◌≡◌, false, ◌&&◌, [], ◌++◌, codes, if◌then◌else◌}
use pgcat.Wire.{Codec, IsCodec}
use pgcat.Messages.Reply.{simple_query}
use pgcat.Server.State.{Lru, Server, Outcome, done, failed, panicked, stuck, needs_cleanup}
use pgcat.Server.Recv.Evolves.{Popped, Evolves}
use pgcat.Server.Checkin.Discards.{IsQuiet, asked, kept_of}

module _ (c : Codec) (w : IsCodec c) (L : Lru) where
  -- After the rollback of an open transaction.
  abbrev RolledBack : Server L.Cache → Outcome (Unit {0}) → Server L.Cache → Type 0
  RolledBack s (done _) t =
      IsQuiet c w L t
      × (t.cleanup_connections ≡ s.cleanup_connections)
      × (t.sink.written
          ≡ s.sink.written ++ (if s.in_transaction then simple_query c (codes "ROLLBACK") else []))
  RolledBack s (failed e) t = t.cleanup_connections ≡ s.cleanup_connections
  RolledBack s panicked t = Unit
  RolledBack s stuck t = ⊥

  -- What is promised of a check-in. The session is in the state `u` once its transaction is rolled
  -- back.
  abbrev pub CheckedIn : Server L.Cache → Outcome (Unit {0}) → Server L.Cache → Type 0
  CheckedIn s (done _) t =
      IsQuiet c w L t
      × (t.cleanup_connections ≡ s.cleanup_connections)
      × (needs_cleanup t.cleanup_state && t.cleanup_connections ≡ false)
      × ((u : Server L.Cache) × Evolves L s u
          × (t.sink.written
              ≡ s.sink.written
                ++ ((if s.in_transaction then simple_query c (codes "ROLLBACK") else [])
                    ++ asked c w L u))
          × (u.cleanup_connections ≡ s.cleanup_connections)
          × Popped L (kept_of c w L u) t.prepared_statement_cache)
  CheckedIn s (failed e) t = t.cleanup_connections ≡ s.cleanup_connections
  CheckedIn s panicked t = Unit
  CheckedIn s stuck t = ⊥
