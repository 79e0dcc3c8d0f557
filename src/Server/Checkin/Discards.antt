-- ===== src/Server/Checkin/Discards.antt =====
-- src/server.rs: what the end of a check-in does to a session that was altered.
use pgcat.Prelude.{
  ℕ, ◌≡◌, refl, sym, ap, ◌∙◌, Bool, true, false, ◌&&◌, List, [], ◌++◌, codes, if◌then◌else◌, ◌||◌,
  Option, none, some,
}
use mathlib.Core.Option
use mathlib.Core.List.{append-nil}
use pgcat.Wire.{Codec, IsCodec}
use pgcat.Messages.Reply.{simple_query}
use pgcat.Server.State.{
  Lru, Server, Outcome, done, failed, panicked, stuck, after, needs_cleanup, CleanupState,
}
use pgcat.Server.Query.{query}
use pgcat.Wire.Sink.{Sink}
use pgcat.Server.Parameters.{Text}
use pgcat.Server.Recv.Evolves.{Popped, none_popped}
use pgcat.Server.Query.Evolves.{query-Evolves}
use pgcat.Server.Query.Sent.{Queried, query-Queried}
use pgcat.Server.Checkin.{
  reset_string, discard, forget_statements, reset_state, discard_altered, clear_cache,
}

-- What a session is asked for, by what of it was altered.
abbrev pub resets : Bool → Bool → Text
resets false false = codes "RESET ROLE;"
resets true false = codes "RESET ROLE;RESET ALL;"
resets false true = codes "RESET ROLE;DEALLOCATE ALL;"
resets true true = codes "RESET ROLE;RESET ALL;DEALLOCATE ALL;"

module _ (c : Codec) (w : IsCodec c) (L : Lru) where
  -- A connection with nothing unread.
  abbrev pub IsQuiet : Server L.Cache → Type 0
  IsQuiet s = (s.data_available ≡ false) × (s.buffer ≡ [])

  -- What is asked of a session that was altered.
  abbrev pub asked : Server L.Cache → List ℕ
  asked u =
      if needs_cleanup u.cleanup_state && u.cleanup_connections
      then simple_query c
          (resets u.cleanup_state.needs_cleanup_set u.cleanup_state.needs_cleanup_prepare)
      else []

  -- The statements that are known to be on a session from then on.
  abbrev pub kept_of : Server L.Cache → Option L.Cache
  kept_of u =
      if u.cleanup_state.needs_cleanup_prepare && u.cleanup_connections
      then Option.map L.clear u.prepared_statement_cache
      else u.prepared_statement_cache

  abbrev pub Discarded : Server L.Cache → Outcome (Unit {0}) → Server L.Cache → Type 0
  Discarded u (done _) t =
      IsQuiet t
      × (t.cleanup_connections ≡ u.cleanup_connections)
      × (needs_cleanup t.cleanup_state && t.cleanup_connections ≡ false)
      × (t.sink.written ≡ u.sink.written ++ asked u)
      × Popped L (kept_of u) t.prepared_statement_cache
  Discarded u (failed e) t = t.cleanup_connections ≡ u.cleanup_connections
  Discarded u panicked t = Unit
  Discarded u stuck t = ⊥

  reset_string-resets :
      (state : CleanupState)
      → reset_string state ≡ resets state.needs_cleanup_set state.needs_cleanup_prepare
  unfolding reset_string
  reset_string-resets state = by_flags state.needs_cleanup_set state.needs_cleanup_prepare
    where
      by_flags :
          (set prepare : Bool)
          → codes "RESET ROLE;"
              ++ ((if set then codes "RESET ALL;" else [])
                  ++ (if prepare then codes "DEALLOCATE ALL;" else []))
            ≡ resets set prepare
      by_flags false false = refl
      by_flags true false = refl
      by_flags false true = refl
      by_flags true true = refl

  asked-reset_string :
      (s : Server L.Cache)
      → needs_cleanup s.cleanup_state && s.cleanup_connections ≡ true
      → asked s ≡ simple_query c (reset_string s.cleanup_state)
  asked-reset_string s e = rw (e, reset_string-resets s.cleanup_state) refl

  clear_cache-map : (k : Option L.Cache) → clear_cache c L k ≡ Option.map L.clear k
  clear_cache-map none = refl
  clear_cache-map (some cache) = refl

  kept-forgotten :
      (set prepare on : Bool) (k : Option L.Cache)
      → (set || prepare) && on ≡ true
      → (if prepare then clear_cache c L k else k)
        ≡ (if prepare && on then Option.map L.clear k else k)
  kept-forgotten set true true k e = clear_cache-map k
  kept-forgotten set false on k e = refl
  kept-forgotten true true false k e = absurd (cc e)
  kept-forgotten false true false k e = absurd (cc e)

  Queried-Discarded :
      (u s t : Server L.Cache) (o : Outcome (Unit {0}))
      → s.sink ≡ u.sink
      → s.cleanup_connections ≡ u.cleanup_connections
      → s.prepared_statement_cache ≡ kept_of u
      → asked u ≡ simple_query c (reset_string u.cleanup_state)
      → Queried c w L (reset_string u.cleanup_state) s o t
      → Popped L s.prepared_statement_cache t.prepared_statement_cache
      → let q = after o t λ _. reset_state c L in Discarded u q.0 q.1
  unfolding reset_state
  Queried-Discarded u s t (done _) sink on statements e (sent, quiet, empty, kept) gone = (
    (quiet, empty),
    kept ∙ on,
    refl,
    rw (e, sym (ap (λ (k : Sink). k.written) sink)) sent,
    rw (sym statements) gone,
  )
  Queried-Discarded u s t (failed x) sink on statements e kept gone = kept ∙ on
  Queried-Discarded u s t panicked sink on statements e h gone = tt
  Queried-Discarded u s t stuck sink on statements e h gone = h

  discard-Discarded :
      (u : Server L.Cache)
      → needs_cleanup u.cleanup_state && u.cleanup_connections ≡ true
      → Discarded u (discard c L u).0 (discard c L u).1
  unfolding discard forget_statements
  discard-Discarded u e =
      let s = (forget_statements c L u).1 in
      let q = query c L (reset_string u.cleanup_state) s in
      Queried-Discarded u s q.1 q.0 refl refl
        (kept-forgotten u.cleanup_state.needs_cleanup_set u.cleanup_state.needs_cleanup_prepare
          u.cleanup_connections u.prepared_statement_cache e)
        (asked-reset_string u e) (query-Queried c w L (reset_string u.cleanup_state) s)
        (query-Evolves c L (reset_string u.cleanup_state) s).statements

  none_kept :
      (set prepare on : Bool) (k : Option L.Cache)
      → (set || prepare) && on ≡ false
      → (if prepare && on then Option.map L.clear k else k) ≡ k
  none_kept set false on k e = refl
  none_kept set true false k e = refl
  none_kept true true true k e = absurd (cc e)
  none_kept false true true k e = absurd (cc e)

  discard-split :
      (s : Server L.Cache) (b : Bool)
      → needs_cleanup s.cleanup_state && s.cleanup_connections ≡ b
      → IsQuiet s
      → let r = if b then discard c L s else (done tt, s) in Discarded s r.0 r.1
  discard-split s true altered h = discard-Discarded s altered
  discard-split s false clean h = (
    h,
    refl,
    clean,
    rw clean (sym (append-nil s.sink.written)),
    rw
        (none_kept s.cleanup_state.needs_cleanup_set s.cleanup_state.needs_cleanup_prepare
          s.cleanup_connections s.prepared_statement_cache clean)
        none_popped,
  )

  -- What was altered is reset.
  pub discard_altered-Discarded :
      (s : Server L.Cache)
      → IsQuiet s
      → Discarded s (discard_altered c L s).0 (discard_altered c L s).1
  unfolding discard_altered
  discard_altered-Discarded s h =
      discard-split s (needs_cleanup s.cleanup_state && s.cleanup_connections) refl h
