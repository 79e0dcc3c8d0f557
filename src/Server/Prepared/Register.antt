-- ===== src/Server/Prepared/Register.antt =====
-- src/server.rs: what a registration of a prepared statement ends in.
use pgcat.Prelude.{
  ℕ, suc, ◌≡◌, refl, Bool, true, false, Option, none, some, List, [], ◌∷◌, ◌++◌, length, arith,
}
use pgcat.Prelude.Result.{Result, ok, err, panic}
use pgcat.Errors.{Error}
use pgcat.Wire.{Codec, IsCodec}
use pgcat.Wire.Sink.{Sink}
use pgcat.Messages.Parse.{Parse}
use pgcat.Server.Parameters.{Text}
use pgcat.Server.State.{Lru, Server, Outcome, done, failed, panicked, stuck, after}
use pgcat.Server.Query.{sent, send}
use pgcat.Server.Query.Sent.{Drained, recv_all-Drained}
use pgcat.Server.Prepared.{
  looked_up, lift, parse_bytes, enqueue, add_prepared_statement_to_cache, close_evicted,
  flush_bytes, remove_prepared_statement_from_cache, has_prepared_statement, register_missing,
  unless, missing_is_error, register_prepared_statement,
}

abbrev pub Ends : {A : Type 0} → Outcome A → Type 0
Ends stuck = ⊥
Ends _ = Unit

pub after-Ends :
    {C A B : Type 0} (o : Outcome A) (t : Server C) (f : A → Server C → Outcome B × Server C)
    → Ends o
    → ((a : A) (u : Server C) → Ends (f a u).0)
    → Ends (after o t f).0
after-Ends (done a) t f e h = h a t
after-Ends (failed x) t f e h = tt
after-Ends panicked t f e h = tt
after-Ends stuck t f e h = e

Drained-Ends : {C : Type 0} (s t : Server C) (o : Outcome (Unit {0})) → Drained s o t → Ends o
Drained-Ends s t (done _) h = tt
Drained-Ends s t (failed e) h = tt
Drained-Ends s t panicked h = tt
Drained-Ends s t stuck h = h

pub sent-Ends :
    {C : Type 0} (r : Result Error (Unit {0})) (k : Sink) (s : Server C) → Ends (sent r k s).0
sent-Ends (ok _) k s = tt
sent-Ends (err e) k s = tt
sent-Ends panic k s = tt

module _ (c : Codec) (w : IsCodec c) (L : Lru) where
  lift-Ends : {A : Type 0} (r : Result Error A) (s : Server L.Cache) → Ends (lift c L r s).0
  lift-Ends (ok a) s = tt
  lift-Ends (err e) s = tt
  lift-Ends panic s = tt

  flush_bytes-Ends : (bytes : List ℕ) (s : Server L.Cache) → Ends (flush_bytes c L bytes s).0
  unfolding flush_bytes send
  flush_bytes-Ends [] s = tt
  flush_bytes-Ends (b ∷ bytes) s =
      after-Ends _ _ _ (sent-Ends _ _ s)
        λ a u. Drained-Ends u _ _ (recv_all-Drained c w L (suc (length u.inbox)) u (omega arith))

  close_evicted-Ends :
      (evicted : Option Text) (s : Server L.Cache) → Ends (close_evicted c L evicted s).0
  unfolding close_evicted remove_prepared_statement_from_cache
  close_evicted-Ends none s = tt
  close_evicted-Ends (some evicted) s = lift-Ends _ _

  register_missing-Ends :
      (parse : Parse) (should_send : Bool) (s : Server L.Cache)
      → Ends (register_missing c L parse should_send s).0
  unfolding register_missing enqueue add_prepared_statement_to_cache
  register_missing-Ends parse should_send s =
      after-Ends _ _ _ (lift-Ends (parse_bytes c L parse should_send) (enqueue c L parse.name s).1)
        λ bytes t.
          after-Ends _ _ _ (close_evicted-Ends _ _) λ close u. flush_bytes-Ends (bytes ++ close) u

  unless-Ends :
      (b : Bool) (parse : Parse) (should_send : Bool) (s : Server L.Cache)
      → Ends (unless c L b (register_missing c L parse should_send) s).0
  unless-Ends true parse should_send s = tt
  unless-Ends false parse should_send s = register_missing-Ends parse should_send s

  -- What is promised of a registration.
  abbrev pub Registered : Text → Outcome (Unit {0}) → Server L.Cache → Type 0
  Registered name (done _) t =
      (cache : Option L.Cache) × (looked_up c L name cache ≡ (true, t.prepared_statement_cache))
  Registered name (failed e) t = Unit
  Registered name panicked t = Unit
  Registered name stuck t = ⊥

  after-Registered :
      {A : Type 0} (name : Text) (o : Outcome A) (t : Server L.Cache)
      (f : A → Server L.Cache → Outcome (Unit {0}) × Server L.Cache)
      → Ends o
      → ((a : A) (u : Server L.Cache) → Registered name (f a u).0 (f a u).1)
      → Registered name (after o t f).0 (after o t f).1
  after-Registered name (done a) t f e h = h a t
  after-Registered name (failed x) t f e h = tt
  after-Registered name panicked t f e h = tt
  after-Registered name stuck t f e h = e

  checked-Registered :
      (name : Text) (u : Server L.Cache) (found : Bool × Option L.Cache)
      → looked_up c L name u.prepared_statement_cache ≡ found
      → let t : Server L.Cache = record u { prepared_statement_cache = found.1 } in
        Registered name (missing_is_error c L found.0 t).0 (missing_is_error c L found.0 t).1
  checked-Registered name u (true, cache) h = (u.prepared_statement_cache, h)
  checked-Registered name u (false, cache) h = tt

  -- A registration ends on every stream, and it succeeds only when the last look into the cache
  -- finds the name.
  pub register_prepared_statement-Registered :
      (parse : Parse) (should_send : Bool) (s : Server L.Cache)
      → Registered parse.name
          (register_prepared_statement c L parse should_send s).0
          (register_prepared_statement c L parse should_send s).1
  unfolding register_prepared_statement has_prepared_statement
  register_prepared_statement-Registered parse should_send s =
      let t = (has_prepared_statement c L parse.name s).1 in
      let has_it = (looked_up c L parse.name s.prepared_statement_cache).0 in
      let r = unless c L has_it (register_missing c L parse should_send) t in
      after-Registered {A = Unit {0}} parse.name r.0 r.1 _ (unless-Ends has_it parse should_send t)
        λ a u.
          checked-Registered parse.name u (looked_up c L parse.name u.prepared_statement_cache) refl
