-- ===== src/Client/Custom/Valid.antt =====
-- src/client.rs: the shard that a command leaves.
use pgcat.Prelude.{
  ℕ, ◌≡◌, refl, subst, ◌<◌, ◌⊎◌, inl, inr, Bool, true, false, Option, none, some, List, ltb, ltb→lt,
  codes, if◌then◌else◌,
}
use pgcat.Prelude.Result.{Result, ok, err, panic}
use pgcat.Errors.{Error}
use pgcat.Wire.{Codec}
use pgcat.Wire.Sink.{Sink}
use pgcat.Pool.Checkout.{shards}
use pgcat.Pool.Statements.{ParseLru}
use pgcat.Router.{QueryRouter, set_shard}
use pgcat.Router.Command.{set_shard_command, Regexes, try_execute_command}
use pgcat.Server.Parameters.{Text}
use pgcat.Server.State.{Lru, Outcome, done, failed, panicked, stuck}
use pgcat.Client.Session.{Session, following, wrote}
use pgcat.Messages.Reply.{custom_protocol_response_ok, error_response}
use pgcat.Client.Custom.{
  not_configured, answer_command, answer_shard, with_router, handle_custom_protocol,
}

module _ (c : Codec) (digest : List ℕ → List ℕ) (regexes : Regexes) (L : Lru) (P : ParseLru)
    (Ast : Type 0) where
  abbrev S : Type 0
  S = Session L P Ast

  -- A shard of the pool, or the one from before; no shard at all is of the pool too.
  abbrev pub IsConfigured : S → S → Type 0
  IsConfigured s t =
      (t.router.active_shard ≡ none)
      ⊎ ((n : ℕ) × (t.router.active_shard ≡ some n) × (n < shards s.world.pool))
      ⊎ (t.router.active_shard ≡ s.router.active_shard)

  wrote-IsConfigured :
      (s t : S) (r : Result Error (Unit {0}) × Sink)
      → IsConfigured s t
      → IsConfigured s (wrote L P Ast r t).1
  wrote-IsConfigured s t (ok _, k) h = h
  wrote-IsConfigured s t (err e, k) h = h
  wrote-IsConfigured s t (panic, k) h = h

  following-IsConfigured :
      (s : S) (q : Outcome (Unit {0}) × S)
      → IsConfigured s q.1
      → IsConfigured s (following L P Ast q.0 q.1 (λ _ t. (done true, t))).1
  following-IsConfigured s (done _, t) h = h
  following-IsConfigured s (failed e, t) h = h
  following-IsConfigured s (panicked, t) h = h
  following-IsConfigured s (stuck, t) h = h

  -- The choice between the two answers.
  chosen-IsConfigured :
      (n : ℕ) (s t : S) (below : Bool)
      → t.router.active_shard ≡ some n
      → shards t.world.pool ≡ shards s.world.pool
      → ltb n (shards t.world.pool) ≡ below
      → (k : Result Error (Unit {0}) × Sink) (text : Result Error (Unit {0}) × Sink)
      → IsConfigured s
          (if below
            then wrote L P Ast k t
            else wrote L P Ast text (
                with_router c digest regexes L P Ast
                  (set_shard s.router.active_shard t.router)
                  t)).1
  unfolding set_shard
  chosen-IsConfigured n s t true e p less k text =
      wrote-IsConfigured s t k (inr (inl (n, e, subst (λ m. n < m) p (ltb→lt n _ less))))
  chosen-IsConfigured n s t false e p more k text = wrote-IsConfigured s _ text (inr (inr refl))

  answer_shard-IsConfigured :
      (o : Option ℕ) (s t : S)
      → t.router.active_shard ≡ o
      → shards t.world.pool ≡ shards s.world.pool
      → IsConfigured s
          (answer_shard c digest regexes L P Ast s.router.active_shard o (shards t.world.pool) t).1
  answer_shard-IsConfigured none s t e p = inl e
  answer_shard-IsConfigured (some n) s t e p =
      chosen-IsConfigured n s t (ltb n (shards t.world.pool)) e p refl
        (custom_protocol_response_ok c (codes "SET SHARD") t.world.client.write)
        (error_response c (not_configured n (shards t.world.pool) s.router.active_shard)
          t.world.client.write)

  -- After a SET SHARD command the session has no shard, or one that the pool has, or the one that it
  -- had before.
  pub set_shard-IsConfigured :
      (random : ℕ) (message : List ℕ) (s : S) (value : Text) (r : QueryRouter)
      → try_execute_command c digest regexes random message s.router
        ≡ ok (some (set_shard_command, value), r)
      → IsConfigured s (handle_custom_protocol c digest regexes L P Ast random message s).1
  unfolding handle_custom_protocol answer_command
  set_shard-IsConfigured random message s value r e =
      let t = with_router c digest regexes L P Ast r s in
      rw e (
        following-IsConfigured s
          (answer_shard c digest regexes L P Ast s.router.active_shard r.active_shard
            (shards s.world.pool) t)
          (answer_shard-IsConfigured r.active_shard s t refl refl))
