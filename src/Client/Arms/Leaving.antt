-- ===== src/Client/Arms/Leaving.antt =====
-- src/client.rs: in which state the server is when a message makes the transaction's loop end.
use pgcat.Prelude.{
  ℕ, ◌≡◌, refl, Bool, true, false, ◌||◌, ◌&&◌, not, Option, none, some, List, [], ◌∷◌, ◌==◌,
  if◌then◌else◌,
}
use pgcat.Prelude.Result.{Result, ok, err, panic}
use pgcat.Errors.{Error}
use pgcat.Wire.{Codec}
use pgcat.Config.{Address}
use pgcat.Server.State.{Lru, Server, Outcome, done, failed, panicked, stuck}
use pgcat.Pool.Statements.{ParseLru}
use pgcat.Router.{parser_enabled}
use pgcat.Router.Plugins.{PluginOutput, allow, overwrite, deny, intercept}
use pgcat.Client.{Client}
use pgcat.Client.Extended.{
  Buffered, buffer_parse, buffer_bind, buffer_describe, buffer_execute, buffer_close,
}
use pgcat.Messages.Reply.{error_response}
use pgcat.Wire.Sink.{write_all}
use pgcat.Server.Checkin.{checkin_cleanup}
use pgcat.Client.Sync.{sync}
use pgcat.Client.Relay.{send_and_receive_loop, receive_server_message, write_response}
use pgcat.Client.Session.{to_client, in_world, Session, Act, following, with_server, bind_act}
use pgcat.Client.Arms.{
  Env, Flow, stays, leaves, quits, after_reply, after_copy, relay_query, by_output, with_ast,
  by_initial_ast, on_query, buffered, on_parse, on_buffered, finish, output_of, buffer_parse_act,
  with_statements, send_buffer, cleared, clear_buffer, finish_batch, forgotten, flush_if_large,
  append_to_buffer, flush_buffer, answer_copy, forward_copy, sync_batch, sync_by_output, on_sync,
  on_copy_data, on_copy_end, on_code, on_message,
}

module _ (c : Codec) (L : Lru) (P : ParseLru) (Ast : Type 0) (address : Address) (now : ℕ)
    (env : Env Ast) where
  abbrev S : Type 0
  S = Session L P Ast

  -- Transaction mode, and a server that is in no transaction.
  abbrev pub IsOver : S → Type 0
  IsOver s = (s.transaction_mode ≡ true) × (s.world.server.in_transaction ≡ false)

  -- What a check-in that succeeds leaves.
  abbrev pub IsCleaned : S → Type 0
  IsCleaned s = (before : Server L.Cache) × (checkin_cleanup c L before ≡ (done tt, s.world.server))

  abbrev pub Leaving : Outcome Flow × S → Type 0
  Leaving (done leaves, t) = IsOver t
  Leaving (done quits, t) = IsCleaned t
  Leaving r = Unit

  following-Leaving :
      {A : Type 0} (o : Outcome A) (t : S) (f : A → Act L P Ast Flow)
      → ((a : A) (u : S) → Leaving (f a u))
      → Leaving (following L P Ast o t f)
  following-Leaving (done a) t f h = h a t
  following-Leaving (failed e) t f h = tt
  following-Leaving panicked t f h = tt
  following-Leaving stuck t f h = tt

  bind-Leaving :
      {A : Type 0} (m : Act L P Ast A) (f : A → Act L P Ast Flow)
      → ((a : A) (u : S) → Leaving (f a u))
      → (s : S) → Leaving (bind_act L P Ast m f s)
  bind-Leaving m f h s = following-Leaving (m s).0 (m s).1 f h

  then-Leaving :
      (flow : Flow)
      → ((s : S) → Leaving (done flow, s))
      → (m : Act L P Ast (Unit {0})) (s : S)
      → Leaving (bind_act L P Ast m (λ _. finish c L P Ast address now env flow) s)
  then-Leaving flow h m = bind-Leaving m (λ _. finish c L P Ast address now env flow) (λ a u. h u)

  -- The two tests at the end of a reply, on what they read.
  reply-Leaving :
      (in_transaction mode copy : Bool) (s : S)
      → s.transaction_mode ≡ mode
      → s.world.server.in_transaction ≡ in_transaction
      → Leaving
          (done (if in_transaction then stays else (if mode && not copy then leaves else stays)), s)
  reply-Leaving true mode copy s m t = tt
  reply-Leaving false false copy s m t = tt
  reply-Leaving false true true s m t = tt
  reply-Leaving false true false s m t = (m, t)

  after_reply-Leaving : (s : S) → Leaving (after_reply c L P Ast address now env s)
  unfolding after_reply
  after_reply-Leaving s = reply-Leaving _ _ _ s refl refl

  copy-Leaving :
      (in_transaction mode : Bool) (s : S)
      → s.transaction_mode ≡ mode
      → s.world.server.in_transaction ≡ in_transaction
      → Leaving (done (if in_transaction then stays else (if mode then leaves else stays)), s)
  copy-Leaving true mode s m t = tt
  copy-Leaving false false s m t = tt
  copy-Leaving false true s m t = (m, t)

  after_copy-Leaving : (s : S) → Leaving (after_copy c L P Ast address now env s)
  unfolding after_copy
  after_copy-Leaving s = copy-Leaving _ _ s refl refl

  relay_query-Leaving :
      (bytes : List ℕ) (s : S) → Leaving (relay_query c L P Ast address now env bytes s)
  relay_query-Leaving bytes =
      bind-Leaving (send_and_receive_loop c L P Ast address now env.debug bytes)
        (λ _. after_reply c L P Ast address now env) (λ a u. after_reply-Leaving u)

  by_output-Leaving :
      (bytes : List ℕ) (o : PluginOutput) (s : S)
      → Leaving (by_output c L P Ast address now env bytes o s)
  by_output-Leaving bytes (deny e) s =
      then-Leaving stays (λ t. tt) (to_client L P Ast (error_response c e)) s
  by_output-Leaving bytes (intercept r) s =
      then-Leaving stays (λ t. tt) (to_client L P Ast (write_all r)) s
  by_output-Leaving bytes allow s = relay_query-Leaving bytes s
  by_output-Leaving bytes overwrite s = relay_query-Leaving bytes s

  with_ast-Leaving :
      (bytes : List ℕ) (r : Result Error Ast) (s : S)
      → Leaving (with_ast c L P Ast address now env bytes r s)
  with_ast-Leaving bytes (ok ast) s = by_output-Leaving bytes (env.run_plugins ast) s
  with_ast-Leaving bytes (err e) s = relay_query-Leaving bytes s
  with_ast-Leaving bytes panic s = tt

  by_initial_ast-Leaving :
      (bytes : List ℕ) (o : Option Ast) (s : S)
      → Leaving (by_initial_ast c L P Ast address now env bytes o s)
  by_initial_ast-Leaving bytes none s = with_ast-Leaving bytes _ s
  by_initial_ast-Leaving bytes (some ast) s =
      with_ast-Leaving bytes (ok ast) (record s { initial_parsed_ast = none })

  if-Leaving :
      (b : Bool) (m k : Act L P Ast Flow) (s : S)
      → Leaving (m s)
      → Leaving (k s)
      → Leaving ((if b then m else k) s)
  if-Leaving true m k s h h' = h
  if-Leaving false m k s h h' = h'

  on_query-Leaving : (bytes : List ℕ) (s : S) → Leaving (on_query c L P Ast address now env bytes s)
  unfolding on_query
  on_query-Leaving bytes s =
      if-Leaving (parser_enabled s.router)
        (by_initial_ast c L P Ast address now env bytes s.initial_parsed_ast)
        (relay_query c L P Ast address now env bytes) s
        (by_initial_ast-Leaving bytes s.initial_parsed_ast s) (relay_query-Leaving bytes s)

  buffered-Leaving : (r : Buffered) (s : S) → Leaving (buffered c L P Ast address now env r s)
  buffered-Leaving (ok _, x) s = tt
  buffered-Leaving (err e, x) s = tt
  buffered-Leaving (panic, x) s = tt

  on_buffered-Leaving :
      (f : Client → Buffered) (s : S) → Leaving (on_buffered c L P Ast address now env f s)
  unfolding on_buffered
  on_buffered-Leaving f s = buffered-Leaving (f s.world.client) s

  on_parse-Leaving : (bytes : List ℕ) (s : S) → Leaving (on_parse c L P Ast address now env bytes s)
  unfolding on_parse
  on_parse-Leaving bytes =
      bind-Leaving (output_of c L P Ast address now env bytes)
        (λ _. buffer_parse_act c L P Ast address now env bytes)
        (λ a u.
          buffered-Leaving (buffer_parse c env.hasher P bytes u.world.client u.world.statements).0 (
            with_statements c L P Ast address now env
              (buffer_parse c env.hasher P bytes u.world.client u.world.statements).1 u))

  sync_batch-Leaving :
      (bytes : List ℕ) (s : S) → Leaving (sync_batch c L P Ast address now env bytes s)
  sync_batch-Leaving bytes =
      bind-Leaving (in_world L P Ast (sync c L P address now bytes))
        (finish_batch c L P Ast address now env)
        (λ a.
          bind-Leaving (send_buffer c L P Ast address now env a)
            (λ _. cleared c L P Ast address now env)
            (λ b u. after_reply-Leaving (clear_buffer c L P Ast address now env u)))

  sync_by_output-Leaving :
      (bytes : List ℕ) (o : Option PluginOutput) (s : S)
      → Leaving (sync_by_output c L P Ast address now env bytes o s)
  sync_by_output-Leaving bytes none s = sync_batch-Leaving bytes s
  sync_by_output-Leaving bytes (some (deny e)) s =
      bind-Leaving (to_client L P Ast (error_response c e))
        (λ _. forgotten c L P Ast address now env) (λ a u. tt) s
  sync_by_output-Leaving bytes (some (intercept r)) s =
      bind-Leaving (to_client L P Ast (write_all r)) (λ _. forgotten c L P Ast address now env)
        (λ a u. tt) s
  sync_by_output-Leaving bytes (some allow) s = sync_batch-Leaving bytes s
  sync_by_output-Leaving bytes (some overwrite) s = sync_batch-Leaving bytes s

  on_sync-Leaving : (bytes : List ℕ) (s : S) → Leaving (on_sync c L P Ast address now env bytes s)
  unfolding on_sync
  on_sync-Leaving bytes s = sync_by_output-Leaving bytes s.plugin_output s

  on_copy_data-Leaving :
      (bytes : List ℕ) (s : S) → Leaving (on_copy_data c L P Ast address now env bytes s)
  unfolding on_copy_data
  on_copy_data-Leaving bytes s =
      then-Leaving stays (λ t. tt) (flush_if_large c L P Ast address now env)
        (append_to_buffer c L P Ast address now env bytes s)

  on_copy_end-Leaving :
      (bytes : List ℕ) (s : S) → Leaving (on_copy_end c L P Ast address now env bytes s)
  unfolding on_copy_end
  on_copy_end-Leaving bytes s =
      bind-Leaving (flush_buffer c L P Ast address now env)
        (λ _. answer_copy c L P Ast address now env)
        (λ a.
          bind-Leaving (receive_server_message c L P Ast address now env.debug)
            (forward_copy c L P Ast address now env)
            (λ b.
              bind-Leaving (write_response c L P Ast address now env.debug b)
                (λ _. after_copy c L P Ast address now env) (λ d u. after_copy-Leaving u)))
        (append_to_buffer c L P Ast address now env bytes s)

  quit-Leaving :
      (s : S) (r : Outcome (Unit {0}) × Server L.Cache)
      → checkin_cleanup c L s.world.server ≡ r
      → Leaving (
          following L P Ast r.0
            (with_server L P Ast r.1 s)
            (λ _. finish c L P Ast address now env quits))
  quit-Leaving s (done _, t) e = (s.world.server, e)
  quit-Leaving s (failed x, t) e = tt
  quit-Leaving s (panicked, t) e = tt
  quit-Leaving s (stuck, t) e = tt

  record Safe (m : Act L P Ast Flow) : Type 0 where
    safe : (s : S) → Leaving (m s)

  if-Safe : (b : Bool) {m k : Act L P Ast Flow} → Safe m → Safe k → Safe (if b then m else k)
  if-Safe true p q = p
  if-Safe false p q = q

  on_code-Safe : (code : ℕ) (bytes : List ℕ) → Safe (on_code c L P Ast address now env code bytes)
  unfolding on_code
  on_code-Safe code bytes =
      if-Safe (code == b'Q') (record { safe = on_query-Leaving bytes })
        (if-Safe (code == b'X')
          (record { safe = λ s. quit-Leaving s (checkin_cleanup c L s.world.server) refl })
          (if-Safe (code == b'P') (record { safe = on_parse-Leaving bytes })
            (if-Safe (code == b'B') (record { safe = on_buffered-Leaving (buffer_bind c bytes) })
              (if-Safe (code == b'D')
                (record { safe = on_buffered-Leaving (buffer_describe c bytes) })
                (if-Safe (code == b'E')
                  (record { safe = on_buffered-Leaving (buffer_execute c bytes) })
                  (if-Safe (code == b'C')
                    (record { safe = on_buffered-Leaving (buffer_close c bytes) })
                    (if-Safe (code == b'S') (record { safe = on_sync-Leaving bytes })
                      (if-Safe (code == b'd') (record { safe = on_copy_data-Leaving bytes })
                        (if-Safe ((code == b'c') || (code == b'f'))
                          (record { safe = on_copy_end-Leaving bytes })
                          (record { safe = λ s. tt }))))))))))

  pub on_message-Leaving :
      (bytes : List ℕ) (s : S) → Leaving (on_message c L P Ast address now env bytes s)
  unfolding on_message
  on_message-Leaving [] s = tt
  on_message-Leaving (code ∷ body) s = (on_code-Safe code (code ∷ body)).safe s
