-- ===== src/Client/Arms.antt =====
-- src/client.rs, `handle`: what each message does in a transaction, while the server belongs to the client.
pub mod Ends
pub mod Leaving
use pgcat.Prelude.{
  ℕ, Bool, true, false, ◌||◌, ◌&&◌, not, Option, none, some, List, [], ◌∷◌, length, ltb, ◌==◌,
  if◌then◌else◌,
}
use pgcat.Prelude.Result.{Result, ok, err, panic}
use pgcat.Errors.{Error}
use pgcat.Wire.{Codec}
use pgcat.Wire.Sink.{write_all}
use pgcat.Config.{Address}
use pgcat.Messages.Reply.{error_response}
use pgcat.Server.Parameters.{Text}
use pgcat.Server.State.{Lru, done, failed, panicked}
use pgcat.Server.Checkin.{checkin_cleanup}
use pgcat.Pool.Statements.{ParseLru, Statements}
use pgcat.Router.{parser_enabled}
use pgcat.Router.Parse.{parse}
use pgcat.Router.Plugins.{PluginOutput, deny, intercept}
use pgcat.Client.{Client, reset_buffered_state, put}
use pgcat.Client.Extended.{
  Buffered, buffer_parse, buffer_bind, buffer_describe, buffer_execute, buffer_close,
}
use pgcat.Client.Sync.{sync}
use pgcat.Client.Session.{
  Session, Act, server_of, with_client, on_server, in_world, to_client, bind_act,
}
use pgcat.Client.Relay.{
  send_server_message, receive_server_message, write_response, send_and_receive_loop,
}

-- What a message does to the loop: it goes on, it is left so that the server goes back to the pool, or the
-- session is over.
pub data Flow : Type 0 where
  stays leaves quits : Flow

-- The parser, the plugins, the hasher of std and how an error is shown are given.
pub record Env (Ast : Type 0) : Type 0 where
  pub parse_sql : List ℕ → Result Error Ast
  pub run_plugins : Ast → PluginOutput
  pub hasher : List ℕ → ℕ
  pub debug : Error → Text

module _ (c : Codec) (L : Lru) (P : ParseLru) (Ast : Type 0) (address : Address) (now : ℕ)
    (env : Env Ast) where
  infixl 5 ◌>>=◌ ◌>>◌
  abbrev pub ◌>>=◌ : {A B : Type 0} → Act L P Ast A → (A → Act L P Ast B) → Act L P Ast B
  m >>= f = bind_act L P Ast m f

  abbrev pub ◌>>◌ : {B : Type 0} → Act L P Ast (Unit {0}) → Act L P Ast B → Act L P Ast B
  m >> k = bind_act L P Ast m λ _. k

  abbrev pub finish : Flow → Act L P Ast Flow
  finish flow s = (done flow, s)

  abbrev pub update : (Session L P Ast → Session L P Ast) → Act L P Ast (Unit {0})
  update f s = (done tt, f s)

  -- In transaction mode the server goes back when it is in no transaction and in no copy.
  unfoldable pub after_reply : Act L P Ast Flow
  after_reply s = (
    done (
        if (server_of L P Ast s).in_transaction
        then stays
        else (if s.transaction_mode && not (server_of L P Ast s).in_copy_mode
            then leaves
            else stays)),
    s,
  )

  -- After a copy the copy mode is not looked at.
  unfoldable pub after_copy : Act L P Ast Flow
  after_copy s = (
    done (
        if (server_of L P Ast s).in_transaction
        then stays
        else (if s.transaction_mode then leaves else stays)),
    s,
  )

  abbrev pub relay_query : List ℕ → Act L P Ast Flow
  relay_query bytes = do send_and_receive_loop c L P Ast address now env.debug bytes; after_reply

  -- What the plugins say of a query; one that is denied or intercepted is answered at once.
  abbrev pub by_output : List ℕ → PluginOutput → Act L P Ast Flow
  by_output bytes (deny error) = do to_client L P Ast (error_response c error); finish stays
  by_output bytes (intercept result) = do to_client L P Ast (write_all result); finish stays
  by_output bytes _ = relay_query bytes

  abbrev pub with_ast : List ℕ → Result Error Ast → Act L P Ast Flow
  with_ast bytes (ok ast) = by_output bytes (env.run_plugins ast)
  with_ast bytes (err e) = relay_query bytes
  with_ast bytes panic = λ s. (panicked, s)

  abbrev pub parse_message : List ℕ → Session L P Ast → Result Error Ast
  parse_message bytes s = parse env.parse_sql c s.router.pool_settings.query_parser_max_length bytes

  -- The tree of the first message, if it was parsed before, is not parsed again.
  abbrev pub by_initial_ast : List ℕ → Option Ast → Act L P Ast Flow
  by_initial_ast bytes none = λ s. with_ast bytes (parse_message bytes s) s
  by_initial_ast bytes (some ast) = do
    update λ s. record s { initial_parsed_ast = none }
    with_ast bytes (ok ast)

  unfoldable pub on_query : List ℕ → Act L P Ast Flow
  on_query bytes s =
      (if parser_enabled s.router
          then by_initial_ast bytes s.initial_parsed_ast
          else relay_query bytes)
        s

  abbrev pub set_output : Result Error Ast → Session L P Ast → Session L P Ast
  set_output (ok ast) s = record s { plugin_output = some (env.run_plugins ast) }
  set_output _ s = s

  abbrev pub parsed_output : Result Error Ast → Act L P Ast (Unit {0})
  parsed_output panic s = (panicked, s)
  parsed_output r s = (done tt, set_output r s)

  abbrev pub output_of : List ℕ → Act L P Ast (Unit {0})
  output_of bytes s =
      (if parser_enabled s.router then parsed_output (parse_message bytes s) else update (λ t. t)) s

  abbrev pub buffered : Buffered → Act L P Ast Flow
  buffered (ok _, x) s = (done stays, with_client L P Ast x s)
  buffered (err e, x) s = (failed e, with_client L P Ast x s)
  buffered (panic, x) s = (panicked, with_client L P Ast x s)

  abbrev pub with_statements : Statements P.Cache → Session L P Ast → Session L P Ast
  with_statements statements s = record s { world = record s.world { statements = statements } }

  abbrev pub buffer_parse_act : List ℕ → Act L P Ast Flow
  buffer_parse_act bytes s =
      let r = buffer_parse c env.hasher P bytes s.world.client s.world.statements in
      buffered r.0 (with_statements r.1 s)

  unfoldable pub on_parse : List ℕ → Act L P Ast Flow
  on_parse bytes = do output_of bytes; buffer_parse_act bytes

  unfoldable pub on_buffered : (Client → Buffered) → Act L P Ast Flow
  on_buffered buffer s = buffered (buffer s.world.client) s

  abbrev pub forget_output : Session L P Ast → Session L P Ast
  forget_output s = record s {
    plugin_output = none;
    world = record s.world { client = reset_buffered_state s.world.client };
  }

  abbrev pub clear_buffer : Session L P Ast → Session L P Ast
  clear_buffer s = with_client L P Ast (record s.world.client { buffer = [] }) s

  abbrev pub send_buffer : Bool → Act L P Ast (Unit {0})
  send_buffer true s = send_and_receive_loop c L P Ast address now env.debug s.world.client.buffer s
  send_buffer false s = (done tt, s)

  abbrev pub cleared : Act L P Ast Flow
  cleared = do update clear_buffer; after_reply

  abbrev pub finish_batch : Bool → Act L P Ast Flow
  finish_batch should_send = do send_buffer should_send; cleared

  abbrev pub sync_batch : List ℕ → Act L P Ast Flow
  sync_batch bytes = do
    should_send ← in_world L P Ast (sync c L P address now bytes)
    finish_batch should_send

  abbrev pub forgotten : Act L P Ast Flow
  forgotten = do update forget_output; finish stays

  abbrev pub sync_by_output : List ℕ → Option PluginOutput → Act L P Ast Flow
  sync_by_output bytes (some (deny error)) = do
    to_client L P Ast (error_response c error)
    forgotten
  sync_by_output bytes (some (intercept result)) = do
    to_client L P Ast (write_all result)
    forgotten
  sync_by_output bytes _ = sync_batch bytes

  unfoldable pub on_sync : List ℕ → Act L P Ast Flow
  on_sync bytes s = sync_by_output bytes s.plugin_output s

  abbrev pub append_to_buffer : List ℕ → Session L P Ast → Session L P Ast
  append_to_buffer bytes s = with_client L P Ast (put bytes s.world.client) s

  abbrev pub flush_buffer : Act L P Ast (Unit {0})
  flush_buffer = do
    λ s. send_server_message c L P Ast address now env.debug s.world.client.buffer s
    update clear_buffer

  abbrev pub flush_if_large : Act L P Ast (Unit {0})
  flush_if_large s =
      (if ltb 8196 (length s.world.client.buffer) then flush_buffer else update (λ t. t)) s

  -- CopyData: what has come together is sent on when it is large.
  unfoldable pub on_copy_data : List ℕ → Act L P Ast Flow
  on_copy_data bytes = do update (append_to_buffer bytes); flush_if_large; finish stays

  abbrev pub forward_copy : List ℕ → Act L P Ast Flow
  forward_copy response = do write_response c L P Ast address now env.debug response; after_copy

  abbrev pub answer_copy : Act L P Ast Flow
  answer_copy = do
    response ← receive_server_message c L P Ast address now env.debug
    forward_copy response

  -- CopyDone and CopyFail: the response is received once.
  unfoldable pub on_copy_end : List ℕ → Act L P Ast Flow
  on_copy_end bytes = do update (append_to_buffer bytes); flush_buffer; answer_copy

  abbrev pub release_and_quit : Act L P Ast Flow
  release_and_quit = do on_server L P Ast (checkin_cleanup c L); finish quits

  -- The `match` on the code of a message; one with an unknown code is left alone.
  unfoldable pub on_code : ℕ → List ℕ → Act L P Ast Flow
  unfolding on_query on_parse on_buffered on_sync on_copy_data on_copy_end
  on_code code bytes =
      if code == b'Q'
      then on_query bytes
      else (if code == b'X'
          then release_and_quit
          else (if code == b'P'
              then on_parse bytes
              else (if code == b'B'
                  then on_buffered (buffer_bind c bytes)
                  else (if code == b'D'
                      then on_buffered (buffer_describe c bytes)
                      else (if code == b'E'
                          then on_buffered (buffer_execute c bytes)
                          else (if code == b'C'
                              then on_buffered (buffer_close c bytes)
                              else (if code == b'S'
                                  then on_sync bytes
                                  else (if code == b'd'
                                      then on_copy_data bytes
                                      else (if (code == b'c') || (code == b'f')
                                          then on_copy_end bytes
                                          else finish stays)))))))))

  -- `message.first().unwrap()`
  unfoldable pub on_message : List ℕ → Act L P Ast Flow
  on_message [] s = (panicked, s)
  on_message (code ∷ body) s = on_code code (code ∷ body) s
