-- ===== src/Client/Arms/Ends.antt =====
-- src/client.rs: what each message does in a transaction comes to an end.
use pgcat.Prelude.{ℕ, Bool, true, false, ◌||◌, Option, none, some, List, [], ◌∷◌, length, ltb, ◌==◌}
use pgcat.Prelude.Result.{Result, ok, err, panic}
use pgcat.Errors.{Error}
use pgcat.Wire.{Codec, IsCodec}
use pgcat.Wire.Sink.{write_all}
use pgcat.Config.{Address}
use pgcat.Messages.Reply.{error_response}
use pgcat.Server.State.{Lru, Outcome, done, failed, panicked, stuck}
use pgcat.Server.Checkin.{checkin_cleanup}
use pgcat.Server.Checkin.Ends.{checkin_cleanup-Ends}
use pgcat.Server.Prepared.Register.{Ends}
use pgcat.Pool.Statements.{ParseLru}
use pgcat.Router.{parser_enabled}
use pgcat.Router.Plugins.{PluginOutput, allow, overwrite, deny, intercept}
use pgcat.Client.{Client, World}
use pgcat.Client.Extended.{
  Buffered, buffer_parse, buffer_bind, buffer_describe, buffer_execute, buffer_close,
}
use pgcat.Client.Sync.{sync}
use pgcat.Client.Sync.Ends as SyncEnds
use pgcat.Client.Session.{Session, Act, server_of, on_server, in_world}
use pgcat.Client.Relay.{
  send_server_message, receive_server_message, write_response, send_and_receive_loop,
}
use pgcat.Client.Session.Ends as Session
use pgcat.Client.Session.Ends.{if-Ends, then-Halts, if-Halts, told-Halts}
use pgcat.Client.Relay.Ends.{
  send_server_message-Ends, receive_server_message-Ends, write_response-Ends,
  send_and_receive_loop-Ends,
}
use pgcat.Client.Arms.{
  Env, Flow, stays, quits, finish, update, after_reply, after_copy, relay_query, by_output,
  with_ast, by_initial_ast, on_query, parse_message, parsed_output, output_of, buffered,
  buffer_parse_act, with_statements, on_parse, on_buffered, clear_buffer, send_buffer, cleared,
  finish_batch, sync_batch, forgotten, sync_by_output, on_sync, append_to_buffer, flush_buffer,
  flush_if_large, on_copy_data, forward_copy, answer_copy, on_copy_end, on_code, on_message,
}

module _ (c : Codec) (w : IsCodec c) (L : Lru) (P : ParseLru) (Ast : Type 0) (address : Address)
    (now : ℕ) (env : Env Ast) where
  abbrev S : Type 0
  S = Session L P Ast

  abbrev pub Halts : {A : Type 0} → Act L P Ast A → Type 0
  Halts m = Session.Halts L P Ast m

  after_reply-Halts : Halts (after_reply c L P Ast address now env)
  unfolding after_reply
  after_reply-Halts = record { halts = λ s. tt }

  after_copy-Halts : Halts (after_copy c L P Ast address now env)
  unfolding after_copy
  after_copy-Halts = record { halts = λ s. tt }

  loop-Halts :
      (bytes : List ℕ) → Halts (send_and_receive_loop c L P Ast address now env.debug bytes)
  loop-Halts bytes = record {
    halts = send_and_receive_loop-Ends L P Ast c w address now env.debug bytes;
  }

  send-Halts : (bytes : List ℕ) → Halts (send_server_message c L P Ast address now env.debug bytes)
  send-Halts bytes = record {
    halts = send_server_message-Ends L P Ast c w address now env.debug bytes;
  }

  pub finish-Halts : (flow : Flow) → Halts (finish c L P Ast address now env flow)
  finish-Halts flow = record { halts = λ s. tt }

  relay_query-Halts : (bytes : List ℕ) → Halts (relay_query c L P Ast address now env bytes)
  relay_query-Halts bytes =
      then-Halts L P Ast (send_and_receive_loop c L P Ast address now env.debug bytes)
        (λ _. after_reply c L P Ast address now env) (loop-Halts bytes) (λ _. after_reply-Halts)

  by_output-Halts :
      (bytes : List ℕ) (o : PluginOutput) → Halts (by_output c L P Ast address now env bytes o)
  by_output-Halts bytes (deny e) =
      told-Halts L P Ast (error_response c e) (finish c L P Ast address now env stays)
        (finish-Halts stays)
  by_output-Halts bytes (intercept r) =
      told-Halts L P Ast (write_all r) (finish c L P Ast address now env stays) (finish-Halts stays)
  by_output-Halts bytes allow = relay_query-Halts bytes
  by_output-Halts bytes overwrite = relay_query-Halts bytes

  with_ast-Halts :
      (bytes : List ℕ) (r : Result Error Ast) → Halts (with_ast c L P Ast address now env bytes r)
  with_ast-Halts bytes (ok ast) = by_output-Halts bytes (env.run_plugins ast)
  with_ast-Halts bytes (err e) = relay_query-Halts bytes
  with_ast-Halts bytes panic = record { halts = λ s. tt }

  by_initial_ast-Halts :
      (bytes : List ℕ) (o : Option Ast) → Halts (by_initial_ast c L P Ast address now env bytes o)
  by_initial_ast-Halts bytes none = record {
    halts = λ s. (with_ast-Halts bytes (parse_message c L P Ast address now env bytes s)).halts s;
  }
  by_initial_ast-Halts bytes (some ast) = record {
    halts = λ s. (with_ast-Halts bytes (ok ast)).halts (record s { initial_parsed_ast = none });
  }

  on_query-Halts : (bytes : List ℕ) → Halts (on_query c L P Ast address now env bytes)
  unfolding on_query
  on_query-Halts bytes = record {
    halts = λ s.
        (if-Halts L P Ast (parser_enabled s.router)
            (by_initial_ast-Halts bytes s.initial_parsed_ast) (relay_query-Halts bytes)).halts
          s;
  }

  buffered-Ends : (r : Buffered) (s : S) → Ends (buffered c L P Ast address now env r s).0
  buffered-Ends (ok _, x) s = tt
  buffered-Ends (err e, x) s = tt
  buffered-Ends (panic, x) s = tt

  on_buffered-Halts : (f : Client → Buffered) → Halts (on_buffered c L P Ast address now env f)
  unfolding on_buffered
  on_buffered-Halts f = record { halts = λ s. buffered-Ends (f s.world.client) s }

  parsed_output-Halts : (r : Result Error Ast) → Halts (parsed_output c L P Ast address now env r)
  parsed_output-Halts (ok ast) = record { halts = λ s. tt }
  parsed_output-Halts (err e) = record { halts = λ s. tt }
  parsed_output-Halts panic = record { halts = λ s. tt }

  output_of-Halts : (bytes : List ℕ) → Halts (output_of c L P Ast address now env bytes)
  output_of-Halts bytes = record {
    halts = λ s.
        if-Ends L P Ast (parser_enabled s.router)
          (parsed_output c L P Ast address now env
            (parse_message c L P Ast address now env bytes s))
          (update c L P Ast address now env (λ t. t)) s
          ((parsed_output-Halts (parse_message c L P Ast address now env bytes s)).halts s) tt;
  }

  on_parse-Halts : (bytes : List ℕ) → Halts (on_parse c L P Ast address now env bytes)
  unfolding on_parse
  on_parse-Halts bytes =
      then-Halts L P Ast (output_of c L P Ast address now env bytes)
        (λ _. buffer_parse_act c L P Ast address now env bytes) (output_of-Halts bytes)
        (λ _. record {
          halts = λ s.
              buffered-Ends (buffer_parse c env.hasher P bytes s.world.client s.world.statements).0
                (with_statements c L P Ast address now env
                  (buffer_parse c env.hasher P bytes s.world.client s.world.statements).1 s);
        })

  cleared-Halts : Halts (cleared c L P Ast address now env)
  cleared-Halts = record {
    halts = λ s. after_reply-Halts.halts (clear_buffer c L P Ast address now env s);
  }

  send_buffer-Halts : (b : Bool) → Halts (send_buffer c L P Ast address now env b)
  send_buffer-Halts true = record { halts = λ s. (loop-Halts s.world.client.buffer).halts s }
  send_buffer-Halts false = record { halts = λ s. tt }

  synced-Ends : (r : Outcome Bool × World L P) → SyncEnds.Ends c w L P address now r → Ends r.0
  synced-Ends (done b, v) h = tt
  synced-Ends (failed e, v) h = tt
  synced-Ends (panicked, v) h = tt
  synced-Ends (stuck, v) h = h

  sync_batch-Halts : (bytes : List ℕ) → Halts (sync_batch c L P Ast address now env bytes)
  sync_batch-Halts bytes =
      then-Halts L P Ast (in_world L P Ast (sync c L P address now bytes))
        (finish_batch c L P Ast address now env)
        (record {
          halts = λ s. synced-Ends _ (SyncEnds.sync-Ends c w L P address now bytes s.world);
        })
        (λ b.
          then-Halts L P Ast (send_buffer c L P Ast address now env b)
            (λ _. cleared c L P Ast address now env) (send_buffer-Halts b) (λ _. cleared-Halts))

  forgotten-Halts : Halts (forgotten c L P Ast address now env)
  forgotten-Halts = record { halts = λ s. tt }

  sync_by_output-Halts :
      (bytes : List ℕ) (o : Option PluginOutput)
      → Halts (sync_by_output c L P Ast address now env bytes o)
  sync_by_output-Halts bytes none = sync_batch-Halts bytes
  sync_by_output-Halts bytes (some (deny e)) =
      told-Halts L P Ast (error_response c e) (forgotten c L P Ast address now env) forgotten-Halts
  sync_by_output-Halts bytes (some (intercept r)) =
      told-Halts L P Ast (write_all r) (forgotten c L P Ast address now env) forgotten-Halts
  sync_by_output-Halts bytes (some allow) = sync_batch-Halts bytes
  sync_by_output-Halts bytes (some overwrite) = sync_batch-Halts bytes

  on_sync-Halts : (bytes : List ℕ) → Halts (on_sync c L P Ast address now env bytes)
  unfolding on_sync
  on_sync-Halts bytes = record { halts = λ s. (sync_by_output-Halts bytes s.plugin_output).halts s }

  flush_buffer-Halts : Halts (flush_buffer c L P Ast address now env)
  flush_buffer-Halts =
      then-Halts L P Ast
        (λ s. send_server_message c L P Ast address now env.debug s.world.client.buffer s)
        (λ _. update c L P Ast address now env (clear_buffer c L P Ast address now env))
        (record { halts = λ s. (send-Halts s.world.client.buffer).halts s })
        (λ _. record { halts = λ s. tt })

  flush_if_large-Halts : Halts (flush_if_large c L P Ast address now env)
  flush_if_large-Halts = record {
    halts = λ s.
        if-Ends L P Ast (ltb 8196 (length s.world.client.buffer))
          (flush_buffer c L P Ast address now env) (update c L P Ast address now env (λ t. t)) s
          (flush_buffer-Halts.halts s) tt;
  }

  on_copy_data-Halts : (bytes : List ℕ) → Halts (on_copy_data c L P Ast address now env bytes)
  unfolding on_copy_data
  on_copy_data-Halts bytes = record {
    halts = λ s.
        (then-Halts L P Ast (flush_if_large c L P Ast address now env)
            (λ _. finish c L P Ast address now env stays) flush_if_large-Halts
            (λ _. finish-Halts stays)).halts
          (append_to_buffer c L P Ast address now env bytes s);
  }

  answer_copy-Halts : Halts (answer_copy c L P Ast address now env)
  answer_copy-Halts =
      then-Halts L P Ast (receive_server_message c L P Ast address now env.debug)
        (forward_copy c L P Ast address now env)
        (record { halts = receive_server_message-Ends L P Ast c w address now env.debug })
        (λ bytes.
          then-Halts L P Ast (write_response c L P Ast address now env.debug bytes)
            (λ _. after_copy c L P Ast address now env)
            (record { halts = write_response-Ends L P Ast c w address now env.debug bytes })
            (λ _. after_copy-Halts))

  on_copy_end-Halts : (bytes : List ℕ) → Halts (on_copy_end c L P Ast address now env bytes)
  unfolding on_copy_end
  on_copy_end-Halts bytes = record {
    halts = λ s.
        (then-Halts L P Ast (flush_buffer c L P Ast address now env)
            (λ _. answer_copy c L P Ast address now env) flush_buffer-Halts
            (λ _. answer_copy-Halts)).halts
          (append_to_buffer c L P Ast address now env bytes s);
  }

  pub cleanup-Halts : Halts (on_server L P Ast (checkin_cleanup c L))
  cleanup-Halts = record { halts = λ s. checkin_cleanup-Ends c w L (server_of L P Ast s) }

  on_code-Halts : (code : ℕ) (bytes : List ℕ) → Halts (on_code c L P Ast address now env code bytes)
  unfolding on_code
  on_code-Halts code bytes = if-Halts L P Ast (code == b'Q') (on_query-Halts bytes) (
      if-Halts L P Ast (code == b'X')
        (then-Halts L P Ast (on_server L P Ast (checkin_cleanup c L))
          (λ _. finish c L P Ast address now env quits) cleanup-Halts (λ _. finish-Halts quits))
        (if-Halts L P Ast (code == b'P') (on_parse-Halts bytes) (
          if-Halts L P Ast (code == b'B') (on_buffered-Halts (buffer_bind c bytes)) (
            if-Halts L P Ast (code == b'D') (on_buffered-Halts (buffer_describe c bytes)) (
              if-Halts L P Ast (code == b'E') (on_buffered-Halts (buffer_execute c bytes)) (
                if-Halts L P Ast (code == b'C') (on_buffered-Halts (buffer_close c bytes)) (
                  if-Halts L P Ast (code == b'S') (on_sync-Halts bytes) (
                    if-Halts L P Ast (code == b'd') (on_copy_data-Halts bytes) (
                      if-Halts L P Ast ((code == b'c') || (code == b'f')) (on_copy_end-Halts bytes)
                        (finish-Halts stays))))))))))

  pub on_message-Halts : (bytes : List ℕ) → Halts (on_message c L P Ast address now env bytes)
  unfolding on_message
  on_message-Halts [] = record { halts = λ s. tt }
  on_message-Halts (code ∷ body) = on_code-Halts code (code ∷ body)
