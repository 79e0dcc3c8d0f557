-- ===== src/Client/Transaction/Leaks.antt =====
-- src/client.rs: how a session can end without the cleanup of its server.
use pgcat.Prelude.{ℕ, ◌≡◌, true, none, List, ◌∷◌, ◌++◌, codes}
use pgcat.Prelude.Dict.{lookup, text_Eq}
use pgcat.Prelude.Result.{ok}
use pgcat.Errors.{client_error}
use pgcat.Wire.{Codec}
use pgcat.Wire.Sink.{Sink}
use pgcat.Config.{Address}
use pgcat.Messages.Bind.{bind_get_name}
use pgcat.Messages.Reply.{error_response}
use pgcat.Server.State.{Lru, failed}
use pgcat.Pool.Statements.{ParseLru}
use pgcat.Client.Extended.{buffer_bind, unknown_statement}
use pgcat.Client.Session.{Incoming, message, Session}
use pgcat.Client.Arms.{Env, on_message, on_code, on_buffered}
use pgcat.Client.Transaction.{on_incoming, later_messages}

module _ (c : Codec) (L : Lru) (P : ParseLru) (Ast : Type 0) (address : Address) (now : ℕ)
    (env : Env Ast) where
  -- In a transaction, a Bind message for a statement that the client has not prepared ends the
  -- session with an error, and leaves the server as it was: in its transaction, not cleaned up and
  -- not marked bad. The client uses prepared statements, and the error can be written to it.
  pub unknown_bind_leaks :
      (body name : List ℕ) (ms : List Incoming) (s : Session L P Ast) (sink : Sink)
      → s.world.client.prepared_statements_enabled ≡ true
      → bind_get_name c (b'B' ∷ body) ≡ ok name
      → lookup name s.world.client.prepared_statements ≡ none
      → error_response c
          (codes "prepared statement \"" ++ (name ++ codes "\" does not exist"))
          s.world.client.write
        ≡ (ok tt, sink)
      → let r = later_messages c L P Ast address now env (message (b'B' ∷ body) ∷ ms) s in
        (r.0 ≡ failed client_error) × (r.2.world.server ≡ s.world.server)
  unfolding later_messages on_incoming on_message on_code on_buffered buffer_bind unknown_statement
  unknown_bind_leaks body name ms s sink on named unknown told =
      (simp (on, named, unknown, told), simp (on, named, unknown, told))
