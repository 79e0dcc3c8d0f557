-- ===== src/Client/Transaction.antt =====
-- src/client.rs, `handle`: the loop of a transaction, in which the server belongs to the client.
pub mod Leaves
pub mod Leaks
pub mod Ends
use pgcat.Prelude.{ℕ, Bool, true, false, none, List, [], ◌∷◌, codes}
use pgcat.Prelude.Result.{Result, ok, err, panic}
use pgcat.Errors.{Error, socket_error}
use pgcat.Wire.{Codec}
use pgcat.Config.{Address}
use pgcat.Messages.Reply.{error_response}
use pgcat.Server.State.{Lru, Server, Outcome, done, failed, panicked, stuck}
use pgcat.Server.Checkin.{checkin_cleanup}
use pgcat.Pool.Statements.{ParseLru}
use pgcat.Client.Session.{
  Incoming, message, broken, idle, Session, Act, on_server, to_client, bind_act,
}
use pgcat.Client.Relay.{fail}
use pgcat.Client.Arms.{Env, Flow, stays, leaves, quits, finish, on_message}

module _ (c : Codec) (L : Lru) (P : ParseLru) (Ast : Type 0) (address : Address) (now : ℕ)
    (env : Env Ast) where
  infixl 5 ◌>>=◌ ◌>>◌
  abbrev pub ◌>>=◌ : {A B : Type 0} → Act L P Ast A → (A → Act L P Ast B) → Act L P Ast B
  m >>= f = bind_act L P Ast m f

  abbrev pub ◌>>◌ : {B : Type 0} → Act L P Ast (Unit {0}) → Act L P Ast B → Act L P Ast B
  m >> k = bind_act L P Ast m λ _. k

  -- A client that is gone: the server is cleaned up, and the error is the session's.
  abbrev pub disconnected : Error → Act L P Ast Flow
  disconnected e = do
    on_server L P Ast (checkin_cleanup c L)
    fail c L P Ast address now env.debug e

  unfoldable pub on_incoming : Incoming → Act L P Ast Flow
  on_incoming (message bytes) = on_message c L P Ast address now env bytes
  on_incoming (broken e) = disconnected e
  on_incoming idle = do
    to_client L P Ast (error_response c (codes "idle transaction timeout"))
    finish c L P Ast address now env leaves

  abbrev pub go_on :
      (Session L P Ast → Outcome Bool × List Incoming × Session L P Ast)
      → List Incoming
      → Outcome Flow × Session L P Ast
      → Outcome Bool × List Incoming × Session L P Ast
  go_on next rest (done stays, s) = next s
  go_on next rest (done leaves, s) = (done true, rest, s)
  go_on next rest (done quits, s) = (done false, rest, s)
  go_on next rest (failed e, s) = (failed e, rest, s)
  go_on next rest (panicked, s) = (panicked, rest, s)
  go_on next rest (stuck, s) = (stuck, rest, s)

  -- Whether the session goes on, what the socket gives after the transaction, and the state then. Each
  -- message but the first discards the tree of the first.
  unfoldable pub later_messages :
      List Incoming → Session L P Ast → Outcome Bool × List Incoming × Session L P Ast
  unfolding on_incoming
  later_messages [] s =
      go_on (λ t. (stuck, [], t)) []
        (disconnected socket_error (record s { initial_parsed_ast = none }))
  later_messages (m ∷ ms) s =
      go_on (later_messages ms) ms (on_incoming m (record s { initial_parsed_ast = none }))

  unfoldable pub transaction :
      List ℕ → List Incoming → Session L P Ast → Outcome Bool × List Incoming × Session L P Ast
  unfolding later_messages
  transaction initial ms s =
      go_on (later_messages ms) ms (on_message c L P Ast address now env initial s)
