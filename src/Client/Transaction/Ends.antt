-- ===== src/Client/Transaction/Ends.antt =====
-- src/client.rs: the loop of a transaction comes to an end.
use pgcat.Prelude.{ℕ, suc, ◌≤◌, Bool, none, List, [], ◌∷◌, length, arith, codes}
use pgcat.Errors.{Error, socket_error}
use pgcat.Wire.{Codec, IsCodec}
use pgcat.Config.{Address}
use pgcat.Messages.Reply.{error_response}
use pgcat.Server.State.{Lru, Outcome, done, failed, panicked, stuck}
use pgcat.Server.Checkin.{checkin_cleanup}
use pgcat.Server.Prepared.Register.{Ends}
use pgcat.Pool.Statements.{ParseLru}
use pgcat.Client.Session.{Incoming, message, broken, idle, Session, on_server, following}
use pgcat.Client.Session.Ends.{told-Halts}
use pgcat.Client.Relay.{fail}
use pgcat.Client.Arms.{Env, Flow, stays, leaves, quits, finish, on_message}
use pgcat.Client.Arms.Ends.{finish-Halts, cleanup-Halts, on_message-Halts}
use pgcat.Client.Transaction.{on_incoming, go_on, later_messages, transaction}

module _ (c : Codec) (w : IsCodec c) (L : Lru) (P : ParseLru) (Ast : Type 0) (address : Address)
    (now : ℕ) (env : Env Ast) where
  abbrev S : Type 0
  S = Session L P Ast

  -- An end, with no more of the client's messages left than there were.
  abbrev pub Finishes : List Incoming → Outcome Bool × List Incoming × S → Type 0
  Finishes ms (o, rest, t) = Ends o × (length rest ≤ length ms)

  go_on-Finishes :
      (next : S → Outcome Bool × List Incoming × S) (ms : List Incoming) (r : Outcome Flow × S)
      → Ends r.0
      → ((t : S) → Finishes ms (next t))
      → Finishes ms (go_on c L P Ast address now env next ms r)
  go_on-Finishes next ms (done stays, t) h ih = ih t
  go_on-Finishes next ms (done leaves, t) h ih = (tt, omega arith)
  go_on-Finishes next ms (done quits, t) h ih = (tt, omega arith)
  go_on-Finishes next ms (failed e, t) h ih = (tt, omega arith)
  go_on-Finishes next ms (panicked, t) h ih = (tt, omega arith)
  go_on-Finishes next ms (stuck, t) h ih = (h, omega arith)

  -- A client that is gone ends the loop.
  gone-Finishes :
      (next : S → Outcome Bool × List Incoming × S) (ms : List Incoming) (e : Error)
      (r : Outcome (Unit {0}) × S)
      → Ends r.0
      → let q = following L P Ast r.0 r.1 (λ _. fail c L P Ast address now env.debug e) in
        Finishes ms (go_on c L P Ast address now env next ms q)
  gone-Finishes next ms e (done _, t) h = (tt, omega arith)
  gone-Finishes next ms e (failed x, t) h = (tt, omega arith)
  gone-Finishes next ms e (panicked, t) h = (tt, omega arith)
  gone-Finishes next ms e (stuck, t) h = (h, omega arith)

  abbrev fresh : S → S
  fresh s = record s { initial_parsed_ast = none }

  longer :
      (m : Incoming) (ms : List Incoming) (o : Outcome Bool) (rest : List Incoming)
      → Ends o × (length rest ≤ length ms)
      → Ends o × (length rest ≤ suc (length ms))
  longer m ms o rest (h, less) = (h, omega (arith, less))

  later_messages-Finishes :
      (ms : List Incoming) (s : S) → Finishes ms (later_messages c L P Ast address now env ms s)
  unfolding later_messages on_incoming
  later_messages-Finishes [] s =
      gone-Finishes (λ t. (stuck, [], t)) [] socket_error
        (on_server L P Ast (checkin_cleanup c L) (fresh s))
        ((cleanup-Halts c w L P Ast address now env).halts (fresh s))
  later_messages-Finishes (message bytes ∷ ms) s = longer (message bytes) ms _ _ (
      go_on-Finishes (later_messages c L P Ast address now env ms) ms
        (on_message c L P Ast address now env bytes (fresh s))
        ((on_message-Halts c w L P Ast address now env bytes).halts (fresh s))
        (later_messages-Finishes ms))
  later_messages-Finishes (broken e ∷ ms) s = longer (broken e) ms _ _ (
      gone-Finishes (later_messages c L P Ast address now env ms) ms e
        (on_server L P Ast (checkin_cleanup c L) (fresh s))
        ((cleanup-Halts c w L P Ast address now env).halts (fresh s)))
  later_messages-Finishes (idle ∷ ms) s = longer idle ms _ _ (
      go_on-Finishes (later_messages c L P Ast address now env ms) ms
        (on_incoming c L P Ast address now env idle (fresh s))
        ((told-Halts L P Ast (error_response c (codes "idle transaction timeout"))
            (finish c L P Ast address now env leaves)
            (finish-Halts c w L P Ast address now env leaves)).halts
          (fresh s))
        (later_messages-Finishes ms))

  -- The loop of a transaction ends, and does not give messages back that it has taken.
  pub transaction-Finishes :
      (initial : List ℕ) (ms : List Incoming) (s : S)
      → Finishes ms (transaction c L P Ast address now env initial ms s)
  unfolding transaction
  transaction-Finishes initial ms s =
      go_on-Finishes (later_messages c L P Ast address now env ms) ms
        (on_message c L P Ast address now env initial s)
        ((on_message-Halts c w L P Ast address now env initial).halts s)
        (later_messages-Finishes ms)
