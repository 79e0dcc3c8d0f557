-- ===== src/Client/Handle/Turns.antt =====
-- src/client.rs: a turn of the handle loop comes to an end.
use pgcat.Prelude.{
  ℕ, ◌≤◌, ◌+◌, Bool, true, false, Option, none, some, List, [], ◌∷◌, length, arith, codes, ◌++◌,
}
use pgcat.Prelude.Result.{Result, ok, err, panic}
use pgcat.Errors.{Error, client_error}
use pgcat.Wire.{Codec, IsCodec}
use pgcat.Wire.Sink.{Sink}
use pgcat.Config.{Address}
use pgcat.Messages.Reply.{error_response, error_response_terminal}
use pgcat.Server.Parameters.{Text}
use pgcat.Server.State.{Lru, Server, Outcome, done, failed, panicked, stuck}
use pgcat.Server.Checkin.Ends.{checkin_cleanup-Ends, sync_parameters-Ends}
use pgcat.Server.Prepared.Register.{Ends}
use pgcat.Pool.{ConnectionPool}
use pgcat.Pool.Statements.{ParseLru}
use pgcat.Router.Command.{Regexes}
use pgcat.Router.Infer
use pgcat.Router.Infer.{infer}
use pgcat.Client.Cancel.{ClientKey, claim}
use pgcat.Client.Session.{Incoming, message, broken, idle, Session, following, server_of, wrote}
use pgcat.Client.Session.Ends.{Halts, if-Halts, told-Halts}
use pgcat.Client.Outside.Ends.{on_message-Halts}
use pgcat.Client.Outside.{Turn, next, needs_server, over, Round}
use pgcat.Client.Transaction.Ends.{transaction-Finishes}
use pgcat.Client.Handle.{
  Handling, refresh, drop_batch, last_words, reached, limit_text, checked_in, after_transaction,
  after_sync, serve, no_server, checked_out, after_refresh, by_turn, handle_incoming, shut_down,
}

module _ (c : Codec) (w : IsCodec c) (digest : List ℕ → List ℕ) (regexes : Regexes) (L : Lru)
    (P : ParseLru) (Ast : Type 0) (statements : Ast → List Infer.Statement) (client : ClientKey)
    (no_pool : Text) (display : Error → Text) where
  abbrev S : Type 0
  S = Session L P Ast

  abbrev H : Type 0
  H = Handling c digest regexes L P Ast statements client no_pool display

  module _ (round : Round L.Cache Ast) where
    -- What a message leaves: an end, with no more of the client's messages than there were.
    abbrev pub Leaves : List Incoming → Outcome Bool × List Incoming × H → Type 0
    Leaves ms (o, rest, t) = Ends o × (length rest ≤ length ms)

    checked_in-Leaves :
        (ms rest : List Incoming) (h : H) (r : Outcome (Unit {0}) × S)
        → Ends r.0
        → length rest ≤ length ms
        → Leaves ms
            (checked_in c digest regexes L P Ast statements client no_pool display round rest h r)
    checked_in-Leaves ms rest h (done _, s) e less = (tt, less)
    checked_in-Leaves ms rest h (failed x, s) e less = (tt, less)
    checked_in-Leaves ms rest h (panicked, s) e less = (tt, less)
    checked_in-Leaves ms rest h (stuck, s) e less = (e, less)

    after_transaction-Leaves :
        (ms : List Incoming) (h : H) (r : Outcome Bool × List Incoming × S)
        → Ends r.0
        → length r.1 ≤ length ms
        → Leaves ms
            (after_transaction c digest regexes L P Ast statements client no_pool display round h r)
    unfolding after_transaction
    after_transaction-Leaves ms h (done true, rest, s) e less =
        checked_in-Leaves ms rest h _ (checkin_cleanup-Ends c w L (server_of L P Ast s)) less
    after_transaction-Leaves ms h (done false, rest, s) e less = (tt, less)
    after_transaction-Leaves ms h (failed x, rest, s) e less = (tt, less)
    after_transaction-Leaves ms h (panicked, rest, s) e less = (tt, less)
    after_transaction-Leaves ms h (stuck, rest, s) e less = (e, less)

    after_sync-Leaves :
        (a : Address) (bytes : List ℕ) (rest : List Incoming) (h : H) (r : Outcome (Unit {0}) × S)
        → Ends r.0
        → Leaves rest (
            after_sync c digest regexes L P Ast statements client no_pool display round a bytes rest
              h r)
    after_sync-Leaves a bytes rest h (done _, s) e =
        let f = transaction-Finishes c w L P Ast a round.now round.env bytes rest s in
        after_transaction-Leaves rest h _ f.0 f.1
    after_sync-Leaves a bytes rest h (failed x, s) e = (tt, omega arith)
    after_sync-Leaves a bytes rest h (panicked, s) e = (tt, omega arith)
    after_sync-Leaves a bytes rest h (stuck, s) e = (e, omega arith)

    last_words-Halts :
        (n : ℕ)
        → Halts L P Ast
            (last_words c digest regexes L P Ast statements client no_pool display round n)
    last_words-Halts n = record {
      halts = λ s.
          (if-Halts L P Ast
              (reached c digest regexes L P Ast statements client no_pool display round
                round.checkout_failure_limit n)
              (told-Halts L P Ast
                (error_response_terminal c (
                  limit_text c digest regexes L P Ast statements client no_pool display round n
                    round.checkout_failure_limit))
                (λ t. (done false, t)) (record { halts = λ t. tt }))
              (record { halts = λ t. tt })).halts
            s;
    }

    no_server-Leaves :
        (code : ℕ) (e : Error) (rest : List Incoming) (h : H)
        → Leaves rest (
            no_server c digest regexes L P Ast statements client no_pool display round code e rest
              h)
    unfolding no_server
    no_server-Leaves code e rest h = (
      (told-Halts L P Ast
            (error_response c (codes "could not get connection from the pool - " ++ display e))
            (last_words c digest regexes L P Ast statements client no_pool display round
              (h.failures + 1))
            (last_words-Halts (h.failures + 1))).halts
          (drop_batch c digest regexes L P Ast statements client no_pool display round code
            h.session),
      omega arith,
    )

    checked_out-Leaves :
        (bytes : List ℕ) (rest : List Incoming) (h : H)
        (r : Result Error (Server L.Cache × Address))
        → Leaves rest (
            checked_out c digest regexes L P Ast statements client no_pool display round bytes rest
              h r)
    unfolding serve
    checked_out-Leaves bytes rest h (ok (server, a)) =
        after_sync-Leaves a bytes rest (record h { claims = claim client a server h.claims }) _
          (sync_parameters-Ends c w L _ _)
    checked_out-Leaves [] rest h (err e) = no_server-Leaves 0 e rest h
    checked_out-Leaves (code ∷ body) rest h (err e) = no_server-Leaves code e rest h
    checked_out-Leaves [] rest h panic = (tt, omega arith)
    checked_out-Leaves (code ∷ body) rest h panic = (tt, omega arith)

    after_refresh-Leaves :
        (bytes : List ℕ) (rest : List Incoming) (h : H) (r : Outcome (Unit {0}) × S)
        → Ends r.0
        → Leaves rest (
            after_refresh c digest regexes L P Ast statements client no_pool display round bytes
              rest h r)
    after_refresh-Leaves bytes rest h (done _, s) e = checked_out-Leaves bytes rest _ _
    after_refresh-Leaves bytes rest h (failed x, s) e = (tt, omega arith)
    after_refresh-Leaves bytes rest h (panicked, s) e = (tt, omega arith)
    after_refresh-Leaves bytes rest h (stuck, s) e = (e, omega arith)

    pub refresh-Ends :
        (o : Option (ConnectionPool → ConnectionPool)) (s : S)
        → Ends (refresh c digest regexes L P Ast statements client no_pool display round o s).0
    refresh-Ends none s =
        (told-Halts L P Ast (error_response c no_pool) (λ t. (failed client_error, t))
            (record { halts = λ t. tt })).halts
          s
    refresh-Ends (some change) s = tt

    by_turn-Leaves :
        (bytes : List ℕ) (rest : List Incoming) (h : H) (r : Outcome Turn × S)
        → Ends r.0
        → Leaves rest (
            by_turn c digest regexes L P Ast statements client no_pool display round bytes rest h r)
    by_turn-Leaves bytes rest h (done next, s) e = (tt, omega arith)
    by_turn-Leaves bytes rest h (done needs_server, s) e =
        after_refresh-Leaves bytes rest h _ (refresh-Ends round.refreshed s)
    by_turn-Leaves bytes rest h (done over, s) e = (tt, omega arith)
    by_turn-Leaves bytes rest h (failed x, s) e = (tt, omega arith)
    by_turn-Leaves bytes rest h (panicked, s) e = (tt, omega arith)
    by_turn-Leaves bytes rest h (stuck, s) e = (e, omega arith)

    -- A message outside transactions, with the transaction that it starts.
    pub handle_incoming-Leaves :
        (m : Incoming) (rest : List Incoming) (h : H)
        → Leaves rest (
            handle_incoming c digest regexes L P Ast statements client no_pool display round m rest
              h)
    unfolding handle_incoming
    handle_incoming-Leaves (message bytes) rest h =
        by_turn-Leaves bytes rest h _
          ((on_message-Halts c digest regexes L P Ast statements round bytes).halts h.session)
    handle_incoming-Leaves (broken e) rest h = (tt, omega arith)
    handle_incoming-Leaves idle rest h = (tt, omega arith)

    -- After a shutdown the session does not go on.
    abbrev pub Over : Outcome Bool × List Incoming × H → Type 0
    Over (done true, rest, t) = ⊥
    Over (stuck, rest, t) = ⊥
    Over r = Unit {0}

    told-Over :
        (rest : List Incoming) (h : H) (r : Result Error (Unit {0}) × Sink) (s : S)
        → let q =
            following L P Ast
              (wrote L P Ast r s).0
              (wrote L P Ast r s).1
              (λ _ t. (done false, t)) in
          Over (q.0, rest, record h { session = q.1 })
    told-Over rest h (ok _, k) s = tt
    told-Over rest h (err e, k) s = tt
    told-Over rest h (panic, k) s = tt

    pub shut_down-Over :
        (rest : List Incoming) (h : H)
        → Over (shut_down c digest regexes L P Ast statements client no_pool display round rest h)
    unfolding shut_down
    shut_down-Over rest h = told-Over rest h _ h.session
