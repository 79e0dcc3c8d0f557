-- ===== src/Client/Transaction/Leaves.antt =====
-- src/client.rs: in which state the server is when the loop of a transaction is left.
use pgcat.Prelude.{ℕ, ◌≡◌, refl, ◌⊎◌, inl, inr, Bool, true, false, none, List, [], ◌∷◌, ◌++◌, codes}
use pgcat.Errors.{Error, socket_error}
use pgcat.Wire.{Codec}
use pgcat.Config.{Address}
use pgcat.Server.State.{Lru, Outcome, done, failed, panicked, stuck}
use pgcat.Pool.Statements.{ParseLru}
use pgcat.Messages.Reply.{error_response}
use pgcat.Server.Checkin.{checkin_cleanup}
use pgcat.Client.Relay.{fail}
use pgcat.Client.Session.{to_client, on_server, Incoming, message, broken, idle, Session, following}
use pgcat.Client.Arms.{Env, Flow, stays, leaves, quits, finish, on_message}
use pgcat.Client.Arms.Leaving.{IsOver, IsCleaned, Leaving, on_message-Leaving}
use pgcat.Client.Transaction.{on_incoming, go_on, later_messages, transaction}

module _ (c : Codec) (L : Lru) (P : ParseLru) (Ast : Type 0) (address : Address) (now : ℕ)
    (env : Env Ast) where
  abbrev S : Type 0
  S = Session L P Ast

  -- What is promised when the loop has been left.
  abbrev pub GivenBack : List Incoming → Outcome Bool × List Incoming × S → Type 0
  GivenBack ms (done true, rest, t) =
      IsOver c L P Ast address now env t
      ⊎ ((before : List Incoming) × (ms ≡ before ++ (idle ∷ rest)))
  GivenBack ms (done false, rest, t) = IsCleaned c L P Ast address now env t
  GivenBack ms r = Unit

  GivenBack-later :
      (m : Incoming) (ms : List Incoming) (r : Outcome Bool × List Incoming × S)
      → GivenBack ms r
      → GivenBack (m ∷ ms) r
  GivenBack-later m ms (done true, rest, t) (inl over) = inl over
  GivenBack-later m ms (done true, rest, t) (inr (before, split)) = inr (m ∷ before, rw split refl)
  GivenBack-later m ms (done false, rest, t) h = h
  GivenBack-later m ms (failed e, rest, t) h = tt
  GivenBack-later m ms (panicked, rest, t) h = tt
  GivenBack-later m ms (stuck, rest, t) h = tt

  go_on-GivenBack :
      (next : S → Outcome Bool × List Incoming × S) (ms : List Incoming) (r : Outcome Flow × S)
      → Leaving c L P Ast address now env r
      → ((t : S) → GivenBack ms (next t))
      → GivenBack ms (go_on c L P Ast address now env next ms r)
  go_on-GivenBack next ms (done stays, t) h ih = ih t
  go_on-GivenBack next ms (done leaves, t) h ih = inl h
  go_on-GivenBack next ms (done quits, t) h ih = h
  go_on-GivenBack next ms (failed e, t) h ih = tt
  go_on-GivenBack next ms (panicked, t) h ih = tt
  go_on-GivenBack next ms (stuck, t) h ih = tt

  -- The three ends that a list of messages can come to, by the outcome of the first.
  idle-GivenBack :
      (next : S → Outcome Bool × List Incoming × S) (ms : List Incoming)
      (r : Outcome (Unit {0}) × S)
      → let q = following L P Ast r.0 r.1 (λ _. finish c L P Ast address now env leaves) in
        GivenBack (idle ∷ ms) (go_on c L P Ast address now env next ms q)
  idle-GivenBack next ms (done _, t) = inr ([], refl)
  idle-GivenBack next ms (failed e, t) = tt
  idle-GivenBack next ms (panicked, t) = tt
  idle-GivenBack next ms (stuck, t) = tt

  gone-GivenBack :
      (next : S → Outcome Bool × List Incoming × S) (all ms : List Incoming) (e : Error)
      (r : Outcome (Unit {0}) × S)
      → let q = following L P Ast r.0 r.1 (λ _. fail c L P Ast address now env.debug e) in
        GivenBack all (go_on c L P Ast address now env next ms q)
  gone-GivenBack next all ms e (done _, t) = tt
  gone-GivenBack next all ms e (failed x, t) = tt
  gone-GivenBack next all ms e (panicked, t) = tt
  gone-GivenBack next all ms e (stuck, t) = tt

  abbrev fresh : S → S
  fresh s = record s { initial_parsed_ast = none }

  later_messages-GivenBack :
      (ms : List Incoming) (s : S) → GivenBack ms (later_messages c L P Ast address now env ms s)
  unfolding later_messages on_incoming
  later_messages-GivenBack [] s =
      gone-GivenBack (λ t. (stuck, [], t)) [] [] socket_error
        (on_server L P Ast (checkin_cleanup c L) (fresh s))
  later_messages-GivenBack (message bytes ∷ ms) s = GivenBack-later (message bytes) ms _ (
      go_on-GivenBack (later_messages c L P Ast address now env ms) ms
        (on_message c L P Ast address now env bytes (fresh s))
        (on_message-Leaving c L P Ast address now env bytes (fresh s))
        (later_messages-GivenBack ms))
  later_messages-GivenBack (broken e ∷ ms) s =
      gone-GivenBack (later_messages c L P Ast address now env ms) (broken e ∷ ms) ms e
        (on_server L P Ast (checkin_cleanup c L) (fresh s))
  later_messages-GivenBack (idle ∷ ms) s =
      idle-GivenBack (later_messages c L P Ast address now env ms) ms
        (to_client L P Ast (error_response c (codes "idle transaction timeout")) (fresh s))

  -- When the loop of a transaction breaks, so that the check-in and the release after it follow, the
  -- client is in transaction mode and the server in no transaction, unless the client was idle in
  -- the transaction for too long. When the loop ends the session without an error, on Terminate, the
  -- server is as a check-in that succeeded leaves it. An error, after which the server may be in any
  -- state, is not constrained.
  pub transaction-GivenBack :
      (initial : List ℕ) (ms : List Incoming) (s : S)
      → GivenBack ms (transaction c L P Ast address now env initial ms s)
  unfolding transaction
  transaction-GivenBack initial ms s =
      go_on-GivenBack (later_messages c L P Ast address now env ms) ms
        (on_message c L P Ast address now env initial s)
        (on_message-Leaving c L P Ast address now env initial s) (later_messages-GivenBack ms)
