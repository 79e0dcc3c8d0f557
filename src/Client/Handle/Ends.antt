-- ===== src/Client/Handle/Ends.antt =====
-- src/client.rs: the handling of a client comes to an end.
use pgcat.Prelude.{
  subst, inl, inr, Bool-cases, ℕ, zero, suc, ◌≤◌, ◌<◌, ◌≢◌, Bool, true, false, List, [], ◌∷◌,
  length, arith,
}
use pgcat.Errors.{Error, socket_error}
use pgcat.Wire.{Codec, IsCodec}
use pgcat.Server.Parameters.{Text}
use pgcat.Server.State.{Lru, Outcome, done, failed, panicked, stuck}
use pgcat.Server.Prepared.Register.{Ends}
use pgcat.Pool.Statements.{ParseLru}
use pgcat.Router.Command.{Regexes}
use pgcat.Router.Infer
use pgcat.Router.Infer.{infer}
use pgcat.Client.Cancel.{ClientKey}
use pgcat.Client.Session.{Incoming, Session}
use pgcat.Client.Outside.{Round}
use pgcat.Client.Handle.Turns.{Leaves, Over, refresh-Ends, handle_incoming-Leaves, shut_down-Over}
use pgcat.Client.Handle.{
  Handling, refresh, handle_incoming, shut_down, handle_next, closed, go_on, handle_loop, started,
  dropped, handle,
}

module _ (c : Codec) (w : IsCodec c) (digest : List ℕ → List ℕ) (regexes : Regexes) (L : Lru)
    (P : ParseLru) (Ast : Type 0) (statements : Ast → List Infer.Statement) (client : ClientKey)
    (no_pool : Text) (display : Error → Text) where
  abbrev S : Type 0
  S = Session L P Ast

  abbrev H : Type 0
  H = Handling c digest regexes L P Ast statements client no_pool display

  abbrev Ended : Outcome (Unit {0}) × H → Type 0
  Ended (o, t) = Ends o

  Over-Ended :
      (more : List Incoming → H → Outcome (Unit {0}) × H) (round : Round L.Cache Ast)
      (r : Outcome Bool × List Incoming × H)
      → Over c w digest regexes L P Ast statements client no_pool display round r
      → Ended (go_on c digest regexes L P Ast statements client no_pool display more r)
  Over-Ended more round (done true, rest, t) h = elim h [ ]
  Over-Ended more round (done false, rest, t) h = tt
  Over-Ended more round (failed e, rest, t) h = tt
  Over-Ended more round (panicked, rest, t) h = tt
  Over-Ended more round (stuck, rest, t) h = h

  go_on-Ended :
      (more : List Incoming → H → Outcome (Unit {0}) × H) (round : Round L.Cache Ast)
      (ms : List Incoming) (r : Outcome Bool × List Incoming × H)
      → Leaves c w digest regexes L P Ast statements client no_pool display round ms r
      → ((rest : List Incoming) (t : H) → length rest ≤ length ms → Ended (more rest t))
      → Ended (go_on c digest regexes L P Ast statements client no_pool display more r)
  go_on-Ended more round ms (done true, rest, t) (e, less) ih = ih rest t less
  go_on-Ended more round ms (done false, rest, t) h ih = tt
  go_on-Ended more round ms (failed e, rest, t) h ih = tt
  go_on-Ended more round ms (panicked, rest, t) h ih = tt
  go_on-Ended more round ms (stuck, rest, t) (e, less) ih = e

  closed-Ended :
      (round : Round L.Cache Ast) (h : H)
      → Ended (
          go_on c digest regexes L P Ast statements client no_pool display
            (λ rest t. (failed socket_error, t))
            (closed c digest regexes L P Ast statements client no_pool display round h))
  unfolding closed
  closed-Ended round h = elim (Bool-cases round.shuts_down) [
    | inl now ↦ simp now (
        Over-Ended (λ rest t. (failed socket_error, t)) round
          (shut_down c digest regexes L P Ast statements client no_pool display round [] h)
          (shut_down-Over c w digest regexes L P Ast statements client no_pool display round [] h))
    | inr later ↦ simp later tt
  ]

  next-Ended :
      (more : List Incoming → H → Outcome (Unit {0}) × H) (round : Round L.Cache Ast) (m : Incoming)
      (ms : List Incoming) (h : H)
      → ((rest : List Incoming) (t : H) → length rest ≤ length ms → Ended (more rest t))
      → Ended (
          go_on c digest regexes L P Ast statements client no_pool display more
            (handle_next c digest regexes L P Ast statements client no_pool display round m ms h))
  unfolding handle_next
  next-Ended more round m ms h ih = elim (Bool-cases round.shuts_down) [
    | inl now ↦ simp now (
        Over-Ended more round
          (shut_down c digest regexes L P Ast statements client no_pool display round (m ∷ ms) h)
          (shut_down-Over c w digest regexes L P Ast statements client no_pool display round
            (m ∷ ms) h))
    | inr later ↦ simp later (
        go_on-Ended more round ms
          (handle_incoming c digest regexes L P Ast statements client no_pool display round m ms h)
          (handle_incoming-Leaves c w digest regexes L P Ast statements client no_pool display round
            m ms h)
          ih)
  ]

  handle_loop-Ended :
      (fuel : ℕ) (rounds : ℕ → Round L.Cache Ast) (ms : List Incoming) (h : H)
      → length ms < fuel
      → Ended
          (handle_loop c digest regexes L P Ast statements client no_pool display fuel rounds ms h)
  unfolding handle_loop
  handle_loop-Ended zero rounds ms h less = absurd (omega (arith, less))
  handle_loop-Ended (suc fuel) rounds [] h less = closed-Ended (rounds fuel) h
  handle_loop-Ended (suc fuel) rounds (m ∷ ms) h less =
      next-Ended
        (handle_loop c digest regexes L P Ast statements client no_pool display fuel rounds)
        (rounds fuel) m ms h
        (λ rest t shorter. handle_loop-Ended fuel rounds rest t (omega (arith, shorter, less)))

  started-Ended :
      (rounds : ℕ → Round L.Cache Ast) (ms : List Incoming) (h : H) (r : Outcome (Unit {0}) × S)
      → Ends r.0
      → Ended (started c digest regexes L P Ast statements client no_pool display rounds ms h r)
  started-Ended rounds ms h (done _, s) e =
      handle_loop-Ended (suc (length ms)) rounds ms _ (omega arith)
  started-Ended rounds ms h (failed x, s) e = tt
  started-Ended rounds ms h (panicked, s) e = tt
  started-Ended rounds ms h (stuck, s) e = e

  dropped-Ends :
      (r : Outcome (Unit {0}) × H)
      → Ended r
      → (dropped c digest regexes L P Ast statements client no_pool display r).0 ≢ stuck
  dropped-Ends (o, t) e = λ same. subst (λ x. Ends x) same e

  -- The handling of a client comes to an end on every list of what its socket gives and whatever the
  -- servers send: the fuel of the loops in it is enough.
  pub handle-Ends :
      (rounds : ℕ → Round L.Cache Ast) (ms : List Incoming) (h : H)
      → (handle c digest regexes L P Ast statements client no_pool display rounds ms h).0 ≢ stuck
  unfolding handle
  handle-Ends rounds ms h =
      let start = rounds (suc (length ms)) in
      let r =
        refresh c digest regexes L P Ast statements client no_pool display start start.refreshed
          h.session in
      dropped-Ends
        (started c digest regexes L P Ast statements client no_pool display rounds ms h r)
        (started-Ended rounds ms h r (
          refresh-Ends c w digest regexes L P Ast statements client no_pool display start
            start.refreshed h.session))
