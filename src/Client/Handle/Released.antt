-- ===== src/Client/Handle/Released.antt =====
-- src/client.rs: which servers a client can cancel while its messages are handled and afterwards.
use pgcat.Prelude.{
  inl, inr, Bool-cases, ℕ, zero, suc, ◌≡◌, refl, ◌∙◌, Bool, true, false, none, List, [], ◌∷◌,
  length,
}
use pgcat.Prelude.Dict.{lookup, lookup-insert, lookup-remove, IsDict, insert-IsDict, remove-IsDict}
use pgcat.Prelude.Result.{Result, ok, err, panic}
use pgcat.Errors.{Error, socket_error}
use pgcat.Wire.{Codec}
use pgcat.Config.{Address}
use pgcat.Pool.Statements.{ParseLru}
use pgcat.Router.Command.{Regexes}
use pgcat.Router.Infer
use pgcat.Server.Parameters.{Text}
use pgcat.Server.State.{Lru, Server, Outcome, done, failed, panicked, stuck}
use pgcat.Client.Cancel.{
  ClientKey, ClientServerMap, client_Eq, same_client, same_client_self, claim, release,
}
use pgcat.Client.Outside.{Turn, next, needs_server, over, Round}
use pgcat.Client.Session.{Incoming, message, broken, idle, Session}
use pgcat.Client.Handle.{
  Handling, checked_in, after_transaction, after_sync, serve, no_server, checked_out, after_refresh,
  by_turn, handle_incoming, shut_down, handle_next, closed, go_on, handle_loop, started, handle,
}

module _ (c : Codec) (digest : List ℕ → List ℕ) (regexes : Regexes) (L : Lru) (P : ParseLru)
    (Ast : Type 0) (statements : Ast → List Infer.Statement) (client : ClientKey) (no_pool : Text)
    (display : Error → Text) where
  abbrev H : Type 0
  H = Handling c digest regexes L P Ast statements client no_pool display

  -- The claims of the other clients are as they were.
  abbrev pub Others : ClientServerMap → ClientServerMap → Type 0
  Others m n = (k : ClientKey) → same_client client k ≡ false → lookup k n ≡ lookup k m

  abbrev pub Free : ClientServerMap → Type 0
  Free m = IsDict m × (lookup client m ≡ none)

  abbrev Held : ClientServerMap → ClientServerMap → Type 0
  Held m n = IsDict n × Others m n

  -- Where the session goes on or is over, nothing is claimed; where it fails, the claim may be left.
  abbrev Tidy : ClientServerMap → Outcome Bool × List Incoming × H → Type 0
  Tidy m (done _, rest, t) = Held m t.claims × (lookup client t.claims ≡ none)
  Tidy m (_, rest, t) = Held m t.claims

  claim-Held :
      (a : Address) {C : Type 0} (server : Server C) (m : ClientServerMap)
      → IsDict m
      → Held m (claim client a server m)
  unfolding claim
  claim-Held a server m d =
      (insert-IsDict client _ m d, λ k other. lookup-insert client k _ m ∙ (rw other refl))

  release-Held :
      (m n : ClientServerMap)
      → Held m n
      → Held m (release client n) × (lookup client (release client n) ≡ none)
  unfolding release
  release-Held m n (d, o) = (
    (remove-IsDict client n d, λ k other. lookup-remove client k n d ∙ rw other (o k other)),
    lookup-remove client client n d ∙ rw (same_client_self client) refl,
  )

  module _ (round : Round L.Cache Ast) where
    checked_in-Tidy :
        (m : ClientServerMap) (rest : List Incoming) (h : H)
        (r : Outcome (Unit {0}) × Session L P Ast)
        → Held m h.claims
        → Tidy m
            (checked_in c digest regexes L P Ast statements client no_pool display round rest h r)
    checked_in-Tidy m rest h (done _, s) k = release-Held m h.claims k
    checked_in-Tidy m rest h (failed e, s) k = k
    checked_in-Tidy m rest h (panicked, s) k = k
    checked_in-Tidy m rest h (stuck, s) k = k

    after_transaction-Tidy :
        (m : ClientServerMap) (h : H) (r : Outcome Bool × List Incoming × Session L P Ast)
        → Held m h.claims
        → Tidy m
            (after_transaction c digest regexes L P Ast statements client no_pool display round h r)
    unfolding after_transaction
    after_transaction-Tidy m h (done true, rest, s) k = checked_in-Tidy m rest h _ k
    after_transaction-Tidy m h (done false, rest, s) k = release-Held m h.claims k
    after_transaction-Tidy m h (failed e, rest, s) k = k
    after_transaction-Tidy m h (panicked, rest, s) k = k
    after_transaction-Tidy m h (stuck, rest, s) k = k

    after_sync-Tidy :
        (m : ClientServerMap) (a : Address) (bytes : List ℕ) (rest : List Incoming) (h : H)
        (r : Outcome (Unit {0}) × Session L P Ast)
        → Held m h.claims
        → Tidy m (
            after_sync c digest regexes L P Ast statements client no_pool display round a bytes rest
              h r)
    after_sync-Tidy m a bytes rest h (done _, s) k = after_transaction-Tidy m h _ k
    after_sync-Tidy m a bytes rest h (failed e, s) k = k
    after_sync-Tidy m a bytes rest h (panicked, s) k = k
    after_sync-Tidy m a bytes rest h (stuck, s) k = k

    Free-Held : (m : ClientServerMap) → Free m → Held m m
    Free-Held m (d, none_held) = (d, λ k other. refl)

    Free-Tidy :
        (m : ClientServerMap) (o : Outcome Bool) (rest : List Incoming) (t : H)
        → Free m
        → t.claims ≡ m
        → Tidy m (o, rest, t)
    Free-Tidy m (done _) rest t (d, none_held) same =
        ((rw same d, λ k other. rw same refl), rw same none_held)
    Free-Tidy m (failed e) rest t (d, none_held) same = (rw same d, λ k other. rw same refl)
    Free-Tidy m panicked rest t (d, none_held) same = (rw same d, λ k other. rw same refl)
    Free-Tidy m stuck rest t (d, none_held) same = (rw same d, λ k other. rw same refl)

    checked_out-Tidy :
        (bytes : List ℕ) (rest : List Incoming) (h : H)
        (r : Result Error (Server L.Cache × Address))
        → Free h.claims
        → Tidy h.claims (
            checked_out c digest regexes L P Ast statements client no_pool display round bytes rest
              h r)
    unfolding serve no_server
    checked_out-Tidy bytes rest h (ok (server, a)) f =
        after_sync-Tidy h.claims a bytes rest (record h { claims = claim client a server h.claims })
          _ (claim-Held a server h.claims f.0)
    checked_out-Tidy [] rest h (err e) f = Free-Tidy h.claims _ rest _ f refl
    checked_out-Tidy (code ∷ body) rest h (err e) f = Free-Tidy h.claims _ rest _ f refl
    checked_out-Tidy [] rest h panic f = Free-Tidy h.claims panicked rest h f refl
    checked_out-Tidy (code ∷ body) rest h panic f = Free-Tidy h.claims panicked rest h f refl

    after_refresh-Tidy :
        (bytes : List ℕ) (rest : List Incoming) (h : H) (r : Outcome (Unit {0}) × Session L P Ast)
        → Free h.claims
        → Tidy h.claims (
            after_refresh c digest regexes L P Ast statements client no_pool display round bytes
              rest h r)
    after_refresh-Tidy bytes rest h (done _, s) f = checked_out-Tidy bytes rest _ _ f
    after_refresh-Tidy bytes rest h (failed e, s) f =
        Free-Tidy h.claims (failed e) rest (record h { session = s }) f refl
    after_refresh-Tidy bytes rest h (panicked, s) f =
        Free-Tidy h.claims panicked rest (record h { session = s }) f refl
    after_refresh-Tidy bytes rest h (stuck, s) f =
        Free-Tidy h.claims stuck rest (record h { session = s }) f refl

    by_turn-Tidy :
        (bytes : List ℕ) (rest : List Incoming) (h : H) (r : Outcome Turn × Session L P Ast)
        → Free h.claims
        → Tidy h.claims (
            by_turn c digest regexes L P Ast statements client no_pool display round bytes rest h r)
    by_turn-Tidy bytes rest h (done next, s) f =
        Free-Tidy h.claims (done true) rest (record h { session = s }) f refl
    by_turn-Tidy bytes rest h (done needs_server, s) f = after_refresh-Tidy bytes rest h _ f
    by_turn-Tidy bytes rest h (done over, s) f =
        Free-Tidy h.claims (done false) rest (record h { session = s }) f refl
    by_turn-Tidy bytes rest h (failed e, s) f =
        Free-Tidy h.claims (failed e) rest (record h { session = s }) f refl
    by_turn-Tidy bytes rest h (panicked, s) f =
        Free-Tidy h.claims panicked rest (record h { session = s }) f refl
    by_turn-Tidy bytes rest h (stuck, s) f =
        Free-Tidy h.claims stuck rest (record h { session = s }) f refl

    handle_incoming-Tidy :
        (m : Incoming) (rest : List Incoming) (h : H)
        → Free h.claims
        → Tidy h.claims (
            handle_incoming c digest regexes L P Ast statements client no_pool display round m rest
              h)
    unfolding handle_incoming
    handle_incoming-Tidy (message bytes) rest h f = by_turn-Tidy bytes rest h _ f
    handle_incoming-Tidy (broken e) rest h f = Free-Tidy h.claims (failed e) rest h f refl
    handle_incoming-Tidy idle rest h f = Free-Tidy h.claims (done true) rest h f refl

    handle_next-Tidy :
        (m : Incoming) (rest : List Incoming) (h : H)
        → Free h.claims
        → Tidy h.claims
            (handle_next c digest regexes L P Ast statements client no_pool display round m rest h)
    unfolding handle_next shut_down
    handle_next-Tidy m rest h f = elim (Bool-cases round.shuts_down) [
      | inl now ↦ simp now (Free-Tidy h.claims _ (m ∷ rest) _ f refl)
      | inr later ↦ simp later (handle_incoming-Tidy m rest h f)
    ]

    closed-Tidy :
        (h : H)
        → Free h.claims
        → Tidy h.claims (closed c digest regexes L P Ast statements client no_pool display round h)
    unfolding closed shut_down
    closed-Tidy h f = elim (Bool-cases round.shuts_down) [
      | inl now ↦ simp now (Free-Tidy h.claims _ [] _ f refl)
      | inr later ↦ simp later (Free-Tidy h.claims (failed socket_error) [] h f refl)
    ]

  abbrev Ended : ClientServerMap → Outcome (Unit {0}) × H → Type 0
  Ended m (o, t) = Held m t.claims

  Others-trans : (l m n : ClientServerMap) → Others l m → Others m n → Others l n
  Others-trans l m n p q k other = q k other ∙ p k other

  go_on-Ended :
      (more : List Incoming → H → Outcome (Unit {0}) × H) (m : ClientServerMap)
      (r : Outcome Bool × List Incoming × H)
      → Tidy m r
      → ((rest : List Incoming) (h : H) → Free h.claims → Ended h.claims (more rest h))
      → Ended m (go_on c digest regexes L P Ast statements client no_pool display more r)
  go_on-Ended more m (done true, rest, h) ((d, o), free) ih =
      ((ih rest h (d, free)).0, Others-trans m h.claims _ o (ih rest h (d, free)).1)
  go_on-Ended more m (done false, rest, h) (k, free) ih = k
  go_on-Ended more m (failed e, rest, h) k ih = k
  go_on-Ended more m (panicked, rest, h) k ih = k
  go_on-Ended more m (stuck, rest, h) k ih = k

  handle_loop-Ended :
      (fuel : ℕ) (rounds : ℕ → Round L.Cache Ast) (ms : List Incoming) (h : H)
      → Free h.claims
      → Ended h.claims
          (handle_loop c digest regexes L P Ast statements client no_pool display fuel rounds ms h)
  unfolding handle_loop closed
  handle_loop-Ended zero rounds ms h f = (f.0, λ k other. refl)
  handle_loop-Ended (suc fuel) rounds [] h f =
      go_on-Ended (λ rest t. (failed socket_error, t)) h.claims _ (closed-Tidy (rounds fuel) h f)
        (λ rest t g. (g.0, λ k other. refl))
  handle_loop-Ended (suc fuel) rounds (m ∷ ms) h f =
      go_on-Ended
        (handle_loop c digest regexes L P Ast statements client no_pool display fuel rounds)
        h.claims _ (handle_next-Tidy (rounds fuel) m ms h f)
        (λ rest t. handle_loop-Ended fuel rounds rest t)

  started-Ended :
      (rounds : ℕ → Round L.Cache Ast) (ms : List Incoming) (h : H)
      (r : Outcome (Unit {0}) × Session L P Ast)
      → Free h.claims
      → Ended h.claims
          (started c digest regexes L P Ast statements client no_pool display rounds ms h r)
  started-Ended rounds ms h (done _, s) f = handle_loop-Ended (suc (length ms)) rounds ms _ f
  started-Ended rounds ms h (failed e, s) f = (f.0, λ k other. refl)
  started-Ended rounds ms h (panicked, s) f = (f.0, λ k other. refl)
  started-Ended rounds ms h (stuck, s) f = (f.0, λ k other. refl)

  -- When a session has ended, however it did, its client claims no server for requests to cancel,
  -- and the claims of all other clients are as they were. The claims hold each client once, and at
  -- the start none is of this client.
  pub handle-Released :
      (rounds : ℕ → Round L.Cache Ast) (ms : List Incoming) (h : H)
      → Free h.claims
      → let n =
          (handle c digest regexes L P Ast statements client no_pool display rounds ms
            h).1.claims in
        (lookup client n ≡ none) × Others h.claims n
  unfolding handle
  handle-Released rounds ms h f =
      let (k, free) = release-Held h.claims _ (started-Ended rounds ms h _ f) in (free, k.1)
