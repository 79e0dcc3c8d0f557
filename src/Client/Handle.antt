-- ===== src/Client/Handle.antt =====
-- src/client.rs, `handle`: the loop over the messages of a client that is no administrator. Time passes in
-- rounds; each has the pool as the configuration then has it, the servers that can be got, and the rest of
-- what the environment gives.
pub mod Released
pub mod Turns
pub mod Ends
use pgcat.Prelude.{
  ℕ, zero, suc, ◌+◌, Bool, true, false, Option, none, some, List, [], ◌∷◌, ◌++◌, codes, leb, ◌==◌,
  length, if◌then◌else◌,
}
use pgcat.Prelude.Decimal.{decimal}
use pgcat.Prelude.Result.{Result, ok, err, panic}
use pgcat.Errors.{Error, client_error, socket_error}
use pgcat.Wire.{Codec}
use pgcat.Wire.Sink.{write_all}
use pgcat.Config.{Address}
use pgcat.Messages.Reply.{error_response, error_response_terminal}
use pgcat.Pool.{ConnectionPool, PoolSettings}
use pgcat.Pool.Checkout
use pgcat.Pool.Checkout.{Attempt}
use pgcat.Pool.Statements.{ParseLru}
use pgcat.Router.{QueryRouter, update_pool_settings, set_default_role}
use pgcat.Router.Command.{Regexes}
use pgcat.Router.FromBind.{infer_shard_from_bind}
use pgcat.Router.Infer
use pgcat.Router.Infer.{infer}
use pgcat.Router.Plugins.{PluginOutput, deny, intercept}
use pgcat.Server.Checkin.{checkin_cleanup}
use pgcat.Server.Parameters.{Text}
use pgcat.Server.Query.{sync_parameters}
use pgcat.Server.State.{Lru, Server, Outcome, done, failed, panicked, stuck}
use pgcat.Client.{Client, World, reset_buffered_state}
use pgcat.Client.Cancel.{ClientKey, ClientServerMap, claim, release}
use pgcat.Client.Custom.{handle_custom_protocol}
use pgcat.Client.Session.{
  Incoming, message, broken, idle, Session, Act, bind_act, following, on_server, to_client,
  with_client, with_server, with_world,
}
use pgcat.Router.Parse.{parse}
use pgcat.Client.Outside.{Turn, next, needs_server, over, Round, on_message}
use pgcat.Client.Arms.{Env}
use pgcat.Client.Extended.{
  Buffered, buffer_parse, buffer_bind, buffer_describe, buffer_execute, buffer_close,
}
use pgcat.Client.Transaction.{transaction}

module _ (c : Codec) (digest : List ℕ → List ℕ) (regexes : Regexes) (L : Lru) (P : ParseLru)
    (Ast : Type 0) (statements : Ast → List Infer.Statement) (client : ClientKey) (no_pool : Text)
    (display : Error → Text) where
  -- The session, how often no server was got, and the map that is shared by all clients.
  pub record Handling : Type 0 where
    pub session : Session L P Ast
    pub failures : ℕ
    pub claims : ClientServerMap

  infixl 5 ◌>>=◌ ◌>>◌
  abbrev pub ◌>>=◌ : {A B : Type 0} → Act L P Ast A → (A → Act L P Ast B) → Act L P Ast B
  m >>= f = bind_act L P Ast m f

  abbrev pub ◌>>◌ : {B : Type 0} → Act L P Ast (Unit {0}) → Act L P Ast B → Act L P Ast B
  m >> k = bind_act L P Ast m λ _. k

  abbrev pub update : (Session L P Ast → Session L P Ast) → Act L P Ast (Unit {0})
  update f s = (done tt, f s)

  module _ (round : Round L.Cache Ast) where
    abbrev pub refreshed : ConnectionPool → Session L P Ast → Session L P Ast
    refreshed pool s = record s {
      world = record s.world { pool = pool };
      router = update_pool_settings pool.settings s.router;
    }

    abbrev pub refresh : Option (ConnectionPool → ConnectionPool) → Act L P Ast (Unit {0})
    refresh none = do to_client L P Ast (error_response c no_pool); λ s. (failed client_error, s)
    refresh (some change) = update λ s. refreshed (change s.world.pool) s

    abbrev pub checkout : Session L P Ast → Result Error (Server L.Cache × Address) × ConnectionPool
    checkout s =
        Checkout.get c L round.attempt round.shuffle s.router.active_shard s.router.active_role
          s.world.pool

    -- What a message leaves: whether the session goes on, what the socket gives next, and the state.
    abbrev pub Left : Type 0
    Left = Outcome Bool × List Incoming × Handling

    abbrev pub with_session : Session L P Ast → Handling → Handling
    with_session s h = record h { session = s }

    abbrev pub reached : Option ℕ → ℕ → Bool
    reached none failures = false
    reached (some limit) failures = leb limit failures

    abbrev pub limit_text : ℕ → Option ℕ → Text
    limit_text failures none = []
    limit_text failures (some limit) =
        codes "checkout failure limit reached ("
        ++ (decimal 20 failures ++ (codes " / " ++ (decimal 20 limit ++ codes ")")))

    abbrev pub last_words : ℕ → Act L P Ast Bool
    last_words failures s =
        (if reached round.checkout_failure_limit failures
            then (to_client L P Ast
                  (error_response_terminal c (limit_text failures round.checkout_failure_limit))
                >> λ t. (done false, t))
            else λ t. (done true, t))
          s

    abbrev pub drop_batch : ℕ → Session L P Ast → Session L P Ast
    drop_batch code s =
        if code == b'S' then with_client L P Ast (reset_buffered_state s.world.client) s else s

    -- No server could be got.
    unfoldable pub no_server : ℕ → Error → List Incoming → Handling → Left
    no_server code e rest h =
        let failures = h.failures + 1 in
        let told =
          bind_act L P Ast
            (to_client L P Ast
              (error_response c (codes "could not get connection from the pool - " ++ display e)))
            (λ _. last_words failures) (drop_batch code h.session) in
        (told.0, rest, record h { session = told.1; failures = failures })

    abbrev pub released : Handling → Handling
    released h = record h { claims = release client h.claims }

    -- After the transaction: the server is cleaned up and no longer the client's.
    abbrev pub checked_in : List Incoming → Handling → Outcome (Unit {0}) × Session L P Ast → Left
    checked_in rest h (done _, s) = (done true, rest, released (with_session s h))
    checked_in rest h (failed e, s) = (failed e, rest, with_session s h)
    checked_in rest h (panicked, s) = (panicked, rest, with_session s h)
    checked_in rest h (stuck, s) = (stuck, rest, with_session s h)

    unfoldable pub after_transaction :
        Handling → Outcome Bool × List Incoming × Session L P Ast → Left
    after_transaction h (done true, rest, s) =
        checked_in rest h (on_server L P Ast (checkin_cleanup c L) s)
    after_transaction h (done false, rest, s) = (done false, rest, released (with_session s h))
    after_transaction h (failed e, rest, s) = (failed e, rest, with_session s h)
    after_transaction h (panicked, rest, s) = (panicked, rest, with_session s h)
    after_transaction h (stuck, rest, s) = (stuck, rest, with_session s h)

    -- The parameters of the session are brought to the server before the first message.
    abbrev pub after_sync :
        Address → List ℕ → List Incoming → Handling → Outcome (Unit {0}) × Session L P Ast → Left
    after_sync a bytes rest h (done _, s) =
        after_transaction h (transaction c L P Ast a round.now round.env bytes rest s)
    after_sync a bytes rest h (failed e, s) = (failed e, rest, with_session s h)
    after_sync a bytes rest h (panicked, s) = (panicked, rest, with_session s h)
    after_sync a bytes rest h (stuck, s) = (stuck, rest, with_session s h)

    unfoldable pub serve : Server L.Cache → Address → List ℕ → List Incoming → Handling → Left
    unfolding after_transaction
    serve server a bytes rest h =
        let s = with_server L P Ast server h.session in
        after_sync a bytes rest (record h { claims = claim client a server h.claims })
          (on_server L P Ast (sync_parameters c L s.server_parameters) s)

    abbrev pub checked_out :
        List ℕ → List Incoming → Handling → Result Error (Server L.Cache × Address) → Left
    checked_out bytes rest h (ok (server, a)) = serve server a bytes rest h
    checked_out [] rest h (err e) = no_server 0 e rest h
    checked_out (code ∷ body) rest h (err e) = no_server code e rest h
    checked_out bytes rest h panic = (panicked, rest, h)

    abbrev pub with_pool : ConnectionPool → Session L P Ast → Session L P Ast
    with_pool pool s = with_world L P Ast (record s.world { pool = pool }) s

    abbrev pub after_refresh :
        List ℕ → List Incoming → Handling → Outcome (Unit {0}) × Session L P Ast → Left
    after_refresh bytes rest h (done _, s) =
        let r = checkout s in checked_out bytes rest (with_session (with_pool r.1 s) h) r.0
    after_refresh bytes rest h (failed e, s) = (failed e, rest, with_session s h)
    after_refresh bytes rest h (panicked, s) = (panicked, rest, with_session s h)
    after_refresh bytes rest h (stuck, s) = (stuck, rest, with_session s h)

    abbrev pub by_turn : List ℕ → List Incoming → Handling → Outcome Turn × Session L P Ast → Left
    by_turn bytes rest h (done next, s) = (done true, rest, with_session s h)
    by_turn bytes rest h (done needs_server, s) =
        after_refresh bytes rest h (refresh round.refreshed s)
    by_turn bytes rest h (done over, s) = (done false, rest, with_session s h)
    by_turn bytes rest h (failed e, s) = (failed e, rest, with_session s h)
    by_turn bytes rest h (panicked, s) = (panicked, rest, with_session s h)
    by_turn bytes rest h (stuck, s) = (stuck, rest, with_session s h)

    unfoldable pub handle_incoming : Incoming → List Incoming → Handling → Left
    unfolding serve no_server
    handle_incoming (message bytes) rest h =
        by_turn bytes rest h (on_message c digest regexes L P Ast statements round bytes h.session)
    handle_incoming (broken e) rest h = (failed e, rest, h)
    handle_incoming idle rest h = (done true, rest, h)

    -- `self.shutdown.recv()`
    unfoldable pub shut_down : List Incoming → Handling → Left
    shut_down rest h =
        let told =
          bind_act L P Ast
            (to_client L P Ast (
              error_response_terminal c
                (codes "terminating connection due to administrator command")))
            (λ _ s. (done false, s)) h.session in
        (told.0, rest, with_session told.1 h)

    unfoldable pub handle_next : Incoming → List Incoming → Handling → Left
    unfolding handle_incoming shut_down
    handle_next m rest h =
        if round.shuts_down then shut_down (m ∷ rest) h else handle_incoming m rest h

    -- The socket is at its end; a shutdown may still come first.
    unfoldable pub closed : Handling → Left
    unfolding shut_down
    closed h = if round.shuts_down then shut_down [] h else (failed socket_error, [], h)

  abbrev pub go_on :
      (List Incoming → Handling → Outcome (Unit {0}) × Handling)
      → Outcome Bool × List Incoming × Handling
      → Outcome (Unit {0}) × Handling
  go_on more (done true, rest, h) = more rest h
  go_on more (done false, rest, h) = (done tt, h)
  go_on more (failed e, rest, h) = (failed e, h)
  go_on more (panicked, rest, h) = (panicked, h)
  go_on more (stuck, rest, h) = (stuck, h)

  -- One round for each message outside transactions; a list of messages has at most its length.
  unfoldable pub handle_loop :
      ℕ → (ℕ → Round L.Cache Ast) → List Incoming → Handling → Outcome (Unit {0}) × Handling
  unfolding handle_next closed
  handle_loop zero rounds ms h = (stuck, h)
  handle_loop (suc fuel) rounds [] h =
      go_on (λ rest t. (failed socket_error, t)) (closed (rounds fuel) h)
  handle_loop (suc fuel) rounds (m ∷ ms) h =
      go_on (handle_loop fuel rounds) (handle_next (rounds fuel) m ms h)

  -- The router starts with the role that the pool prefers.
  abbrev pub start_routing : Session L P Ast → Session L P Ast
  start_routing s = record s { router = set_default_role s.router }

  abbrev pub started :
      (ℕ → Round L.Cache Ast)
      → List Incoming
      → Handling
      → Outcome (Unit {0}) × Session L P Ast
      → Outcome (Unit {0}) × Handling
  started rounds ms h (done _, s) =
      handle_loop (suc (length ms)) rounds ms (record h { session = start_routing s })
  started rounds ms h (failed e, s) = (failed e, record h { session = s })
  started rounds ms h (panicked, s) = (panicked, record h { session = s })
  started rounds ms h (stuck, s) = (stuck, record h { session = s })

  abbrev pub dropped : Outcome (Unit {0}) × Handling → Outcome (Unit {0}) × Handling
  dropped (o, h) = (o, record h { claims = release client h.claims })

  -- From the pool that the client asked for to the drop of the client.
  unfoldable pub handle :
      (ℕ → Round L.Cache Ast) → List Incoming → Handling → Outcome (Unit {0}) × Handling
  unfolding handle_loop
  handle rounds ms h = dropped (
      started rounds ms h
        (refresh (rounds (suc (length ms))) (rounds (suc (length ms))).refreshed h.session))
