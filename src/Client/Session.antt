-- ===== src/Client/Session.antt =====
-- src/client.rs: the state of a session, beside its connections the router, what the plugins said and what
-- the client's socket gives, and computations on it.
pub mod Ends
use pgcat.Prelude.{ℕ, Bool, Option, List}
use pgcat.Prelude.Result.{Result, ok, err, panic}
use pgcat.Errors.{Error}
use pgcat.Wire.Sink.{Sink}
use pgcat.Pool.Statements.{ParseLru}
use pgcat.Router.{QueryRouter}
use pgcat.Router.Plugins.{PluginOutput}
use pgcat.Server.Parameters.{ServerParameters}
use pgcat.Server.State.{Lru, Server, Outcome, done, failed, panicked, stuck}
use pgcat.Client.{Client, World, W}

-- What the client's socket gives next: a whole message, an error, or nothing for so long that the time for
-- a client in a transaction is over. Past the end of a list of these the socket is at its end.
pub data Incoming : Type 0 where
  message : List ℕ → Incoming
  broken : Error → Incoming
  idle : Incoming

module _ (L : Lru) (P : ParseLru) (Ast : Type 0) where
  pub record Session : Type 0 where
    pub world : World L P
    pub server_parameters : ServerParameters
    pub router : QueryRouter
    pub transaction_mode : Bool
    pub plugin_output : Option PluginOutput
    pub initial_parsed_ast : Option Ast
    -- Whether the statement timeout is over first, for the receives to come.
    pub timeouts : List Bool

  abbrev pub Act : Type 0 → Type 0
  Act A = Session → Outcome A × Session

  abbrev pub following : {A B : Type 0} → Outcome A → Session → (A → Act B) → Outcome B × Session
  following (done a) s f = f a s
  following (failed e) s f = (failed e, s)
  following panicked s f = (panicked, s)
  following stuck s f = (stuck, s)

  abbrev pub bind_act : {A B : Type 0} → Act A → (A → Act B) → Act B
  bind_act m f s = let r = m s in following r.0 r.1 f

  abbrev pub server_of : Session → Server L.Cache
  server_of s = s.world.server

  abbrev pub with_world : World L P → Session → Session
  with_world w s = record s { world = w }

  abbrev pub with_server : Server L.Cache → Session → Session
  with_server server s = record s { world = record s.world { server = server } }

  abbrev pub with_client : Client → Session → Session
  with_client x s = record s { world = record s.world { client = x } }

  abbrev pub in_world : {A : Type 0} → W L P A → Act A
  in_world m s = let r = m s.world in (r.0, record s { world = r.1 })

  abbrev pub on_server : {A : Type 0} → (Server L.Cache → Outcome A × Server L.Cache) → Act A
  on_server m s = let r = m (server_of s) in (r.0, with_server r.1 s)

  -- What is written to the client: `write_all(…).await?` and the like.
  abbrev pub wrote : Result Error (Unit {0}) × Sink → Act (Unit {0})
  wrote (ok _, sink) s = (done tt, with_client (record s.world.client { write = sink }) s)
  wrote (err e, sink) s = (failed e, with_client (record s.world.client { write = sink }) s)
  wrote (panic, sink) s = (panicked, with_client (record s.world.client { write = sink }) s)

  abbrev pub to_client : (Sink → Result Error (Unit {0}) × Sink) → Act (Unit {0})
  to_client send s = wrote (send s.world.client.write) s
