-- ===== src/Client.antt =====
-- src/client.rs, the state of a client session, with the server that it holds and the pool that both
-- are of, and computations on all of it.
pub mod Startup
pub mod Extended
pub mod Sync
pub mod Session
pub mod Relay
pub mod Cancel
pub mod Custom
pub mod Outside
pub mod Handle
pub mod Arms
pub mod Transaction
use pgcat.Prelude.{ℕ, Bool, Option, List, [], ◌∷◌, ◌++◌}
use pgcat.Prelude.Result.{Result, ok, err, panic}
use pgcat.Errors.{Error}
use pgcat.Wire.Sink.{Sink}
use pgcat.Messages.Parse.{Parse}
use pgcat.Messages.Target.{Close}
use pgcat.Server.Parameters.{Text}
use pgcat.Server.State.{Lru, Server, Outcome, done, failed, panicked, stuck}
use pgcat.Pool.{ConnectionPool}
use pgcat.Pool.Statements.{ParseLru, Statements}

-- src/messages.rs, with `parse`, `bind`, … for `create_new_parse`, `create_new_bind`, …
pub data ExtendedProtocolData : Type 0 where
  parse : List ℕ → Option (Parse × ℕ) → ExtendedProtocolData
  bind : List ℕ → Option Text → ExtendedProtocolData
  describe : List ℕ → Option Text → ExtendedProtocolData
  execute : List ℕ → ExtendedProtocolData
  close : List ℕ → Close → ExtendedProtocolData

pub record Client : Type 0 where
  pub write : Sink
  pub buffer : List ℕ
  pub response_message_queue_buffer : List ℕ
  pub prepared_statements_enabled : Bool
  pub prepared_statements : List (Text × (Parse × ℕ))
  pub extended_protocol_data_buffer : List ExtendedProtocolData

module _ (L : Lru) (P : ParseLru) where
  pub record World : Type 0 where
    pub client : Client
    pub server : Server L.Cache
    pub pool : ConnectionPool
    pub statements : Statements P.Cache

  abbrev pub W : Type 0 → Type 0
  W A = World → Outcome A × World

  abbrev pub after : {A B : Type 0} → Outcome A → World → (A → W B) → Outcome B × World
  after (done a) w f = f a w
  after (failed e) w f = (failed e, w)
  after panicked w f = (panicked, w)
  after stuck w f = (stuck, w)

  abbrev pub next_step : {A B : Type 0} → W A → (A → W B) → W B
  next_step m f w = let r = m w in after r.0 r.1 f

  abbrev pub change : (Client → Client) → W (Unit {0})
  change f w = (done tt, record w { client = f w.client })

  -- A method of the server.
  abbrev pub on_server : {A : Type 0} → (Server L.Cache → Outcome A × Server L.Cache) → W A
  on_server m w = let r = m w.server in (r.0, record w { server = r.1 })

abbrev pub put : List ℕ → Client → Client
put bytes x = record x { buffer = x.buffer ++ bytes }

abbrev pub queue_response : List ℕ → Client → Client
queue_response bytes x = record x {
  response_message_queue_buffer = x.response_message_queue_buffer ++ bytes;
}

abbrev pub push_back : ExtendedProtocolData → Client → Client
push_back d x = record x {
  extended_protocol_data_buffer = x.extended_protocol_data_buffer ++ (d ∷ []);
}

unfoldable pub reset_buffered_state : Client → Client
reset_buffered_state x = record x {
  buffer = [];
  extended_protocol_data_buffer = [];
  response_message_queue_buffer = [];
}
