-- ===== src/Client/Cancel.antt =====
-- src/server.rs and src/client.rs: the map from clients to the servers that they hold, by which a request
-- to cancel finds its server. A client is its process id and its secret key.
use pgcat.Prelude.{ℕ, ◌≡◌, Bool, true, ◌&&◌, Option, none, some, List, ◌++◌, ◌==◌, arith}
use pgcat.Prelude.Result.{Result, ok, err}
use pgcat.Prelude.Dict.{Eq, lookup, insert, remove}
use pgcat.Errors.{Error, socket_error}
use pgcat.Config.{Address, host_of, port_of}
use pgcat.Wire.{Codec}
use pgcat.Wire.Sink.{Sink, write_all}
use pgcat.Server.Parameters.{Text}
use pgcat.Server.State.{Server}

abbrev pub ClientKey : Type 0
ClientKey = ℕ × ℕ

abbrev pub same_client : ClientKey → ClientKey → Bool
same_client (p, k) (q, l) = (p == q) && (k == l)

pub same_client_sound : (a b : ClientKey) → same_client a b ≡ true → a ≡ b
same_client_sound (p, k) (q, l) h = ground arith

pub same_client_self : (a : ClientKey) → same_client a a ≡ true
same_client_self (p, k) = ground arith

instance abbrev pub client_Eq : Eq ClientKey
client_Eq = record { beq = same_client; sound = same_client_sound; self = same_client_self }

-- What a request to cancel needs of a server.
pub record Target : Type 0 where
  pub process_id : ℕ
  pub secret_key : ℕ
  pub host : Text
  pub port : ℕ

abbrev pub ClientServerMap : Type 0
ClientServerMap = List (ClientKey × Target)

unfoldable pub claim :
    {C : Type 0} → ClientKey → Address → Server C → ClientServerMap → ClientServerMap
claim client a server = insert client (record {
  process_id = server.process_id;
  secret_key = server.secret_key;
  host = host_of a;
  port = port_of a;
})

unfoldable pub release : ClientKey → ClientServerMap → ClientServerMap
release client = remove client

-- The 16 bytes of a CancelRequest.
unfoldable pub cancel_request : Codec → Target → List ℕ
cancel_request c t =
    c.put_i32 16 ++ (c.put_i32 80877102 ++ (c.put_i32 t.process_id ++ c.put_i32 t.secret_key))

-- `Server::cancel`, given the new connection to the server, if there is one.
unfoldable pub server_cancel : Codec → Target → Option Sink → Result Error (Unit {0}) × Option Sink
server_cancel c t none = (err socket_error, none)
server_cancel c t (some sink) = let r = write_all (cancel_request c t) sink in (r.0, some r.1)

-- A client in cancel mode: a server that it does not hold is not looked for.
abbrev pub cancel_found :
    Codec → Option Target → (Target → Option Sink) → Result Error (Unit {0}) × Option Sink
cancel_found c none connect = (ok tt, none)
cancel_found c (some t) connect = server_cancel c t (connect t)

unfoldable pub handle_cancel :
    Codec
    → ClientKey
    → ClientServerMap
    → (Target → Option Sink)
    → Result Error (Unit {0}) × Option Sink
handle_cancel c client map connect = cancel_found c (lookup client map) connect
