-- ===== src/Client/Relay.antt =====
-- src/client.rs: a message goes to the server and its reply to the client.
pub mod Receives
pub mod Relays
pub mod Ends
use pgcat.Prelude.{
  ℕ, zero, suc, Bool, true, false, Option, none, some, List, [], ◌∷◌, ◌++◌, length, codes,
  if◌then◌else◌,
}
use pgcat.Prelude.Result.{Result, ok, err, panic}
use pgcat.Errors.{Error, statement_timeout}
use pgcat.Wire.{Codec}
use pgcat.Wire.Sink.{Sink, write_all}
use pgcat.Config.{Address}
use pgcat.Messages.Reply.{error_response_terminal}
use pgcat.Server.Parameters.{Text, ServerParameters}
use pgcat.Server.State.{Lru, Server, Outcome, done, failed, panicked, stuck}
use pgcat.Server.Query.{send, mark_bad}
use pgcat.Server.Recv.{recv}
use pgcat.Pool
use pgcat.Pool.{ConnectionPool, BanReason, message_send_failed, message_receive_failed}
use pgcat.Pool.Bans.{ban}
use pgcat.Pool.Statements.{ParseLru}
use pgcat.Client.{Client, World}
use pgcat.Client.Session.{
  Session, Act, following, bind_act, server_of, with_server, with_world, on_server, to_client,
  wrote,
}

-- `debug` is how the texts for the client show an error.
module _ (c : Codec) (L : Lru) (P : ParseLru) (Ast : Type 0) (address : Address) (now : ℕ)
    (debug : Error → Text) where
  infixl 5 ◌>>=◌ ◌>>◌
  abbrev pub ◌>>=◌ : {A B : Type 0} → Act L P Ast A → (A → Act L P Ast B) → Act L P Ast B
  m >>= f = bind_act L P Ast m f

  abbrev pub ◌>>◌ : {B : Type 0} → Act L P Ast (Unit {0}) → Act L P Ast B → Act L P Ast B
  m >> k = bind_act L P Ast m λ _. k

  abbrev pub fail : {A : Type 0} → Error → Act L P Ast A
  fail e s = (failed e, s)

  abbrev pub with_pool :
      Result Error ConnectionPool → Session L P Ast → Outcome (Unit {0}) × Session L P Ast
  with_pool (ok pool) s = (done tt, with_world L P Ast (record s.world { pool = pool }) s)
  with_pool _ s = (panicked, s)

  abbrev pub ban_address : BanReason → Act L P Ast (Unit {0})
  ban_address reason s = with_pool (ban address reason now s.world.pool) s

  abbrev pub send_result : Outcome (Unit {0}) → Act L P Ast (Unit {0})
  send_result (failed e) = do ban_address message_send_failed; fail e
  send_result o = λ s. (o, s)

  unfoldable pub send_server_message : List ℕ → Act L P Ast (Unit {0})
  send_server_message bytes s = let r = on_server L P Ast (send bytes) s in send_result r.0 r.1

  -- `recv(Some(&mut self.server_parameters))`
  abbrev pub keep_parameters : Option ServerParameters → Session L P Ast → Session L P Ast
  keep_parameters none s = s
  keep_parameters (some p) s = record s { server_parameters = p }

  abbrev pub recv_for_client : Act L P Ast (List ℕ)
  recv_for_client s =
      let (o, server, p) = recv c L (server_of L P Ast s) (some s.server_parameters) in
      (o, keep_parameters p (with_server L P Ast server s))

  abbrev pub receive_result : Outcome (List ℕ) → Act L P Ast (List ℕ)
  receive_result (failed e) = do
    ban_address message_receive_failed
    to_client L P Ast
        (error_response_terminal c (codes "error receiving data from server: " ++ debug e))
    fail e
  receive_result o = λ s. (o, s)

  -- A receive that is cut off leaves a connection that is not used again, so what it had read by then is
  -- left out.
  abbrev pub timed_out : Act L P Ast (List ℕ)
  timed_out = do
    λ s. (done tt, with_server L P Ast (mark_bad (server_of L P Ast s)) s)
    ban_address Pool.statement_timeout
    to_client L P Ast (error_response_terminal c (codes "pool statement timeout"))
    fail statement_timeout

  abbrev pub receive_timed : List Bool → Act L P Ast (List ℕ)
  receive_timed [] s = let r = recv_for_client s in receive_result r.0 r.1
  receive_timed (false ∷ rest) s =
      let r = recv_for_client (record s { timeouts = rest }) in receive_result r.0 r.1
  receive_timed (true ∷ rest) s = timed_out (record s { timeouts = rest })

  unfoldable pub receive_server_message : Act L P Ast (List ℕ)
  receive_server_message s = receive_timed s.timeouts s

  -- `write_all_flush` of a response; if it fails, the server is not used again.
  abbrev pub response_wrote : Result Error (Unit {0}) × Sink → Act L P Ast (Unit {0})
  response_wrote (err e, sink) s =
      wrote L P Ast (err e, sink) (with_server L P Ast (mark_bad (server_of L P Ast s)) s)
  response_wrote r s = wrote L P Ast r s

  unfoldable pub write_response : List ℕ → Act L P Ast (Unit {0})
  write_response bytes s = response_wrote (write_all bytes s.world.client.write) s

  -- `if !server.is_data_available() { break; }`
  abbrev pub more_data : Act L P Ast (Unit {0}) → Act L P Ast (Unit {0})
  more_data again s =
      let more = again s in if (server_of L P Ast s).data_available then more else (done tt, s)

  unfoldable pub relay : ℕ → Act L P Ast (Unit {0})
  unfolding receive_server_message write_response
  relay zero = λ s. (stuck, s)
  relay (suc fuel) = do
    response ← receive_server_message
    write_response response
    more_data (relay fuel)

  -- Each round reads a message, so there are fewer rounds than bytes to read.
  unfoldable pub send_and_receive_loop : List ℕ → Act L P Ast (Unit {0})
  unfolding send_server_message relay
  send_and_receive_loop bytes = do
    send_server_message bytes
    λ s. relay (suc (length (server_of L P Ast s).inbox)) s
