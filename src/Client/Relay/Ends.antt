-- ===== src/Client/Relay/Ends.antt =====
-- src/client.rs: the actions of a session that send and receive come to an end.
use pgcat.Prelude.{ℕ, List}
use pgcat.Prelude.Result.{Result, ok, err, panic}
use pgcat.Errors.{Error}
use pgcat.Wire.{Codec, IsCodec}
use pgcat.Wire.Sink.{Sink, write_all}
use pgcat.Config.{Address}
use pgcat.Server.Parameters.{Text}
use pgcat.Server.State.{Lru, Outcome, done, failed, panicked, stuck}
use pgcat.Server.Query.{send}
use pgcat.Server.Prepared.Register.{Ends, sent-Ends}
use pgcat.Pool.{ConnectionPool, message_send_failed}
use pgcat.Pool.Bans.{ban}
use pgcat.Pool.Statements.{ParseLru}
use pgcat.Client.Session.{Session, with_server, server_of}
use pgcat.Client.Session.Ends.{following-Ends}
use pgcat.Client.Relay.{
  with_pool, send_result, send_server_message, receive_server_message, response_wrote,
  write_response, send_and_receive_loop,
}
use pgcat.Client.Relay.Receives.{Received, receive_server_message-Received}
use pgcat.Client.Relay.Relays.{Exchanged, send_and_receive_loop-Exchanged}

module _ (L : Lru) (P : ParseLru) (Ast : Type 0) (c : Codec) (w : IsCodec c) (address : Address)
    (now : ℕ) (debug : Error → Text) where
  abbrev S : Type 0
  S = Session L P Ast

  with_pool-Ends :
      (r : Result Error ConnectionPool) (s : S) → Ends (with_pool c L P Ast address now debug r s).0
  with_pool-Ends (ok p) s = tt
  with_pool-Ends (err e) s = tt
  with_pool-Ends panic s = tt

  send_result-Ends :
      (o : Outcome (Unit {0})) (s : S)
      → Ends o
      → Ends (send_result c L P Ast address now debug o s).0
  send_result-Ends (done _) s h = tt
  send_result-Ends (failed e) s h =
      let r =
        with_pool c L P Ast address now debug (ban address message_send_failed now s.world.pool)
          s in
      following-Ends L P Ast r.0 r.1 (λ _ t. (failed e, t)) (with_pool-Ends _ s) (λ a u. tt)
  send_result-Ends panicked s h = tt
  send_result-Ends stuck s h = h

  pub send_server_message-Ends :
      (bytes : List ℕ) (s : S) → Ends (send_server_message c L P Ast address now debug bytes s).0
  unfolding send_server_message send
  send_server_message-Ends bytes s =
      send_result-Ends (send bytes (server_of L P Ast s)).0
        (with_server L P Ast (send bytes (server_of L P Ast s)).1 s) (sent-Ends _ _ _)

  Received-Ends :
      (s : S) (r : Outcome (List ℕ) × S) → Received c w L P Ast address now debug s r → Ends r.0
  Received-Ends s (done bytes, t) h = tt
  Received-Ends s (failed e, t) h = tt
  Received-Ends s (panicked, t) h = tt
  Received-Ends s (stuck, t) h = h

  pub receive_server_message-Ends :
      (s : S) → Ends (receive_server_message c L P Ast address now debug s).0
  receive_server_message-Ends s =
      Received-Ends s _ (receive_server_message-Received c w L P Ast address now debug s)

  response_wrote-Ends :
      (r : Result Error (Unit {0}) × Sink) (s : S)
      → Ends (response_wrote c L P Ast address now debug r s).0
  response_wrote-Ends (ok _, k) s = tt
  response_wrote-Ends (err e, k) s = tt
  response_wrote-Ends (panic, k) s = tt

  pub write_response-Ends :
      (bytes : List ℕ) (s : S) → Ends (write_response c L P Ast address now debug bytes s).0
  unfolding write_response
  write_response-Ends bytes s = response_wrote-Ends (write_all bytes s.world.client.write) s

  Exchanged-Ends :
      (bytes : List ℕ) (s : S) (r : Outcome (Unit {0}) × S)
      → Exchanged c w L P Ast address now debug bytes s r
      → Ends r.0
  Exchanged-Ends bytes s (done _, t) h = tt
  Exchanged-Ends bytes s (failed e, t) h = tt
  Exchanged-Ends bytes s (panicked, t) h = tt
  Exchanged-Ends bytes s (stuck, t) h = h

  pub send_and_receive_loop-Ends :
      (bytes : List ℕ) (s : S) → Ends (send_and_receive_loop c L P Ast address now debug bytes s).0
  send_and_receive_loop-Ends bytes s =
      Exchanged-Ends bytes s _
        (send_and_receive_loop-Exchanged c w L P Ast address now debug bytes s)
