-- ===== src/Client/Relay/Receives.antt =====
-- src/client.rs: what is received of the server, and what becomes of errors.
use pgcat.Prelude.{
  ℕ, ◌<◌, ◌≡◌, refl, Bool, true, false, Option, none, some, List, [], ◌∷◌, ◌++◌, length,
}
use pgcat.Prelude.Result.{Result, ok, err, panic}
use pgcat.Errors.{Error, statement_timeout}
use pgcat.Wire.{Codec, IsCodec}
use pgcat.Wire.Sink.{Sink}
use pgcat.Config.{Address}
use pgcat.Server.Parameters.{Text, ServerParameters}
use pgcat.Server.State.{Lru, Server, Outcome, done, failed, panicked, stuck}
use pgcat.Server.Recv.{recv}
use pgcat.Server.Recv.Forward.{Forwards, recv-Forwards}
use pgcat.Pool
use pgcat.Pool.{ConnectionPool, message_receive_failed, message_send_failed}
use pgcat.Pool.Bans.{ban}
use pgcat.Pool.Statements.{ParseLru}
use pgcat.Client.Session.{Session, following, bind_act, with_server, to_client, wrote}
use pgcat.Client.Relay.{
  with_pool, keep_parameters, receive_result, receive_timed, receive_server_message,
}

module _ (c : Codec) (w : IsCodec c) (L : Lru) (P : ParseLru) (Ast : Type 0) (address : Address)
    (now : ℕ) (debug : Error → Text) where
  abbrev S : Type 0
  S = Session L P Ast

  abbrev pub written_of : S → List ℕ
  written_of s = s.world.client.write.written

  -- An outcome that is an error or a panic.
  abbrev Fails : {A : Type 0} → Outcome A × S → Type 0
  Fails (done _, s) = ⊥
  Fails (failed e, s) = Unit
  Fails (panicked, s) = Unit
  Fails (stuck, s) = ⊥

  -- A ban, a last message to the client, and an error.
  told-Fails :
      (r : Result Error (Unit {0}) × Sink) (x : Error) (s : S)
      → Fails {A = List ℕ}
          (following L P Ast (wrote L P Ast r s).0 (wrote L P Ast r s).1 (λ _ t. (failed x, t)))
  told-Fails (ok _, k) x s = tt
  told-Fails (err e, k) x s = tt
  told-Fails (panic, k) x s = tt

  refused-Fails :
      (pool : Result Error ConnectionPool) (tell : Sink → Result Error (Unit {0}) × Sink)
      (x : Error) (s : S)
      → let r = with_pool c L P Ast address now debug pool s in
        Fails {A = List ℕ} (
          following L P Ast r.0 r.1
            (λ _. bind_act L P Ast (to_client L P Ast tell) (λ _ t. (failed x, t))))
  refused-Fails (ok p) tell x s = told-Fails (tell s.world.client.write) x _
  refused-Fails (err e) tell x s = tt
  refused-Fails panic tell x s = tt

  abbrev pub Conn : Type 0
  Conn = Server L.Cache

  abbrev pub conn : S → Conn
  conn s = s.world.server

  -- What is promised of one receive.
  abbrev pub Received : S → Outcome (List ℕ) × S → Type 0
  Received s (done bytes, t) =
      (bytes ++ (conn t).inbox ≡ (conn s).buffer ++ (conn s).inbox)
      × ((conn t).buffer ≡ [])
      × (length (conn t).inbox < length (conn s).inbox)
      × ((conn t).sink ≡ (conn s).sink)
      × (t.world.client ≡ s.world.client)
  Received s (failed e, t) = Unit
  Received s (panicked, t) = Unit
  Received s (stuck, t) = ⊥

  Fails-Received : (s : S) (r : Outcome (List ℕ) × S) → Fails r → Received s r
  Fails-Received s (done _, t) h = elim h [ ]
  Fails-Received s (failed e, t) h = tt
  Fails-Received s (panicked, t) h = tt
  Fails-Received s (stuck, t) h = h

  -- The connection and the client of a state that has received.
  receive_result-Received :
      (s t : S) (o : Outcome (List ℕ))
      → Forwards (conn s) o (conn t)
      → t.world.client ≡ s.world.client
      → Received s (receive_result c L P Ast address now debug o t)
  receive_result-Received s t (done bytes) (same, empty, less, sink, _) e =
      (same, empty, less, sink, e)
  receive_result-Received s t (failed x) h e =
      Fails-Received s _ (refused-Fails (ban address message_receive_failed now t.world.pool) _ x t)
  receive_result-Received s t panicked h e = tt
  receive_result-Received s t stuck h e = h

  keep_parameters-Forwards :
      (s t : S) (o : Outcome (List ℕ)) (p : Option ServerParameters)
      → Forwards (conn s) o (conn t)
      → t.world.client ≡ s.world.client
      → Received s (
          receive_result c L P Ast address now debug o
            (keep_parameters c L P Ast address now debug p t))
  keep_parameters-Forwards s t o none h e = receive_result-Received s t o h e
  keep_parameters-Forwards s t o (some p) h e = receive_result-Received s _ o h e

  receive_timed-Received :
      (ts : List Bool) (s : S) → Received s (receive_timed c L P Ast address now debug ts s)
  receive_timed-Received [] s =
      let r = recv c L (conn s) (some s.server_parameters) in
      keep_parameters-Forwards s (with_server L P Ast r.1 s) r.0 r.2
        (recv-Forwards c w L (conn s) _) refl
  receive_timed-Received (false ∷ rest) s =
      let r = recv c L (conn s) (some s.server_parameters) in
      keep_parameters-Forwards s (with_server L P Ast r.1 (record s { timeouts = rest })) r.0 r.2
        (recv-Forwards c w L (conn s) _) refl
  receive_timed-Received (true ∷ rest) s =
      Fails-Received s _
        (refused-Fails (ban address Pool.statement_timeout now s.world.pool) _ statement_timeout _)

  pub receive_server_message-Received :
      (s : S) → Received s (receive_server_message c L P Ast address now debug s)
  unfolding receive_server_message
  receive_server_message-Received s = receive_timed-Received s.timeouts s
