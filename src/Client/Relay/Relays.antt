-- ===== src/Client/Relay/Relays.antt =====
-- src/client.rs: what is sent to the server, and what the client gets of the reply.
use pgcat.Prelude.{
  ℕ, zero, suc, ◌<◌, ◌≡◌, refl, ap, ◌∙◌, Bool, true, false, List, [], ◌++◌, length, arith,
  if◌then◌else◌,
}
use pgcat.Prelude.Result.{Result, ok, err, panic}
use pgcat.Errors.{Error}
use pgcat.Wire.{Codec, IsCodec}
use pgcat.Wire.Sink.{Sink}
use pgcat.Wire.Sink.Writes.{Written, write_all-Written}
use pgcat.Config.{Address}
use pgcat.Server.Parameters.{Text}
use pgcat.Server.State.{Lru, Server, Outcome, done, failed, panicked, stuck}
use pgcat.Server.Query.{send, sent}
use pgcat.Pool.{ConnectionPool, message_send_failed}
use pgcat.Pool.Bans.{ban}
use pgcat.Pool.Statements.{ParseLru}
use pgcat.Client.Session.{Session, Act, following, bind_act, with_server}
use pgcat.Client.Relay.Receives.{Received, receive_server_message-Received}
use pgcat.Client.Relay.{
  with_pool, send_result, send_server_message, response_wrote, write_response, more_data, relay,
  send_and_receive_loop,
}
use mathlib.Core.List.{append_assoc}

module _ (c : Codec) (w : IsCodec c) (L : Lru) (P : ParseLru) (Ast : Type 0) (address : Address)
    (now : ℕ) (debug : Error → Text) where
  abbrev S : Type 0
  S = Session L P Ast

  abbrev conn : S → Server L.Cache
  conn s = s.world.server

  abbrev written_of : S → List ℕ
  written_of s = s.world.client.write.written

  -- What is promised of a relay.
  abbrev pub Relayed : S → Outcome (Unit {0}) × S → Type 0
  Relayed s (done _, t) =
      ((reply : List ℕ) × (reply ++ (conn t).inbox ≡ (conn s).buffer ++ (conn s).inbox)
        × (written_of t ≡ written_of s ++ reply))
      × ((conn t).data_available ≡ false)
      × ((conn t).buffer ≡ [])
      × ((conn t).sink ≡ (conn s).sink)
  Relayed s (failed e, t) = Unit
  Relayed s (panicked, t) = Unit
  Relayed s (stuck, t) = ⊥

  -- What is promised of the writing of a response.
  abbrev Wrote : List ℕ → S → Outcome (Unit {0}) × S → Type 0
  Wrote bytes s (done _, t) = (written_of t ≡ written_of s ++ bytes) × (conn t ≡ conn s)
  Wrote bytes s (failed e, t) = Unit
  Wrote bytes s (panicked, t) = Unit
  Wrote bytes s (stuck, t) = ⊥

  response_wrote-Wrote :
      (bytes : List ℕ) (s : S) (r : Result Error (Unit {0})) (k : Sink)
      → Written bytes s.world.client.write r k
      → Wrote bytes s (response_wrote c L P Ast address now debug (r, k) s)
  response_wrote-Wrote bytes s (ok _) k h = (h, refl)
  response_wrote-Wrote bytes s (err e) k h = tt
  response_wrote-Wrote bytes s panic k h = tt

  write_response-Wrote :
      (bytes : List ℕ) (s : S) → Wrote bytes s (write_response c L P Ast address now debug bytes s)
  unfolding write_response
  write_response-Wrote bytes s =
      response_wrote-Wrote bytes s _ _ (write_all-Written bytes s.world.client.write)

  -- One round: what was received, written, and relayed after it.
  round-Relayed :
      (s t u : S) (bytes : List ℕ) (r : Outcome (Unit {0}) × S)
      → Received c w L P Ast address now debug s (done bytes, t)
      → Wrote bytes t (done tt, u)
      → Relayed u r
      → Relayed s r
  round-Relayed s t u bytes (done _, v) (same, empty, less, sink, client) (wrote_it, unchanged)
        ((reply, split, told), quiet, clear, kept) =
      (
        (
          bytes ++ reply,
          append_assoc bytes reply (conn v).inbox
              ∙ ap (λ xs. bytes ++ xs) (split ∙ rw (unchanged, empty) refl)
              ∙ same,
          told
              ∙ ap (λ xs. xs ++ reply) (wrote_it ∙ rw client refl)
              ∙ append_assoc (written_of s) bytes reply,
        ),
        quiet,
        clear,
        kept ∙ rw unchanged sink,
      )
  round-Relayed s t u bytes (failed e, v) h h' h'' = tt
  round-Relayed s t u bytes (panicked, v) h h' h'' = tt
  round-Relayed s t u bytes (stuck, v) h h' h'' = h''

  abbrev again : Act L P Ast (Unit {0}) → Act L P Ast (Unit {0})
  again m = more_data c L P Ast address now debug m

  -- The loop goes on while data is available.
  more_data-Relayed :
      (available : Bool) (s t u : S) (bytes : List ℕ) (m : Act L P Ast (Unit {0}))
      → (conn u).data_available ≡ available
      → Received c w L P Ast address now debug s (done bytes, t)
      → Wrote bytes t (done tt, u)
      → (length (conn u).inbox < length (conn s).inbox → Relayed u (m u))
      → Relayed s (if available then m u else (done tt, u))
  more_data-Relayed true s t u bytes m e (same, empty, less, sink, client) (told, unchanged) h =
      round-Relayed s t u bytes (m u) (same, empty, less, sink, client) (told, unchanged)
        (h (rw unchanged less))
  more_data-Relayed false s t u bytes m e (same, empty, less, sink, client) (told, unchanged) h =
      ((bytes, rw unchanged same, told ∙ rw client refl), e, rw unchanged empty, rw unchanged sink)

  after_write-Relayed :
      (s t : S) (bytes : List ℕ) (m : Act L P Ast (Unit {0})) (q : Outcome (Unit {0}) × S)
      → Received c w L P Ast address now debug s (done bytes, t)
      → Wrote bytes t q
      → ((u : S) → length (conn u).inbox < length (conn s).inbox → Relayed u (m u))
      → Relayed s (following L P Ast q.0 q.1 (λ _. again m))
  after_write-Relayed s t bytes m (done _, u) h h' ih =
      more_data-Relayed _ s t u bytes m refl h h' (ih u)
  after_write-Relayed s t bytes m (failed e, u) h h' ih = tt
  after_write-Relayed s t bytes m (panicked, u) h h' ih = tt
  after_write-Relayed s t bytes m (stuck, u) h h' ih = h'

  after_receive-Relayed :
      (s : S) (m : Act L P Ast (Unit {0})) (r : Outcome (List ℕ) × S)
      → Received c w L P Ast address now debug s r
      → ((u : S) → length (conn u).inbox < length (conn s).inbox → Relayed u (m u))
      → Relayed s (
          following L P Ast r.0 r.1 (λ bytes.
            bind_act L P Ast (write_response c L P Ast address now debug bytes) (λ _. again m)))
  after_receive-Relayed s m (done bytes, t) h ih =
      after_write-Relayed s t bytes m _ h (write_response-Wrote bytes t) ih
  after_receive-Relayed s m (failed e, t) h ih = tt
  after_receive-Relayed s m (panicked, t) h ih = tt
  after_receive-Relayed s m (stuck, t) h ih = h

  relay-Relayed :
      (fuel : ℕ) (s : S)
      → length (conn s).inbox < fuel
      → Relayed s (relay c L P Ast address now debug fuel s)
  unfolding relay
  relay-Relayed zero s h = absurd (omega arith)
  relay-Relayed (suc fuel) s h =
      after_receive-Relayed s (relay c L P Ast address now debug fuel) _
        (receive_server_message-Received c w L P Ast address now debug s)
        (λ u less. relay-Relayed fuel u (omega (arith, less, h)))

  -- What is promised of a message that is sent with its reply relayed.
  abbrev pub Exchanged : List ℕ → S → Outcome (Unit {0}) × S → Type 0
  Exchanged message s (done _, t) =
      ((conn t).sink.written ≡ (conn s).sink.written ++ message)
      × ((reply : List ℕ) × (reply ++ (conn t).inbox ≡ (conn s).buffer ++ (conn s).inbox)
          × (written_of t ≡ written_of s ++ reply))
      × ((conn t).data_available ≡ false)
      × ((conn t).buffer ≡ [])
  Exchanged message s (failed e, t) = Unit
  Exchanged message s (panicked, t) = Unit
  Exchanged message s (stuck, t) = ⊥

  Relayed-Exchanged :
      (message : List ℕ) (s t : S) (r : Outcome (Unit {0}) × S)
      → (conn t).sink.written ≡ (conn s).sink.written ++ message
      → (conn t).inbox ≡ (conn s).inbox
      → (conn t).buffer ≡ (conn s).buffer
      → written_of t ≡ written_of s
      → Relayed t r
      → Exchanged message s r
  Relayed-Exchanged message s t (done _, u) sent_it inbox buffer told
        ((reply, split, written), quiet, clear, sink) =
      (
        ap (λ (k : Sink). k.written) sink ∙ sent_it,
        (reply, split ∙ rw (inbox, buffer) refl, written ∙ rw told refl),
        quiet,
        clear,
      )
  Relayed-Exchanged message s t (failed e, u) a b d f h = tt
  Relayed-Exchanged message s t (panicked, u) a b d f h = tt
  Relayed-Exchanged message s t (stuck, u) a b d f h = h

  abbrev relay_all : Unit {0} → Act L P Ast (Unit {0})
  relay_all _ t = relay c L P Ast address now debug (suc (length (conn t).inbox)) t

  send_refused :
      (message : List ℕ) (s t : S) (e : Error) (pool : Result Error ConnectionPool)
      → let r = with_pool c L P Ast address now debug pool t in
        let q = following L P Ast {B = Unit {0}} r.0 r.1 (λ _ u. (failed e, u)) in
        Exchanged message s (following L P Ast q.0 q.1 relay_all)
  send_refused message s t e (ok p) = tt
  send_refused message s t e (err x) = tt
  send_refused message s t e panic = tt

  sent-Exchanged :
      (message : List ℕ) (s : S) (r : Result Error (Unit {0})) (k : Sink)
      → Written message (conn s).sink r k
      → let o = sent r k (conn s) in
        let q = send_result c L P Ast address now debug o.0 (with_server L P Ast o.1 s) in
        Exchanged message s (following L P Ast q.0 q.1 relay_all)
  sent-Exchanged message s (ok _) k h =
      let t = with_server L P Ast (record (conn s) { sink = k }) s in
      Relayed-Exchanged message s t (relay_all tt t) h refl refl refl
        (relay-Relayed _ t (omega arith))
  sent-Exchanged message s (err e) k h =
      let t = with_server L P Ast (record (conn s) { sink = k; bad = true }) s in
      send_refused message s t e (ban address message_send_failed now t.world.pool)
  sent-Exchanged message s panic k h = tt

  -- The sending of a message with the loop over its reply ends on whatever the server sends. When it
  -- succeeds, the server has been sent exactly the message, the client has been sent exactly what
  -- was buffered of the server and what the server sent up to a point, in that order, no data is
  -- available and nothing is buffered.
  pub send_and_receive_loop-Exchanged :
      (message : List ℕ) (s : S)
      → Exchanged message s (send_and_receive_loop c L P Ast address now debug message s)
  unfolding send_and_receive_loop send_server_message send
  send_and_receive_loop-Exchanged message s =
      sent-Exchanged message s _ _ (write_all-Written message (conn s).sink)
