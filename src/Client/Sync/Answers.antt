-- ===== src/Client/Sync/Answers.antt =====
-- src/client.rs: the whole of a Sync up to the sending, when the server already has every statement.
use pgcat.Prelude.{
  ℕ, ◌≡◌, refl, ap, sym, subst, ◌∙◌, Bool, true, false, not, List, [], ◌∷◌, ◌++◌, ◌==◌,
  if◌then◌else◌,
}
use mathlib.Core.List.{append-nil}
use pgcat.Wire.{Codec}
use pgcat.Wire.Sink.{Sink, write_all}
use pgcat.Config.{Address}
use pgcat.Messages.Reply.{ready_for_query}
use pgcat.Server.State.{Lru, Server, Outcome, done}
use pgcat.Pool.Statements.{ParseLru}
use pgcat.Client.{put, queue_response, World, W, next_step, change, after}
use pgcat.Client.Sync.{process_all, sync, answer_if_alone, respond, starts_with_sync}
use pgcat.Client.Sync.Ready.{IsLru, AllReady, forwarded, replies}
use pgcat.Client.Sync.Forwards.{process_all-Forwards}

module _ (c : Codec) (L : Lru) (P : ParseLru) (address : Address) (now : ℕ) where
  -- The client is written these bytes, and what goes to the server stays in the buffer.
  abbrev Written : {A : Type 0} → A → List ℕ → World L P → Outcome A × World L P → Type 0
  Written a bytes v r =
      (r.0 ≡ done a)
      × (r.1.client.write.written ≡ v.client.write.written ++ bytes)
      × (r.1.client.buffer ≡ v.client.buffer)
      × (r.1.server ≡ v.server)

  respond-Written :
      (bytes : List ℕ) (v : World L P)
      → v.client.write.faults ≡ []
      → Written tt bytes v (respond c L P address now bytes v)
  unfolding write_all
  respond-Written [] v e = (refl, sym (append-nil _), refl, refl)
  respond-Written (b ∷ bytes) v e = rw e (refl, refl, refl, refl)

  abbrev ready_if : Bool → Bool → List ℕ
  ready_if in_transaction alone = if alone then ready_for_query c in_transaction else []

  responded-Written :
      (h : ℕ) (t : List ℕ) (v : World L P)
      → v.client.buffer ≡ h ∷ t
      → v.client.write.faults ≡ []
      → Written (not (h == b'S')) v.client.response_message_queue_buffer v (
          next_step L P
            (λ w. respond c L P address now w.client.response_message_queue_buffer w)
            (λ _ w. (done (not (starts_with_sync w.client.buffer)), w))
            v)
  responded-Written h t v e f =
      let (o, x, b, s) = respond-Written v.client.response_message_queue_buffer v f in
      rw o (ap (λ z. done (not (starts_with_sync z))) (b ∙ e), x, b, s)

  abbrev second : Unit {0} → W L P Bool
  second _ =
      next_step L P (λ w. respond c L P address now w.client.response_message_queue_buffer w)
        λ _ w. (done (not (starts_with_sync w.client.buffer)), w)

  abbrev answered : Bool → W L P (Unit {0})
  answered b w =
      if b
      then change L P (queue_response (ready_for_query c w.server.in_transaction)) w
      else (done tt, w)

  flagged-Written :
      (h : ℕ) (t : List ℕ) (v : World L P) (b : Bool)
      → v.client.buffer ≡ h ∷ t
      → v.client.write.faults ≡ []
      → Written
          (not (h == b'S'))
          (v.client.response_message_queue_buffer ++ ready_if v.server.in_transaction b)
          v
          (next_step L P (answered b) second v)
  flagged-Written h t v true e f = responded-Written h t (answered true v).1 e f
  flagged-Written h t v false e f =
      rw (append-nil v.client.response_message_queue_buffer) (responded-Written h t v e f)

  -- What is done once the messages have been handled.
  abbrev conclude : W L P Bool
  conclude = next_step L P (λ w. answer_if_alone c L P address now w.client.buffer w) second

  conclude-Written :
      (h : ℕ) (t : List ℕ) (v : World L P)
      → v.client.buffer ≡ h ∷ t
      → v.client.write.faults ≡ []
      → Written
          (not (h == b'S'))
          (v.client.response_message_queue_buffer ++ ready_if v.server.in_transaction (h == b'S'))
          v
          (conclude v)
  conclude-Written h t v e f =
      subst
        (λ (r : Outcome (Unit {0}) × World L P).
          Written (not (h == b'S'))
            (v.client.response_message_queue_buffer ++ ready_if v.server.in_transaction (h == b'S'))
            v (after L P r.0 r.1 second))
        (sym (ap (λ z. answer_if_alone c L P address now z v) e))
        (flagged-Written h t v (h == b'S') e f)

  module _ (w : IsLru L) where
    -- What a Sync comes to: the bytes for the server, the bytes written to the client, and whether
    -- the former are sent.
    abbrev pub Answers : List ℕ → List ℕ → World L P → Outcome Bool × World L P → Type 0
    Answers sent answers v r =
        let alone = starts_with_sync sent in
        (r.0 ≡ done (not alone))
        × (r.1.client.buffer ≡ sent)
        × (r.1.client.write.written
            ≡ v.client.write.written ++ (answers ++ ready_if v.server.in_transaction alone))
        × (r.1.server
            ≡ record v.server { prepared_statement_cache = r.1.server.prepared_statement_cache })

    outputs :
        (k k' : Sink) (q q' : List ℕ) (x x' alone : Bool)
        → k ≡ k'
        → q ≡ q'
        → x ≡ x'
        → k.written ++ (q ++ ready_if x alone) ≡ k'.written ++ (q' ++ ready_if x' alone)
    outputs k k' q q' x x' alone e e' e'' = cc

    handled-Answers :
        (sent answers : List ℕ) (h : ℕ) (t : List ℕ) (v u : World L P)
        → sent ≡ h ∷ t
        → u.client.buffer ≡ sent
        → u.client.response_message_queue_buffer ≡ answers
        → u.client.write ≡ v.client.write
        → v.client.write.faults ≡ []
        → u.server
          ≡ record v.server { prepared_statement_cache = u.server.prepared_statement_cache }
        → Answers sent answers v (conclude u)
    handled-Answers sent answers h t v u e b q k f s =
        let (o, x, b', s') = conclude-Written h t u (b ∙ e) (ap (λ z. z.faults) k ∙ f) in
        let cache : Server L.Cache → Server L.Cache =
          λ t. record v.server { prepared_statement_cache = t.prepared_statement_cache } in
        rw e (
          o,
          b' ∙ b ∙ e,
          x
              ∙ outputs u.client.write v.client.write _ _ u.server.in_transaction
                  v.server.in_transaction (h == b'S') k q (ap (λ z. z.in_transaction) s),
          s' ∙ s ∙ ap cache (sym s'),
        )

    -- When the server has every statement of the batch, a Sync leaves in the buffer for the server
    -- exactly the messages that it has to see and the Sync, and writes to the client one
    -- ParseComplete or CloseComplete for each of the others. If only the Sync is left, it is not
    -- sent and the client is told that the server is ready, in a transaction or not. Nothing is sent
    -- to the server meanwhile. The buffer starts empty and the writes to the client succeed.
    pub sync-Answers :
        (message : List ℕ) (h : ℕ) (t : List ℕ) (v : World L P)
        → v.client.buffer ≡ []
        → v.client.write.faults ≡ []
        → let ds = v.client.extended_protocol_data_buffer in
          let enabled = v.client.prepared_statements_enabled in
          AllReady L v.server.prepared_statement_cache enabled v.client.prepared_statements ds
          → forwarded enabled ds ++ message ≡ h ∷ t
          → Answers
              (forwarded enabled ds ++ message)
              (v.client.response_message_queue_buffer ++ replies c enabled ds)
              v
              (sync c L P address now message v)
    unfolding sync
    sync-Answers message h t v empty f ready e =
        let enabled = v.client.prepared_statements_enabled in
        let ds = v.client.extended_protocol_data_buffer in
        let (o, (b, q, _, _, k), p, s) =
          process_all-Forwards c L w P address now ds enabled v.client.prepared_statements v refl
            refl ready in
        rw o (
          handled-Answers (forwarded enabled ds ++ message)
            (v.client.response_message_queue_buffer ++ replies c enabled ds) h t v
            (change L P (put message) (process_all c L P address now ds v).1).1 e
            (ap (λ z. z ++ message) (b ∙ ap (λ z. z ++ forwarded enabled ds) empty)) q k f s)
