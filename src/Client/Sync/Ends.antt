-- ===== src/Client/Sync/Ends.antt =====
-- src/client.rs: the handling of a Sync comes to an end, and what it leaves behind.
use pgcat.Prelude.{ℕ, ◌≡◌, refl, Bool, true, false, not, List, [], ◌∷◌, ◌==◌, if◌then◌else◌}
use pgcat.Prelude.Dict.{text_Eq}
use pgcat.Prelude.Result.{Result, ok, err, panic}
use pgcat.Errors.{Error}
use pgcat.Wire.{Codec, IsCodec}
use pgcat.Wire.Sink.{Sink}
use pgcat.Config.{Address}
use pgcat.Messages.Reply.{ready_for_query}
use pgcat.Server.State.{Lru, Outcome, done, failed, panicked, stuck}
use pgcat.Pool.Statements.{ParseLru}
use pgcat.Client.{ExtendedProtocolData, put, queue_response, World, W, after, next_step, change}
use pgcat.Client.Sync.{
  process, keep_rest, process_all, responded, respond, answer_if_alone, starts_with_sync, sync,
}
use pgcat.Client.Sync.Keeps.{Keeps, process-Keeps}

module _ (c : Codec) (w : IsCodec c) (L : Lru) (P : ParseLru) (address : Address) (now : ℕ) where
  -- When all has been handled, nothing is left to handle.
  abbrev Settles : Outcome (Unit {0}) × World L P → Type 0
  Settles (done _, v) = v.client.extended_protocol_data_buffer ≡ []
  Settles (failed e, v) = Unit {0}
  Settles (panicked, v) = Unit {0}
  Settles (stuck, v) = ⊥

  after-Settles :
      (ds : List ExtendedProtocolData) (r : Outcome (Unit {0}) × World L P)
      (f : Unit {0} → W L P (Unit {0}))
      → Keeps c w L P address now ds r
      → ((v : World L P) → v.client.extended_protocol_data_buffer ≡ ds → Settles (f tt v))
      → Settles (after L P r.0 r.1 f)
  after-Settles ds (done a, v) f h k = k v h
  after-Settles ds (failed e, v) f h k = tt
  after-Settles ds (panicked, v) f h k = tt
  after-Settles ds (stuck, v) f h k = h

  process_all-Settles :
      (ds : List ExtendedProtocolData) (v : World L P)
      → v.client.extended_protocol_data_buffer ≡ ds
      → Settles (process_all c L P address now ds v)
  unfolding process_all
  process_all-Settles [] v k = k
  process_all-Settles (d ∷ ds) v k =
      after-Settles ds (process c L P address now d (keep_rest c L P address now ds v).1)
        (λ _. process_all c L P address now ds) (process-Keeps c w L P address now ds d _ refl)
        (process_all-Settles ds)

  -- What a Sync that succeeds leaves: nothing to handle and nothing to answer.
  abbrev pub Ends : Outcome Bool × World L P → Type 0
  Ends (done _, v) =
      (v.client.extended_protocol_data_buffer ≡ []) × (v.client.response_message_queue_buffer ≡ [])
  Ends (failed e, v) = Unit {0}
  Ends (panicked, v) = Unit {0}
  Ends (stuck, v) = ⊥

  after-Ends :
      (r : Outcome (Unit {0}) × World L P) (f : Unit {0} → W L P Bool)
      → Settles r
      → ((v : World L P) → v.client.extended_protocol_data_buffer ≡ [] → Ends (f tt v))
      → Ends (after L P r.0 r.1 f)
  after-Ends (done a, v) f h k = k v h
  after-Ends (failed e, v) f h k = tt
  after-Ends (panicked, v) f h k = tt
  after-Ends (stuck, v) f h k = h

  answer-Settles :
      (bytes : List ℕ) (v : World L P)
      → v.client.extended_protocol_data_buffer ≡ []
      → Settles (answer_if_alone c L P address now bytes v)
  answer-Settles [] v k = tt
  answer-Settles (b ∷ bytes) v k = if_settled (b == b'S')
    where
      if_settled :
          (x : Bool)
          → Settles (
              if x
              then change L P (queue_response (ready_for_query c v.server.in_transaction)) v
              else (done tt, v))
      if_settled true = k
      if_settled false = k

  concluded :
      (v : World L P) (r : Result Error (Unit {0}) × Sink)
      → v.client.extended_protocol_data_buffer ≡ []
      → Ends (
          next_step L P
            (responded c L P address now r)
            (λ _ u. (done (not (starts_with_sync u.client.buffer)), u))
            v)
  concluded v (ok _, sink) k = (k, refl)
  concluded v (err e, sink) k = tt
  concluded v (panic, sink) k = tt

  respond-Ends :
      (bytes : List ℕ) (v : World L P)
      → v.client.extended_protocol_data_buffer ≡ []
      → v.client.response_message_queue_buffer ≡ bytes
      → Ends (
          next_step L P
            (respond c L P address now bytes)
            (λ _ u. (done (not (starts_with_sync u.client.buffer)), u))
            v)
  respond-Ends [] v k e = (k, e)
  respond-Ends (b ∷ bytes) v k e = concluded v _ k

  -- The handling of the batch that a Sync closes, up to its sending to the server, ends on whatever
  -- the server sends while statements are registered, and one that succeeds leaves no message to be
  -- handled and no answer to be written.
  pub sync-Ends : (message : List ℕ) (v : World L P) → Ends (sync c L P address now message v)
  unfolding sync
  sync-Ends message v =
      after-Ends (process_all c L P address now v.client.extended_protocol_data_buffer v) _
        (process_all-Settles _ v refl)
        λ u k.
          let u' = (change L P (put message) u).1 in
          after-Ends (answer_if_alone c L P address now u'.client.buffer u') _
            (answer-Settles u'.client.buffer u' k)
            λ t e. respond-Ends t.client.response_message_queue_buffer t e refl
