-- ===== src/Server/Query/Sent.antt =====
-- src/server.rs: what a query does to the connection.
use pgcat.Prelude.{
  ℕ, zero, suc, ◌<◌, ◌≡◌, refl, ap, ◌∙◌, inl, inr, false, none, List, [], ◌++◌, length, arith,
  Bool-cases,
}
use pgcat.Prelude.Result.{Result, ok, err, panic}
use pgcat.Errors.{Error}
use pgcat.Wire.{Codec, IsCodec}
use pgcat.Wire.Sink.{Sink}
use pgcat.Messages.Reply.{simple_query}
use pgcat.Server.Parameters.{Text}
use pgcat.Server.State.{Lru, Server, Outcome, done, failed, panicked, stuck, after}
use pgcat.Server.Recv.Forward.{Forwards, recv-Forwards}
use pgcat.Wire.Sink.Writes.{Written, write_all-Written}
use pgcat.Server.Query.{send, sent, recv_plain, again, recv_all, query}

-- What is promised of each outcome of the loop that reads the reply.
abbrev pub Drained : {C : Type 0} → Server C → Outcome (Unit {0}) → Server C → Type 0
Drained s (done _) t =
    (t.data_available ≡ false)
    × (t.buffer ≡ [])
    × (t.sink ≡ s.sink)
    × (t.cleanup_connections ≡ s.cleanup_connections)
Drained s (failed e) t = (t.sink ≡ s.sink) × (t.cleanup_connections ≡ s.cleanup_connections)
Drained s panicked t = Unit
Drained s stuck t = ⊥

Drained-after :
    {C : Type 0} (s t u : Server C) (o : Outcome (Unit {0}))
    → t.sink ≡ s.sink
    → t.cleanup_connections ≡ s.cleanup_connections
    → Drained t o u
    → Drained s o u
Drained-after s t u (done _) e e' (quiet, empty, sink, cleanup) =
    (quiet, empty, sink ∙ e, cleanup ∙ e')
Drained-after s t u (failed x) e e' (sink, cleanup) = (sink ∙ e, cleanup ∙ e')
Drained-after s t u panicked e e' h = tt
Drained-after s t u stuck e e' h = h

module _ (c : Codec) (w : IsCodec c) (L : Lru) where
  again-Drained :
      (s t : Server L.Cache) (o : Outcome (List ℕ)) (more : Outcome (Unit {0}) × Server L.Cache)
      → Forwards s o t
      → (length t.inbox < length s.inbox → Drained t more.0 more.1)
      → Drained s (again c L o t more).0 (again c L o t more).1
  again-Drained s t (done bytes) more (same, empty, less, sink, cleanup) h =
      elim (Bool-cases t.data_available) [
        | inl available ↦ rw available (Drained-after s t more.1 more.0 sink cleanup (h less))
        | inr over ↦ rw over (refl, empty, sink, cleanup)
      ]
  again-Drained s t (failed e) more (sink, cleanup, less) h = (sink, cleanup)
  again-Drained s t panicked more f h = tt
  again-Drained s t stuck more f h = f

  pub recv_all-Drained :
      (fuel : ℕ) (s : Server L.Cache)
      → length s.inbox < fuel
      → Drained s (recv_all c L fuel s).0 (recv_all c L fuel s).1
  unfolding recv_all
  recv_all-Drained zero s h = absurd (omega arith)
  recv_all-Drained (suc fuel) s h =
      again-Drained s (recv_plain c L s).1 (recv_plain c L s).0
        (recv_all c L fuel (recv_plain c L s).1) (recv-Forwards c w L s none)
        (λ less. recv_all-Drained fuel (recv_plain c L s).1 (omega (arith, less, h)))

  -- What is promised of a query.
  abbrev pub Queried : Text → Server L.Cache → Outcome (Unit {0}) → Server L.Cache → Type 0
  Queried text s (done _) t =
      (t.sink.written ≡ s.sink.written ++ simple_query c text)
      × (t.data_available ≡ false)
      × (t.buffer ≡ [])
      × (t.cleanup_connections ≡ s.cleanup_connections)
  Queried text s (failed e) t = t.cleanup_connections ≡ s.cleanup_connections
  Queried text s panicked t = Unit
  Queried text s stuck t = ⊥

  Queried-Drained :
      (text : Text) (s t u : Server L.Cache) (o : Outcome (Unit {0}))
      → t.sink.written ≡ s.sink.written ++ simple_query c text
      → t.cleanup_connections ≡ s.cleanup_connections
      → Drained t o u
      → Queried text s o u
  Queried-Drained text s t u (done _) e e' (quiet, empty, sink, cleanup) =
      (ap (λ (x : Sink). x.written) sink ∙ e, quiet, empty, cleanup ∙ e')
  Queried-Drained text s t u (failed x) e e' (sink, cleanup) = cleanup ∙ e'
  Queried-Drained text s t u panicked e e' h = tt
  Queried-Drained text s t u stuck e e' h = h

  -- What `query` does after its write.
  sent-Queried :
      (text : Text) (s : Server L.Cache) (r : Result Error (Unit {0})) (k : Sink)
      → Written (simple_query c text) s.sink r k
      → let q = after (sent r k s).0 (sent r k s).1 λ _ t. recv_all c L (suc (length t.inbox)) t in
        Queried text s q.0 q.1
  sent-Queried text s (ok _) k h =
      let t : Server L.Cache = record s { sink = k } in
      Queried-Drained text s t (recv_all c L (suc (length t.inbox)) t).1
        (recv_all c L (suc (length t.inbox)) t).0 h refl
        (recv_all-Drained (suc (length t.inbox)) t (omega arith))
  sent-Queried text s (err e) k h = refl
  sent-Queried text s panic k h = tt

  -- A query ends on every stream. When it succeeds, the one message that was sent is the query, the
  -- whole reply has been read and dropped, and nothing is buffered.
  pub query-Queried :
      (text : Text) (s : Server L.Cache) → Queried text s (query c L text s).0 (query c L text s).1
  unfolding query send
  query-Queried text s = sent-Queried text s _ _ (write_all-Written (simple_query c text) s.sink)
