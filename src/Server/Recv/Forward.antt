-- ===== src/Server/Recv/Forward.antt =====
-- src/server.rs: what `recv` answers is what the server sent.
use pgcat.Prelude.{
  ℕ, zero, suc, ◌+◌, ◌≤◌, ◌<◌, ◌≡◌, refl, ap, ◌∙◌, true, Option, List, [], ◌∷◌, ◌++◌, length,
  length-append, arith,
}
use pgcat.Prelude.Result.{Result, ok, err, panic}
use pgcat.Errors.{Error}
use pgcat.Wire.{Codec, IsCodec, read_string_mut}
use pgcat.Wire.Stream.{read_message}
use pgcat.Wire.Stream.Framing.{frame, read_message_sound}
use pgcat.Server.Parameters.{Text, ServerParameters}
use pgcat.Server.State.{Lru, Server, Outcome, done, failed, panicked, stuck}
use pgcat.Server.Recv.{
  Flow, continues, breaks, fails, panics, Round, on_ready, status_key, status_value, on_message,
  recv_round, recv_loop, recv, finish, code_of, take_body,
}
use mathlib.Core.List.{append_assoc}

-- What no message changes.
pub record Keeps {C : Type 0} (s t : Server C) : Type 0 where
  pub inbox : t.inbox ≡ s.inbox
  pub buffer : t.buffer ≡ s.buffer
  pub sink : t.sink ≡ s.sink
  pub cleanup_connections : t.cleanup_connections ≡ s.cleanup_connections
  pub process_id : t.process_id ≡ s.process_id
  pub secret_key : t.secret_key ≡ s.secret_key

module _ (c : Codec) (L : Lru) where
  on_ready-Keeps :
      (body : List ℕ) (s : Server L.Cache) (p : Option ServerParameters)
      → Keeps s (on_ready c L body s p).1
  unfolding on_ready
  on_ready-Keeps [] s p = ground arith
  on_ready-Keeps (x ∷ xs) s p = ground arith

  status_value-Keeps :
      (key : Text) (r : Result Error (List ℕ × List ℕ)) (s : Server L.Cache)
      (p : Option ServerParameters)
      → Keeps s (status_value c L key r s p).1
  unfolding status_value
  status_value-Keeps key (ok (v, r)) s p = ground arith
  status_value-Keeps key (err e) s p = ground arith
  status_value-Keeps key panic s p = ground arith

  status_key-Keeps :
      (r : Result Error (List ℕ × List ℕ)) (s : Server L.Cache) (p : Option ServerParameters)
      → Keeps s (status_key c L r s p).1
  unfolding status_key
  status_key-Keeps (ok (k, r)) s p = status_value-Keeps k (read_string_mut c r) s p
  status_key-Keeps (err e) s p = ground arith
  status_key-Keeps panic s p = ground arith

  on_message-Keeps :
      (code : ℕ) (body : List ℕ) (s : Server L.Cache) (p : Option ServerParameters)
      → Keeps s (on_message c L code body s p).1
  unfolding on_message
  on_message-Keeps code body s p =
      ground (arith, on_ready-Keeps body s p, status_key-Keeps (read_string_mut c body) s p)

-- A round that reads the message m.
record Advances {C : Type 0} (s t : Server C) : Type 0 where
  m : List ℕ
  whole : 5 ≤ length m
  taken : s.inbox ≡ m ++ t.inbox
  kept : t.buffer ≡ s.buffer ++ m
  sink : t.sink ≡ s.sink
  cleanup_connections : t.cleanup_connections ≡ s.cleanup_connections

-- What is promised of each outcome, for the state before and the state after.
abbrev pub Forwards : {C : Type 0} → Server C → Outcome (List ℕ) → Server C → Type 0
Forwards s (done bytes) t =
    (bytes ++ t.inbox ≡ s.buffer ++ s.inbox)
    × (t.buffer ≡ [])
    × (length t.inbox < length s.inbox)
    × (t.sink ≡ s.sink)
    × (t.cleanup_connections ≡ s.cleanup_connections)
Forwards s (failed e) t =
    (t.sink ≡ s.sink)
    × (t.cleanup_connections ≡ s.cleanup_connections)
    × (length t.inbox ≤ length s.inbox)
Forwards s panicked t = Unit
Forwards s stuck t = ⊥

length-frame : (c : Codec) → IsCodec c → (code : ℕ) (body : List ℕ) → 5 ≤ length (frame c code body)
length-frame c w code body =
    omega (arith, length-append (c.put_i32 (length body + 4)) body, w.length_i32 (length body + 4))

Advances-shorter : {C : Type 0} (s t : Server C) → Advances s t → length t.inbox < length s.inbox
Advances-shorter s t a = omega (arith, ap length a.taken, length-append a.m t.inbox, a.whole)

Advances-split :
    {C : Type 0} (s t : Server C) → Advances s t → t.buffer ++ t.inbox ≡ s.buffer ++ s.inbox
Advances-split s t a = rw (a.kept, a.taken) (append_assoc s.buffer a.m t.inbox)

Forwards-after :
    {C : Type 0} (s t u : Server C) (o : Outcome (List ℕ))
    → Advances s t
    → Forwards t o u
    → Forwards s o u
Forwards-after s t u (done bytes) a (same, empty, less, sink, cleanup) = (
  same ∙ Advances-split s t a,
  empty,
  omega (arith, less, Advances-shorter s t a),
  sink ∙ a.sink,
  cleanup ∙ a.cleanup_connections,
)
Forwards-after s t u (failed e) a (sink, cleanup, less) =
    (sink ∙ a.sink, cleanup ∙ a.cleanup_connections, omega (arith, less, Advances-shorter s t a))
Forwards-after s t u panicked a h = tt
Forwards-after s t u stuck a h = h

module _ (c : Codec) (w : IsCodec c) (L : Lru) where
  message-Advances :
      (s : Server L.Cache) (m rest : List ℕ) (t : Server L.Cache)
      → read_message c s.inbox ≡ ok (m, rest)
      → Keeps (record s { inbox = rest; buffer = s.buffer ++ m }) t
      → Advances s t
  message-Advances s m rest t e k =
      let (code, body, shape, split) = read_message_sound c w s.inbox m rest e in
      record {
        m = m;
        whole = rw shape (length-frame c w code body);
        taken = rw k.inbox split;
        kept = k.buffer;
        sink = k.sink;
        cleanup_connections = k.cleanup_connections;
      }

  finish-Forwards :
      (s t : Server L.Cache) (flow : Flow) (p : Option ServerParameters)
      (more : Outcome (List ℕ) × Server L.Cache × Option ServerParameters)
      → Advances s t
      → Forwards t more.0 more.1
      → Forwards s (finish c L flow t p more).0 (finish c L flow t p more).1
  finish-Forwards s t continues p more a h = Forwards-after s t more.1 more.0 a h
  finish-Forwards s t breaks p more a h =
      (Advances-split s t a, refl, Advances-shorter s t a, a.sink, a.cleanup_connections)
  finish-Forwards s t (fails e) p more a h =
      (a.sink, a.cleanup_connections, omega (arith, Advances-shorter s t a))
  finish-Forwards s t panics p more a h = tt

  recv_round_ok :
      (s : Server L.Cache) (p : Option ServerParameters) (m rest : List ℕ)
      → read_message c s.inbox ≡ ok (m, rest)
      → recv_round c L s p
        ≡ on_message c L
            (code_of c L m)
            (take_body c L m)
            (record s { inbox = rest; buffer = s.buffer ++ m })
            p
  unfolding recv_round
  recv_round_ok s p m rest e = rw (e, recv_round)

  recv_round_err :
      (s : Server L.Cache) (p : Option ServerParameters) (e' : Error)
      → read_message c s.inbox ≡ err e'
      → recv_round c L s p ≡ (fails e', record s { bad = true }, p)
  unfolding recv_round
  recv_round_err s p e' e = rw (e, recv_round)

  recv_round_panic :
      (s : Server L.Cache) (p : Option ServerParameters)
      → read_message c s.inbox ≡ panic
      → recv_round c L s p ≡ (panics, s, p)
  unfolding recv_round
  recv_round_panic s p e = rw (e, recv_round)

  recv_loop-Forwards :
      (fuel : ℕ) (s : Server L.Cache) (p : Option ServerParameters)
      → length s.inbox < fuel
      → Forwards s (recv_loop c L fuel s p).0 (recv_loop c L fuel s p).1
  unfolding recv_loop
  recv_loop-Forwards zero s p h = absurd (omega arith)
  recv_loop-Forwards (suc fuel) s p h =
      go (λ t q less. recv_loop-Forwards fuel t q less) (read_message c s.inbox) refl
    where
      round :
          (r : Round c L)
          → Advances s r.1
          → recv_round c L s p ≡ r
          → Forwards r.1 (recv_loop c L fuel r.1 r.2).0 (recv_loop c L fuel r.1 r.2).1
          → Forwards s (recv_loop c L (suc fuel) s p).0 (recv_loop c L (suc fuel) s p).1
      round (flow, t, q) a e ih = rw e (finish-Forwards s t flow q (recv_loop c L fuel t q) a ih)

      go :
          ((t : Server L.Cache) (q : Option ServerParameters)
            → length t.inbox < fuel
            → Forwards t (recv_loop c L fuel t q).0 (recv_loop c L fuel t q).1)
          → (x : Result Error (List ℕ × List ℕ)) → read_message c s.inbox ≡ x
          → Forwards s (recv_loop c L (suc fuel) s p).0 (recv_loop c L (suc fuel) s p).1
      go ih (ok (m, rest)) e =
          let (flow, t, q) =
            on_message c L (code_of c L m) (take_body c L m)
              (record s { inbox = rest; buffer = s.buffer ++ m }) p in
          let a = message-Advances s m rest t e (on_message-Keeps c L _ _ _ p) in
          round (flow, t, q) a (recv_round_ok s p m rest e)
            (ih t q (omega (arith, Advances-shorter s t a, h)))
      go ih (err e') e = rw (recv_round_err s p e' e) (refl, refl, omega arith)
      go ih panic e = rw (recv_round_panic s p e) tt

  -- `recv` ends on every stream. When it succeeds, the bytes that it answers, followed by those
  -- still to be read, are the bytes that were buffered, followed by those that the server had sent;
  -- the buffer is then empty and a message at least was read. Whether it succeeds or fails, nothing
  -- is written to the server.
  pub recv-Forwards :
      (s : Server L.Cache) (p : Option ServerParameters)
      → Forwards s (recv c L s p).0 (recv c L s p).1
  unfolding recv
  recv-Forwards s p = recv_loop-Forwards (suc (length s.inbox)) s p (omega arith)
