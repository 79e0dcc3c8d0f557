-- ===== src/Client/Sync/Forwards.antt =====
-- src/client.rs: what a Sync sends and answers when the server already has every statement.
use pgcat.Prelude.{
  ℕ, ◌≡◌, refl, ap, sym, ◌∙◌, Bool, true, false, Option, none, some, List, [], ◌∷◌, ◌++◌,
  if◌then◌else◌,
}
use mathlib.Core.List.{append_assoc, append-nil}
use pgcat.Prelude.Dict.{remove, text_Eq}
use pgcat.Wire.{Codec}
use pgcat.Config.{Address}
use pgcat.Messages.Target.{Close}
use pgcat.Messages.Reply.{close_complete}
use pgcat.Server.Parameters.{Text}
use pgcat.Server.State.{Lru, Server, Outcome, done}
use pgcat.Pool.Statements.{ParseLru}
use pgcat.Client.{
  Client, ExtendedProtocolData, parse, bind, describe, execute, close, put, queue_response, World,
}
use pgcat.Client.Sync.{keep_rest, forget, process, process_all}
use pgcat.Client.Sync.Ready.{
  IsLru, Names, Knows, IsReady, AllReady, names_after, forwarded, replies, sent_on, reply_to,
  closes,
}
use pgcat.Client.Sync.Steps.{Grows, handled, process-Steps}

module _ (L : Lru) where
  Knows-Grows :
      (m m' : Option L.Cache) (names : Names) (name : Option Text)
      → Grows L m m'
      → Knows L m names name
      → Knows L m' names name
  Knows-Grows m m' names none g h = tt
  Knows-Grows m m' names (some name) g (p, hash, e, h) = (p, hash, e, g p.name h)

  IsReady-Grows :
      (m m' : Option L.Cache) (names : Names) (d : ExtendedProtocolData)
      → Grows L m m'
      → IsReady L m names d
      → IsReady L m' names d
  IsReady-Grows m m' names (parse bytes none) g h = h
  IsReady-Grows m m' names (parse bytes (some (p, hash))) g h = g p.name h
  IsReady-Grows m m' names (bind bytes name) g h = Knows-Grows m m' names name g h
  IsReady-Grows m m' names (describe bytes name) g h = Knows-Grows m m' names name g h
  IsReady-Grows m m' names (execute bytes) g h = tt
  IsReady-Grows m m' names (close bytes request) g h = tt

  AllReady-Grows :
      (m m' : Option L.Cache) (enabled : Bool) (ds : List ExtendedProtocolData) (names : Names)
      → Grows L m m'
      → AllReady L m enabled names ds
      → AllReady L m' enabled names ds
  unfolding AllReady
  AllReady-Grows m m' enabled [] names g h = tt
  AllReady-Grows m m' enabled (d ∷ ds) names g (h, hs) = (
    IsReady-Grows m m' names d g h,
    AllReady-Grows m m' enabled ds (names_after enabled (d ∷ []) names) g hs,
  )

module _ (c : Codec) (L : Lru) (w : IsLru L) (P : ParseLru) (address : Address) (now : ℕ) where
  -- What messages change of the client.
  abbrev Changed : List ℕ → List ℕ → Names → Client → Client → Type 0
  Changed sent answered names x y =
      (y.buffer ≡ x.buffer ++ sent)
      × (y.response_message_queue_buffer ≡ x.response_message_queue_buffer ++ answered)
      × (y.prepared_statements ≡ names)
      × (y.prepared_statements_enabled ≡ x.prepared_statements_enabled)
      × (y.write ≡ x.write)

  close-Changed :
      (b : Bool) (bytes : List ℕ) (request : Close) (x : Client)
      → Changed
          (if b then [] else bytes)
          (if b then close_complete c else [])
          (if b then remove request.name x.prepared_statements else x.prepared_statements)
          x
          ((if b
              then (λ y. queue_response (close_complete c) (forget request.name y))
              else put bytes)
            x)
  close-Changed true bytes request x = (sym (append-nil _), refl, refl, refl, refl)
  close-Changed false bytes request x = (refl, sym (append-nil _), refl, refl, refl)

  handled-Changed :
      (d : ExtendedProtocolData) (x : Client)
      → Changed
          (sent_on x.prepared_statements_enabled d)
          (reply_to c x.prepared_statements_enabled d)
          (names_after x.prepared_statements_enabled (d ∷ []) x.prepared_statements)
          x
          (handled c L w P address now d x)
  unfolding names_after
  handled-Changed (parse bytes none) x = (refl, sym (append-nil _), refl, refl, refl)
  handled-Changed (parse bytes (some _)) x = (sym (append-nil _), refl, refl, refl, refl)
  handled-Changed (bind bytes name) x = (refl, sym (append-nil _), refl, refl, refl)
  handled-Changed (describe bytes name) x = (refl, sym (append-nil _), refl, refl, refl)
  handled-Changed (execute bytes) x = (refl, sym (append-nil _), refl, refl, refl)
  handled-Changed (close bytes request) x =
      close-Changed (closes x.prepared_statements_enabled request) bytes request x

  handled-Changed_as :
      (d : ExtendedProtocolData) (x y : Client) (enabled : Bool) (names : Names)
      → x.prepared_statements_enabled ≡ enabled
      → x.prepared_statements ≡ names
      → y ≡ handled c L w P address now d x
      → Changed (sent_on enabled d) (reply_to c enabled d) (names_after enabled (d ∷ []) names) x y
  handled-Changed_as d x y enabled names on known e = rw (← on, ← known, e) (handled-Changed d x)

  names_after-cons :
      (enabled : Bool) (d : ExtendedProtocolData) (ds : List ExtendedProtocolData) (names : Names)
      → names_after enabled (d ∷ ds) names
        ≡ names_after enabled ds (names_after enabled (d ∷ []) names)
  unfolding names_after
  names_after-cons enabled (parse bytes m) ds names = refl
  names_after-cons enabled (bind bytes name) ds names = refl
  names_after-cons enabled (describe bytes name) ds names = refl
  names_after-cons enabled (execute bytes) ds names = refl
  names_after-cons enabled (close bytes request) ds names = refl

  -- All is forwarded or answered, and nothing is sent to the server meanwhile.
  abbrev pub Forwards :
      Bool → Names → List ExtendedProtocolData → World L P → Outcome (Unit {0}) × World L P → Type 0
  Forwards enabled names ds v r =
      (r.0 ≡ done tt)
      × Changed (forwarded enabled ds) (replies c enabled ds) (names_after enabled ds names)
          v.client r.1.client
      × (r.1.pool ≡ v.pool)
      × (r.1.server
          ≡ record v.server { prepared_statement_cache = r.1.server.prepared_statement_cache })

  then-Forwards :
      (d : ExtendedProtocolData) (ds : List ExtendedProtocolData) (enabled : Bool) (names : Names)
      (v v' : World L P) (o : Outcome (Unit {0})) (r : Outcome (Unit {0}) × World L P)
      → o ≡ done tt
      → Changed
          (sent_on enabled d)
          (reply_to c enabled d)
          (names_after enabled (d ∷ []) names)
          v.client
          v'.client
      → v'.pool ≡ v.pool
      → v'.server
        ≡ record v.server { prepared_statement_cache = v'.server.prepared_statement_cache }
      → Forwards enabled (names_after enabled (d ∷ []) names) ds v' r
      → Forwards enabled names (d ∷ ds) v r
  unfolding forwarded replies
  then-Forwards d ds enabled names v v' o r e (b, q, n, on, k) p s
        (e', (b', q', n', on', k'), p', s') =
      (
        e',
        (
          b'
              ∙ ap (λ z. z ++ forwarded enabled ds) b
              ∙ append_assoc v.client.buffer (sent_on enabled d) (forwarded enabled ds),
          q'
              ∙ ap (λ z. z ++ replies c enabled ds) q
              ∙ append_assoc v.client.response_message_queue_buffer (reply_to c enabled d)
                  (replies c enabled ds),
          n' ∙ sym (names_after-cons enabled d ds names),
          on' ∙ on,
          k' ∙ k,
        ),
        p' ∙ p,
        s'
            ∙ ap {A = Server L.Cache} {B = Server L.Cache}
                (λ t. record t { prepared_statement_cache = r.1.server.prepared_statement_cache })
                s,
      )

  pub process_all-Forwards :
      (ds : List ExtendedProtocolData) (enabled : Bool) (names : Names) (v : World L P)
      → v.client.prepared_statements_enabled ≡ enabled
      → v.client.prepared_statements ≡ names
      → AllReady L v.server.prepared_statement_cache enabled names ds
      → Forwards enabled names ds v (process_all c L P address now ds v)
  unfolding process_all AllReady forwarded replies names_after
  process_all-Forwards [] enabled names v on known h =
      (refl, (sym (append-nil _), sym (append-nil _), known, refl, refl), refl, refl)
  process_all-Forwards (d ∷ ds) enabled names v on known (h, hs) =
      let v' = (keep_rest c L P address now ds v).1 in
      let r = process c L P address now d v' in
      let (e, x, p, s, grows) = process-Steps c L w P address now d v' (simp known h) in
      let changed = handled-Changed_as d v'.client r.1.client enabled names on known x in
      let (b, q, n, on', k) = changed in
      rw e (
        then-Forwards d ds enabled names v r.1 r.0 (process_all c L P address now ds r.1) e changed
          p s
          (process_all-Forwards ds enabled (names_after enabled (d ∷ []) names) r.1 (on' ∙ on) n (
            AllReady-Grows L v'.server.prepared_statement_cache r.1.server.prepared_statement_cache
              enabled ds (names_after enabled (d ∷ []) names) grows hs)))
