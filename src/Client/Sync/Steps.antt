-- ===== src/Client/Sync/Steps.antt =====
-- src/client.rs: the rounds of a Sync that find their statement on the server only look into caches.
use pgcat.Prelude.{ℕ, ◌≡◌, refl, ap, ◌∙◌, Bool, true, Option, none, some, List, ◌==◌}
use pgcat.Prelude.Dict.{text_Eq}
use pgcat.Wire.{Codec}
use pgcat.Config.{Address}
use pgcat.Messages.Parse.{Parse}
use pgcat.Messages.Reply.{parse_complete}
use pgcat.Server.Parameters.{Text}
use pgcat.Server.State.{Lru, Server, Outcome, done}
use pgcat.Server.Prepared.{has_prepared_statement, register_prepared_statement, looked_up}
use pgcat.Pool.Statements.{ParseLru}
use pgcat.Client.{
  Client, ExtendedProtocolData, parse, bind, describe, execute, close, put, queue_response, World,
  W, on_server, next_step, change,
}
use pgcat.Client.Sync.{
  name_byte, register_outcome, close_kept, promote, register_on_server, forget_refused, ensure,
  parse_found, mark_if_named, process, ensure_prepared_statement_is_on_server,
  register_parse_to_server_cache,
}
use pgcat.Client.Sync.Ready.{IsLru, Has, Knows, IsReady}

-- What the first cache has, the second has.
abbrev pub Grows : (L : Lru) → Option L.Cache → Option L.Cache → Type 0
Grows L m m' = (name : Text) → Has L m name → Has L m' name

module _ (c : Codec) (L : Lru) (w : IsLru L) where
  looked_up-Has :
      (name : Text) (m : Option L.Cache)
      → Has L m name
      → ((looked_up c L name m).0 ≡ true) × Grows L m (looked_up c L name m).1
  looked_up-Has name none h = absurd h
  looked_up-Has name (some m) h = (w.get_peek name m ∙ h, λ other g. w.peek_get name other m ∙ g)

  -- A method that only looks into the cache of the server, and what it answers.
  abbrev Looks : {A : Type 0} → A → Server L.Cache → Outcome A × Server L.Cache → Type 0
  Looks a s r =
      (r.0 ≡ done a)
      × (r.1 ≡ record s { prepared_statement_cache = r.1.prepared_statement_cache })
      × Grows L s.prepared_statement_cache r.1.prepared_statement_cache

  Has-Looks :
      (name : Text) (s : Server L.Cache)
      → Has L s.prepared_statement_cache name
      → Looks true s (has_prepared_statement c L name s)
  unfolding has_prepared_statement
  Has-Looks name s h =
      let (e, g) = looked_up-Has name s.prepared_statement_cache h in (ap done e, refl, g)

  register-Looks :
      (p : Parse) (should_send : Bool) (s : Server L.Cache)
      → Has L s.prepared_statement_cache p.name
      → Looks tt s (register_prepared_statement c L p should_send s)
  unfolding register_prepared_statement has_prepared_statement
  register-Looks p should_send s h =
      let (e, g) = looked_up-Has p.name s.prepared_statement_cache h in
      let (e', g') =
        looked_up-Has p.name (looked_up c L p.name s.prepared_statement_cache).1 (g p.name h) in
      rw (e, e') (refl, refl, λ other k. g' other (g other k))

  module _ (P : ParseLru) (address : Address) (now : ℕ) where
    -- A computation that changes the client by `f` and else only looks into caches.
    abbrev pub Steps :
        {A : Type 0} → A → (Client → Client) → World L P → Outcome A × World L P → Type 0
    Steps a f v r =
        (r.0 ≡ done a)
        × (r.1.client ≡ f v.client)
        × (r.1.pool ≡ v.pool)
        × (r.1.server
            ≡ record v.server { prepared_statement_cache = r.1.server.prepared_statement_cache })
        × Grows L v.server.prepared_statement_cache r.1.server.prepared_statement_cache

    abbrev with_cache_of : Server L.Cache → Server L.Cache → Server L.Cache
    with_cache_of t s = record s { prepared_statement_cache = t.prepared_statement_cache }

    pub step-Steps :
        {A B : Type 0} (m : W L P A) (k : A → W L P B) (a : A) (b : B) (f g : Client → Client)
        (v : World L P)
        → Steps a f v (m v)
        → Steps b g (m v).1 (k a (m v).1)
        → Steps b (λ x. g (f x)) v (next_step L P m k v)
    step-Steps m k a b f g v (e, x, p, s, grows) (e', x', p', s', grows') = rw e (
      e',
      x' ∙ ap g x,
      p' ∙ p,
      s' ∙ ap (with_cache_of (k a (m v).1).1.server) s,
      λ n h. grows' n (grows n h),
    )

    pub change-Steps : (f : Client → Client) (v : World L P) → Steps tt f v (change L P f v)
    change-Steps f v = (refl, refl, refl, refl, λ n h. h)

    -- A look into the server's cache, as a step of the session.
    on_server-Steps :
        {A : Type 0} (a : A) (m : Server L.Cache → Outcome A × Server L.Cache) (v : World L P)
        → Looks a v.server (m v.server)
        → Steps a (λ x. x) v (on_server L P m v)
    on_server-Steps a m v (e, s, grows) = (e, refl, refl, s, grows)

    registered-Steps :
        (v : World L P) (r : Outcome (Unit {0}) × World L P)
        → Steps tt (λ x. x) v r
        → Steps tt (λ x. x) v (register_outcome c L P address now r.0 r.1)
    registered-Steps v r (e, x, p, s, g) = rw e (refl, x, p, s, g)

    register-Steps :
        (should_send : Bool) (hash : ℕ) (p : Parse) (v : World L P)
        → Has L v.server.prepared_statement_cache p.name
        → Steps tt
            (λ x. x)
            v
            (register_parse_to_server_cache c L P address now should_send hash p v)
    unfolding register_parse_to_server_cache
    register-Steps should_send hash p v h =
        let m = register_prepared_statement c L p should_send in
        let v' = (promote c L P address now hash v).1 in
        step-Steps (promote c L P address now hash)
          (λ _. register_on_server c L P address now should_send p) tt tt (λ x. x) (λ x. x) v
          (refl, refl, refl, refl, λ n k. k)
          (registered-Steps v' (on_server L P m v')
            (on_server-Steps tt m v' (register-Looks p should_send v.server h)))

    forget_refused-Steps :
        (name : Text) (v : World L P) (r : Outcome (Unit {0}) × World L P)
        → Steps tt (λ x. x) v r
        → Steps tt (λ x. x) v (forget_refused c L P address now name r.0 r.1)
    forget_refused-Steps name v r (e, x, p, s, g) = rw e (refl, x, p, s, g)

    ensure-Steps :
        (name : Option Text) (v : World L P)
        → Knows L v.server.prepared_statement_cache v.client.prepared_statements name
        → Steps tt (λ x. x) v (ensure c L P address now name v)
    unfolding ensure_prepared_statement_is_on_server
    ensure-Steps none v h = (refl, refl, refl, refl, λ n k. k)
    ensure-Steps (some name) v (p, hash, e, h) =
        simp e (forget_refused-Steps name v _ (register-Steps true hash p v h))

    -- What a message does to the client.
    abbrev pub handled : ExtendedProtocolData → Client → Client
    handled (parse bytes none) x = put bytes x
    handled (parse bytes (some _)) x = queue_response (parse_complete c) x
    handled (bind bytes name) x = put bytes x
    handled (describe bytes name) x = put bytes x
    handled (execute bytes) x = put bytes x
    handled (close bytes request) x = close_kept c L P address now bytes request x

    mark-Steps :
        (bytes : List ℕ) (v : World L P)
        → (name_byte bytes == 0) ≡ true
        → Steps tt (λ x. x) v (mark_if_named c L P address now bytes v)
    mark-Steps bytes v e = rw e (refl, refl, refl, refl, λ n k. k)

    then_change-Steps :
        {A : Type 0} (a : A) (m : W L P A) (k : A → W L P (Unit {0})) (f : Client → Client)
        (v : World L P)
        → k a ≡ change L P f
        → Steps a (λ x. x) v (m v)
        → Steps tt f v (next_step L P m k v)
    then_change-Steps a m k f v e h =
        step-Steps m k a tt (λ x. x) f v h (rw e (change-Steps f (m v).1))

    pub process-Steps :
        (d : ExtendedProtocolData) (v : World L P)
        → IsReady L v.server.prepared_statement_cache v.client.prepared_statements d
        → Steps tt (handled d) v (process c L P address now d v)
    unfolding process
    process-Steps (parse bytes none) v h =
        then_change-Steps tt (mark_if_named c L P address now bytes) (λ _. change L P (put bytes))
          (put bytes) v refl (mark-Steps bytes v h)
    process-Steps (parse bytes (some (p, hash))) v h =
        then_change-Steps true (on_server L P (has_prepared_statement c L p.name))
          (parse_found c L P address now bytes p hash) (queue_response (parse_complete c)) v refl
          (on_server-Steps true (has_prepared_statement c L p.name) v (Has-Looks p.name v.server h))
    process-Steps (bind bytes name) v h =
        then_change-Steps tt (ensure c L P address now name) (λ _. change L P (put bytes))
          (put bytes) v refl (ensure-Steps name v h)
    process-Steps (describe bytes name) v h =
        then_change-Steps tt (ensure c L P address now name) (λ _. change L P (put bytes))
          (put bytes) v refl (ensure-Steps name v h)
    process-Steps (execute bytes) v h = change-Steps (put bytes) v
    process-Steps (close bytes request) v h =
        change-Steps (close_kept c L P address now bytes request) v
