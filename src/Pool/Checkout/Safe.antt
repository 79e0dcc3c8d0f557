-- ===== src/Pool/Checkout/Safe.antt =====
-- src/pool.rs: what a checkout gives, and what it does to the bans on the way.
use pgcat.Prelude.{
  ℕ, ◌≡◌, refl, ◌∙◌, ◌⊎◌, inl, inr, Bool, true, false, ◌||◌, Option, none, some, List, length, ltb,
  get_elem?, ◌==◌, if◌then◌else◌,
}
use pgcat.Prelude.Result.{Result, ok, err, panic, ◌>>=◌}
use pgcat.Prelude.Dict.{lookup, lookup-insert}
use pgcat.Errors.{Error}
use pgcat.Config.{
  Address, shard_of, index_of, role_of, role_eq, primary, address_eq_refl, address_Eq,
}
use pgcat.Wire.{Codec}
use pgcat.Server.State.{Lru, Server, Outcome, done, failed, panicked, stuck}
use pgcat.Server.Query.{mark_bad}
use pgcat.Pool.{ConnectionPool, BanReason, BanList, failed_checkout, failed_health_check}
use pgcat.Pool.Bans.{
  or_panic, ban, is_banned, is_some, try_unban, try_replica, error_count, reset_error_count,
  count_replicas,
}
use pgcat.Pool.Bans.Effects.{is_banned_banlist, All-get_elem?}
use pgcat.Pool.Bans.Retry.{Tried, try_replica-Tried}
use pgcat.Pool.Bans.History.{
  Step, History, start, next, banned, retried, checked_out, IsSound, Good, found-primary,
}
use pgcat.Pool.Checkout.{
  Attempt, failed_check, health_reply, health_timeout, run_health_check, unbanned, admit,
  require_healthcheck, checked, connected, connect, pool_state, entered, try_candidate,
}

pub History-trans : {p q r : ConnectionPool} → History p q → History q r → History p r
History-trans h (start _) = h
History-trans h (next q t r past step) = next _ t r (History-trans h past) step

abbrev once : {p q : ConnectionPool} → Step p q → History p q
once {p} {q} s = next p p q (start p) s

-- A successful look at a ban finds a list.
is_banned_found :
    (p : ConnectionPool) (a : Address) (o : Option BanList) {b : Bool}
    → get_elem? p.banlist (shard_of a) ≡ o
    → (or_panic o >>= λ bans. ok (is_some (lookup a bans))) ≡ ok b
    → (l : BanList) × (get_elem? p.banlist (shard_of a) ≡ some l)
is_banned_found p a none e h = absurd (cc h)
is_banned_found p a (some l) e h = (l, e)

primary_is_free :
    (p : ConnectionPool) (a : Address) {b : Bool}
    → IsSound p
    → role_eq (role_of a) primary ≡ true
    → is_banned p a ≡ ok b
    → is_banned p a ≡ ok false
unfolding is_banned
primary_is_free p a s e h =
    found-primary p a s e (is_banned_found p a (get_elem? p.banlist (shard_of a)) refl h)

-- What an answer of `try_unban` says, a panic included.
abbrev Lifted : ConnectionPool → Address → Result Error (Bool × ConnectionPool) → Type 0
Lifted p a (ok (true, q)) = (role_eq (role_of a) primary ≡ true) ⊎ (is_banned q a ≡ ok false)
Lifted p a _ = Unit

Tried-Lifted :
    (p : ConnectionPool) (a : Address) (r : Result Error (Bool × ConnectionPool))
    → Tried p a r
    → Lifted p a r
Tried-Lifted p a (ok (true, q)) h = h
Tried-Lifted p a (ok (false, q)) h = tt
Tried-Lifted p a (err e) h = tt
Tried-Lifted p a panic h = tt

looked-Lifted :
    (p : ConnectionPool) (a : Address) (now : ℕ) (servers : Option (List Address))
    (l : Option BanList)
    → get_elem? p.banlist (shard_of a) ≡ l
    → IsSound p
    → Lifted p a
        (or_panic servers >>= λ servers. or_panic l >>= λ bans. try_replica a now p servers bans)
looked-Lifted p a now none l e h = tt
looked-Lifted p a now (some servers) none e h = tt
looked-Lifted p a now (some servers) (some bans) e h =
    Tried-Lifted p a (try_replica a now p servers bans) (
      try_replica-Tried p a now servers bans (length bans == count_replicas servers) e
        (All-get_elem? Good p.banlist (shard_of a) bans h e).0)

split-Lifted :
    (p : ConnectionPool) (a : Address) (b : Bool) (r : Result Error (Bool × ConnectionPool))
    → role_eq (role_of a) primary ≡ b
    → Lifted p a r
    → Lifted p a (if b then ok (true, p) else r)
split-Lifted p a true r e h = inl e
split-Lifted p a false r e h = h

try_unban-Lifted :
    (p : ConnectionPool) (a : Address) (now : ℕ) → IsSound p → Lifted p a (try_unban a now p)
unfolding try_unban
try_unban-Lifted p a now h = split-Lifted p a (role_eq (role_of a) primary) _ refl (
    looked-Lifted p a now (get_elem? p.addresses (shard_of a)) (get_elem? p.banlist (shard_of a))
      refl h)

-- After `admit`: the server that is let through is not banned.
abbrev Admitted : ConnectionPool → Address → Result Error (Option Bool × ConnectionPool) → Type 0
Admitted p a (ok (some force, q)) = History p q × (is_banned q a ≡ ok false)
Admitted p a (ok (none, q)) = History p q
Admitted p a _ = Unit

-- After a retry of a banned server.
retried-Admitted :
    (p : ConnectionPool) (a : Address) (now : ℕ) (r : Result Error (Bool × ConnectionPool))
    → try_unban a now p ≡ r
    → is_banned p a ≡ ok true
    → IsSound p
    → Lifted p a r
    → Admitted p a (r >>= λ x. ok (unbanned x))
retried-Admitted p a now (ok (true, q)) e b s (inl exempt) =
    absurd (cc (b, primary_is_free p a s exempt b))
retried-Admitted p a now (ok (true, q)) e b s (inr free) = (once (retried p q a now true e), free)
retried-Admitted p a now (ok (false, q)) e b s h = once (retried p q a now false e)
retried-Admitted p a now (err x) e b s h = tt
retried-Admitted p a now panic e b s h = tt

looked-Admitted :
    (p : ConnectionPool) (a : Address) (now : ℕ) (r : Result Error Bool)
    → is_banned p a ≡ r
    → IsSound p
    → Admitted p a (
        r >>= λ banned.
        let retried = try_unban a now p >>= λ r. ok (unbanned r) in
        if banned then retried else ok (some false, p))
looked-Admitted p a now (ok true) e s =
    retried-Admitted p a now (try_unban a now p) refl e s (try_unban-Lifted p a now s)
looked-Admitted p a now (ok false) e s = (start p, e)
looked-Admitted p a now (err x) e s = tt
looked-Admitted p a now panic e s = tt

admit-Admitted :
    (p : ConnectionPool) (a : Address) (now : ℕ) → IsSound p → Admitted p a (admit a now p)
unfolding admit
admit-Admitted p a now s = looked-Admitted p a now (is_banned p a) refl s

module _ (c : Codec) (L : Lru) where
  -- After a connection attempt to a server that is not banned.
  abbrev pub Connected :
      ConnectionPool → Address → Result Error (Option (Server L.Cache) × ConnectionPool) → Type 0
  Connected p a (ok (some server, q)) =
      History p q × (is_banned q a ≡ ok false) × (error_count q a ≡ 0)
  Connected p a (ok (none, q)) = History p q
  Connected p a _ = Unit

  banned-Connected :
      (p : ConnectionPool) (a : Address) (reason : BanReason) (now : ℕ)
      (r : Result Error ConnectionPool)
      → ban a reason now p ≡ r
      → Connected p a (r >>= λ q. ok (none, q))
  banned-Connected p a reason now (ok q) e = once (banned p q a reason now e)
  banned-Connected p a reason now (err x) e = tt
  banned-Connected p a reason now panic e = tt

  -- From here on `q` is the pool in which the server's errors were reset.
  module _ (p : ConnectionPool) (a : Address) (free : is_banned p a ≡ ok false) where
    abbrev after_reset : ConnectionPool
    after_reset = reset_error_count a p

    reset_free : is_banned after_reset a ≡ ok false
    unfolding reset_error_count
    reset_free = is_banned_banlist after_reset p a refl ∙ free

    reset_count : error_count after_reset a ≡ 0
    unfolding error_count reset_error_count
    reset_count = rw (lookup-insert a a 0 p.error_counts, address_eq_refl a)

    from_reset :
        (r : Result Error (Option (Server L.Cache) × ConnectionPool))
        → Connected after_reset a r
        → Connected p a r
    from_reset (ok (some server, q)) (h, b, n) = (History-trans (once (checked_out p a)) h, b, n)
    from_reset (ok (none, q)) h = History-trans (once (checked_out p a)) h
    from_reset (err e) h = tt
    from_reset panic h = tt

    picked : (server : Server L.Cache) → Connected after_reset a (ok (some server, after_reset))
    picked server = (start after_reset, reset_free, reset_count)

    failed-Connected :
        (now : ℕ) (server : Server L.Cache)
        → Connected after_reset a (failed_check c L a now server after_reset)
    unfolding failed_check
    failed-Connected now server = banned-Connected after_reset a failed_health_check now _ refl

    reply-Connected :
        (o : Outcome (Unit {0})) (now : ℕ) (server : Server L.Cache)
        → Connected after_reset a (health_reply c L o a now server after_reset)
    reply-Connected (done _) now server = picked server
    reply-Connected (failed e) now server = failed-Connected now (mark_bad server)
    reply-Connected panicked now server = tt
    reply-Connected stuck now server = tt

    timeout-Connected :
        (cut : Option (Server L.Cache)) (now : ℕ) (server : Server L.Cache)
        → Connected after_reset a (health_timeout c L cut a now server after_reset)
    timeout-Connected none now server = reply-Connected _ now _
    timeout-Connected (some cut) now server = failed-Connected now (mark_bad cut)

    checked-Connected :
        (check : Bool) (t : Attempt L.Cache) (server : Server L.Cache)
        → Connected after_reset a (checked c L check t a server after_reset)
    unfolding run_health_check
    checked-Connected true t server = timeout-Connected t.timeout t.now server
    checked-Connected false t server = picked server

    required-Connected :
        (idle : Option ℕ) (force : Bool) (delay : ℕ) (t : Attempt L.Cache) (server : Server L.Cache)
        → Connected p a (
            require_healthcheck force idle delay >>= λ check.
            checked c L check t a server after_reset)
    required-Connected none force delay t server = tt
    required-Connected (some idle) force delay t server =
        from_reset _ (checked-Connected (force || ltb delay idle) t server)

    connected-Connected :
        (conn : Option (Server L.Cache)) (t : Attempt L.Cache) (force : Bool)
        → Connected p a (connected c L conn t a force p)
    connected-Connected none t force = banned-Connected p a failed_checkout t.now _ refl
    connected-Connected (some server) t force =
        required-Connected t.idle_ms force p.settings.healthcheck_delay t server

    looked-Connected :
        {X : Type 0} (r : Result Error X) (t : Attempt L.Cache) (force : Bool)
        → Connected p a (r >>= λ _. connected c L t.conn t a force p)
    looked-Connected (ok x) t force = connected-Connected t.conn t force
    looked-Connected (err e) t force = tt
    looked-Connected panic t force = tt

  entered-Connected :
      (p : ConnectionPool) (t : Attempt L.Cache) (a : Address)
      (r : Result Error (Option Bool × ConnectionPool))
      → Admitted p a r
      → Connected p a (r >>= entered c L t a)
  unfolding connect
  entered-Connected p t a (ok (some force, q)) (h, free) =
      moved _ (looked-Connected q a free (pool_state q (shard_of a) (index_of a)) t force)
    where
      moved :
          (r : Result Error (Option (Server L.Cache) × ConnectionPool))
          → Connected q a r
          → Connected p a r
      moved (ok (some server, r)) (h', b, n) = (History-trans h h', b, n)
      moved (ok (none, r)) h' = History-trans h h'
      moved (err e) h' = tt
      moved panic h' = tt
  entered-Connected p t a (ok (none, q)) h = h
  entered-Connected p t a (err e) h = tt
  entered-Connected p t a panic h = tt

  pub try_candidate-Connected :
      (p : ConnectionPool) (t : Attempt L.Cache) (a : Address)
      → IsSound p
      → Connected p a (try_candidate c L t a p)
  unfolding try_candidate
  try_candidate-Connected p t a s =
      entered-Connected p t a (admit a t.now p) (admit-Admitted p a t.now s)
