-- ===== src/Pool/Checkout/Refuses.antt =====
-- src/pool.rs: the errors of a checkout.
use pgcat.Prelude.{
  ℕ, suc, ◌≡◌, refl, ◌≤◌, ◌⊎◌, inl, inr, Bool, true, false, Option, none, some, List, [], ◌∷◌,
  length, ◌==◌, if◌then◌else◌, arith,
}
use pgcat.Prelude.Result.{Result, ok, err, panic, ◌>>=◌}
use mathlib.Core.List.{reverse}
use pgcat.Errors.{Error, invalid_shard_id, all_servers_down}
use pgcat.Config.{Role, Address, shard_of, role_of, index_of, role_eq, primary, address_Eq}
use pgcat.Prelude.Dict.{lookup}
use pgcat.Wire.{Codec}
use pgcat.Server.State.{Lru, Server, Outcome, done, failed, panicked, stuck}
use pgcat.Server.Query.{mark_bad}
use pgcat.Pool.{
  ConnectionPool, BanReason, BanList, LoadBalancingMode, random, least_outstanding_connections,
  failed_checkout, failed_health_check,
}
use pgcat.Pool.Bans.{
  at, or_panic, ban, change_bans, is_banned, try_unban, try_replica, try_one, exceeded,
  count_replicas,
}
use pgcat.Pool.Checkout.{
  Attempt, Found, shards, valid_shard_id, effective_shard_id, invalid, pool_state, keyed, by_load,
  busy_of, busy_connection_count, candidates_of, unbanned, admit, require_healthcheck, failed_check,
  health_reply, health_timeout, run_health_check, checked, connected, connect, entered,
  try_candidate, or_next, try_all, finish, get,
}

-- A result that is no error; it may be a panic.
abbrev NoError : {A : Type 0} → Result Error A → Type 0
NoError (err e) = ⊥
NoError _ = Unit

then-NoError :
    {A B : Type 0} (r : Result Error A) (f : A → Result Error B)
    → NoError r
    → ((a : A) → NoError (f a))
    → NoError (r >>= f)
then-NoError (ok a) f h k = k a
then-NoError (err e) f h k = h
then-NoError panic f h k = tt

if-NoError :
    {A : Type 0} (b : Bool) (r s : Result Error A)
    → NoError r
    → NoError s
    → NoError (if b then r else s)
if-NoError true r s h g = h
if-NoError false r s h g = g

or_panic-NoError : {A : Type 0} (o : Option A) → NoError (or_panic o)
or_panic-NoError none = tt
or_panic-NoError (some a) = tt

change_bans-NoError :
    (f : BanList → BanList) (i : ℕ) (p : ConnectionPool) → NoError (change_bans f i p)
change_bans-NoError f i p = then-NoError (at p.banlist i) _ (or_panic-NoError _) (λ l. tt)

ban-NoError :
    (a : Address) (reason : BanReason) (now : ℕ) (p : ConnectionPool) → NoError (ban a reason now p)
unfolding ban
ban-NoError a reason now p =
    if-NoError (role_eq (role_of a) primary) _ _ tt (change_bans-NoError _ (shard_of a) _)

is_banned-NoError : (p : ConnectionPool) (a : Address) → NoError (is_banned p a)
unfolding is_banned
is_banned-NoError p a = then-NoError (at p.banlist (shard_of a)) _ (or_panic-NoError _) (λ l. tt)

try_one-NoError :
    (a : Address) (now : ℕ) (p : ConnectionPool) (o : Option (BanReason × ℕ))
    → NoError (try_one a now p o)
try_one-NoError a now p none = tt
try_one-NoError a now p (some entry) =
    if-NoError (exceeded now p.settings.ban_time entry) _ (ok (false, p))
      (then-NoError (change_bans _ (shard_of a) p) _ (change_bans-NoError _ (shard_of a) p)
        (λ q. tt))
      tt

try_replica-NoError :
    (a : Address) (now : ℕ) (p : ConnectionPool) (servers : List Address) (bans : BanList)
    → NoError (try_replica a now p servers bans)
try_replica-NoError a now p servers bans =
    if-NoError (length bans == count_replicas servers) _ (try_one a now p (lookup a bans))
      (then-NoError (change_bans (λ _. []) (shard_of a) p) (λ q. ok (true, q))
        (change_bans-NoError (λ _. []) (shard_of a) p) (λ q. tt))
      (try_one-NoError a now p (lookup a bans))

try_unban-NoError : (a : Address) (now : ℕ) (p : ConnectionPool) → NoError (try_unban a now p)
unfolding try_unban
try_unban-NoError a now p = if-NoError (role_eq (role_of a) primary) (ok (true, p)) _ tt (
    then-NoError (at p.addresses (shard_of a)) _ (or_panic-NoError _) λ servers.
      then-NoError (at p.banlist (shard_of a)) (try_replica a now p servers) (or_panic-NoError _)
        (try_replica-NoError a now p servers))

admit-NoError : (a : Address) (now : ℕ) (p : ConnectionPool) → NoError (admit a now p)
unfolding admit
admit-NoError a now p = then-NoError (is_banned p a) _ (is_banned-NoError p a) λ banned.
    if-NoError banned _ _
      (then-NoError (try_unban a now p) (λ r. ok (unbanned r)) (try_unban-NoError a now p)
        (λ r. tt))
      tt

pool_state-NoError : (p : ConnectionPool) (i j : ℕ) → NoError (pool_state p i j)
unfolding pool_state
pool_state-NoError p i j =
    then-NoError (at p.databases i) _ (or_panic-NoError _) (λ row. or_panic-NoError _)

keyed-NoError :
    (key : Address → Result Error ℕ) (xs : List Address)
    → ((a : Address) → NoError (key a))
    → NoError (keyed key xs)
unfolding keyed
keyed-NoError key [] h = tt
keyed-NoError key (a ∷ xs) h = then-NoError (key a) _ (h a) λ n.
    then-NoError (keyed key xs) (λ more. ok ((n, a) ∷ more)) (keyed-NoError key xs h) (λ more. tt)

busy-NoError : (p : ConnectionPool) (a : Address) → NoError (busy_connection_count p a)
unfolding busy_connection_count
busy-NoError p a =
    then-NoError (pool_state p (shard_of a) (index_of a)) (λ state. ok (busy_of state))
      (pool_state-NoError p (shard_of a) (index_of a)) (λ state. tt)

by_load-NoError :
    (mode : LoadBalancingMode) (p : ConnectionPool) (xs : List Address)
    → NoError (by_load mode p xs)
by_load-NoError random p xs = tt
by_load-NoError least_outstanding_connections p xs =
    then-NoError (keyed (busy_connection_count p) xs) _ (keyed-NoError _ xs (busy-NoError p))
      (λ pairs. tt)

module _ (c : Codec) (L : Lru) where
  failed-NoError :
      (a : Address) (now : ℕ) (server : Server L.Cache) (p : ConnectionPool)
      → NoError (failed_check c L a now server p)
  unfolding failed_check
  failed-NoError a now server p =
      then-NoError (ban a failed_health_check now p) (λ q. ok (none, q)) (ban-NoError a _ now p)
        (λ q. tt)

  reply-NoError :
      (o : Outcome (Unit {0})) (a : Address) (now : ℕ) (server : Server L.Cache)
      (p : ConnectionPool)
      → NoError (health_reply c L o a now server p)
  reply-NoError (done _) a now server p = tt
  reply-NoError (failed e) a now server p = failed-NoError a now (mark_bad server) p
  reply-NoError panicked a now server p = tt
  reply-NoError stuck a now server p = tt

  timeout-NoError :
      (cut : Option (Server L.Cache)) (a : Address) (now : ℕ) (server : Server L.Cache)
      (p : ConnectionPool)
      → NoError (health_timeout c L cut a now server p)
  timeout-NoError (some cut) a now server p = failed-NoError a now (mark_bad cut) p
  timeout-NoError none a now server p = reply-NoError _ a now _ p

  checked-NoError :
      (b : Bool) (t : Attempt L.Cache) (a : Address) (server : Server L.Cache) (p : ConnectionPool)
      → NoError (checked c L b t a server p)
  unfolding run_health_check
  checked-NoError true t a server p = timeout-NoError t.timeout a t.now server p
  checked-NoError false t a server p = tt

  require-NoError :
      (force : Bool) (idle : Option ℕ) (delay : ℕ) → NoError (require_healthcheck force idle delay)
  require-NoError force none delay = tt
  require-NoError force (some idle) delay = tt

  connected-NoError :
      (o : Option (Server L.Cache)) (t : Attempt L.Cache) (a : Address) (force : Bool)
      (p : ConnectionPool)
      → NoError (connected c L o t a force p)
  connected-NoError none t a force p =
      then-NoError (ban a failed_checkout t.now p) (λ q. ok (none, q)) (ban-NoError a _ t.now p)
        (λ q. tt)
  connected-NoError (some server) t a force p =
      then-NoError (require_healthcheck force t.idle_ms p.settings.healthcheck_delay) _
        (require-NoError force t.idle_ms _) (λ check. checked-NoError check t a server _)

  entered-NoError :
      (t : Attempt L.Cache) (a : Address) (r : Option Bool × ConnectionPool)
      → NoError (entered c L t a r)
  unfolding connect
  entered-NoError t a (none, q) = tt
  entered-NoError t a (some force, q) =
      then-NoError (pool_state q (shard_of a) (index_of a)) _
        (pool_state-NoError q (shard_of a) (index_of a)) (λ s. connected-NoError t.conn t a force q)

  try_candidate-NoError :
      (t : Attempt L.Cache) (a : Address) (p : ConnectionPool) → NoError (try_candidate c L t a p)
  unfolding try_candidate
  try_candidate-NoError t a p =
      then-NoError (admit a t.now p) (entered c L t a) (admit-NoError a t.now p)
        (entered-NoError t a)

  module _ (attempt : ℕ → Address → Attempt L.Cache) where
    or_next-NoError :
        (a : Address) (more : ConnectionPool → Result Error (Found c L))
        → ((q : ConnectionPool) → NoError (more q))
        → (r : Option (Server L.Cache) × ConnectionPool) → NoError (or_next c L a more r)
    or_next-NoError a more h (some server, q) = tt
    or_next-NoError a more h (none, q) = h q

    try_all-NoError :
        (order : List Address) (round : ℕ) (p : ConnectionPool)
        → NoError (try_all c L attempt order round p)
    unfolding try_all
    try_all-NoError [] round p = tt
    try_all-NoError (a ∷ rest) round p =
        then-NoError (try_candidate c L (attempt round a) a p)
          (or_next c L a (try_all c L attempt rest (suc round)))
          (try_candidate-NoError (attempt round a) a p)
          (or_next-NoError a (try_all c L attempt rest (suc round))
            (try_all-NoError rest (suc round)))

    -- A shard that is asked for and does not exist.
    abbrev IsMissing : ConnectionPool → Option ℕ → Error → Type 0
    IsMissing p id e = (n : ℕ) × (id ≡ some n) × (length p.databases ≤ n) × (e ≡ invalid_shard_id n)

    -- The errors of a checkout.
    abbrev pub Refuses :
        ConnectionPool → Option ℕ → Result Error (Server L.Cache × Address) → Type 0
    Refuses p id (err e) = IsMissing p id e ⊎ (e ≡ all_servers_down)
    Refuses p id _ = Unit

    abbrev Misses : {A : Type 0} → ConnectionPool → Option ℕ → Result Error A → Type 0
    Misses p id (err e) = IsMissing p id e
    Misses p id _ = Unit

    NoError-Misses :
        {A : Type 0} (p : ConnectionPool) (id : Option ℕ) (r : Result Error A)
        → NoError r
        → Misses p id r
    NoError-Misses p id (ok a) h = tt
    NoError-Misses p id (err e) h = elim h [ ]
    NoError-Misses p id panic h = tt

    then-Misses :
        {A B : Type 0} (p : ConnectionPool) (id : Option ℕ) (r : Result Error A)
        (f : A → Result Error B)
        → Misses p id r
        → ((a : A) → NoError (f a))
        → Misses p id (r >>= f)
    then-Misses p id (ok a) f h k = NoError-Misses p id (f a) (k a)
    then-Misses p id (err e) f h k = h
    then-Misses p id panic f h k = tt

    split-Misses :
        (p : ConnectionPool) (id : Option ℕ) (one valid : Bool)
        → valid_shard_id p id ≡ valid
        → Misses p id (if one then ok (some 0) else if valid then ok id else invalid id)
    unfolding valid_shard_id shards
    split-Misses p id true valid e = tt
    split-Misses p id false true e = tt
    split-Misses p none false false e = tt
    split-Misses p (some n) false false e = (n, refl, ground (arith, e), refl)

    finish-Refuses :
        (p : ConnectionPool) (id : Option ℕ) (r : Result Error (Found c L))
        → Misses p id r
        → Refuses p id (finish c L attempt p r).0
    finish-Refuses p id (ok (some found, q)) h = tt
    finish-Refuses p id (ok (none, q)) h = inr refl
    finish-Refuses p id (err e) h = inl h
    finish-Refuses p id panic h = tt

    pub get-Refuses :
        (shuffle : List Address → List Address) (id : Option ℕ) (role : Option Role)
        (p : ConnectionPool)
        → Refuses p id (get c L attempt shuffle id role p).0
    unfolding get effective_shard_id candidates_of
    get-Refuses shuffle id role p = finish-Refuses p id _ (
        then-Misses p id (effective_shard_id p id) _
          (split-Misses p id (shards p == 1) (valid_shard_id p id) refl)
          λ shard_id.
            then-NoError (candidates_of shuffle p shard_id role) _
              (by_load-NoError p.settings.load_balancing_mode p _)
              (λ candidates. try_all-NoError (reverse candidates) 0 p))
