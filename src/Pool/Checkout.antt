-- ===== src/Pool/Checkout.antt =====
-- src/pool.rs, `get`: a connection to a server of a shard and a role. What bb8, the clock and the
-- network answer in each round of the loop is an argument.
pub mod Safe
pub mod Order
pub mod Refuses
pub mod Lends
pub mod Balance
use pgcat.Prelude.{
  ℕ, zero, suc, ◌-◌, Bool, true, false, ◌||◌, Option, none, some, List, [], ◌∷◌, ◌++◌, length,
  codes, ltb, ◌==◌, if◌then◌else◌,
}
use pgcat.Prelude.Result.{Result, ok, err, panic, ◌>>=◌}
use pgcat.Prelude.Sort.{sort_desc, retain}
use mathlib.Core.List.{reverse}
use pgcat.Errors.{Error, invalid_shard_id, all_servers_down}
use pgcat.Config.{Role, Address, shard_of, role_of, index_of, role_matches}
use pgcat.Wire.{Codec}
use pgcat.Server.State.{Lru, Server, Outcome, done, failed, panicked, stuck}
use pgcat.Server.Query.{query, mark_bad}
use pgcat.Pool.{
  State, ConnectionPool, LoadBalancingMode, random, least_outstanding_connections, DefaultShard,
  shard, random_shard, random_healthy, failed_checkout, failed_health_check,
}
use pgcat.Pool.Bans.{at, ban, is_banned, try_unban, error_count, reset_error_count}

-- `shards`, `valid_shard_id`, `pool_state`
unfoldable pub shards : ConnectionPool → ℕ
shards p = length p.databases

unfoldable pub valid_shard_id : ConnectionPool → Option ℕ → Bool
unfolding shards
valid_shard_id p none = true
valid_shard_id p (some id) = ltb id (shards p)

unfoldable pub pool_state : ConnectionPool → ℕ → ℕ → Result Error State
pool_state p shard_id server = at p.databases shard_id >>= λ row. at row server

unfoldable pub busy_of : State → ℕ
busy_of state =
    if ltb state.connections state.idle_connections
    then 0
    else state.connections - state.idle_connections

unfoldable pub busy_connection_count : ConnectionPool → Address → Result Error ℕ
unfolding pool_state busy_of
busy_connection_count p a = pool_state p (shard_of a) (index_of a) >>= λ state. ok (busy_of state)

abbrev pub invalid : Option ℕ → Result Error (Option ℕ)
invalid none = panic
invalid (some id) = err (invalid_shard_id id)

unfoldable pub effective_shard_id : ConnectionPool → Option ℕ → Result Error (Option ℕ)
unfolding shards valid_shard_id
effective_shard_id p id =
    if shards p == 1 then ok (some 0) else if valid_shard_id p id then ok id else invalid id

abbrev pub flatten : {A : Type 0} → List (List A) → List A
flatten [] = []
flatten (xs ∷ xss) = xs ++ flatten xss

-- The second `match` of `get`.
abbrev pub by_default : DefaultShard → (Address → ℕ) → List Address → List Address
by_default (shard id) errors candidates = retain (λ a. shard_of a == id) candidates
by_default random_shard errors candidates = candidates
by_default random_healthy errors candidates = sort_desc errors candidates

abbrev pub by_shard : Option ℕ → DefaultShard → (Address → ℕ) → List Address → List Address
by_shard (some id) default errors candidates = retain (λ a. shard_of a == id) candidates
by_shard none default errors candidates = by_default default errors candidates

-- Each candidate with its key. The comparison of a sort panics on an address out of range.
unfoldable pub keyed : (Address → Result Error ℕ) → List Address → Result Error (List (ℕ × Address))
keyed key [] = ok []
keyed key (a ∷ rest) = key a >>= λ n. keyed key rest >>= λ more. ok ((n, a) ∷ more)

abbrev pub addresses_of : List (ℕ × Address) → List Address
addresses_of [] = []
addresses_of ((n, a) ∷ rest) = a ∷ addresses_of rest

abbrev pub by_load : LoadBalancingMode → ConnectionPool → List Address → Result Error (List Address)
by_load random p candidates = ok candidates
by_load least_outstanding_connections p candidates =
    keyed (busy_connection_count p) candidates >>= λ pairs.
    ok (addresses_of (sort_desc (λ (x : ℕ × Address). x.0) pairs))

-- The list of which the loop takes the last one first.
unfoldable pub candidates_of :
    (List Address → List Address)
    → ConnectionPool
    → Option ℕ
    → Option Role
    → Result Error (List Address)
candidates_of shuffle p id role = by_load p.settings.load_balancing_mode p (
    by_shard id p.settings.default_shard (error_count p)
      (shuffle (retain (λ a. role_matches (role_of a) role) (flatten p.addresses))))

-- What the environment answers in one round: the time in seconds, the connection that bb8 lends if
-- any, the milliseconds since its last activity unless the clock went back, and the connection as it
-- is when a health check is cut off, if that takes too long.
pub record Attempt (C : Type 0) : Type 0 where
  pub now : ℕ
  pub conn : Option (Server C)
  pub idle_ms : Option ℕ
  pub timeout : Option (Server C)

-- A ban is skipped over, or tried to be lifted, in which case a health check is due.
abbrev pub unbanned : Bool × ConnectionPool → Option Bool × ConnectionPool
unbanned (true, q) = (some true, q)
unbanned (false, q) = (none, q)

unfoldable pub admit : Address → ℕ → ConnectionPool → Result Error (Option Bool × ConnectionPool)
admit a now p = is_banned p a >>= λ banned.
    let retried = try_unban a now p >>= λ r. ok (unbanned r) in
    if banned then retried else ok (some false, p)

abbrev pub require_healthcheck : Bool → Option ℕ → ℕ → Result Error Bool
require_healthcheck force none delay = panic
require_healthcheck force (some idle) delay = ok (force || ltb delay idle)

module _ (c : Codec) (L : Lru) where
  abbrev pub Conn : Type 0
  Conn = Server (L.Cache)

  unfoldable pub failed_check :
      Address → ℕ → Conn → ConnectionPool → Result Error (Option Conn × ConnectionPool)
  failed_check a now server p = ban a failed_health_check now p >>= λ q. ok (none, q)

  -- The last clause does not arise: the fuel of `query` is enough, so that it is never `stuck`
  -- (Server/Query/Sent).
  abbrev pub health_reply :
      Outcome (Unit {0})
      → Address
      → ℕ
      → Conn
      → ConnectionPool
      → Result Error (Option Conn × ConnectionPool)
  health_reply (done _) a now server p = ok (some server, p)
  health_reply (failed e) a now server p = failed_check a now (mark_bad server) p
  health_reply panicked a now server p = panic
  health_reply stuck a now server p = panic

  abbrev pub health_timeout :
      Option Conn
      → Address
      → ℕ
      → Conn
      → ConnectionPool
      → Result Error (Option Conn × ConnectionPool)
  health_timeout (some cut) a now server p = failed_check a now (mark_bad cut) p
  health_timeout none a now server p =
      let (outcome, server') = query c L (codes ";") server in health_reply outcome a now server' p

  pub run_health_check :
      Attempt L.Cache
      → Address
      → Conn
      → ConnectionPool
      → Result Error (Option Conn × ConnectionPool)
  unfolding failed_check
  run_health_check t a server p = health_timeout t.timeout a t.now server p

  abbrev pub checked :
      Bool
      → Attempt L.Cache
      → Address
      → Conn
      → ConnectionPool
      → Result Error (Option Conn × ConnectionPool)
  checked true t a server p = run_health_check t a server p
  checked false t a server p = ok (some server, p)

  abbrev pub connected :
      Option Conn
      → Attempt L.Cache
      → Address
      → Bool
      → ConnectionPool
      → Result Error (Option Conn × ConnectionPool)
  connected none t a force p = ban a failed_checkout t.now p >>= λ q. ok (none, q)
  connected (some server) t a force p =
      require_healthcheck force t.idle_ms p.settings.healthcheck_delay >>= λ check.
      checked check t a server (reset_error_count a p)

  unfoldable pub connect :
      Attempt L.Cache
      → Address
      → Bool
      → ConnectionPool
      → Result Error (Option Conn × ConnectionPool)
  connect t a force p = pool_state p (shard_of a) (index_of a) >>= λ _. connected t.conn t a force p

  abbrev pub entered :
      Attempt L.Cache
      → Address
      → Option Bool × ConnectionPool
      → Result Error (Option Conn × ConnectionPool)
  entered t a (none, q) = ok (none, q)
  entered t a (some force, q) = connect t a force q

  -- One round of the loop: `none` is `continue`.
  unfoldable pub try_candidate :
      Attempt L.Cache → Address → ConnectionPool → Result Error (Option Conn × ConnectionPool)
  unfolding admit connect
  try_candidate t a p = admit a t.now p >>= λ r. entered t a r

  abbrev pub Found : Type 0
  Found = Option (Conn × Address) × ConnectionPool

  abbrev pub or_next :
      Address
      → (ConnectionPool → Result Error Found)
      → Option Conn × ConnectionPool
      → Result Error Found
  or_next a more (some server, q) = ok (some (server, a), q)
  or_next a more (none, q) = more q

  module _ (attempt : ℕ → Address → Attempt L.Cache) where
    -- The candidates in the order in which they are popped.
    pub try_all : List Address → ℕ → ConnectionPool → Result Error Found
    unfolding try_candidate
    try_all [] round p = ok (none, p)
    try_all (a ∷ rest) round p =
        try_candidate (attempt round a) a p >>= or_next a (try_all rest (suc round))

    abbrev pub finish :
        ConnectionPool → Result Error Found → Result Error (Conn × Address) × ConnectionPool
    finish p (ok (some found, q)) = (ok found, q)
    finish p (ok (none, q)) = (err all_servers_down, q)
    finish p (err e) = (err e, p)
    finish p panic = (panic, p)

    -- `shuffle` is that of the crate rand.
    unfoldable pub get :
        (List Address → List Address)
        → Option ℕ
        → Option Role
        → ConnectionPool
        → Result Error (Conn × Address) × ConnectionPool
    unfolding try_all candidates_of effective_shard_id
    get shuffle id role p = finish p (
        effective_shard_id p id >>= λ shard_id.
        candidates_of shuffle p shard_id role >>= λ candidates. try_all (reverse candidates) 0 p)
