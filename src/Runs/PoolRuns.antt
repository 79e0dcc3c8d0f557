-- ===== src/Runs/PoolRuns.antt =====
-- Concrete inputs for the theorems on src/pool.rs.
use pgcat.Prelude.{
  ℕ, some, ◌≡◌, refl, true, false, none, List, [], ◌∷◌, codes, arith, if◌then◌else◌,
}
use pgcat.Prelude.Result.{ok}
use pgcat.Config.{Address, address, nil, replica, primary, role_eq, role_of, address_eq}
use pgcat.Sharding.{pg_bigint_hash_function}
use pgcat.Pool.{
  ConnectionPool, PoolSettings, State, transaction, least_outstanding_connections, shard,
  failed_checkout, pos,
}
use pgcat.Pool.Checkout.{Attempt, shards, candidates_of, get}
use pgcat.Pool.Checkout.Order.{IsWanted}
use pgcat.Pool.Checkout.Refuses.{Refuses}
use pgcat.Pool.Checkout.Balance.{Balanced, candidates_of-Balanced}
use pgcat.Pool.Checkout.Lends.{CheckedOut, get-CheckedOut}
use pgcat.Runs.{codec, cache}
use pgcat.Runs.ServerRuns.{dirty}
use pgcat.Pool.Bans.{ban, is_banned, try_unban, count_error, increment_error_count, error_count}
use pgcat.Pool.Bans.Retry.{Tried, try_unban-Tried}
use pgcat.Pool.Bans.History.{History, start, next, banned, primary_never_banned}
use pgcat.Pool.Bans.Effects.{IsValid, is_banned-ban}

abbrev pub first : Address
first = address 1 (codes "10.0.0.1") 5432 0 (codes "db") replica 0 1 (codes "u") (codes "p") nil

abbrev second : Address
second = address 2 (codes "10.0.0.2") 5432 0 (codes "db") replica 1 2 (codes "u") (codes "p") nil

abbrev leader : Address
leader = address 0 (codes "10.0.0.3") 5432 0 (codes "db") primary 0 0 (codes "u") (codes "p") nil

-- A pool that balances by load and never bans for longer than a minute.
abbrev pub settings : PoolSettings
settings = record {
  pool_mode = transaction;
  load_balancing_mode = least_outstanding_connections;
  shards = 1;
  default_role = none;
  query_parser_enabled = true;
  query_parser_max_length = none;
  query_parser_read_write_splitting = true;
  primary_reads_enabled = true;
  db_activity_based_routing = false;
  sharding_function = pg_bigint_hash_function;
  automatic_sharding_key = none;
  healthcheck_delay = 30000;
  ban_time = pos 60;
  sharding_key_regex = none;
  shard_id_regex = none;
  default_shard = shard 0;
  regex_search_limit = 1000;
}

abbrev states : List (List State)
states =
    (record { connections = 5; idle_connections = 1 }
      ∷ (record { connections = 5; idle_connections = 3 }
          ∷ (record { connections = 2; idle_connections = 2 } ∷ [])))
    ∷ []

abbrev pool : ConnectionPool
pool = record {
  addresses = (leader ∷ (first ∷ (second ∷ []))) ∷ [];
  banlist = ((second, (failed_checkout, 100)) ∷ []) ∷ [];
  error_counts = [];
  settings = settings;
  databases = states;
}

is_banned-ban_example :
    (q : ConnectionPool) × (ban first failed_checkout 120 pool ≡ ok q)
    × (is_banned q second ≡ (
        if role_eq (role_of first) primary
        then is_banned pool second
        else (if address_eq first second then ok true else is_banned pool second)))
is_banned-ban_example = is_banned-ban pool first second failed_checkout 120 (omega arith)

try_unban-Tried_example : Tried pool second (try_unban second 161 pool)
try_unban-Tried_example =
    try_unban-Tried pool second 161 (omega arith) (omega arith) ((refl, tt), tt)

abbrev pub fresh : ConnectionPool
fresh = record {
  addresses = (leader ∷ (first ∷ (second ∷ []))) ∷ [];
  banlist = [] ∷ [];
  error_counts = [];
  settings = settings;
  databases = states;
}

abbrev banned_second : ConnectionPool
banned_second = record {
  addresses = (leader ∷ (first ∷ (second ∷ []))) ∷ [];
  banlist = ((second, (failed_checkout, 100)) ∷ []) ∷ [];
  error_counts = (second, 1) ∷ [];
  settings = settings;
  databases = states;
}

ban_runs : ban second failed_checkout 100 fresh ≡ ok banned_second
unfolding ban count_error increment_error_count error_count
ban_runs = refl

past : History fresh banned_second
past =
    next fresh fresh banned_second (start fresh)
      (banned fresh banned_second second failed_checkout 100 ban_runs)

primary_never_banned_example : (is_banned banned_second leader ≡ ok false) × IsValid banned_second
primary_never_banned_example =
    primary_never_banned fresh banned_second leader (refl, tt) past refl (omega arith)

-- Every attempt to connect succeeds, on a server that has been idle for a second.
abbrev pub attempt : ℕ → Address → Attempt cache.Cache
attempt n a = record { now = 200; conn = some dirty; idle_ms = some 1000; timeout = some dirty }

get-CheckedOut_example :
    let r = get codec cache attempt (λ xs. xs) none (some replica) fresh in
    CheckedOut codec cache attempt (IsWanted (some 0) (some replica)) fresh r
    × Refuses codec cache attempt fresh none r.0
unfolding shards
get-CheckedOut_example =
    get-CheckedOut codec cache attempt (λ xs. xs) (λ P xs h. h) (some replica) fresh none
      ((tt, tt), tt)

candidates_of-Balanced_example :
    Balanced fresh (some 0) none (candidates_of (λ xs. xs) fresh none none)
candidates_of-Balanced_example =
    candidates_of-Balanced (λ xs. xs) fresh none none (λ a xs m. m) refl
