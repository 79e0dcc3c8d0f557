-- ===== src/Pool.antt =====
-- src/pool.rs, the state that a pool keeps about its servers.
pub mod Bans
pub mod Checkout
pub mod Statements
use pgcat.Prelude.{ℕ, Bool, List, Option}
use pgcat.Config.{Role, Address}
use pgcat.Sharding.{ShardingFunction}

-- A signed 64-bit number of seconds.
pub data ℤ : Type 0 where
  pos negsuc : ℕ → ℤ

pub data BanReason : Type 0 where
  failed_health_check message_send_failed message_receive_failed failed_checkout statement_timeout :
      BanReason
  admin_ban : ℤ → BanReason

-- A BanList: an address, why it is banned, and since when, in seconds since 1970.
abbrev pub BanList : Type 0
BanList = List (Address × (BanReason × ℕ))

pub data PoolMode : Type 0 where
  transaction session : PoolMode

pub data LoadBalancingMode : Type 0 where
  random least_outstanding_connections : LoadBalancingMode

pub data DefaultShard : Type 0 where
  shard : ℕ → DefaultShard
  random_shard random_healthy : DefaultShard

-- A compiled regular expression of the crate regex, as what `captures` and `get(1)` find in a text.
abbrev pub Regex : Type 0
Regex = List ℕ → Option (List ℕ)

-- The settings that routing and checkouts read.
pub record PoolSettings : Type 0 where
  pub pool_mode : PoolMode
  pub load_balancing_mode : LoadBalancingMode
  pub shards : ℕ
  pub default_role : Option Role
  pub query_parser_enabled : Bool
  pub query_parser_max_length : Option ℕ
  pub query_parser_read_write_splitting : Bool
  pub primary_reads_enabled : Bool
  pub db_activity_based_routing : Bool
  pub sharding_function : ShardingFunction
  pub automatic_sharding_key : Option (List ℕ)
  pub healthcheck_delay : ℕ
  pub ban_time : ℤ
  pub sharding_key_regex : Option Regex
  pub shard_id_regex : Option Regex
  pub default_shard : DefaultShard
  pub regex_search_limit : ℕ

-- What bb8 reports of the pool of one server.
pub record State : Type 0 where
  pub connections : ℕ
  pub idle_connections : ℕ

pub record ConnectionPool : Type 0 where
  pub databases : List (List State)
  pub addresses : List (List Address)
  pub banlist : List BanList
  -- The error counter of each address; a missing one is at 0. All clones of an address share it.
  pub error_counts : List (Address × ℕ)
  pub settings : PoolSettings
