-- ===== src/Router.antt =====
-- src/query_router.rs: where the queries of one client go.
pub mod Command
pub mod Infer
pub mod FromBind
pub mod Syntax
pub mod Parse
pub mod Plugins
pub mod Tables
pub mod Selection
pub mod Trees
use pgcat.Prelude.{
  ℕ, ◌%◌, ◌^◌, ◌-◌, ◌*◌, ◌+◌, ◌≤◌, Bool, true, false, Option, none, some, List, [], ◌∷◌, ltb, leb,
  ◌==◌, if◌then◌else◌,
}
use pgcat.Prelude.Result.{Result, ok, err, panic, ◌>>=◌}
use pgcat.Errors.{Error}
use pgcat.Config.{Role}
use pgcat.Pool.{PoolSettings}
use pgcat.Sharding
use pgcat.Sharding.{Sharder}

pub record QueryRouter : Type 0 where
  pub active_shard : Option ℕ
  pub active_role : Option Role
  pub query_parser_enabled : Option Bool
  pub primary_reads_enabled : Option Bool
  pub pool_settings : PoolSettings
  -- Positions in a Bind message, as 16-bit patterns.
  pub placeholders : List ℕ

-- `new`, with the default settings.
unfoldable pub router_new : PoolSettings → QueryRouter
router_new settings = record {
  active_shard = none;
  active_role = none;
  query_parser_enabled = none;
  primary_reads_enabled = none;
  pool_settings = settings;
  placeholders = [];
}

unfoldable pub update_pool_settings : PoolSettings → QueryRouter → QueryRouter
update_pool_settings settings r = record r { pool_settings = settings }

unfoldable pub set_default_role : QueryRouter → QueryRouter
set_default_role r = record r { active_role = r.pool_settings.default_role }

unfoldable pub set_shard : Option ℕ → QueryRouter → QueryRouter
set_shard shard r = record r { active_shard = shard }

abbrev pub or_setting : Option Bool → Bool → Bool
or_setting none setting = setting
or_setting (some value) setting = value

-- `query_parser_enabled()` and `primary_reads_enabled()`
unfoldable pub parser_enabled : QueryRouter → Bool
parser_enabled r = or_setting r.query_parser_enabled r.pool_settings.query_parser_enabled

unfoldable pub primary_reads : QueryRouter → Bool
primary_reads r = or_setting r.primary_reads_enabled r.pool_settings.primary_reads_enabled

-- `Sharder::new` over the pool's settings.
abbrev pub sharder : QueryRouter → Sharder
sharder r = record {
  shards = r.pool_settings.shards;
  sharding_function = r.pool_settings.sharding_function;
}

module _ (digest : List ℕ → List ℕ) where
  unfoldable pub set_sharding_key : ℕ → QueryRouter → Result ⊥ (ℕ × QueryRouter)
  unfolding set_shard
  set_sharding_key key r =
      Sharding.shard digest (sharder r) key >>= λ shard. ok (shard, set_shard (some shard) r)

abbrev pub unwrap : {A : Type 0} → Option A → Result ⊥ A
unwrap none = panic
unwrap (some a) = ok a

abbrev pub unwrap_ok : {A : Type 0} → Result Error A → Result ⊥ A
unwrap_ok (ok a) = ok a
unwrap_ok _ = panic
