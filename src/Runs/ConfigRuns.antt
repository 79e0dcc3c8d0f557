-- ===== src/Runs/ConfigRuns.antt =====
-- A concrete input for the theorem on the checks of src/config.rs.
use pgcat.Prelude.{true, false, none, some, [], ◌∷◌, codes, Bool}
use pgcat.Config.{replica}
use pgcat.Config.Validate.{Text, ServerConfig, Shard, User, Pool, Config, shard, config_validate}
use pgcat.Config.Validate.Verdicts.{Decides}
use pgcat.Config.Validate.Whole.{IsConfig, config_validate-Decides}

abbrev all : Text → Bool
all text = true

abbrev server : Text → ServerConfig
server host = record { host = host; port = 5432; role = replica }

abbrev only_shard : Shard
only_shard = record {
  database = codes "db";
  servers = server (codes "a") ∷ (server (codes "b") ∷ []);
}

abbrev user : User
user = record {
  username = codes "u";
  password = some (codes "p");
  pool_size = 5;
  min_pool_size = some 3;
}

abbrev pool : Pool
pool = record {
  default_role = codes "any";
  query_parser_enabled = true;
  query_parser_read_write_splitting = true;
  automatic_sharding_key = some (codes "t.id");
  sharding_key_regex = none;
  shard_id_regex = none;
  default_shard = shard 0;
  auth_query = none;
  auth_query_user = none;
  auth_query_password = none;
  db_activity_based_routing = false;
  db_activity_init_delay = 0;
  db_activity_ttl = 0;
  table_mutation_cache_ms_ttl = 0;
  plugins = false;
  shards = (codes "0", only_shard) ∷ [];
  users = (codes "0", user) ∷ [];
}

abbrev config : Config
config = record {
  general = record {
    tls_certificate = none;
    tls_private_key = none;
    auth_query = none;
    auth_query_user = none;
    auth_query_password = none;
  };
  pools = (codes "db", pool) ∷ [];
}

config_validate-Decides_example :
    Decides (IsConfig all all all config) (config_validate all all all config)
config_validate-Decides_example = config_validate-Decides all all all config
