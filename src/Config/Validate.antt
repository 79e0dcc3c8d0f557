-- ===== src/Config/Validate.antt =====
-- src/config.rs, the checks on a configuration that has been read. Whether a regular expression compiles and
-- what a certificate file holds is the environment's.
pub mod Verdicts
pub mod Servers
pub mod Accepted
pub mod Whole
use pgcat.Prelude.{
  ℕ, zero, suc, ◌+◌, Bool, true, false, ◌&&◌, ◌||◌, not, Option, none, some, List, [], ◌∷◌, codes,
  length, ltb, leb, ◌==◌, if◌then◌else◌, text_eq,
}
use pgcat.Prelude.Parse.{parse_usize}
use pgcat.Prelude.Result.{Result, ok, err, panic, ◌>>=◌, ◌>>◌}
use pgcat.Errors.{Error, bad_config}
use pgcat.Config.{Role, primary, role_eq}

abbrev pub Text : Type 0
Text = List ℕ

pub record ServerConfig : Type 0 where
  pub host : Text
  pub port : ℕ
  pub role : Role

pub record Shard : Type 0 where
  pub database : Text
  pub servers : List ServerConfig

-- What the checks read of a user.
pub record User : Type 0 where
  pub username : Text
  pub password : Option Text
  pub pool_size : ℕ
  pub min_pool_size : Option ℕ

pub data DefaultShard : Type 0 where
  shard : ℕ → DefaultShard
  random random_healthy : DefaultShard

-- What the checks read of a pool: `plugins` is whether there are any, and the maps are in their order.
pub record Pool : Type 0 where
  pub default_role : Text
  pub query_parser_enabled : Bool
  pub query_parser_read_write_splitting : Bool
  pub automatic_sharding_key : Option Text
  pub sharding_key_regex : Option Text
  pub shard_id_regex : Option Text
  pub default_shard : DefaultShard
  pub auth_query : Option Text
  pub auth_query_user : Option Text
  pub auth_query_password : Option Text
  pub db_activity_based_routing : Bool
  pub db_activity_init_delay : ℕ
  pub db_activity_ttl : ℕ
  pub table_mutation_cache_ms_ttl : ℕ
  pub plugins : Bool
  pub shards : List (Text × Shard)
  pub users : List (Text × User)

pub record General : Type 0 where
  pub tls_certificate : Option Text
  pub tls_private_key : Option Text
  pub auth_query : Option Text
  pub auth_query_user : Option Text
  pub auth_query_password : Option Text

pub record Config : Type 0 where
  pub general : General
  pub pools : List (Text × Pool)

abbrev pub is_some : {A : Type 0} → Option A → Bool
is_some none = false
is_some (some a) = true

-- `if !test { return Err(Error::BadConfig) }`
abbrev pub require : Bool → Result Error (Unit {0})
require true = ok tt
require false = err bad_config

abbrev pub for_each :
    {A : Type 0} → (A → Result Error (Unit {0})) → List A → Result Error (Unit {0})
for_each f [] = ok tt
for_each f (a ∷ as') = f a >> for_each f as'

abbrev pub fits : Option ℕ → ℕ → Bool
fits none pool_size = true
fits (some min_pool_size) pool_size = leb min_pool_size pool_size

unfoldable pub user_validate : User → Result Error (Unit {0})
user_validate user = require (fits user.min_pool_size user.pool_size)

-- The derived equality, which the HashSet goes by.
abbrev pub server_eq : ServerConfig → ServerConfig → Bool
server_eq a b = text_eq a.host b.host && ((a.port == b.port) && role_eq a.role b.role)

abbrev pub contains : ServerConfig → List ServerConfig → Bool
contains a [] = false
contains a (b ∷ bs) = server_eq a b || contains a bs

-- `dup_check` and `primary_count`, the servers taken in their order.
unfoldable pub insert_all : List ServerConfig → List ServerConfig → List ServerConfig
insert_all seen [] = seen
insert_all seen (a ∷ as') =
    if contains a seen then insert_all seen as' else insert_all (a ∷ seen) as'

unfoldable pub count_primaries : List ServerConfig → ℕ
count_primaries [] = 0
count_primaries (a ∷ as') =
    if role_eq a.role primary then suc (count_primaries as') else count_primaries as'

abbrev pub is_empty : {A : Type 0} → List A → Bool
is_empty [] = true
is_empty (a ∷ as') = false

unfoldable pub shard_validate : Shard → Result Error (Unit {0})
unfolding insert_all count_primaries
shard_validate s = do
  require (not (is_empty s.servers))
  require (leb (count_primaries s.servers) 1)
  require (length (insert_all [] s.servers) == length s.servers)

abbrev pub is_role : Text → Bool
is_role role =
    text_eq role (codes "any") || (text_eq role (codes "primary") || text_eq role (codes "replica"))

abbrev pub indexed_shard : Text × Shard → Result Error (Unit {0})
indexed_shard (index, s) = require (is_some (parse_usize index)) >> shard_validate s

-- `key.replace` of the quotes, and how many parts `split('.')` gives.
unfoldable pub unquoted : Text → Text
unquoted [] = []
unquoted (b ∷ bs) = if b == b'"' then unquoted bs else b ∷ unquoted bs

unfoldable pub parts : Text → ℕ
parts [] = 1
parts (b ∷ bs) = if b == b'.' then suc (parts bs) else parts bs

abbrev pub qualified : Text → Result Error (Option Text)
qualified key = if parts key == 2 then ok (some key) else err bad_config

unfoldable pub key_checked : Option Text → Result Error (Option Text)
unfolding unquoted parts
key_checked none = ok none
key_checked (some key) = qualified (unquoted key)

abbrev pub default_exists : DefaultShard → List (Text × Shard) → Bool
default_exists (shard n) shards = ltb n (length shards)
default_exists _ shards = true

abbrev pub delays_given : Pool → Bool
delays_given p =
    if p.db_activity_based_routing
    then not (p.db_activity_init_delay == 0)
      && (not (p.table_mutation_cache_ms_ttl == 0) && not (p.db_activity_ttl == 0))
    else true

abbrev pub password_given : Pool → Text × User → Result Error (Unit {0})
password_given p (name, user) = require (
    not (
      (not (is_some p.auth_query)
        || (not (is_some p.auth_query_password) || not (is_some p.auth_query_user)))
      && not (is_some user.password)))

abbrev pub auth_given : Option Text → Option Text → Option Text → Bool
auth_given query user password =
    not (is_some query && (not (is_some user) || not (is_some password)))

abbrev pub pool_auth_checked : Text × Pool → Result Error (Unit {0})
pool_auth_checked (name, p) =
    require (auth_given p.auth_query p.auth_query_user p.auth_query_password)
    >> for_each (password_given p) p.users

module _ (regex_new : Text → Bool) where
  abbrev pub regex_valid : Option Text → Bool
  regex_valid none = true
  regex_valid (some regex) = regex_new regex

  abbrev pub named_user : Text × User → Result Error (Unit {0})
  named_user (name, user) = user_validate user

  abbrev pub settings_checked : Pool → Result Error (Unit {0})
  settings_checked p = do
    require (is_role p.default_role)
    for_each indexed_shard p.shards
    require (regex_valid p.shard_id_regex)
    require (regex_valid p.sharding_key_regex)
    require (not (p.query_parser_read_write_splitting && not p.query_parser_enabled))
    require (not (p.plugins && not p.query_parser_enabled))

  abbrev pub rest_checked : Pool → Result Error (Unit {0})
  rest_checked p = do
    require (default_exists p.default_shard p.shards)
    for_each named_user p.users
    require (delays_given p)

  unfoldable pub pool_validate : Pool → Result Error Pool
  unfolding key_checked shard_validate user_validate
  pool_validate p =
      settings_checked p
      >> (key_checked p.automatic_sharding_key >>= λ key.
          rest_checked p >> ok (record p { automatic_sharding_key = key }))

  module _ (load_certs load_keys : Text → Bool) where
    abbrev pub key_loads : Option Text → Bool
    key_loads none = false
    key_loads (some path) = load_keys path

    abbrev pub tls_loads : Option Text → Option Text → Bool
    tls_loads none key = true
    tls_loads (some certificate) key = load_certs certificate && key_loads key

    unfoldable pub pools_validate : List (Text × Pool) → Result Error (List (Text × Pool))
    unfolding pool_validate
    pools_validate [] = ok []
    pools_validate ((name, p) ∷ pools) =
        pool_validate p >>= λ p'. pools_validate pools >>= λ pools'. ok ((name, p') ∷ pools')

    unfoldable pub config_validate : Config → Result Error Config
    unfolding pools_validate
    config_validate config =
        let g = config.general in
        require (auth_given g.auth_query g.auth_query_user g.auth_query_password)
        >> (for_each pool_auth_checked config.pools
            >> (require (tls_loads g.tls_certificate g.tls_private_key)
                >> (pools_validate config.pools >>= λ pools. ok (record config { pools = pools }))))

abbrev pub or_else : Option Text → Option Text → Option Text
or_else none other = other
or_else (some text) other = some text

abbrev filled : General → Pool → Pool
filled g p = record p {
  auth_query = or_else p.auth_query g.auth_query;
  auth_query_user = or_else p.auth_query_user g.auth_query_user;
  auth_query_password = or_else p.auth_query_password g.auth_query_password;
}

abbrev pub fill_all : General → List (Text × Pool) → List (Text × Pool)
fill_all g [] = []
fill_all g ((name, p) ∷ pools) = (name, filled g p) ∷ fill_all g pools

unfoldable pub fill_up_auth_query_config : Config → Config
fill_up_auth_query_config config = record config { pools = fill_all config.general config.pools }

unfoldable pub is_auth_query_configured : Pool → Bool
is_auth_query_configured p =
    is_some p.auth_query_password && (is_some p.auth_query_user && is_some p.auth_query_password)
