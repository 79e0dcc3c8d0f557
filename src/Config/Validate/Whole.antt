-- ===== src/Config/Validate/Whole.antt =====
-- src/config.rs: which configurations are accepted as a whole.
use pgcat.Prelude.{
  ◌≡◌, refl, Bool, true, false, ◌&&◌, ◌||◌, not, Option, none, some, List, [], ◌∷◌, All,
}
use pgcat.Prelude.Result.{Result, ok, err, panic, ◌>>=◌}
use pgcat.Errors.{Error}
use pgcat.Config.Validate.{
  Text, User, Pool, Config, is_some, require, for_each, pool_validate, password_given, auth_given,
  pool_auth_checked, tls_loads, pools_validate, config_validate,
}
use pgcat.Config.Validate.Verdicts.{Decides, bind-Decides, then-Decides, for_each-Decides}
use pgcat.Config.Validate.Accepted.{IsPool, pool_validate-Decides}

abbrev pub Given : Option Text → Type 0
Given x = is_some x ≡ true

-- A query for passwords comes with the user that runs it and with its password.
abbrev pub WithAuth : Option Text → Option Text → Option Text → Type 0
WithAuth query user password = Given query → Given user × Given password

auth-Decides :
    (query user password : Option Text)
    → Decides (WithAuth query user password) (require (auth_given query user password))
auth-Decides none user password = λ h. absurd (cc h)
auth-Decides (some q) none password = λ h. cc (h refl).0
auth-Decides (some q) (some u) none = λ h. cc (h refl).1
auth-Decides (some q) (some u) (some x) = λ h. (refl, refl)

-- A user has a password, unless the pool can ask for it.
abbrev pub HasPassword : Pool → Text × User → Type 0
HasPassword p entry =
    entry.1.password ≡ none
    → Given p.auth_query × (Given p.auth_query_password × Given p.auth_query_user)

password_at :
    (query password user own : Option Text)
    → Decides (own ≡ none → Given query × (Given password × Given user)) (
        require (
          not (
            (not (is_some query) || (not (is_some password) || not (is_some user)))
            && not (is_some own))))
password_at none password user none = λ h. cc (h refl).0
password_at none password user (some x) = λ h. absurd (cc h)
password_at (some q) none user none = λ h. cc (h refl).1.0
password_at (some q) none user (some x) = λ h. absurd (cc h)
password_at (some q) (some y) none none = λ h. cc (h refl).1.1
password_at (some q) (some y) none (some x) = λ h. absurd (cc h)
password_at (some q) (some y) (some u) none = λ h. (refl, (refl, refl))
password_at (some q) (some y) (some u) (some x) = λ h. absurd (cc h)

password-Decides :
    (p : Pool) (entry : Text × User) → Decides (HasPassword p entry) (password_given p entry)
password-Decides p entry =
    password_at p.auth_query p.auth_query_password p.auth_query_user entry.1.password

abbrev pub PoolAuth : Text × Pool → Type 0
PoolAuth entry =
    WithAuth entry.1.auth_query entry.1.auth_query_user entry.1.auth_query_password
    × All (HasPassword entry.1) entry.1.users

PoolAuth-Decides : (entry : Text × Pool) → Decides (PoolAuth entry) (pool_auth_checked entry)
PoolAuth-Decides entry =
    then-Decides (WithAuth entry.1.auth_query entry.1.auth_query_user entry.1.auth_query_password)
      (All (HasPassword entry.1) entry.1.users)
      (require (auth_given entry.1.auth_query entry.1.auth_query_user entry.1.auth_query_password))
      (for_each (password_given entry.1) entry.1.users)
      (auth-Decides entry.1.auth_query entry.1.auth_query_user entry.1.auth_query_password)
      (for_each-Decides (HasPassword entry.1) (password_given entry.1) entry.1.users
        (password-Decides entry.1))

module _ (regex_new load_certs load_keys : Text → Bool) where
  -- A certificate comes with a key, and both can be loaded.
  abbrev pub HasTls : Option Text → Option Text → Type 0
  HasTls none key = Unit {0}
  HasTls (some certificate) none = ⊥
  HasTls (some certificate) (some key) = (load_certs certificate ≡ true) × (load_keys key ≡ true)

  tls-Decides :
      (certificate key : Option Text)
      → Decides
          (HasTls certificate key)
          (require (tls_loads regex_new load_certs load_keys certificate key))
  tls-Decides none key = tt
  tls-Decides (some certificate) none = neither (load_certs certificate)
    where
      neither : (b : Bool) → Decides ⊥ (require (b && false))
      neither true = λ h. h
      neither false = λ h. h
  tls-Decides (some certificate) (some key) = both (load_certs certificate) (load_keys key)
    where
      both : (a b : Bool) → Decides ((a ≡ true) × (b ≡ true)) (require (a && b))
      both true true = (refl, refl)
      both true false = λ h. cc h.1
      both false b = λ h. cc h.0

  abbrev pub PoolOf : Text × Pool → Type 0
  PoolOf entry = IsPool regex_new entry.1

  returned :
      {X Y : Type 0} (A : Type 0) (r : Result Error X) (f : X → Y)
      → Decides A r
      → Decides A (r >>= λ x. ok (f x))
  returned A (ok x) f h = h
  returned A (err e) f h = h
  returned A panic f h = h

  pools-Decides :
      (pools : List (Text × Pool))
      → Decides (All PoolOf pools) (pools_validate regex_new load_certs load_keys pools)
  unfolding pools_validate
  pools-Decides [] = tt
  pools-Decides ((name, p) ∷ pools) =
      bind-Decides (IsPool regex_new p) (All PoolOf pools) (pool_validate regex_new p) _
        (pool_validate-Decides regex_new p)
        (λ p'.
          returned (All PoolOf pools) (pools_validate regex_new load_certs load_keys pools)
            (λ rest. (name, p') ∷ rest) (pools-Decides pools))

  abbrev pub IsConfig : Config → Type 0
  IsConfig config =
      let g = config.general in
      WithAuth g.auth_query g.auth_query_user g.auth_query_password
      × (All PoolAuth config.pools
          × (HasTls g.tls_certificate g.tls_private_key × All PoolOf config.pools))

  -- The checks accept a configuration if and only if a query for passwords comes with its user and
  -- password, every user has a password or can be asked for one, the certificate and its key load,
  -- and every pool has a valid role, numbered shards with servers that differ and one primary at
  -- most, regular expressions that compile, a sharding key of two parts, a default shard that
  -- exists, users whose sizes fit, and what its parser and its routing by activity need. None makes
  -- them panic.
  pub config_validate-Decides :
      (config : Config)
      → Decides (IsConfig config) (config_validate regex_new load_certs load_keys config)
  unfolding config_validate
  config_validate-Decides config =
      let g = config.general in
      then-Decides (WithAuth g.auth_query g.auth_query_user g.auth_query_password) _
        (require (auth_given g.auth_query g.auth_query_user g.auth_query_password)) _
        (auth-Decides g.auth_query g.auth_query_user g.auth_query_password)
        (then-Decides (All PoolAuth config.pools) _ (for_each pool_auth_checked config.pools) _
          (for_each-Decides PoolAuth pool_auth_checked config.pools PoolAuth-Decides)
          (then-Decides (HasTls g.tls_certificate g.tls_private_key) (All PoolOf config.pools)
            (require (tls_loads regex_new load_certs load_keys g.tls_certificate g.tls_private_key))
            _ (tls-Decides g.tls_certificate g.tls_private_key)
            (returned (All PoolOf config.pools)
              (pools_validate regex_new load_certs load_keys config.pools)
              (λ pools. record config { pools = pools }) (pools-Decides config.pools))))
