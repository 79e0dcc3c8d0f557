-- ===== src/Config/Validate/Accepted.antt =====
-- src/config.rs: which configurations the checks accept.
use pgcat.Prelude.{
  ℕ, ◌≤◌, ◌<◌, ◌≡◌, refl, ◌⊎◌, inl, inr, Bool, true, false, ◌&&◌, not, Option, none, some, List,
  codes, length, ltb, ◌==◌, if◌then◌else◌, text_eq, All, arith, text_eq_sound, ltb→lt, lt→ltb,
}
use pgcat.Prelude.Parse.{parse_usize}
use pgcat.Prelude.Result.{Result, ok, err, panic, ◌>>◌}
use pgcat.Errors.{Error, bad_config}
use pgcat.Config.Validate.{
  Text, Shard, User, Pool, DefaultShard, shard, random, random_healthy, is_some, require, for_each,
  fits, user_validate, shard_validate, is_role, indexed_shard, unquoted, parts, qualified,
  key_checked, default_exists, delays_given, regex_valid, named_user, settings_checked,
  rest_checked, pool_validate,
}
use pgcat.Config.Validate.Verdicts.{
  Decides, Verdict, verdict, all_of, require-Decides, bind-Decides, then-Decides, iff-Decides,
  for_each-Decides,
}
use pgcat.Config.Validate.Servers.{IsShard, shard_validate-Decides}

abbrev pub Fits : Option ℕ → ℕ → Type 0
Fits none pool_size = Unit {0}
Fits (some min_pool_size) pool_size = min_pool_size ≤ pool_size

user-Decides :
    (entry : Text × User)
    → Decides (Fits entry.1.min_pool_size entry.1.pool_size) (user_validate entry.1)
unfolding user_validate
user-Decides entry =
    iff-Decides (user_validate entry.1) (to entry.1.min_pool_size) (from entry.1.min_pool_size)
      (require-Decides _)
  where
    to : (m : Option ℕ) → fits m entry.1.pool_size ≡ true → Fits m entry.1.pool_size
    to none h = tt
    to (some n) h = ground arith

    from : (m : Option ℕ) → Fits m entry.1.pool_size → fits m entry.1.pool_size ≡ true
    from none h = refl
    from (some n) h = ground arith

abbrev pub HasIndex : Text → Type 0
HasIndex index = (n : ℕ) × (parse_usize index ≡ some n)

abbrev pub IsIndexed : Text × Shard → Type 0
IsIndexed entry = HasIndex entry.0 × IsShard entry.1

index-Decides : (x : Option ℕ) → Decides ((n : ℕ) × (x ≡ some n)) (require (is_some x))
index-Decides none = λ (n, e). cc e
index-Decides (some n) = (n, refl)

IsIndexed-Decides : (entry : Text × Shard) → Decides (IsIndexed entry) (indexed_shard entry)
IsIndexed-Decides entry =
    then-Decides (HasIndex entry.0) (IsShard entry.1) (require (is_some (parse_usize entry.0)))
      (shard_validate entry.1) (index-Decides (parse_usize entry.0))
      (shard_validate-Decides entry.1)

abbrev pub IsKey : Option Text → Type 0
IsKey none = Unit {0}
IsKey (some key) = parts (unquoted key) ≡ 2

qualified-Decides : (key : Text) → Decides (parts key ≡ 2) (qualified key)
qualified-Decides key = at (parts key == 2) refl
  where
    at :
        (b : Bool)
        → (parts key == 2) ≡ b
        → Decides (parts key ≡ 2) (if b then ok (some key) else err bad_config)
    at true e = ground arith
    at false e = λ h. ground arith

IsKey-Decides : (key : Option Text) → Decides (IsKey key) (key_checked key)
unfolding key_checked
IsKey-Decides none = tt
IsKey-Decides (some key) = qualified-Decides (unquoted key)

abbrev pub IsRole : Text → Type 0
IsRole role = (role ≡ codes "any") ⊎ ((role ≡ codes "primary") ⊎ (role ≡ codes "replica"))

IsRole-Decides : (role : Text) → Decides (IsRole role) (require (is_role role))
unfolding text_eq
IsRole-Decides role = iff-Decides (require (is_role role)) to from (require-Decides (is_role role))
  where
    to : is_role role ≡ true → IsRole role
    to h = ground (
      arith,
      text_eq_sound role (codes "any"),
      text_eq_sound role (codes "primary"),
      text_eq_sound role (codes "replica"),
    )

    from : IsRole role → is_role role ≡ true
    from (inl e) = rw e refl
    from (inr (inl e)) = rw e refl
    from (inr (inr e)) = rw e refl

-- A setting that only makes sense with the query parser.
abbrev pub NeedsParser : Bool → Bool → Type 0
NeedsParser setting enabled = setting ≡ true → enabled ≡ true

parser-Decides :
    (setting enabled : Bool)
    → Decides (NeedsParser setting enabled) (require (not (setting && not enabled)))
parser-Decides true true = λ h. refl
parser-Decides true false = λ h. cc (h refl)
parser-Decides false enabled = λ h. absurd (cc h)

parser-Verdict :
    (setting enabled : Bool)
    → Verdict (NeedsParser setting enabled) (require (not (setting && not enabled)))
parser-Verdict setting enabled = record { decides = parser-Decides setting enabled }

abbrev pub ShardExists : DefaultShard → List (Text × Shard) → Type 0
ShardExists (shard n) shards = n < length shards
ShardExists _ shards = Unit {0}

exists-Decides :
    (d : DefaultShard) (shards : List (Text × Shard))
    → Decides (ShardExists d shards) (require (default_exists d shards))
exists-Decides (shard n) shards =
    iff-Decides (require (ltb n (length shards))) (ltb→lt n (length shards))
      (lt→ltb n (length shards)) (require-Decides (ltb n (length shards)))
exists-Decides random shards = tt
exists-Decides random_healthy shards = tt

abbrev pub HasDelays : Pool → Type 0
HasDelays p =
    p.db_activity_based_routing ≡ true
    → (0 < p.db_activity_init_delay) × (0 < p.table_mutation_cache_ms_ttl) × (0 < p.db_activity_ttl)

delays-Decides : (p : Pool) → Decides (HasDelays p) (require (delays_given p))
delays-Decides p =
    iff-Decides (require (delays_given p)) (λ (h : delays_given p ≡ true) e. ground arith)
      (delays_at p.db_activity_based_routing p.db_activity_init_delay p.table_mutation_cache_ms_ttl
        p.db_activity_ttl)
      (require-Decides (delays_given p))
  where
    delays_at :
        (b : Bool) (x y z : ℕ)
        → (b ≡ true → (0 < x) × (0 < y) × (0 < z))
        → (if b then not (x == 0) && (not (y == 0) && not (z == 0)) else true) ≡ true
    delays_at true x y z h = let (hx, hy, hz) = h refl in ground arith
    delays_at false x y z h = refl

module _ (regex_new : Text → Bool) where
  abbrev pub IsRegex : Option Text → Type 0
  IsRegex none = Unit {0}
  IsRegex (some regex) = regex_new regex ≡ true

  IsRegex-Decides :
      (regex : Option Text) → Decides (IsRegex regex) (require (regex_valid regex_new regex))
  IsRegex-Decides none = tt
  IsRegex-Decides (some regex) = require-Decides (regex_new regex)

  IsRegex-Verdict :
      (regex : Option Text) → Verdict (IsRegex regex) (require (regex_valid regex_new regex))
  IsRegex-Verdict regex = record { decides = IsRegex-Decides regex }

  abbrev pub FitsUser : Text × User → Type 0
  FitsUser entry = Fits entry.1.min_pool_size entry.1.pool_size

  abbrev pub Settings : Pool → Type 0
  Settings p =
      IsRole p.default_role
      × (All IsIndexed p.shards
          × (IsRegex p.shard_id_regex
              × (IsRegex p.sharding_key_regex
                  × (NeedsParser p.query_parser_read_write_splitting p.query_parser_enabled
                      × NeedsParser p.plugins p.query_parser_enabled))))

  Settings-Verdict : (p : Pool) → Verdict (Settings p) (settings_checked regex_new p)
  Settings-Verdict p =
      all_of
        (verdict (IsRole p.default_role) (require (is_role p.default_role))
          (IsRole-Decides p.default_role))
        (all_of
          (verdict (All IsIndexed p.shards) (for_each indexed_shard p.shards)
            (for_each-Decides IsIndexed indexed_shard p.shards IsIndexed-Decides))
          (all_of (IsRegex-Verdict p.shard_id_regex) (
            all_of (IsRegex-Verdict p.sharding_key_regex) (
              all_of (parser-Verdict p.query_parser_read_write_splitting p.query_parser_enabled)
                (parser-Verdict p.plugins p.query_parser_enabled)))))

  abbrev pub Rest : Pool → Type 0
  Rest p = ShardExists p.default_shard p.shards × (All FitsUser p.users × HasDelays p)

  Rest-Verdict : (p : Pool) → Verdict (Rest p) (rest_checked regex_new p)
  Rest-Verdict p =
      all_of
        (verdict (ShardExists p.default_shard p.shards)
          (require (default_exists p.default_shard p.shards))
          (exists-Decides p.default_shard p.shards))
        (all_of
          (verdict (All FitsUser p.users) (for_each (named_user regex_new) p.users)
            (for_each-Decides FitsUser (named_user regex_new) p.users user-Decides))
          (verdict (HasDelays p) (require (delays_given p)) (delays-Decides p)))

  -- What the checks of a pool ask for.
  abbrev pub IsPool : Pool → Type 0
  IsPool p = Settings p × (IsKey p.automatic_sharding_key × Rest p)

  -- A pool is accepted if and only if it is as it should be; no pool makes the checks panic.
  pub pool_validate-Decides : (p : Pool) → Decides (IsPool p) (pool_validate regex_new p)
  unfolding pool_validate
  pool_validate-Decides p =
      then-Decides (Settings p) (IsKey p.automatic_sharding_key × Rest p)
        (settings_checked regex_new p) _ (Settings-Verdict p).decides
        (bind-Decides (IsKey p.automatic_sharding_key) (Rest p)
          (key_checked p.automatic_sharding_key) _ (IsKey-Decides p.automatic_sharding_key)
          (λ key.
            returned (Rest p) (rest_checked regex_new p) (record p { automatic_sharding_key = key })
              (Rest-Verdict p).decides))
    where
      returned :
          (A : Type 0) (r : Result Error (Unit {0})) (q : Pool)
          → Decides A r
          → Decides A (r >> ok q)
      returned A (ok _) q h = h
      returned A (err e) q h = h
      returned A panic q h = h
