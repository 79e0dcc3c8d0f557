-- ===== src/Router/Command.antt =====
-- src/query_router.rs, `try_execute_command`: the commands that pgcat answers itself, and the shard
-- that a comment names.
pub mod Laws
use pgcat.Prelude.{
  ℕ, ◌+◌, ◌-◌, ◌%◌, ◌^◌, Bool, true, false, ◌||◌, Option, none, some, List, [], ◌∷◌, length, map,
  take, drop, codes, ltb, leb, ◌==◌, text_eq, if◌then◌else◌,
}
use pgcat.Prelude.Decimal.{decimal}
use pgcat.Prelude.Words.{i32_as_usize}
use pgcat.Prelude.Result.{Result, ok, err, panic, ◌>>=◌}
use pgcat.Config.{Role, primary, replica, mirror}
use pgcat.Wire
use pgcat.Wire.{Codec}
use pgcat.Pool.{Regex, PoolSettings}
use pgcat.Sharding.{i64_to_string}
use pgcat.Prelude.Parse.{parse_usize, parse_i64}
use pgcat.Router.{
  QueryRouter, parser_enabled, primary_reads, set_shard, set_sharding_key, unwrap, unwrap_ok,
}

pub data Command : Type 0 where
  set_sharding_key_command set_shard_command show_shard set_server_role show_server_role : Command
  set_primary_reads show_primary_reads : Command

-- The compiled CUSTOM_SQL_REGEXES once they are set up: the numbers of those that match a query, and
-- what the group of one of them captures.
pub record Regexes : Type 0 where
  pub regex_set : Option (List ℕ → List ℕ)
  pub regex_list : Option (ℕ → Regex)

abbrev pub lower : ℕ → ℕ
lower b = if ltb b b'A' then b else if leb b b'Z' then b + 32 else b

abbrev pub upper : ℕ → ℕ
upper b = if ltb b b'a' then b else if leb b b'z' then b - 32 else b

abbrev pub to_ascii_lowercase : List ℕ → List ℕ
to_ascii_lowercase = map lower

abbrev pub to_ascii_uppercase : List ℕ → List ℕ
to_ascii_uppercase = map upper

abbrev pub is_some : {A : Type 0} → Option A → Bool
is_some none = false
is_some (some a) = true

-- `cap.get(1).and_then(|id| id.as_str().parse().ok())`
abbrev pub captured : Option Regex → (List ℕ → Option ℕ) → List ℕ → Option ℕ
captured none parse segment = none
captured (some regex) parse segment = elim (regex segment) [ none ↦ none | some id ↦ parse id ]

-- `&message_buffer[5..5 + seg]`
abbrev pub slice_from_5 : ℕ → List ℕ → Result ⊥ (List ℕ)
slice_from_5 seg buffer =
    let end = (5 + seg) % 2 ^ 64 in
    if ltb end 5
    then panic
    else if ltb (length buffer) end
    then panic
    else ok (take seg (drop 5 buffer))

abbrev pub min : ℕ → ℕ → ℕ
min a b = if leb a b then a else b

module _ (c : Codec) (digest : List ℕ → List ℕ) where
  -- The shard or else the sharding key that the segment names. The answer tells whether it did.
  abbrev pub routed_by_key : Option ℕ → QueryRouter → Result ⊥ (Bool × QueryRouter)
  routed_by_key none r = ok (false, r)
  routed_by_key (some key) r = set_sharding_key digest key r >>= λ x. ok (true, x.1)

  abbrev pub routed_by_id : Option ℕ → Option ℕ → QueryRouter → Result ⊥ (Bool × QueryRouter)
  routed_by_id (some id) key r = ok (true, set_shard (some id) r)
  routed_by_id none key r = routed_by_key key r

  unfoldable pub route_by_segment : List ℕ → QueryRouter → Result ⊥ (Bool × QueryRouter)
  route_by_segment segment r =
      routed_by_id (captured r.pool_settings.shard_id_regex parse_usize segment)
        (captured r.pool_settings.sharding_key_regex parse_i64 segment) r

  -- `len` is the length that the message states. `len - 5` wraps.
  unfoldable pub route_by_comment : ℕ → ℕ → List ℕ → QueryRouter → Result ⊥ (Bool × QueryRouter)
  unfolding route_by_segment
  route_by_comment code len buffer r =
      let seg = min ((len + 2 ^ 64 - 5) % 2 ^ 64) r.pool_settings.regex_search_limit in
      let routed =
        slice_from_5 seg buffer >>= λ segment. route_by_segment (c.from_utf8_lossy segment) r in
      let enabled =
        is_some r.pool_settings.shard_id_regex || is_some r.pool_settings.sharding_key_regex in
      if enabled
      then (if (code == b'P') || (code == b'Q') then routed else ok (false, r))
      else ok (false, r)

  abbrev pub command_of : ℕ → Option Command
  command_of n =
      if n == 0
      then some set_sharding_key_command
      else if n == 1
      then some set_shard_command
      else if n == 2
      then some show_shard
      else if n == 3
      then some set_server_role
      else if n == 4
      then some show_server_role
      else if n == 5
      then some set_primary_reads
      else if n == 6
      then some show_primary_reads
      else none

  abbrev pub show_shard_text : Option ℕ → List ℕ
  show_shard_text none = codes "unset"
  show_shard_text (some id) = decimal 20 id

  -- `Display` of a Role
  abbrev pub role_text : Role → List ℕ
  role_text primary = codes "primary"
  role_text replica = codes "replica"
  role_text mirror = codes "mirror"

  abbrev pub show_role_text : Option Role → Bool → List ℕ
  show_role_text (some role) parses = role_text role
  show_role_text none parses = if parses then codes "auto" else codes "any"

  -- The first `match command`: what is captured, or what is shown.
  unfoldable pub value_of : Command → Option (List ℕ) → QueryRouter → Option (List ℕ)
  value_of show_shard capture r = some (show_shard_text r.active_shard)
  value_of show_server_role capture r = some (show_role_text r.active_role (parser_enabled r))
  value_of show_primary_reads capture r = some (if primary_reads r then codes "on" else codes "off")
  value_of _ capture r = capture

  -- `rand::random::<usize>() % shards`, or the number.
  unfoldable pub execute_set_shard : ℕ → List ℕ → QueryRouter → Result ⊥ (List ℕ × QueryRouter)
  execute_set_shard random value r =
      let any =
        if r.pool_settings.shards == 0
        then panic
        else ok (value, record r { active_shard = some (random % r.pool_settings.shards) }) in
      let number =
        unwrap (parse_usize value) >>= λ id. ok (value, record r { active_shard = some id }) in
      if text_eq (to_ascii_uppercase value) (codes "ANY") then any else number

  abbrev pub assigned :
      List ℕ → Option Role → Option Bool → QueryRouter → Result ⊥ (List ℕ × QueryRouter)
  assigned value role parser r =
      ok (value, record r { active_role = role; query_parser_enabled = parser })

  unfoldable pub execute_set_role : List ℕ → QueryRouter → Result ⊥ (List ℕ × QueryRouter)
  execute_set_role value r =
      let v = to_ascii_lowercase value in
      if text_eq v (codes "primary")
      then assigned value (some primary) (some false) r
      else if text_eq v (codes "replica")
      then assigned value (some replica) (some false) r
      else if text_eq v (codes "any")
      then assigned value none (some false) r
      else if text_eq v (codes "auto")
      then assigned value none (some true) r
      else if text_eq v (codes "default")
      then assigned value r.pool_settings.default_role none r
      else panic

  unfoldable pub execute_set_reads : List ℕ → QueryRouter → List ℕ × QueryRouter
  execute_set_reads value r =
      if text_eq value (codes "on")
      then (value, record r { primary_reads_enabled = some true })
      else if text_eq value (codes "off")
      then (value, record r { primary_reads_enabled = some false })
      else if text_eq value (codes "default")
      then (value, record r { primary_reads_enabled = none })
      else (value, r)

  -- The second `match command`.
  unfoldable pub execute : ℕ → Command → List ℕ → QueryRouter → Result ⊥ (List ℕ × QueryRouter)
  unfolding execute_set_shard execute_set_role execute_set_reads
  execute random set_sharding_key_command value r = unwrap (parse_i64 value) >>= λ key.
      set_sharding_key digest key r >>= λ x. ok (decimal 20 x.0, x.1)
  execute random set_shard_command value r = execute_set_shard random value r
  execute random set_server_role value r = execute_set_role value r
  execute random set_primary_reads value r = ok (execute_set_reads value r)
  execute random _ value r = ok (value, r)

  abbrev pub Answer : Type 0
  Answer = Option (Command × List ℕ) × QueryRouter

  abbrev pub run_value : ℕ → Command → Option (List ℕ) → QueryRouter → Result ⊥ Answer
  run_value random command none r = ok (none, r)
  run_value random command (some value) r =
      execute random command value r >>= λ x. ok (some (command, x.0), x.1)

  -- One of the regular expressions matches the query, with what it captures.
  abbrev pub run_command : ℕ → Option Command → Option (List ℕ) → QueryRouter → Result ⊥ Answer
  run_command random none capture r = panic
  run_command random (some command) capture r =
      run_value random command (value_of command capture r) r

  abbrev pub run_matches : ℕ → List ℕ → (ℕ → Option (List ℕ)) → QueryRouter → Result ⊥ Answer
  run_matches random (n ∷ []) capture r = run_command random (command_of n) (capture n) r
  run_matches random _ capture r = ok (none, r)

  abbrev pub run_query : ℕ → Regexes → List ℕ → QueryRouter → Result ⊥ Answer
  run_query random regexes query r = elim regexes.regex_set [
    | none ↦ ok (none, r)
    | some matches ↦ elim regexes.regex_list [
      | none ↦ ok (none, r)
      | some captures ↦ run_matches random (matches query) (λ n. captures n query) r
    ]
  ]

  abbrev pub unless_routed : (QueryRouter → Result ⊥ Answer) → Bool × QueryRouter → Result ⊥ Answer
  unless_routed more (true, r) = ok (none, r)
  unless_routed more (false, r) = more r

  -- The code, the stated length, and what the cursor has left.
  abbrev pub header : List ℕ → Result ⊥ (ℕ × ℕ × List ℕ)
  header buffer = unwrap_ok (Wire.get_u8 buffer) >>= λ x.
      unwrap_ok (Wire.get_i32 c x.1) >>= λ y. ok (x.0, i32_as_usize y.0, y.1)

  -- What follows the header.
  unfoldable pub dispatch_message :
      Regexes → ℕ → List ℕ → QueryRouter → ℕ × ℕ × List ℕ → Result ⊥ Answer
  unfolding route_by_comment execute
  dispatch_message regexes random buffer r (code, len, rest) =
      route_by_comment code len buffer r
      >>= unless_routed (λ r'.
        let queried =
          unwrap_ok (Wire.read_string c rest) >>= λ x. run_query random regexes x.0 r' in
        if code == b'Q' then queried else ok (none, r'))

  unfoldable pub try_execute_command : Regexes → ℕ → List ℕ → QueryRouter → Result ⊥ Answer
  unfolding dispatch_message
  try_execute_command regexes random buffer r =
      header buffer >>= dispatch_message regexes random buffer r
