-- ===== src/Router/Command/Laws.antt =====
-- src/query_router.rs: what the custom commands do, as a client sees it.
use pgcat.Prelude.{
  ℕ, ◌+◌, ◌^◌, ◌≤◌, ◌<◌, ◌≡◌, refl, ap, ◌∙◌, ◌⊎◌, inl, inr, true, false, ◌||◌, Option, none, some,
  List, [], ◌∷◌, ◌++◌, length, length-append, codes, text_eq, if◌then◌else◌, arith, All,
}
use pgcat.Prelude.Decimal.{decimal}
use pgcat.Prelude.Words.{i32_as_usize}
use pgcat.Prelude.Result.{Result, ok, panic, ◌>>=◌}
use pgcat.Config.{primary, replica}
use pgcat.Wire
use pgcat.Wire.{Codec, IsCodec}
use pgcat.Wire.Laws.{IsText, read_string_both, get_i32_put}
use pgcat.Wire.Stream.Framing.{frame}
use pgcat.Pool.{Regex}
use pgcat.Sharding.{i64_to_string}
use pgcat.Sharding.Placement.{shard_lt}
use pgcat.Prelude.Parse.{parse_usize, parse_i64, parse_digits, digits_from}
use pgcat.Router.{
  QueryRouter, parser_enabled, primary_reads, set_shard, set_sharding_key, unwrap_ok, sharder,
}
use pgcat.Router.Command.{
  set_shard_command, set_server_role, set_primary_reads, show_server_role, show_shard,
  show_primary_reads, Regexes, to_ascii_lowercase, to_ascii_uppercase, value_of, execute,
  execute_set_shard, execute_set_role, execute_set_reads, try_execute_command, run_matches,
  dispatch_message, unless_routed, run_query, is_some, route_by_comment, header,
}

-- A number that is a word of digits overflows.
parse_i64_overflow :
    (bs : List ℕ) (n : ℕ) → parse_digits bs ≡ some n → 2 ^ 63 ≤ n → parse_i64 bs ≡ none
unfolding parse_i64 parse_digits digits_from
parse_i64_overflow [] n e h = absurd (cc e)
parse_i64_overflow (b ∷ bs) n e h = ground arith

parse_usize_overflow :
    (bs : List ℕ) (n : ℕ) → parse_digits bs ≡ some n → 2 ^ 64 ≤ n → parse_usize bs ≡ none
unfolding parse_usize parse_digits digits_from
parse_usize_overflow [] n e h = absurd (cc e)
parse_usize_overflow (b ∷ bs) n e h = ground arith

module _ (c : Codec) (digest : List ℕ → List ℕ) where
  abbrev IsRoleWord : List ℕ → Type 0
  IsRoleWord word =
      ((word ≡ codes "primary") ⊎ (word ≡ codes "replica"))
      ⊎ ((word ≡ codes "any") ⊎ (word ≡ codes "auto"))

  -- What SHOW answers after SET, for the role, the shard and the reads from the primary.
  set_role-show :
      (value : List ℕ) (r : QueryRouter)
      → IsRoleWord (to_ascii_lowercase value)
      → (r' : QueryRouter) × (execute_set_role c digest value r ≡ ok (value, r'))
        × (value_of c digest show_server_role none r' ≡ some (to_ascii_lowercase value))
  unfolding execute_set_role value_of parser_enabled text_eq
  set_role-show value r (inl (inl e)) = (
    record r { active_role = some primary; query_parser_enabled = some false },
    rw e refl,
    rw e refl,
  )
  set_role-show value r (inl (inr e)) = (
    record r { active_role = some replica; query_parser_enabled = some false },
    rw e refl,
    rw e refl,
  )
  set_role-show value r (inr (inl e)) =
      (record r { active_role = none; query_parser_enabled = some false }, rw e refl, rw e refl)
  set_role-show value r (inr (inr e)) =
      (record r { active_role = none; query_parser_enabled = some true }, rw e refl, rw e refl)

  set_reads-show :
      (value : List ℕ) (r : QueryRouter)
      → (value ≡ codes "on") ⊎ (value ≡ codes "off")
      → (r' : QueryRouter) × (execute_set_reads c digest value r ≡ (value, r'))
        × (value_of c digest show_primary_reads none r' ≡ some value)
  unfolding execute_set_reads value_of primary_reads text_eq
  set_reads-show value r (inl e) =
      (record r { primary_reads_enabled = some true }, rw e refl, rw e refl)
  set_reads-show value r (inr e) =
      (record r { primary_reads_enabled = some false }, rw e refl, rw e refl)

  set_shard-show :
      (random n : ℕ) (value : List ℕ) (r : QueryRouter)
      → text_eq (to_ascii_uppercase value) (codes "ANY") ≡ false
      → parse_usize value ≡ some n
      → (r' : QueryRouter) × (execute_set_shard c digest random value r ≡ ok (value, r'))
        × (value_of c digest show_shard none r' ≡ some (decimal 20 n))
  unfolding execute_set_shard value_of
  set_shard-show random n value r e e' = (record r { active_shard = some n }, rw (e, e') refl, refl)

  -- A role, a setting for reads and a shard number that a client sets are what it is shown
  -- afterwards: the role in lower case, the number in decimal.
  pub execute-show :
      (random n : ℕ) (role reads shard : List ℕ) (r : QueryRouter)
      → IsRoleWord (to_ascii_lowercase role)
      → (reads ≡ codes "on") ⊎ (reads ≡ codes "off")
      → text_eq (to_ascii_uppercase shard) (codes "ANY") ≡ false
      → parse_usize shard ≡ some n
      → ((r' : QueryRouter) × (execute c digest random set_server_role role r ≡ ok (role, r'))
          × (value_of c digest show_server_role none r' ≡ some (to_ascii_lowercase role)))
        × ((r' : QueryRouter) × (execute c digest random set_primary_reads reads r ≡ ok (reads, r'))
            × (value_of c digest show_primary_reads none r' ≡ some reads))
        × ((r' : QueryRouter) × (execute c digest random set_shard_command shard r ≡ ok (shard, r'))
            × (value_of c digest show_shard none r' ≡ some (decimal 20 n)))
  unfolding execute
  execute-show random n role reads shard r h h' e e' =
      let (r1, p1, q1) = set_reads-show reads r h' in
      (set_role-show role r h, (r1, ap ok p1, q1), set_shard-show random n shard r e e')

  -- A sharding key, set by a command or by a comment, selects one of the pool's shards, when there
  -- are any and the digest has four bytes or more.
  pub set_sharding_key-lt :
      (key : ℕ) (r : QueryRouter)
      → All (λ b. b < 256) (digest (i64_to_string key))
      → 4 ≤ length (digest (i64_to_string key))
      → 0 < r.pool_settings.shards
      → (n : ℕ) × (set_sharding_key digest key r ≡ ok (n, record r { active_shard = some n }))
        × (n < r.pool_settings.shards)
  unfolding set_sharding_key set_shard
  set_sharding_key-lt key r bytes long some_shards =
      let (n, e, lt) = shard_lt digest (sharder r) key bytes long some_shards in
      (n, ap (λ (x : Result ⊥ ℕ). x >>= λ shard. ok (shard, set_shard (some shard) r)) e, lt)

if_quiet :
    {A : Type 0} (a b : Option Regex) (x y : A)
    → a ≡ none
    → b ≡ none
    → (if is_some a || is_some b then x else y) ≡ y
if_quiet a b x y e e' = rw (e, e') refl

route_quiet :
    (c : Codec) (digest : List ℕ → List ℕ) (code len : ℕ) (buffer : List ℕ) (r : QueryRouter)
    → r.pool_settings.shard_id_regex ≡ none
    → r.pool_settings.sharding_key_regex ≡ none
    → route_by_comment c digest code len buffer r ≡ ok (false, r)
unfolding route_by_comment
route_quiet c digest code len buffer r e e' =
    if_quiet r.pool_settings.shard_id_regex r.pool_settings.sharding_key_regex _ _ e e'

-- A number is not the word ANY.
digits_not_any :
    (bs : List ℕ) (n : ℕ)
    → parse_digits bs ≡ some n
    → text_eq (to_ascii_uppercase bs) (codes "ANY") ≡ false
unfolding parse_digits digits_from text_eq
digits_not_any [] n e = refl
digits_not_any (b ∷ bs) n e = ground arith

module _ (c : Codec) (w : IsCodec c) (digest : List ℕ → List ℕ) (query : List ℕ)
    (t : IsText c query) where
  -- A Query message with this text.
  abbrev pub query_message : List ℕ
  query_message = frame c b'Q' (query ++ (0 ∷ []))

  header_lem :
      length query + 5 < 2 ^ 31
      → header c digest query_message ≡ ok (b'Q', length query + 5, query ++ (0 ∷ []))
  header_lem fits =
      let n = length (query ++ (0 ∷ [])) + 4 in
      let size : n ≡ length query + 5 = omega (arith, length-append query (0 ∷ [])) in
      let as_is : i32_as_usize n ≡ length query + 5 = ground (arith, size) in
      ap (λ r. unwrap_ok r >>= λ y. ok (b'Q', i32_as_usize y.0, y.1))
        (get_i32_put c w n (query ++ (0 ∷ [])) (omega (arith, size)))
      ∙ ap (λ m. ok (b'Q', m, query ++ (0 ∷ []))) as_is

  -- Without expressions for comments, what a Query message does is decided by which custom
  -- expressions match its text and by what they capture from it. Its text can be carried and its
  -- length fits an i32.
  pub command_runs :
      (m : List ℕ → List ℕ) (k : ℕ → List ℕ → Option (List ℕ)) (random : ℕ) (r : QueryRouter)
      → length query + 5 < 2 ^ 31
      → r.pool_settings.shard_id_regex ≡ none
      → r.pool_settings.sharding_key_regex ≡ none
      → try_execute_command c digest
          (record { regex_set = some m; regex_list = some k })
          random
          query_message
          r
        ≡ run_matches c digest random (m query) (λ n. k n query) r
  unfolding try_execute_command dispatch_message
  command_runs m k random r fits none1 none2 =
      let regexes : Regexes = record { regex_set = some m; regex_list = some k } in
      ap (λ h. h >>= dispatch_message c digest regexes random query_message r) (header_lem fits)
      ∙ ap
          (λ x.
            x
            >>= unless_routed c digest (λ r'.
              unwrap_ok (Wire.read_string c (query ++ (0 ∷ []))) >>= λ y.
              run_query c digest random regexes y.0 r'))
          (route_quiet c digest b'Q' (length query + 5) query_message r none1 none2)
      ∙ ap (λ x. unwrap_ok x >>= λ y. run_query c digest random regexes y.0 r)
          (read_string_both c w query [] t).0

  -- A query that is taken for SET SHARDING KEY or for SET SHARD panics when its number does not fit
  -- the type that it is parsed into, an i64 or a usize. There are no expressions for comments, and
  -- the query can be carried.
  pub long_number_panics :
      (m : List ℕ → List ℕ) (k : ℕ → List ℕ → Option (List ℕ)) (random n : ℕ) (value : List ℕ)
      (r : QueryRouter)
      → length query + 5 < 2 ^ 31
      → r.pool_settings.shard_id_regex ≡ none
      → r.pool_settings.sharding_key_regex ≡ none
      → parse_digits value ≡ some n
      → ((m query ≡ 0 ∷ []) × (k 0 query ≡ some value) × (2 ^ 63 ≤ n))
        ⊎ ((m query ≡ 1 ∷ []) × (k 1 query ≡ some value) × (2 ^ 64 ≤ n))
      → try_execute_command c digest
          (record { regex_set = some m; regex_list = some k })
          random
          query_message
          r
        ≡ panic
  unfolding value_of execute execute_set_shard
  long_number_panics m k random n value r fits none1 none2 e (inl (matched, got, long)) =
      command_runs m k random r fits none1 none2
      ∙ rw (matched, got, parse_i64_overflow value n e long) refl
  long_number_panics m k random n value r fits none1 none2 e (inr (matched, got, long)) =
      command_runs m k random r fits none1 none2
      ∙ rw (matched, got, parse_usize_overflow value n e long, digits_not_any value n e) refl

  -- A query that is taken for SET PRIMARY READS is answered as a command, but changes nothing, when
  -- its value is not spelled on, off or default in lower case.
  pub odd_reads_ignored :
      (m : List ℕ → List ℕ) (k : ℕ → List ℕ → Option (List ℕ)) (random : ℕ) (value : List ℕ)
      (r : QueryRouter)
      → length query + 5 < 2 ^ 31
      → r.pool_settings.shard_id_regex ≡ none
      → r.pool_settings.sharding_key_regex ≡ none
      → m query ≡ 5 ∷ []
      → k 5 query ≡ some value
      → text_eq value (codes "on") ≡ false
      → text_eq value (codes "off") ≡ false
      → text_eq value (codes "default") ≡ false
      → try_execute_command c digest
          (record { regex_set = some m; regex_list = some k })
          random
          query_message
          r
        ≡ ok (some (set_primary_reads, value), r)
  unfolding value_of execute execute_set_reads
  odd_reads_ignored m k random value r fits none1 none2 matched got on off default =
      command_runs m k random r fits none1 none2 ∙ rw (matched, got, on, off, default) refl
