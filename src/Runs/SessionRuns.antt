-- ===== src/Runs/SessionRuns.antt =====
-- Concrete inputs for the theorems on the session of a client in src/client.rs.
use pgcat.Prelude.{ℕ, ◌≡◌, ◌≢◌, refl, true, false, none, some, List, [], ◌∷◌, ◌++◌, codes, text_eq}
use pgcat.Prelude.Dict.{lookup}
use pgcat.Prelude.Parse.{parse_usize, parse_digits, digits_from}
use pgcat.Prelude.Result.{ok}
use pgcat.Errors.{Error, client_error}
use pgcat.Wire.{read_string, read_until_nul}
use pgcat.Wire.Sink.{write_all, write_both}
use pgcat.Messages.Bind.{bind_get_name}
use pgcat.Messages.Reply.{error_response}
use pgcat.Server.State.{failed, stuck}
use pgcat.Router.Command.{
  Regexes, try_execute_command, dispatch_message, execute, execute_set_shard, set_shard_command,
  route_by_comment, value_of,
}
use pgcat.Router.Plugins.{allow}
use pgcat.Client.Cancel.{client_Eq}
use pgcat.Client.Session.{Session, message, idle}
use pgcat.Client.Relay.{send_and_receive_loop}
use pgcat.Client.Relay.Relays.{Exchanged, send_and_receive_loop-Exchanged}
use pgcat.Client.Arms.{Env}
use pgcat.Client.Transaction.{transaction, later_messages}
use pgcat.Client.Transaction.Leaves.{GivenBack, transaction-GivenBack}
use pgcat.Client.Transaction.Leaks.{unknown_bind_leaks}
use pgcat.Client.Custom.{handle_custom_protocol}
use pgcat.Client.Custom.Valid.{IsConfigured, set_shard-IsConfigured}
use pgcat.Client.Outside.{Round}
use pgcat.Client.Handle.{Handling, handle}
use pgcat.Client.Handle.Ends.{handle-Ends}
use pgcat.Client.Handle.Released.{Others, handle-Released}
use pgcat.Runs.{codec, codec-IsCodec, cache}
use pgcat.Runs.PoolRuns.{first, attempt}
use pgcat.Runs.RouterRuns.{digest, router}
use pgcat.Runs.ClientRuns.{parses, world}

abbrev Ast : Type 0
Ast = Unit {0}

-- Every query parses, no plugin is in use, and every error is shown in the same way.
abbrev env : Env Ast
env = record {
  parse_sql = λ query. ok tt;
  run_plugins = λ ast. allow;
  hasher = λ bytes. 0;
  debug = λ e. codes "error";
}

abbrev session : Session cache parses Ast
session = record {
  world = world;
  server_parameters = [];
  router = router;
  transaction_mode = true;
  plugin_output = none;
  initial_parsed_ast = none;
  timeouts = [];
}

abbrev query : List ℕ
query = b'Q' ∷ (codec.put_i32 6 ++ (b';' ∷ (0 ∷ [])))

send_and_receive_loop-Exchanged_example :
    Exchanged codec codec-IsCodec cache parses Ast first 100 env.debug query session
      (send_and_receive_loop codec cache parses Ast first 100 env.debug query session)
send_and_receive_loop-Exchanged_example =
    send_and_receive_loop-Exchanged codec codec-IsCodec cache parses Ast first 100 env.debug query
      session

transaction-GivenBack_example :
    GivenBack codec cache parses Ast first 100 env
      (message query ∷ (idle ∷ []))
      (transaction codec cache parses Ast first 100 env query (message query ∷ (idle ∷ [])) session)
transaction-GivenBack_example =
    transaction-GivenBack codec cache parses Ast first 100 env query (message query ∷ (idle ∷ []))
      session

-- A Bind message for a statement "t" that was never prepared.
abbrev body : List ℕ
body = codec.put_i32 7 ++ (0 ∷ (b't' ∷ (0 ∷ [])))

bound_name : bind_get_name codec (b'B' ∷ body) ≡ ok (codes "t")
unfolding bind_get_name read_string read_until_nul
bound_name = refl

told :
    let r =
      error_response codec (codes "prepared statement \"t\" does not exist") world.client.write in
    r ≡ (ok tt, r.1)
unfolding error_response write_both write_all
told = refl

unknown_bind_leaks_example :
    let r =
      later_messages codec cache parses Ast first 100 env (message (b'B' ∷ body) ∷ []) session in
    (r.0 ≡ failed client_error) × (r.2.world.server ≡ world.server)
unfolding text_eq
unknown_bind_leaks_example =
    unknown_bind_leaks codec cache parses Ast first 100 env body (codes "t") [] session
      (error_response codec (codes "prepared statement \"t\" does not exist") world.client.write).1
      refl bound_name refl told

-- SET SHARD TO '5'
abbrev regexes : Regexes
regexes = record {
  regex_set = some (λ text. 1 ∷ []);
  regex_list = some (λ n text. some (codes "5"));
}

chosen :
    try_execute_command codec digest regexes 0 query router
    ≡ ok (some (set_shard_command, codes "5"), record router { active_shard = some 5 })
unfolding try_execute_command dispatch_message route_by_comment execute execute_set_shard
    parse_usize parse_digits digits_from text_eq read_string read_until_nul value_of
chosen = refl

set_shard-IsConfigured_example :
    IsConfigured codec digest regexes cache parses Ast session
      (handle_custom_protocol codec digest regexes cache parses Ast 0 query session).1
set_shard-IsConfigured_example =
    set_shard-IsConfigured codec digest regexes cache parses Ast 0 query session (codes "5")
      (record router { active_shard = some 5 }) chosen

abbrev round : ℕ → Round cache.Cache Ast
round n = record {
  shuts_down = false;
  refreshed = some (λ pool. pool);
  attempt = attempt;
  shuffle = λ xs. xs;
  random = 0;
  initializing = false;
  now = 100;
  checkout_failure_limit = some 1;
  env = env;
}

abbrev display : Error → List ℕ
display e = codes "error"

abbrev handling :
    Handling codec digest regexes cache parses Ast (λ ast. []) (1, 2) (codes "no pool") display
handling = record { session = session; failures = 0; claims = [] }

handle-Released_example :
    let n =
      (handle codec digest regexes cache parses Ast
        (λ ast. [])
        (1, 2)
        (codes "no pool")
        display
        round
        (message query ∷ [])
        handling).1.claims in
    (lookup (1, 2) n ≡ none)
    × Others codec digest regexes cache parses Ast (λ ast. []) (1, 2) (codes "no pool") display [] n
handle-Released_example =
    handle-Released codec digest regexes cache parses Ast (λ ast. []) (1, 2) (codes "no pool")
      display round (message query ∷ []) handling (tt, refl)

handle-Ends_example :
    (handle codec digest regexes cache parses Ast
      (λ ast. [])
      (1, 2)
      (codes "no pool")
      display
      round
      (message query ∷ (idle ∷ (message query ∷ [])))
      handling).0
    ≢ stuck
handle-Ends_example =
    handle-Ends codec codec-IsCodec digest regexes cache parses Ast (λ ast. []) (1, 2)
      (codes "no pool") display round (message query ∷ (idle ∷ (message query ∷ []))) handling
