-- ===== src/Client/Custom.antt =====
-- src/client.rs, `handle_custom_protocol`: the answers to pgcat's own commands.
pub mod Valid
pub mod Ends
use pgcat.Prelude.{
  ℕ, Bool, true, false, not, Option, none, some, List, [], ◌∷◌, ◌++◌, codes, ltb, if◌then◌else◌,
}
use pgcat.Prelude.Decimal.{decimal}
use pgcat.Prelude.Result.{Result, ok, err, panic}
use pgcat.Errors.{Error}
use pgcat.Wire.{Codec}
use pgcat.Wire.Sink.{Sink}
use pgcat.Messages.Reply.{error_response, custom_protocol_response_ok, show_response}
use pgcat.Pool.Checkout.{shards}
use pgcat.Pool.Statements.{ParseLru}
use pgcat.Router.{QueryRouter, set_shard}
use pgcat.Router.Command.{
  Command, set_sharding_key_command, set_shard_command, show_shard, set_server_role,
  show_server_role, set_primary_reads, show_primary_reads, Regexes, Answer, try_execute_command,
}
use pgcat.Server.Parameters.{Text}
use pgcat.Server.State.{Lru, Outcome, done, failed, panicked, stuck}
use pgcat.Client.{World}
use pgcat.Client.Session.{Session, Act, following, to_client}

-- `{:?}` of an Option<usize>.
abbrev pub debug_shard : Option ℕ → Text
debug_shard none = codes "None"
debug_shard (some n) = codes "Some(" ++ (decimal 20 n ++ codes ")")

unfoldable pub not_configured : ℕ → ℕ → Option ℕ → Text
unfolding decimal
not_configured selected count current =
    codes "shard "
    ++ (decimal 20 selected
        ++ (codes " is not configured "
            ++ (decimal 20 count
                ++ (codes ", staying on shard "
                    ++ (debug_shard current ++ codes " (shard numbers start at 0)")))))

module _ (c : Codec) (digest : List ℕ → List ℕ) (regexes : Regexes) (L : Lru) (P : ParseLru)
    (Ast : Type 0) where
  abbrev pub with_router : QueryRouter → Session L P Ast → Session L P Ast
  with_router r s = record s { router = r }

  -- The shard that the command chose, against those of the pool.
  abbrev pub answer_shard : Option ℕ → Option ℕ → ℕ → Act L P Ast (Unit {0})
  answer_shard current none count s = (done tt, s)
  answer_shard current (some selected) count s =
      if ltb selected count
      then to_client L P Ast (custom_protocol_response_ok c (codes "SET SHARD")) s
      else to_client L P Ast (error_response c (not_configured selected count current))
          (with_router (set_shard current s.router) s)

  abbrev pub answer_ok : Text → Act L P Ast (Unit {0})
  answer_ok name = to_client L P Ast (custom_protocol_response_ok c name)

  abbrev pub answer_value : Text → Text → Act L P Ast (Unit {0})
  answer_value name value = to_client L P Ast (show_response c name value)

  unfoldable pub answer_command : Option ℕ → Command → Text → Act L P Ast (Unit {0})
  answer_command current set_shard_command value s =
      answer_shard current s.router.active_shard (shards s.world.pool) s
  answer_command current set_primary_reads value s = answer_ok (codes "SET PRIMARY READS") s
  answer_command current set_sharding_key_command value s = answer_ok (codes "SET SHARDING KEY") s
  answer_command current set_server_role value s = answer_ok (codes "SET SERVER ROLE") s
  answer_command current show_server_role value s = answer_value (codes "server role") value s
  answer_command current show_shard value s = answer_value (codes "shard") value s
  answer_command current show_primary_reads value s = answer_value (codes "primary reads") value s

  -- Whether the message was such a command.
  abbrev pub answered : Option ℕ → Result ⊥ (Answer c digest) → Act L P Ast Bool
  answered current (ok (none, r)) s = (done false, with_router r s)
  answered current (ok (some (command, value), r)) s =
      let q = answer_command current command value (with_router r s) in
      following L P Ast q.0 q.1 (λ _ t. (done true, t))
  answered current _ s = (panicked, s)

  unfoldable pub handle_custom_protocol : ℕ → List ℕ → Act L P Ast Bool
  unfolding answer_command
  handle_custom_protocol random message s =
      answered s.router.active_shard (try_execute_command c digest regexes random message s.router)
        s
