-- ===== src/Client/Custom/Ends.antt =====
-- src/client.rs: the answers to pgcat's own commands come to an end.
use pgcat.Prelude.{ℕ, Bool, true, false, Option, none, some, List, ltb, if◌then◌else◌, codes}
use pgcat.Prelude.Result.{Result, ok, err, panic}
use pgcat.Errors.{Error}
use pgcat.Wire.{Codec}
use pgcat.Wire.Sink.{Sink}
use pgcat.Messages.Reply.{error_response, custom_protocol_response_ok}
use pgcat.Pool.Checkout.{shards}
use pgcat.Pool.Statements.{ParseLru}
use pgcat.Router.{set_shard}
use pgcat.Router.Command.{
  Command, set_sharding_key_command, set_shard_command, show_shard, set_server_role,
  show_server_role, set_primary_reads, show_primary_reads, Regexes, Answer, try_execute_command,
}
use pgcat.Server.Parameters.{Text}
use pgcat.Server.State.{Lru}
use pgcat.Server.Prepared.Register.{Ends}
use pgcat.Client.Custom.{
  not_configured, with_router, answer_shard, answer_command, answered, handle_custom_protocol,
}
use pgcat.Client.Session.{Session, wrote}
use pgcat.Client.Session.Ends.{following-Ends, wrote-Ends, Halts}

module _ (c : Codec) (digest : List ℕ → List ℕ) (regexes : Regexes) (L : Lru) (P : ParseLru)
    (Ast : Type 0) where
  abbrev S : Type 0
  S = Session L P Ast

  answers-Ends :
      (b : Bool) (x y : Result Error (Unit {0}) × Sink) (s t : S)
      → Ends (if b then wrote L P Ast x s else wrote L P Ast y t).0
  answers-Ends true x y s t = wrote-Ends L P Ast x s
  answers-Ends false x y s t = wrote-Ends L P Ast y t

  answer_shard-Ends :
      (current o : Option ℕ) (n : ℕ) (s : S)
      → Ends (answer_shard c digest regexes L P Ast current o n s).0
  answer_shard-Ends current none n s = tt
  answer_shard-Ends current (some k) n s =
      answers-Ends (ltb k n)
        (custom_protocol_response_ok c (codes "SET SHARD") s.world.client.write)
        (error_response c (not_configured k n current) s.world.client.write) s
        (with_router c digest regexes L P Ast (set_shard current s.router) s)

  answer_command-Ends :
      (current : Option ℕ) (command : Command) (value : Text) (s : S)
      → Ends (answer_command c digest regexes L P Ast current command value s).0
  unfolding answer_command
  answer_command-Ends current set_shard_command value s =
      answer_shard-Ends current s.router.active_shard (shards s.world.pool) s
  answer_command-Ends current set_primary_reads value s = wrote-Ends L P Ast _ s
  answer_command-Ends current set_sharding_key_command value s = wrote-Ends L P Ast _ s
  answer_command-Ends current set_server_role value s = wrote-Ends L P Ast _ s
  answer_command-Ends current show_server_role value s = wrote-Ends L P Ast _ s
  answer_command-Ends current show_shard value s = wrote-Ends L P Ast _ s
  answer_command-Ends current show_primary_reads value s = wrote-Ends L P Ast _ s

  answered-Halts :
      (current : Option ℕ) (r : Result ⊥ (Answer c digest))
      → Halts L P Ast (answered c digest regexes L P Ast current r)
  answered-Halts current (ok (none, r)) = record { halts = λ s. tt }
  answered-Halts current (ok (some (command, value), r)) = record {
    halts = λ s.
        following-Ends L P Ast _ _ _
          (answer_command-Ends current command value (with_router c digest regexes L P Ast r s))
          (λ a u. tt);
  }
  answered-Halts current (err e) = record { halts = λ s. tt }
  answered-Halts current panic = record { halts = λ s. tt }

  pub custom-Halts :
      (random : ℕ) (bytes : List ℕ)
      → Halts L P Ast (handle_custom_protocol c digest regexes L P Ast random bytes)
  unfolding handle_custom_protocol
  custom-Halts random bytes = record {
    halts = λ s.
        (answered-Halts s.router.active_shard
            (try_execute_command c digest regexes random bytes s.router)).halts
          s;
  }
