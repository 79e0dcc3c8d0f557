-- ===== src/Client/Outside/Ends.antt =====
-- src/client.rs: what a message does outside transactions comes to an end.
use pgcat.Prelude.{ℕ, Bool, true, false, Option, none, some, List, [], ◌∷◌, ◌==◌}
use pgcat.Prelude.Result.{Result, ok, err, panic}
use pgcat.Errors.{Error}
use pgcat.Wire.{Codec}
use pgcat.Wire.Sink.{write_all}
use pgcat.Messages.Reply.{error_response}
use pgcat.Pool.Statements.{ParseLru}
use pgcat.Router.{QueryRouter, parser_enabled}
use pgcat.Router.Command.{Regexes}
use pgcat.Router.FromBind.{infer_shard_from_bind}
use pgcat.Router.Infer
use pgcat.Router.Infer.{infer}
use pgcat.Router.Plugins.{PluginOutput, allow, overwrite, deny, intercept}
use pgcat.Server.Parameters.{Text}
use pgcat.Server.State.{Lru}
use pgcat.Server.Prepared.Register.{Ends}
use pgcat.Client.{Client, reset_buffered_state}
use pgcat.Client.Custom.{handle_custom_protocol}
use pgcat.Client.Extended.{
  Buffered, buffer_parse, buffer_bind, buffer_describe, buffer_execute, buffer_close,
}
use pgcat.Client.Session.{Session, Act, bind_act, with_client}
use pgcat.Client.Session.Ends.{Halts, then-Halts, if-Halts, told-Halts}
use pgcat.Client.Custom.Ends.{custom-Halts}
use pgcat.Client.Outside.{
  Turn, next, needs_server, over, Round, then_turn, update, inferred, infer_ast, query_output,
  query_parsed, parse_parsed, bind_inferred, parse_message, buffered, keep_parse, keep_other,
  if_parsing, on_query, on_parse, on_bind, on_code, if_allowed, custom_or, on_message,
}

module _ (c : Codec) (digest : List ℕ → List ℕ) (regexes : Regexes) (L : Lru) (P : ParseLru)
    (Ast : Type 0) (statements : Ast → List Infer.Statement) where
  abbrev S : Type 0
  S = Session L P Ast

  turned-Halts :
      (turn : Turn) → Halts L P Ast (then_turn c digest regexes L P Ast statements turn tt)
  turned-Halts turn = record { halts = λ s. tt }

  inferred-Ends :
      (r : Result Error (Unit {0}) × QueryRouter) (s : S)
      → Ends (inferred c digest regexes L P Ast statements r s).0
  inferred-Ends (ok _, r) s = tt
  inferred-Ends (err e, r) s = tt
  inferred-Ends (panic, r) s = tt

  infer_ast-Halts :
      (initializing : Bool) (ast : Ast)
      → Halts L P Ast (infer_ast c digest regexes L P Ast statements initializing ast)
  infer_ast-Halts initializing ast = record {
    halts = λ s. inferred-Ends (infer digest initializing (statements ast) s.router) s;
  }

  module _ (round : Round L.Cache Ast) where
    inferring-Halts :
        (ast : Ast)
        → Halts L P Ast (
            bind_act L P Ast
              (infer_ast c digest regexes L P Ast statements round.initializing ast)
              (λ _.
                bind_act L P Ast
                  (update c digest regexes L P Ast statements
                    (λ s. record s { initial_parsed_ast = some ast }))
                  (λ _. then_turn c digest regexes L P Ast statements needs_server tt)))
    inferring-Halts ast =
        then-Halts L P Ast (infer_ast c digest regexes L P Ast statements round.initializing ast)
          (λ _.
            bind_act L P Ast
              (update c digest regexes L P Ast statements
                (λ s. record s { initial_parsed_ast = some ast }))
              (λ _. then_turn c digest regexes L P Ast statements needs_server tt))
          (infer_ast-Halts round.initializing ast) (λ _. record { halts = λ s. tt })

    query_output-Halts :
        (ast : Ast) (o : PluginOutput)
        → Halts L P Ast (query_output c digest regexes L P Ast statements round ast o)
    query_output-Halts ast (deny e) =
        told-Halts L P Ast (error_response c e)
          (then_turn c digest regexes L P Ast statements next tt) (turned-Halts next)
    query_output-Halts ast (intercept r) =
        told-Halts L P Ast (write_all r) (then_turn c digest regexes L P Ast statements next tt)
          (turned-Halts next)
    query_output-Halts ast allow = inferring-Halts ast
    query_output-Halts ast overwrite = inferring-Halts ast

    query_parsed-Halts :
        (r : Result Error Ast)
        → Halts L P Ast (query_parsed c digest regexes L P Ast statements round r)
    query_parsed-Halts (ok ast) = query_output-Halts ast (round.env.run_plugins ast)
    query_parsed-Halts (err e) = turned-Halts needs_server
    query_parsed-Halts panic = record { halts = λ s. tt }

    on_query-Halts :
        (bytes : List ℕ) → Halts L P Ast (on_query c digest regexes L P Ast statements round bytes)
    unfolding on_query
    on_query-Halts bytes = record {
      halts = λ s.
          (if-Halts L P Ast (parser_enabled s.router)
              (query_parsed-Halts (parse_message c digest regexes L P Ast statements round bytes s))
              (turned-Halts needs_server)).halts
            s;
    }

    parse_parsed-Halts :
        (r : Result Error Ast)
        → Halts L P Ast (parse_parsed c digest regexes L P Ast statements round r)
    parse_parsed-Halts (ok ast) = record {
      halts = λ s.
          (infer_ast-Halts round.initializing ast).halts
            (record s { plugin_output = some (round.env.run_plugins ast) });
    }
    parse_parsed-Halts (err e) = record { halts = λ s. tt }
    parse_parsed-Halts panic = record { halts = λ s. tt }

    bind_inferred-Ends :
        (r : Result Error (Bool × QueryRouter)) (s : S)
        → Ends (bind_inferred c digest regexes L P Ast statements round r s).0
    bind_inferred-Ends (ok (found, r)) s = tt
    bind_inferred-Ends (err e) s = tt
    bind_inferred-Ends panic s = tt

    buffered-Ends :
        (r : Buffered) (s : S) → Ends (buffered c digest regexes L P Ast statements round r s).0
    buffered-Ends (ok _, x) s = tt
    buffered-Ends (err e, x) s = tt
    buffered-Ends (panic, x) s = tt

    keep_other-Halts :
        (f : Client → Buffered)
        → Halts L P Ast (keep_other c digest regexes L P Ast statements round f)
    keep_other-Halts f = record { halts = λ s. buffered-Ends (f s.world.client) s }

    keep_parse-Halts :
        (bytes : List ℕ)
        → Halts L P Ast (keep_parse c digest regexes L P Ast statements round bytes)
    keep_parse-Halts bytes = record {
      halts = λ s.
          buffered-Ends
            (buffer_parse c round.env.hasher P bytes s.world.client s.world.statements).0 _;
    }

    if_parsing-Halts :
        (m : Act L P Ast (Unit {0}))
        → Halts L P Ast m
        → Halts L P Ast (if_parsing c digest regexes L P Ast statements round m)
    if_parsing-Halts m h = record {
      halts = λ s.
          (if-Halts L P Ast (parser_enabled s.router) {m = m}
              {k = update c digest regexes L P Ast statements (λ t. t)} h
              (record { halts = λ t. tt })).halts
            s;
    }

    on_parse-Halts :
        (bytes : List ℕ) → Halts L P Ast (on_parse c digest regexes L P Ast statements round bytes)
    unfolding on_parse
    on_parse-Halts bytes =
        then-Halts L P Ast
          (if_parsing c digest regexes L P Ast statements round (λ s.
            parse_parsed c digest regexes L P Ast statements round
              (parse_message c digest regexes L P Ast statements round bytes s) s))
          (λ _. keep_parse c digest regexes L P Ast statements round bytes)
          (if_parsing-Halts _ (record {
            halts = λ s.
                (parse_parsed-Halts
                    (parse_message c digest regexes L P Ast statements round bytes s)).halts
                  s;
          }))
          (λ _. keep_parse-Halts bytes)

    on_bind-Halts :
        (bytes : List ℕ) → Halts L P Ast (on_bind c digest regexes L P Ast statements round bytes)
    unfolding on_bind
    on_bind-Halts bytes =
        then-Halts L P Ast
          (if_parsing c digest regexes L P Ast statements round (λ s.
            bind_inferred c digest regexes L P Ast statements round
              (infer_shard_from_bind digest c bytes s.router) s))
          (λ _. keep_other c digest regexes L P Ast statements round (buffer_bind c bytes))
          (if_parsing-Halts _ (record {
            halts = λ s. bind_inferred-Ends (infer_shard_from_bind digest c bytes s.router) s;
          }))
          (λ _. keep_other-Halts (buffer_bind c bytes))

    on_code-Halts :
        (code : ℕ) (bytes : List ℕ)
        → Halts L P Ast (on_code c digest regexes L P Ast statements round code bytes)
    unfolding on_code
    on_code-Halts code bytes = if-Halts L P Ast (code == b'Q') (on_query-Halts bytes) (
        if-Halts L P Ast (code == b'P') (on_parse-Halts bytes) (
          if-Halts L P Ast (code == b'B') (on_bind-Halts bytes) (
            if-Halts L P Ast (code == b'D') (keep_other-Halts (buffer_describe c bytes)) (
              if-Halts L P Ast (code == b'E') (keep_other-Halts (buffer_execute c bytes)) (
                if-Halts L P Ast (code == b'C') (keep_other-Halts (buffer_close c bytes))
                  (turned-Halts needs_server))))))

    denied-Halts :
        (e : Text)
        → Halts L P Ast
            (if_allowed c digest regexes L P Ast statements round (some (deny e)) needs_server)
    denied-Halts e = record {
      halts = λ s.
          (told-Halts L P Ast (error_response c e)
              (bind_act L P Ast
                (update c digest regexes L P Ast statements
                  (λ t. record t { plugin_output = none }))
                (λ _. then_turn c digest regexes L P Ast statements next tt))
              (record { halts = λ t. tt })).halts
            (with_client L P Ast (reset_buffered_state s.world.client) s);
    }

    if_allowed-Halts :
        (o : Option PluginOutput) (turn : Turn)
        → Halts L P Ast (if_allowed c digest regexes L P Ast statements round o turn)
    if_allowed-Halts none turn = turned-Halts turn
    if_allowed-Halts (some (deny e)) needs_server = denied-Halts e
    if_allowed-Halts (some (deny e)) next = turned-Halts next
    if_allowed-Halts (some (deny e)) over = turned-Halts over
    if_allowed-Halts (some (intercept r)) turn = turned-Halts turn
    if_allowed-Halts (some allow) turn = turned-Halts turn
    if_allowed-Halts (some overwrite) turn = turned-Halts turn

    custom_or-Halts :
        (bytes : List ℕ) (code : ℕ) (b : Bool)
        → Halts L P Ast (custom_or c digest regexes L P Ast statements round bytes code b)
    custom_or-Halts bytes code true = turned-Halts next
    custom_or-Halts bytes code false = record {
      halts = λ s.
          (then-Halts L P Ast (on_code c digest regexes L P Ast statements round code bytes)
              (λ turn t.
                if_allowed c digest regexes L P Ast statements round t.plugin_output turn t)
              (on_code-Halts code bytes)
              (λ turn. record {
                halts = λ t. (if_allowed-Halts t.plugin_output turn).halts t;
              })).halts
            (record s { initial_parsed_ast = none });
    }

    -- A message ends up to the checkout.
    pub on_message-Halts :
        (bytes : List ℕ)
        → Halts L P Ast (on_message c digest regexes L P Ast statements round bytes)
    unfolding on_message
    on_message-Halts [] = record { halts = λ s. tt }
    on_message-Halts (code ∷ body) = record {
      halts =
          (if-Halts L P Ast (code == b'X') (turned-Halts over) (
            then-Halts L P Ast
              (handle_custom_protocol c digest regexes L P Ast round.random (code ∷ body))
              (custom_or c digest regexes L P Ast statements round (code ∷ body) code)
              (custom-Halts c digest regexes L P Ast round.random (code ∷ body))
              (custom_or-Halts (code ∷ body) code))).halts;
    }
