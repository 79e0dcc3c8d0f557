-- ===== src/Client/Outside.antt =====
-- src/client.rs, `handle`: a message of a client that is in no transaction, up to the checkout of a server.
pub mod Ends
use pgcat.Prelude.{ℕ, Bool, true, false, Option, none, some, List, [], ◌∷◌, ◌==◌, if◌then◌else◌}
use pgcat.Prelude.Result.{Result, ok, err, panic}
use pgcat.Errors.{Error}
use pgcat.Wire.{Codec}
use pgcat.Wire.Sink.{write_all}
use pgcat.Config.{Address}
use pgcat.Messages.Reply.{error_response}
use pgcat.Pool.{ConnectionPool}
use pgcat.Pool.Checkout.{Attempt}
use pgcat.Pool.Statements.{ParseLru}
use pgcat.Router.{QueryRouter, parser_enabled}
use pgcat.Router.Command.{Regexes}
use pgcat.Router.FromBind.{infer_shard_from_bind}
use pgcat.Router.Infer
use pgcat.Router.Infer.{infer}
use pgcat.Router.Plugins.{PluginOutput, deny, intercept}
use pgcat.Server.State.{Lru, done, failed, panicked}
use pgcat.Client.{Client, reset_buffered_state}
use pgcat.Client.Custom.{handle_custom_protocol}
use pgcat.Client.Session.{Session, Act, bind_act, to_client, with_client}
use pgcat.Router.Parse.{parse}
use pgcat.Client.Arms.{Env}
use pgcat.Client.Extended.{
  Buffered, buffer_parse, buffer_bind, buffer_describe, buffer_execute, buffer_close,
}

-- How a message ends: the loop goes on, a server is needed, or the session is over.
pub data Turn : Type 0 where
  next needs_server over : Turn

-- What a round meets. A pool that is gone is none; a change of the configuration changes its pool.
pub record Round (C Ast : Type 0) : Type 0 where
  -- Whether a shutdown comes before the next message.
  pub shuts_down : Bool
  pub refreshed : Option (ConnectionPool → ConnectionPool)
  pub attempt : ℕ → Address → Attempt C
  pub shuffle : List Address → List Address
  pub random : ℕ
  pub initializing : Bool
  pub now : ℕ
  -- Of the settings of the pool.
  pub checkout_failure_limit : Option ℕ
  pub env : Env Ast

module _ (c : Codec) (digest : List ℕ → List ℕ) (regexes : Regexes) (L : Lru) (P : ParseLru)
    (Ast : Type 0) (statements : Ast → List Infer.Statement) where
  infixl 5 ◌>>=◌ ◌>>◌
  abbrev pub ◌>>=◌ : {A B : Type 0} → Act L P Ast A → (A → Act L P Ast B) → Act L P Ast B
  m >>= f = bind_act L P Ast m f

  abbrev pub ◌>>◌ : {B : Type 0} → Act L P Ast (Unit {0}) → Act L P Ast B → Act L P Ast B
  m >> k = bind_act L P Ast m λ _. k

  abbrev pub then_turn : {A : Type 0} → Turn → A → Act L P Ast Turn
  then_turn turn a s = (done turn, s)

  abbrev pub update : (Session L P Ast → Session L P Ast) → Act L P Ast (Unit {0})
  update f s = (done tt, f s)

  -- `let _ = query_router.infer(&ast)`
  abbrev pub inferred : Result Error (Unit {0}) × QueryRouter → Act L P Ast (Unit {0})
  inferred (panic, r) s = (panicked, record s { router = r })
  inferred (_, r) s = (done tt, record s { router = r })

  abbrev pub infer_ast : Bool → Ast → Act L P Ast (Unit {0})
  infer_ast initializing ast s = inferred (infer digest initializing (statements ast) s.router) s

  module _ (round : Round L.Cache Ast) where
    abbrev pub query_output : Ast → PluginOutput → Act L P Ast Turn
    query_output ast (deny error) = do to_client L P Ast (error_response c error); then_turn next tt
    query_output ast (intercept result) = do to_client L P Ast (write_all result); then_turn next tt
    query_output ast _ = do
      infer_ast round.initializing ast
      update λ s. record s { initial_parsed_ast = some ast }
      then_turn needs_server tt

    abbrev pub query_parsed : Result Error Ast → Act L P Ast Turn
    query_parsed (ok ast) = query_output ast (round.env.run_plugins ast)
    query_parsed (err e) = then_turn needs_server tt
    query_parsed panic = λ s. (panicked, s)

    abbrev pub parse_parsed : Result Error Ast → Act L P Ast (Unit {0})
    parse_parsed (ok ast) = do
      update λ s. record s { plugin_output = some (round.env.run_plugins ast) }
      infer_ast round.initializing ast
    parse_parsed (err e) = update λ s. s
    parse_parsed panic = λ s. (panicked, s)

    abbrev pub bind_inferred : Result Error (Bool × QueryRouter) → Act L P Ast (Unit {0})
    bind_inferred (ok (found, r)) s = (done tt, record s { router = r })
    bind_inferred _ s = (panicked, s)

    abbrev pub parse_message : List ℕ → Session L P Ast → Result Error Ast
    parse_message bytes s =
        parse round.env.parse_sql c s.router.pool_settings.query_parser_max_length bytes

    abbrev pub buffered : Buffered → Act L P Ast Turn
    buffered (ok _, x) s = (done next, with_client L P Ast x s)
    buffered (err e, x) s = (failed e, with_client L P Ast x s)
    buffered (panic, x) s = (panicked, with_client L P Ast x s)

    abbrev pub keep_parse : List ℕ → Act L P Ast Turn
    keep_parse bytes s =
        let r = buffer_parse c round.env.hasher P bytes s.world.client s.world.statements in
        buffered r.0 (record s { world = record s.world { statements = r.1 } })

    abbrev pub keep_other : (Client → Buffered) → Act L P Ast Turn
    keep_other buffer s = buffered (buffer s.world.client) s

    abbrev pub if_parsing : Act L P Ast (Unit {0}) → Act L P Ast (Unit {0})
    if_parsing m s = (if parser_enabled s.router then m else update (λ t. t)) s

    unfoldable pub on_query : List ℕ → Act L P Ast Turn
    on_query bytes s =
        (if parser_enabled s.router
            then query_parsed (parse_message bytes s)
            else then_turn needs_server tt)
          s

    unfoldable pub on_parse : List ℕ → Act L P Ast Turn
    on_parse bytes = do if_parsing λ s. parse_parsed (parse_message bytes s) s; keep_parse bytes

    unfoldable pub on_bind : List ℕ → Act L P Ast Turn
    on_bind bytes = do
      if_parsing λ s. bind_inferred (infer_shard_from_bind digest c bytes s.router) s
      keep_other (buffer_bind c bytes)

    unfoldable pub on_code : ℕ → List ℕ → Act L P Ast Turn
    unfolding on_query on_parse on_bind
    on_code code bytes =
        if code == b'Q'
        then on_query bytes
        else (if code == b'P'
            then on_parse bytes
            else (if code == b'B'
                then on_bind bytes
                else (if code == b'D'
                    then keep_other (buffer_describe c bytes)
                    else (if code == b'E'
                        then keep_other (buffer_execute c bytes)
                        else (if code == b'C'
                            then keep_other (buffer_close c bytes)
                            else then_turn needs_server tt)))))

    -- A message that the plugins deny gets no server.
    abbrev pub if_allowed : Option PluginOutput → Turn → Act L P Ast Turn
    if_allowed (some (deny error)) needs_server = do
      update λ s. with_client L P Ast (reset_buffered_state s.world.client) s
      to_client L P Ast (error_response c error)
      update λ s. record s { plugin_output = none }
      then_turn next tt
    if_allowed output turn = then_turn turn tt

    abbrev pub custom_or : List ℕ → ℕ → Bool → Act L P Ast Turn
    custom_or bytes code true = then_turn next tt
    custom_or bytes code false = do
      update λ s. record s { initial_parsed_ast = none }
      turn ← on_code code bytes
      λ s. if_allowed s.plugin_output turn s

    -- Up to the checkout.
    unfoldable pub on_message : List ℕ → Act L P Ast Turn
    unfolding on_code
    on_message [] s = (panicked, s)
    on_message (code ∷ body) s =
        (if code == b'X' then then_turn over tt else do
          answered ← handle_custom_protocol c digest regexes L P Ast round.random (code ∷ body)
          custom_or (code ∷ body) code answered)
          s
