-- ===== src/Client/Extended.antt =====
-- src/client.rs, `buffer_parse`, `buffer_bind` and `buffer_describe`: messages of the extended protocol are
-- kept until the Sync, with the client's names of statements replaced by the pool's.
pub mod Renames
use pgcat.Prelude.{
  ℕ, Bool, true, false, Option, none, some, List, [], ◌∷◌, ◌++◌, codes, ◌==◌, if◌then◌else◌,
}
use pgcat.Prelude.Result.{Result, ok, err, panic}
use pgcat.Prelude.Dict.{lookup, insert, text_Eq}
use pgcat.Errors.{Error, client_error}
use pgcat.Wire.{Codec}
use pgcat.Wire.Sink.{Sink}
use pgcat.Messages.Parse.{Parse, parse_try_from, parse_to_bytes, parse_get_name, get_hash}
use pgcat.Messages.Bind.{bind_get_name, rename}
use pgcat.Messages.Target.{
  Describe, describe_try_from, describe_to_bytes, describe_rename, close_try_from,
}
use pgcat.Messages.Reply.{error_response}
use pgcat.Server.Parameters.{Text}
use pgcat.Pool.Statements.{ParseLru, Statements, register_parse_to_cache}
use pgcat.Client.{Client, ExtendedProtocolData, parse, bind, describe, execute, close, push_back}

-- A message that is kept, or an error, and the client.
abbrev pub Buffered : Type 0
Buffered = Result Error (Unit {0}) × Client

module _ (c : Codec) where
  abbrev pub keep : (List ℕ → ExtendedProtocolData) → Result Error (List ℕ) → Client → Buffered
  keep make (ok bytes) x = (ok tt, push_back (make bytes) x)
  keep make (err e) x = (err e, x)
  keep make panic x = (panic, x)

  abbrev not_found : Result Error (Unit {0}) × Sink → Client → Buffered
  not_found (ok _, sink) x = (err client_error, record x { write = sink })
  not_found (err e, sink) x = (err e, record x { write = sink })
  not_found (panic, sink) x = (panic, record x { write = sink })

  -- `error_response(…).await?`, and the error of an unknown statement.
  unfoldable pub unknown_statement : Text → Client → Buffered
  unknown_statement name x =
      not_found
        (error_response c (codes "prepared statement \"" ++ (name ++ codes "\" does not exist"))
          x.write)
        x

  abbrev pub bind_known : List ℕ → Text → Client → Option (Parse × ℕ) → Buffered
  bind_known message name x none = unknown_statement name x
  bind_known message name x (some (rewritten, hash)) =
      keep (λ bytes. bind bytes (some name)) (rename c message rewritten.name) x

  abbrev pub bind_named : List ℕ → Client → Result Error Text → Buffered
  bind_named message x (ok name) = bind_known message name x (lookup name x.prepared_statements)
  bind_named message x (err e) = (err e, x)
  bind_named message x panic = (panic, x)

  unfoldable pub buffer_bind : List ℕ → Client → Buffered
  unfolding unknown_statement
  buffer_bind message x =
      if x.prepared_statements_enabled
      then bind_named message x (bind_get_name c message)
      else (ok tt, push_back (bind message none) x)

  abbrev pub describe_known : Describe → Client → Option (Parse × ℕ) → Buffered
  describe_known d x none = unknown_statement d.statement_name x
  describe_known d x (some (rewritten, hash)) =
      keep (λ bytes. describe bytes (some d.statement_name))
        (describe_to_bytes c (describe_rename d rewritten.name)) x

  abbrev pub described : List ℕ → Client → Result Error Describe → Buffered
  described message x (ok d) =
      if d.target == b'P'
      then (ok tt, push_back (describe message none) x)
      else describe_known d x (lookup d.statement_name x.prepared_statements)
  described message x (err e) = (err e, x)
  described message x panic = (panic, x)

  unfoldable pub buffer_describe : List ℕ → Client → Buffered
  unfolding unknown_statement
  buffer_describe message x =
      if x.prepared_statements_enabled
      then described message x (describe_try_from c message)
      else (ok tt, push_back (describe message none) x)

  -- The arms of the messages Execute and Close.
  unfoldable pub buffer_execute : List ℕ → Client → Buffered
  buffer_execute message x = (ok tt, push_back (execute message) x)

  unfoldable pub buffer_close : List ℕ → Client → Buffered
  buffer_close message x = elim (close_try_from c message) [
    | ok request ↦ (ok tt, push_back (close message request) x)
    | err e ↦ (err e, x)
    | panic ↦ (panic, x)
  ]

  module _ (hasher : List ℕ → ℕ) (P : ParseLru) where
    abbrev pub with_statements : Statements P.Cache → Buffered → Buffered × Statements P.Cache
    with_statements s r = (r, s)

    abbrev pub parse_stored :
        Text → ℕ → Client → Option Parse × Statements P.Cache → Buffered × Statements P.Cache
    parse_stored name hash x (none, s) = ((err client_error, x), s)
    parse_stored name hash x (some new_parse, s) = with_statements s (
        keep (λ bytes. parse bytes (some (new_parse, hash))) (parse_to_bytes c new_parse)
          (record x { prepared_statements = insert name (new_parse, hash) x.prepared_statements }))

    abbrev pub parse_read :
        Text → Client → Statements P.Cache → Result Error Parse → Buffered × Statements P.Cache
    parse_read name x s (ok p) =
        parse_stored name (get_hash hasher p) x (register_parse_to_cache P (get_hash hasher p) p s)
    parse_read name x s (err e) = ((err e, x), s)
    parse_read name x s panic = ((panic, x), s)

    abbrev pub parse_named :
        List ℕ → Client → Statements P.Cache → Result Error Text → Buffered × Statements P.Cache
    parse_named message x s (ok name) = parse_read name x s (parse_try_from c message)
    parse_named message x s (err e) = ((err e, x), s)
    parse_named message x s panic = ((panic, x), s)

    unfoldable pub buffer_parse :
        List ℕ → Client → Statements P.Cache → Buffered × Statements P.Cache
    buffer_parse message x s =
        if x.prepared_statements_enabled
        then parse_named message x s (parse_get_name c message)
        else ((ok tt, push_back (parse message none) x), s)
