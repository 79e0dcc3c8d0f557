-- ===== src/Client/Extended/Renames.antt =====
-- src/client.rs: a Bind and a Describe that follow a Parse name the statement that the Parse was given.
use pgcat.Prelude.{
  ℕ, ◌≡◌, refl, ap, true, false, Option, none, some, List, [], ◌∷◌, ◌++◌, ◌==◌, text_eq_refl,
}
use pgcat.Prelude.Result.{Result, ok, err, panic}
use pgcat.Prelude.Dict.{lookup, insert, lookup-insert, text_Eq}
use pgcat.Errors.{Error}
use pgcat.Wire.{Codec}
use pgcat.Messages.Parse.{Parse, parse_try_from, parse_to_bytes, parse_get_name, get_hash}
use pgcat.Messages.Bind.{bind_get_name, rename}
use pgcat.Messages.Target.{Describe, describe_try_from, describe_to_bytes, describe_rename}
use pgcat.Server.Parameters.{Text}
use pgcat.Pool.Statements.{ParseLru, Statements, register_parse_to_cache}
use pgcat.Client.{Client, parse, bind, describe}
use pgcat.Client.Extended.{
  Buffered, keep, parse_stored, buffer_parse, buffer_bind, buffer_describe, with_statements,
}

module _ (c : Codec) where
  -- How the messages that name the statement `name` are kept, when it stands for `p`.
  abbrev pub BindsTo : Text → Parse → Client → Type 0
  BindsTo name p x =
      ((message : List ℕ)
        → bind_get_name c message ≡ ok name
        → buffer_bind c message x
          ≡ keep c (λ bytes. bind bytes (some name)) (rename c message p.name) x)
      × ((message : List ℕ) (d : Describe)
          → describe_try_from c message ≡ ok d
          → (d.target == b'P') ≡ false
          → d.statement_name ≡ name
          → buffer_describe c message x
            ≡ keep c (λ bytes. describe bytes (some name))
                (describe_to_bytes c (describe_rename d p.name)) x)

  lookup_own :
      (name : Text) (entry : Parse × ℕ) (m : List (Text × (Parse × ℕ)))
      → lookup name (insert name entry m) ≡ some entry
  lookup_own name entry m = rw (lookup-insert name name entry m, text_eq_refl name) refl

  known-BindsTo :
      (name : Text) (p : Parse) (hash : ℕ) (x : Client)
      → x.prepared_statements_enabled ≡ true
      → lookup name x.prepared_statements ≡ some (p, hash)
      → BindsTo name p x
  unfolding buffer_bind buffer_describe
  known-BindsTo name p hash x on found = (
    (λ message e. rw (on, e, found) refl),
    (λ message d e other named. rw (on, e, other, named, found) refl),
  )

  module _ (hasher : List ℕ → ℕ) (P : ParseLru) where
    -- The outcome of a Parse message that was read as `q`, for a client that called it `name`.
    abbrev pub Stands :
        Text → Parse → Client → Statements P.Cache → Buffered × Statements P.Cache → Type 0
    Stands name q x s ((ok _, x'), s') =
        (p : Parse) × (bytes : List ℕ) × ((register_parse_to_cache P (get_hash hasher q) q s).0
          ≡ some p)
        × (parse_to_bytes c p ≡ ok bytes)
        × (x'.extended_protocol_data_buffer
            ≡ x.extended_protocol_data_buffer ++ (parse bytes (some (p, get_hash hasher q)) ∷ []))
        × BindsTo name p x'
    Stands name q x s ((err e, x'), s') =
        x'.extended_protocol_data_buffer ≡ x.extended_protocol_data_buffer
    Stands name q x s ((panic, x'), s') =
        x'.extended_protocol_data_buffer ≡ x.extended_protocol_data_buffer

    kept-Stands :
        (name : Text) (q p : Parse) (x : Client) (s s' : Statements P.Cache)
        (r : Result Error (List ℕ))
        → x.prepared_statements_enabled ≡ true
        → (register_parse_to_cache P (get_hash hasher q) q s).0 ≡ some p
        → parse_to_bytes c p ≡ r
        → Stands name q x s (
            with_statements c hasher P s' (
              keep c
                (λ bytes. parse bytes (some (p, get_hash hasher q)))
                r
                (record x {
                  prepared_statements = insert name (p, get_hash hasher q) x.prepared_statements;
                })))
    kept-Stands name q p x s s' (ok bytes) on e f =
        (p, bytes, e, f, refl, known-BindsTo name p (get_hash hasher q) _ on (lookup_own name _ _))
    kept-Stands name q p x s s' (err _) on e f = refl
    kept-Stands name q p x s s' panic on e f = refl

    stored-Stands :
        (name : Text) (q : Parse) (x : Client) (s : Statements P.Cache)
        (r : Option Parse × Statements P.Cache)
        → x.prepared_statements_enabled ≡ true
        → register_parse_to_cache P (get_hash hasher q) q s ≡ r
        → Stands name q x s (parse_stored c hasher P name (get_hash hasher q) x r)
    stored-Stands name q x s (none, s') on e = refl
    stored-Stands name q x s (some p, s') on e =
        kept-Stands name q p x s s' (parse_to_bytes c p) on
          (ap (λ (z : Option Parse × Statements P.Cache). z.0) e) refl

    -- A Parse message of a client that uses prepared statements, if it is accepted, is kept under
    -- the name that the pool has for its hash, in the bytes that write that statement, and the Bind
    -- and Describe messages with the client's name for it are then kept under the same name. If it
    -- is not accepted, no message is kept.
    pub buffer_parse-Stands :
        (message : List ℕ) (name : Text) (q : Parse) (x : Client) (s : Statements P.Cache)
        → x.prepared_statements_enabled ≡ true
        → parse_get_name c message ≡ ok name
        → parse_try_from c message ≡ ok q
        → Stands name q x s (buffer_parse c hasher P message x s)
    unfolding buffer_parse
    buffer_parse-Stands message name q x s on e f =
        simp (on, e, f) (stored-Stands name q x s _ on refl)
