-- ===== src/Router/Parse.antt =====
-- src/query_router.rs, `parse`: the statements of a Query or a Parse message. The parser of the crate
-- sqlparser is a parameter, and so is the form of its trees.
use pgcat.Prelude.{ℕ, Bool, false, Option, none, some, List, ltb, ◌==◌, if◌then◌else◌}
use pgcat.Prelude.Words.{i32_as_usize}
use pgcat.Prelude.Result.{Result, ok, err, panic}
use pgcat.Errors.{Error, query_router_parser_error, unsupported_statement}
use pgcat.Wire.{Codec, Reader, ◌>>=◌, get_u8, get_i32, read_string}

-- `unwrap()` of what is read.
abbrev pub unwrapped : {A : Type 0} → Reader A → Reader A
unwrapped m bs = elim (m bs) [ ok r ↦ ok r | _ ↦ panic ]

abbrev pub refuse : {A : Type 0} → Error → Reader A
refuse e bs = err e

abbrev pub is_too_long : Option ℕ → ℕ → Bool
is_too_long none len = false
is_too_long (some max_length) len = ltb max_length len

-- The text of the query; the length that the message states is the one that is checked.
unfoldable pub query_text : Codec → Option ℕ → Reader (List ℕ)
query_text c max_length = do
  code ← get_u8
  len ← get_i32 c
  if is_too_long max_length (i32_as_usize len)
      then refuse query_router_parser_error
      else (if code == b'Q'
          then unwrapped (read_string c)
          else (if code == b'P'
              then (unwrapped (read_string c) >>= λ _. unwrapped (read_string c))
              else refuse unsupported_statement))

module _ {Ast : Type 0} (parse_sql : List ℕ → Result Error Ast) where
  abbrev pub parse_read : Result Error (List ℕ × List ℕ) → Result Error Ast
  parse_read (ok (query, rest)) = parse_sql query
  parse_read (err e) = err e
  parse_read panic = panic

  unfoldable pub parse : Codec → Option ℕ → List ℕ → Result Error Ast
  unfolding query_text
  parse c max_length message = parse_read (query_text c max_length message)
