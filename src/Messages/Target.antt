-- ===== src/Messages/Target.antt =====
-- src/messages.rs, the Describe and Close messages: a target (a statement or a portal) and its name.
pub mod RoundTrip
use pgcat.Prelude.{ℕ, ◌+◌, ◌%◌, ◌^◌, Bool, true, false, List, [], ◌∷◌, ◌++◌, length, ◌==◌}
use pgcat.Prelude.Result.{Result, ok, and_then, map_ok}
use pgcat.Errors.{Error}
use pgcat.Wire.{Codec, Reader, ◌>>=◌, return, get_u8, get_i32, read_string, to_c_string}

pub record Describe : Type 0 where
  pub code : ℕ
  pub len : ℕ
  pub target : ℕ
  pub statement_name : List ℕ

pub record Close : Type 0 where
  pub code : ℕ
  pub len : ℕ
  pub close_type : ℕ
  pub name : List ℕ

module _ (c : Codec) where
  pub read_describe : Reader Describe
  read_describe = do
    code ← get_u8
    len ← get_i32 c
    target ← get_u8
    statement_name ← read_string c
    return (record { code = code; len = len; target = target; statement_name = statement_name })

  pub describe_try_from : List ℕ → Result Error Describe
  unfolding read_describe
  describe_try_from bytes = map_ok (λ r. r.0) (read_describe bytes)

  pub describe_to_bytes : Describe → Result Error (List ℕ)
  describe_to_bytes d =
      and_then (to_c_string d.statement_name)
        λ name. ok (d.code ∷ (c.put_i32 ((4 + 1 + length name) % 2 ^ 32) ++ (d.target ∷ name)))

  pub read_close : Reader Close
  read_close = do
    code ← get_u8
    len ← get_i32 c
    close_type ← get_u8
    name ← read_string c
    return (record { code = code; len = len; close_type = close_type; name = name })

  pub close_try_from : List ℕ → Result Error Close
  unfolding read_close
  close_try_from bytes = map_ok (λ r. r.0) (read_close bytes)

  unfoldable pub close_to_bytes : Close → Result Error (List ℕ)
  close_to_bytes x =
      and_then (to_c_string x.name)
        λ name. ok (x.code ∷ (c.put_i32 ((4 + 1 + length name) % 2 ^ 32) ++ (x.close_type ∷ name)))

pub describe_empty_new : Describe
describe_empty_new = record { code = b'D'; len = 4 + 1 + 1; target = b'S'; statement_name = [] }

pub describe_rename : Describe → List ℕ → Describe
describe_rename d name = record d { statement_name = name }

pub describe_anonymous : Describe → Bool
describe_anonymous d = elim d.statement_name [ [] ↦ true | _ ↦ false ]

unfoldable pub close_new : List ℕ → Close
close_new name = record {
  code = b'C';
  len = (4 + 1 + length name + 1) % 2 ^ 32;
  close_type = b'S';
  name = name;
}

unfoldable pub is_prepared_statement : Close → Bool
is_prepared_statement x = x.close_type == b'S'

unfoldable pub close_anonymous : Close → Bool
close_anonymous x = elim x.name [ [] ↦ true | _ ↦ false ]
