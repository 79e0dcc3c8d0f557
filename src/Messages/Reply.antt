-- ===== src/Messages/Reply.antt =====
-- src/messages.rs, the messages that pgcat composes. A length that is cast to i32 or i16 wraps.
pub mod Rows
use pgcat.Prelude.{
  ℕ, ◌+◌, ◌-◌, ◌%◌, ◌^◌, Bool, false, Option, none, some, List, [], ◌∷◌, ◌++◌, length, codes,
  if◌then◌else◌,
}
use pgcat.Prelude.Result.{Result}
use pgcat.Errors.{Error}
use pgcat.Wire.{Codec}
use pgcat.Wire.Sink.{Sink, write_all, write_both}

pub data DataType : Type 0 where
  text int4 numeric bool oid any_array any : DataType

-- `From<&DataType> for i32`
pub data_type_oid : DataType → ℕ
data_type_oid text = 25
data_type_oid int4 = 23
data_type_oid numeric = 1700
data_type_oid bool = 16
data_type_oid oid = 26
data_type_oid any_array = 2277
data_type_oid any = 2276

-- The size that `row_description` states, an i16 bit pattern: -1 where it varies.
pub data_type_size : DataType → ℕ
data_type_size text = 2 ^ 16 - 1
data_type_size int4 = 4
data_type_size numeric = 2 ^ 16 - 1
data_type_size bool = 1
data_type_size oid = 4
data_type_size any_array = 2 ^ 16 - 1
data_type_size any = 2 ^ 16 - 1

abbrev nul : List ℕ → List ℕ
nul s = s ++ (0 ∷ [])

module _ (c : Codec) where
  -- `put_u8(code); put_i32(body.len() as i32 + 4); put(body)`
  abbrev pub message : ℕ → List ℕ → List ℕ
  message code body = code ∷ (c.put_i32 ((length body + 4) % 2 ^ 32) ++ body)

  pub auth_ok : List ℕ
  auth_ok = b'R' ∷ (c.put_i32 8 ++ c.put_i32 0)

  -- The salt is four random bytes.
  pub md5_challenge : List ℕ → List ℕ
  md5_challenge salt = b'R' ∷ (c.put_i32 12 ++ (c.put_i32 5 ++ salt))

  pub backend_key_data : ℕ → ℕ → List ℕ
  backend_key_data backend_id secret_key =
      b'K' ∷ (c.put_i32 12 ++ (c.put_i32 backend_id ++ c.put_i32 secret_key))

  unfoldable pub simple_query : List ℕ → List ℕ
  simple_query query = message b'Q' (nul query)

  unfoldable pub ready_for_query : Bool → List ℕ
  ready_for_query in_transaction =
      b'Z' ∷ (c.put_i32 5 ++ ((if in_transaction then b'T' else b'I') ∷ []))

  -- `startup`: the parameters, and the packet with its length and the protocol number.
  unfoldable pub startup_params : List ℕ → List ℕ → List ℕ
  startup_params user database =
      nul (codes "user")
      ++ (nul user
          ++ (nul (codes "application_name")
              ++ (nul (codes "pgcat") ++ (nul (codes "database") ++ (nul database ++ (0 ∷ []))))))

  unfoldable pub startup : List ℕ → List ℕ → List ℕ
  unfolding startup_params
  startup user database =
      let bytes = c.put_i32 196608 ++ startup_params user database in
      c.put_i32 ((length bytes + 4) % 2 ^ 32) ++ bytes

  pub ssl_request : List ℕ
  ssl_request = c.put_i32 8 ++ c.put_i32 80877103

  unfoldable pub command_complete : List ℕ → List ℕ
  command_complete command = message b'C' (nul command)

  pub custom_protocol_response_ok : List ℕ → Sink → Result Error (Unit {0}) × Sink
  unfolding command_complete ready_for_query write_both
  custom_protocol_response_ok msg s = write_both (command_complete msg) (ready_for_query false) s

  error_fields : List ℕ → List ℕ → List ℕ
  error_fields code msg =
      (b'S' ∷ nul (codes "FATAL"))
      ++ ((b'V' ∷ nul (codes "FATAL")) ++ ((b'C' ∷ nul code) ++ ((b'M' ∷ nul msg) ++ (0 ∷ []))))

  pub error_message : List ℕ → List ℕ
  unfolding error_fields
  error_message msg = message b'E' (error_fields (codes "58000") msg)

  pub error_response_terminal : List ℕ → Sink → Result Error (Unit {0}) × Sink
  unfolding error_message write_all
  error_response_terminal msg s = write_all (error_message msg) s

  unfoldable pub error_response : List ℕ → Sink → Result Error (Unit {0}) × Sink
  unfolding error_message ready_for_query write_both
  error_response msg s = write_both (error_message msg) (ready_for_query false) s

  pub wrong_password : List ℕ → List ℕ
  unfolding error_fields
  wrong_password user = message b'E' (
      error_fields (codes "28P01")
        (codes "password authentication failed for user \"" ++ (user ++ codes "\"")))

  put_columns : List (List ℕ × DataType) → List ℕ
  unfolding data_type_oid data_type_size
  put_columns [] = []
  put_columns ((name, data_type) ∷ columns) =
      nul name
      ++ (c.put_i32 0
          ++ (c.put_i16 0
              ++ (c.put_i32 (data_type_oid data_type)
                  ++ (c.put_i16 (data_type_size data_type)
                      ++ (c.put_i32 (2 ^ 32 - 1) ++ (c.put_i16 0 ++ put_columns columns))))))

  pub row_description : List (List ℕ × DataType) → List ℕ
  unfolding put_columns
  row_description columns =
      message b'T' (c.put_i16 (length columns % 2 ^ 16) ++ put_columns columns)

  unfoldable pub put_row : List (List ℕ) → List ℕ
  put_row [] = []
  put_row (column ∷ row) = c.put_i32 (length column % 2 ^ 32) ++ (column ++ put_row row)

  unfoldable pub data_row : List (List ℕ) → List ℕ
  unfolding put_row
  data_row row = message b'D' (c.put_i16 (length row % 2 ^ 16) ++ put_row row)

  unfoldable pub put_nullable_row : List (Option (List ℕ)) → List ℕ
  put_nullable_row [] = []
  put_nullable_row (some column ∷ row) =
      c.put_i32 (length column % 2 ^ 32) ++ (column ++ put_nullable_row row)
  put_nullable_row (none ∷ row) = c.put_i32 (2 ^ 32 - 1) ++ put_nullable_row row

  unfoldable pub data_row_nullable : List (Option (List ℕ)) → List ℕ
  unfolding put_nullable_row
  data_row_nullable row = message b'D' (c.put_i16 (length row % 2 ^ 16) ++ put_nullable_row row)

  pub show_response : List ℕ → List ℕ → Sink → Result Error (Unit {0}) × Sink
  unfolding row_description data_row command_complete ready_for_query write_both
  show_response name value s =
      write_both
        (row_description ((name, text) ∷ [])
          ++ (data_row (value ∷ []) ++ command_complete (codes "SELECT 1")))
        (ready_for_query false) s

  pub notify : List ℕ → List ℕ → List ℕ
  notify msg details = message b'N' (
      nul (codes "SNOTICE")
      ++ (nul (codes "C00000") ++ ((b'M' ∷ nul msg) ++ ((b'D' ∷ nul details) ++ (0 ∷ [])))))

  pub flush : List ℕ
  flush = b'H' ∷ c.put_i32 4

  unfoldable pub sync : List ℕ
  sync = b'S' ∷ c.put_i32 4

  pub parse_complete : List ℕ
  parse_complete = b'1' ∷ c.put_i32 4

  pub close_complete : List ℕ
  close_complete = b'3' ∷ c.put_i32 4

  pub server_parameter_message : List ℕ → List ℕ → List ℕ
  server_parameter_message key value =
      b'S'
      ∷ (c.put_i32 ((4 + length key + 1 + length value + 1) % 2 ^ 32) ++ (nul key ++ nul value))
