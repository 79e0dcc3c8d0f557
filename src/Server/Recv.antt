-- ===== src/Server/Recv.antt =====
-- src/server.rs, `recv`: messages are read and buffered until the reply, or a part of it, is complete.
-- The parameters of the client, where the caller passes them, go in and out.
pub mod Forward
pub mod Evolves
use pgcat.Prelude.{
  ℕ, zero, suc, ◌≤◌, Bool, true, false, not, Option, none, some, List, [], ◌∷◌, ◌++◌, length, drop,
  codes, ◌==◌, leb, text_eq, if◌then◌else◌,
}
use pgcat.Prelude.Result.{Result, ok, err, panic}
use pgcat.Errors.{Error, protocol_sync_error}
use pgcat.Wire.{Codec, read_string_mut}
use pgcat.Wire.Stream.{read_message}
use pgcat.Messages.ErrorFields.{parse}
use pgcat.Server.Parameters.{Text, ServerParameters, set_param}
use pgcat.Server.State.{Lru, Server, CleanupState, Outcome, done, failed, panicked, stuck}

-- How one round of the loop ends.
pub data Flow : Type 0 where
  continues breaks : Flow
  fails : Error → Flow
  panics : Flow

module _ (c : Codec) (L : Lru) where
  abbrev pub Conn : Type 0
  Conn = Server (L.Cache)

  abbrev pub Round : Type 0
  Round = Flow × Conn × Option ServerParameters

  -- ReadyForQuery
  pub on_ready : List ℕ → Conn → Option ServerParameters → Round
  on_ready [] s p = (panics, s, p)
  on_ready (status ∷ _) s p =
      if status == b'T'
      then (breaks, record s { in_transaction = true; data_available = false }, p)
      else if status == b'I'
      then (breaks, record s { in_transaction = false; data_available = false }, p)
      else if status == b'E'
      then (breaks, record s { in_transaction = true; data_available = false }, p)
      else (fails protocol_sync_error, record s { bad = true }, p)

  abbrev pop_cache : Text → Option L.Cache → Option L.Cache
  pop_cache name none = none
  pop_cache name (some cache) = some (L.pop name cache)

  -- The statement that was being prepared is taken out of the cache.
  unregister : List Text → Option L.Cache → Option L.Cache
  unregister [] cache = cache
  unregister (name ∷ _) cache = pop_cache name cache

  abbrev pub pop_front : List Text → List Text
  pop_front [] = []
  pop_front (_ ∷ names) = names

  plan_changed : List ℕ → Bool
  plan_changed body =
      text_eq (parse c body).message (codes "cached plan must not change result type")

  -- ErrorResponse
  note_plan : List ℕ → Option L.Cache → CleanupState → CleanupState
  unfolding plan_changed
  note_plan body none state = state
  note_plan body (some _) state =
      if plan_changed body then record state { needs_cleanup_prepare = true } else state

  pub on_error_response : List ℕ → Conn → Option ServerParameters → Round
  unfolding unregister note_plan
  on_error_response body s p = (
    continues,
    record s {
      in_copy_mode = false;
      registering_prepared_statement = pop_front s.registering_prepared_statement;
      prepared_statement_cache =
          unregister s.registering_prepared_statement s.prepared_statement_cache;
      cleanup_state = note_plan body s.prepared_statement_cache s.cleanup_state;
    },
    p,
  )

  -- The session state that a command leaves behind; SET in a transaction is not looked at.
  note_command : Result Error (List ℕ × List ℕ) → Bool → CleanupState → CleanupState
  note_command (ok (command, _)) in_transaction state =
      if text_eq command (codes "SET")
      then (if in_transaction then state else record state { needs_cleanup_set = true })
      else if text_eq command (codes "PREPARE")
      then record state { needs_cleanup_prepare = true }
      else state
  note_command (err e) in_transaction state = state
  note_command panic in_transaction state = state

  -- CommandComplete
  pub on_command_complete : List ℕ → Conn → Option ServerParameters → Round
  unfolding note_command
  on_command_complete body s p = (
    continues,
    record s {
      in_copy_mode = false;
      cleanup_state = note_command (read_string_mut c body) s.in_transaction s.cleanup_state;
    },
    p,
  )

  set_client_param : Text → Text → Option ServerParameters → Option ServerParameters
  set_client_param key value none = none
  set_client_param key value (some p) = some (set_param key value false p)

  status_value : Text → Result Error (List ℕ × List ℕ) → Conn → Option ServerParameters → Round
  unfolding set_client_param
  status_value key (ok (value, _)) s p = (
    continues,
    record s { server_parameters = set_param key value false s.server_parameters },
    set_client_param key value p,
  )
  status_value key (err e) s p = (panics, s, p)
  status_value key panic s p = (panics, s, p)

  status_key : Result Error (List ℕ × List ℕ) → Conn → Option ServerParameters → Round
  unfolding status_value
  status_key (ok (key, rest)) s p = status_value key (read_string_mut c rest) s p
  status_key (err e) s p = (panics, s, p)
  status_key panic s p = (panics, s, p)

  -- ParameterStatus
  pub on_parameter_status : List ℕ → Conn → Option ServerParameters → Round
  unfolding status_key
  on_parameter_status body s p = status_key (read_string_mut c body) s p

  -- `if self.buffer.len() >= 8196 { break; }`
  abbrev full : Conn → Flow
  full s = if leb 8196 (length s.buffer) then breaks else continues

  -- The `match` on the code of a message, whose body is what follows its length.
  pub on_message : ℕ → List ℕ → Conn → Option ServerParameters → Round
  unfolding on_ready on_error_response on_command_complete on_parameter_status
  on_message code body s p =
      if code == b'Z'
      then on_ready body s p
      else if code == b'E'
      then on_error_response body s p
      else if code == b'C'
      then on_command_complete body s p
      else if code == b'S'
      then on_parameter_status body s p
      else if code == b'D'
      then (full s, record s { data_available = true }, p)
      else if code == b'G'
      then (breaks, record s { in_copy_mode = true }, p)
      else if code == b'H'
      then (breaks, record s { in_copy_mode = true; data_available = true }, p)
      else if code == b'd'
      then (full s, s, p)
      else if code == b'c'
      then (continues, s, p)
      else if code == b'1'
      then (
        continues,
        record s { registering_prepared_statement = pop_front s.registering_prepared_statement },
        p,
      )
      else (continues, s, p)

  -- The loop, on a fuel of rounds. A message is appended to the buffer before it is looked at.
  abbrev pub take_body : List ℕ → List ℕ
  take_body m = drop 5 m

  abbrev pub code_of : List ℕ → ℕ
  code_of [] = 0
  code_of (code ∷ _) = code

  -- One round: read a message, buffer it, act on it.
  pub recv_round : Conn → Option ServerParameters → Round
  unfolding on_message
  recv_round s p = elim (read_message c s.inbox) [
    | ok (m, rest) ↦
        on_message (code_of m) (take_body m) (record s { inbox = rest; buffer = s.buffer ++ m }) p
    | err e ↦ (fails e, record s { bad = true }, p)
    | panic ↦ (panics, s, p)
  ]

  -- What `recv` answers once the loop is over.
  abbrev pub finish :
      Flow
      → Conn
      → Option ServerParameters
      → Outcome (List ℕ) × Conn × Option ServerParameters
      → Outcome (List ℕ) × Conn × Option ServerParameters
  finish continues s p more = more
  finish breaks s p more = (done s.buffer, record s { buffer = [] }, p)
  finish (fails e) s p more = (failed e, s, p)
  finish panics s p more = (panicked, s, p)

  pub recv_loop :
      ℕ → Conn → Option ServerParameters → Outcome (List ℕ) × Conn × Option ServerParameters
  recv_loop zero s p = (stuck, s, p)
  recv_loop (suc fuel) s p =
      let (flow, s', p') = recv_round s p in
      let more = recv_loop fuel s' p' in finish flow s' p' more

  -- A message has five bytes or more, so that many rounds are never used up.
  unfoldable pub recv :
      Conn → Option ServerParameters → Outcome (List ℕ) × Conn × Option ServerParameters
  unfolding recv_loop recv_round
  recv s p = recv_loop (suc (length s.inbox)) s p
