-- ===== src/Client/Sync.antt =====
-- src/client.rs, the arm of the Sync message up to the sending of its batch, which is in Client/Relay:
-- what was kept is put together for the server, or is answered at once.
pub mod Ready
pub mod Steps
pub mod Forwards
pub mod Answers
pub mod Keeps
pub mod Ends
use pgcat.Prelude.{
  ℕ, Bool, true, false, ◌&&◌, not, Option, none, some, List, [], ◌∷◌, ◌++◌, get_elem?, ◌==◌,
  if◌then◌else◌,
}
use pgcat.Prelude.Result.{Result, ok, err, panic}
use pgcat.Prelude.Dict.{lookup, remove, text_Eq}
use pgcat.Errors.{Error, client_error, prepared_statement_error}
use pgcat.Wire.{Codec}
use pgcat.Wire.Sink.{Sink, write_all}
use pgcat.Config.{Address}
use pgcat.Messages.Parse.{Parse}
use pgcat.Messages.Target.{Close, is_prepared_statement, close_anonymous}
use pgcat.Messages.Reply.{parse_complete, close_complete, ready_for_query}
use pgcat.Server.Parameters.{Text}
use pgcat.Server.State.{Lru, Server, Outcome, done, failed, panicked, stuck}
use pgcat.Server.Query.{mark_dirty}
use pgcat.Server.Prepared.{has_prepared_statement, register_prepared_statement}
use pgcat.Pool.{ConnectionPool, message_send_failed}
use pgcat.Pool.Bans.{ban}
use pgcat.Pool.Statements.{ParseLru, Statements, promote_prepared_statement_hash}
use pgcat.Client.{
  Client, ExtendedProtocolData, parse, bind, describe, execute, close, put, queue_response, World,
  W, next_step, change, on_server,
}

abbrev pub name_byte : List ℕ → ℕ
name_byte bytes = elim (get_elem? bytes 5) [ none ↦ 0 | some b ↦ b ]

-- `self.prepared_statements.remove(name)`
abbrev pub forget : Text → Client → Client
forget name x = record x { prepared_statements = remove name x.prepared_statements }

abbrev pub closes_statement : Client → Close → Bool
closes_statement x request =
    x.prepared_statements_enabled
    && (is_prepared_statement request && not (close_anonymous request))

abbrev pub is_refusal : Error → Bool
is_refusal prepared_statement_error = true
is_refusal _ = false

abbrev pub starts_with_sync : List ℕ → Bool
starts_with_sync [] = false
starts_with_sync (b ∷ bs) = b == b'S'

module _ (c : Codec) (L : Lru) (P : ParseLru) (address : Address) (now : ℕ) where
  infixl 5 ◌>>=◌ ◌>>◌
  abbrev pub ◌>>=◌ : {A B : Type 0} → W L P A → (A → W L P B) → W L P B
  m >>= f = next_step L P m f

  abbrev pub ◌>>◌ : {B : Type 0} → W L P (Unit {0}) → W L P B → W L P B
  m >> k = next_step L P m λ _. k

  abbrev pub finish :
      Outcome (Unit {0}) → World L P → Result Error ConnectionPool → Outcome (Unit {0}) × World L P
  finish o w (ok pool) = (o, record w { pool = pool })
  finish o w _ = (panicked, w)

  -- A failure to send bans the address, unless the server refused the statement.
  abbrev pub ban_unless_refused : Error → W L P (Unit {0})
  ban_unless_refused e w =
      if is_refusal e
      then (failed e, w)
      else finish (failed e) w (ban address message_send_failed now w.pool)

  abbrev pub register_outcome : Outcome (Unit {0}) → W L P (Unit {0})
  register_outcome (failed e) w = ban_unless_refused e w
  register_outcome o w = (o, w)

  abbrev pub promote : ℕ → W L P (Unit {0})
  promote hash w =
      (done tt, record w { statements = promote_prepared_statement_hash P hash w.statements })

  abbrev pub register_on_server : Bool → Parse → W L P (Unit {0})
  register_on_server should_send p w =
      let r = on_server L P (register_prepared_statement c L p should_send) w in
      register_outcome r.0 r.1

  unfoldable pub register_parse_to_server_cache : Bool → ℕ → Parse → W L P (Unit {0})
  register_parse_to_server_cache should_send hash p = do
    promote hash
    register_on_server should_send p

  -- A statement that the server refused is forgotten, and that is no error.
  abbrev pub forget_refused : Text → Outcome (Unit {0}) → W L P (Unit {0})
  forget_refused name (failed e) w =
      if is_refusal e then change L P (forget name) w else (failed e, w)
  forget_refused name o w = (o, w)

  abbrev pub ensure_known : Text → Option (Parse × ℕ) → W L P (Unit {0})
  ensure_known name none w = (failed client_error, w)
  ensure_known name (some (p, hash)) w =
      let r = register_parse_to_server_cache true hash p w in forget_refused name r.0 r.1

  unfoldable pub ensure_prepared_statement_is_on_server : Text → W L P (Unit {0})
  unfolding register_parse_to_server_cache
  ensure_prepared_statement_is_on_server name w =
      ensure_known name (lookup name w.client.prepared_statements) w

  abbrev pub ensure : Option Text → W L P (Unit {0})
  ensure none w = (done tt, w)
  ensure (some name) w = ensure_prepared_statement_is_on_server name w

  abbrev pub mark_if_named : List ℕ → W L P (Unit {0})
  mark_if_named bytes w =
      (done tt, if name_byte bytes == 0 then w else record w { server = mark_dirty w.server })

  abbrev pub parse_found : List ℕ → Parse → ℕ → Bool → W L P (Unit {0})
  parse_found bytes p hash true = change L P (queue_response (parse_complete c))
  parse_found bytes p hash false = do
    register_parse_to_server_cache false hash p
    change L P (put bytes)

  abbrev pub close_kept : List ℕ → Close → Client → Client
  close_kept bytes request x =
      (if closes_statement x request
          then (λ y. queue_response (close_complete c) (forget request.name y))
          else put bytes)
        x

  -- One round of the loop over the messages that were kept.
  unfoldable pub process : ExtendedProtocolData → W L P (Unit {0})
  unfolding ensure_prepared_statement_is_on_server
  process (parse bytes none) = do mark_if_named bytes; change L P (put bytes)
  process (parse bytes (some (p, hash))) = do
    has_it ← on_server L P (has_prepared_statement c L p.name)
    parse_found bytes p hash has_it
  process (bind bytes name) = do ensure name; change L P (put bytes)
  process (describe bytes name) = do ensure name; change L P (put bytes)
  process (execute bytes) = change L P (put bytes)
  process (close bytes request) = change L P (close_kept bytes request)

  abbrev pub keep_rest : List ExtendedProtocolData → W L P (Unit {0})
  keep_rest ds = change L P λ x. record x { extended_protocol_data_buffer = ds }

  unfoldable pub process_all : List ExtendedProtocolData → W L P (Unit {0})
  unfolding process
  process_all [] = λ w. (done tt, w)
  process_all (d ∷ ds) = do keep_rest ds; process d; process_all ds

  -- `write_all_flush` of the queued responses; if it fails, the server is not used again.
  abbrev pub responded : Result Error (Unit {0}) × Sink → W L P (Unit {0})
  responded (ok _, sink) w = (
    done tt,
    record w { client = record w.client { write = sink; response_message_queue_buffer = [] } },
  )
  responded (err e, sink) w = (
    failed e,
    record w { client = record w.client { write = sink }; server = record w.server { bad = true } },
  )
  responded (panic, sink) w = (panicked, record w { client = record w.client { write = sink } })

  abbrev pub respond : List ℕ → W L P (Unit {0})
  respond [] w = (done tt, w)
  respond (b ∷ bytes) w = responded (write_all (b ∷ bytes) w.client.write) w

  -- `first().unwrap()` of the buffer.
  abbrev pub answer_if_alone : List ℕ → W L P (Unit {0})
  answer_if_alone [] w = (panicked, w)
  answer_if_alone (b ∷ bs) w =
      if b == b'S'
      then change L P (queue_response (ready_for_query c w.server.in_transaction)) w
      else (done tt, w)

  -- Up to the sending: whether there is anything to send but the Sync.
  unfoldable pub sync : List ℕ → W L P Bool
  unfolding process_all
  sync message = do
    λ w. process_all w.client.extended_protocol_data_buffer w
    change L P (put message)
    λ w. answer_if_alone w.client.buffer w
    λ w. respond w.client.response_message_queue_buffer w
    λ w. (done (not (starts_with_sync w.client.buffer)), w)
