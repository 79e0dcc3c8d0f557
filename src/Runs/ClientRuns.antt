-- ===== src/Runs/ClientRuns.antt =====
-- Concrete inputs for the theorems on src/client.rs.
use pgcat.Prelude.{
  ℕ, ◌≡◌, refl, true, Option, none, some, List, [], ◌∷◌, ◌++◌, codes, length, arith, ◌==◌,
  if◌then◌else◌, text_eq, ==_refl,
}
use pgcat.Prelude.Result.{ok, panic}
use pgcat.Wire.{read_string, read_until_nul}
use pgcat.Messages.Reply
use pgcat.Messages.Parse.{Parse, parse_get_name, parse_try_from, get_hash, read_parse, read_types}
use pgcat.Messages.Target.{is_prepared_statement, close_anonymous}
use pgcat.Messages.Startup.{parse_startup}
use pgcat.Pool.Statements.{ParseLru, IsParseLru, Statements, register_parse_to_cache}
use pgcat.Pool.Statements.Shared.{texts_collide}
use pgcat.Client.{Client, World, parse, bind, close}
use pgcat.Client.Startup.{startup, get_startup}
use pgcat.Client.Startup.Packets.{short_packets_panic}
use pgcat.Client.Startup.Own.{startup_understood}
use pgcat.Client.Extended.{buffer_parse}
use pgcat.Client.Extended.Renames.{Stands, buffer_parse-Stands}
use pgcat.Client.Sync.{sync}
use pgcat.Client.Sync.Ready.{IsLru, AllReady, names_after, forwarded, replies}
use pgcat.Client.Sync.Answers.{Answers, sync-Answers}
use pgcat.Client.Sync.Ends.{Ends, sync-Ends}
use pgcat.Runs.{codec, codec-IsCodec, cache}
use pgcat.Runs.ServerRuns.{dirty}
use pgcat.Runs.PoolRuns.{fresh, first}

abbrev pub find : ℕ → List (ℕ × Parse) → Option Parse
find hash [] = none
find hash ((h, p) ∷ entries) = if h == hash then some p else find hash entries

abbrev pub parses : ParseLru
parses = record {
  Cache = List (ℕ × Parse);
  get = λ hash m. (find hash m, m);
  push = λ hash p m. (hash, p) ∷ m;
  promote = λ hash m. m;
  peek = λ m hash. find hash m;
}

found_first : (hash : ℕ) (p : Parse) (m : List (ℕ × Parse)) → find hash ((hash, p) ∷ m) ≡ some p
found_first hash p m = rw (==_refl hash) refl

parses-IsParseLru : IsParseLru parses
parses-IsParseLru = record {
  get_peek = λ hash m. refl;
  peek_get = λ hash k m. refl;
  peek_push = found_first;
}

cache-IsLru : IsLru cache
cache-IsLru = record { get_peek = λ name m. refl; peek_get = λ name other m. refl }

abbrev statement : List ℕ → ℕ → List ℕ → Parse
statement query num_params param_types = record {
  code = b'P';
  len = 0;
  name = [];
  query = query;
  num_params = num_params;
  param_types = param_types;
}

abbrev eleven : Parse
eleven = statement (codes "SELECT $11") 0 []

abbrev one : Parse
one = statement (codes "SELECT $1") 1 (0 ∷ [])

abbrev pub statements : Statements parses.Cache
statements = record { cache = some []; counter = 0 }

texts_collide_example :
    (register_parse_to_cache parses
      (get_hash length one)
      one
      (register_parse_to_cache parses (get_hash length eleven) eleven statements).1).0
    ≡ (register_parse_to_cache parses (get_hash length eleven) eleven statements).0
texts_collide_example =
    texts_collide parses parses-IsParseLru length eleven one (codes "SELECT $1") statements [] refl
      (refl, refl, refl) (refl, refl, refl)

-- A client that called a statement of the pool "s", and has bound it and closed it.
abbrev pub known : Parse
known = record {
  code = b'P';
  len = 0;
  name = codes "PGCAT_0";
  query = codes "SELECT 1";
  num_params = 0;
  param_types = [];
}

abbrev pub client : Client
client = record {
  write = record { written = []; faults = [] };
  buffer = [];
  response_message_queue_buffer = [];
  prepared_statements_enabled = true;
  prepared_statements = (codes "s", (known, 7)) ∷ [];
  extended_protocol_data_buffer =
      parse (codes "P") (some (known, 7))
      ∷ (bind (codes "B") (some (codes "s"))
          ∷ (close (codes "C")
                (record { code = b'C'; len = 6; close_type = b'S'; name = codes "s" })
              ∷ []));
}

abbrev pub world : World cache parses
world = record { client = client; server = dirty; pool = fresh; statements = statements }

sync-Ends_example :
    Ends codec codec-IsCodec cache parses first 100
      (sync codec cache parses first 100 (b'S' ∷ []) world)
sync-Ends_example = sync-Ends codec codec-IsCodec cache parses first 100 (b'S' ∷ []) world

all_ready :
    AllReady cache world.server.prepared_statement_cache true client.prepared_statements
      client.extended_protocol_data_buffer
unfolding AllReady names_after text_eq
all_ready = (refl, ((known, 7, refl, refl), (tt, tt)))

forwards : forwarded true client.extended_protocol_data_buffer ++ (b'S' ∷ []) ≡ b'B' ∷ (b'S' ∷ [])
unfolding forwarded is_prepared_statement close_anonymous
forwards = refl

sync-Answers_example :
    Answers codec cache parses first 100 cache-IsLru
      (forwarded true client.extended_protocol_data_buffer ++ (b'S' ∷ []))
      (replies codec true client.extended_protocol_data_buffer)
      world
      (sync codec cache parses first 100 (b'S' ∷ []) world)
sync-Answers_example =
    sync-Answers codec cache parses first 100 cache-IsLru (b'S' ∷ []) b'B' (b'S' ∷ []) world refl
      refl all_ready forwards

short_packets_panic_example : get_startup codec (codec.put_i32 5 ++ ((1 ∷ []) ++ [])) ≡ panic
short_packets_panic_example =
    short_packets_panic codec codec-IsCodec 5 (1 ∷ []) [] (omega arith) refl

startup_understood_example :
    let params = Reply.startup_params codec (codes "u") (codes "db") in
    (get_startup codec (Reply.startup codec (codes "u") (codes "db")) ≡ ok ((startup, params), []))
    × (parse_startup params
        ≡ ok (
            (codes "user", codes "u")
            ∷ ((codes "application_name", codes "pgcat") ∷ ((codes "database", codes "db") ∷ []))))
unfolding Reply.startup_params
startup_understood_example =
    startup_understood codec codec-IsCodec b'u' b'd' [] (codes "b") (refl, tt) (refl, (refl, tt))
      (omega arith, tt) (omega arith, (omega arith, tt)) (omega arith)

-- A Parse message that names its statement "s".
abbrev message : List ℕ
message =
    b'P' ∷ (codec.put_i32 17 ++ (codes "s" ++ (0 ∷ (codes "SELECT 1" ++ (0 ∷ codec.put_i16 0)))))

abbrev read_back : Parse
read_back = record {
  code = b'P';
  len = 17;
  name = codes "s";
  query = codes "SELECT 1";
  num_params = 0;
  param_types = [];
}

message_name : parse_get_name codec message ≡ ok (codes "s")
unfolding parse_get_name read_string read_until_nul
message_name = refl

message_read : parse_try_from codec message ≡ ok read_back
unfolding parse_try_from read_parse read_types read_string read_until_nul
message_read = refl

buffer_parse-Stands_example :
    Stands codec length parses
      (codes "s")
      read_back
      client
      statements
      (buffer_parse codec length parses message client statements)
buffer_parse-Stands_example =
    buffer_parse-Stands codec length parses message (codes "s") read_back client statements refl
      message_name message_read
