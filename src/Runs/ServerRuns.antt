-- ===== src/Runs/ServerRuns.antt =====
-- Concrete inputs for the theorems on src/server.rs.
use pgcat.Prelude.{ℕ, ◌≡◌, true, false, none, some, List, [], ◌∷◌, ◌++◌, codes, if◌then◌else◌}
use pgcat.Prelude.Dict.{lookup, text_Eq}
use pgcat.Server.State.{Server}
use pgcat.Server.Parameters.{compare_params, tracked_parameters, contains}
use pgcat.Server.Parameters.Diff.{wanted, lookup-compare_params}
use pgcat.Server.Recv.{recv}
use pgcat.Server.Recv.Forward.{Forwards, recv-Forwards}
use pgcat.Runs.{codec, codec-IsCodec, cache}

-- CommandComplete of a SET, and ReadyForQuery with no transaction open.
abbrev reply : List ℕ
reply = b'C' ∷ (codec.put_i32 8 ++ (codes "SET" ++ (0 ∷ (b'Z' ∷ (codec.put_i32 5 ++ (b'I' ∷ []))))))

-- A connection that was left in a transaction, with its session altered.
abbrev pub dirty : Server (cache.Cache)
dirty = record {
  inbox = reply ++ reply;
  sink = record { written = []; faults = [] };
  buffer = [];
  server_parameters = [];
  process_id = 1;
  secret_key = 2;
  in_transaction = true;
  data_available = false;
  in_copy_mode = false;
  bad = false;
  cleanup_state = record { needs_cleanup_set = true; needs_cleanup_prepare = true };
  cleanup_connections = true;
  prepared_statement_cache = some (codes "PGCAT_0" ∷ []);
  registering_prepared_statement = [];
}

recv-Forwards_example :
    Forwards dirty (recv codec cache dirty none).0 (recv codec cache dirty none).1
recv-Forwards_example = recv-Forwards codec codec-IsCodec cache dirty none

abbrev utc : List (List ℕ × List ℕ)
utc = (codes "TimeZone", codes "UTC") ∷ []

abbrev cet : List (List ℕ × List ℕ)
cet = (codes "TimeZone", codes "CET") ∷ []

lookup-compare_params_example : lookup (codes "TimeZone") (compare_params utc cet) ≡ (
    if contains (codes "TimeZone") tracked_parameters
    then wanted (lookup (codes "TimeZone") utc) (lookup (codes "TimeZone") cet)
    else none)
lookup-compare_params_example = lookup-compare_params utc cet (codes "TimeZone")
