-- ===== src/Server/Query.antt =====
-- src/server.rs, sending to the server and running a query on it.
pub mod Evolves
pub mod Sent
use pgcat.Prelude.{
  ℕ, zero, suc, Bool, true, false, Option, none, some, List, [], ◌∷◌, ◌++◌, length, codes,
  if◌then◌else◌,
}
use pgcat.Prelude.Result.{Result, ok, err, panic}
use pgcat.Errors.{Error}
use pgcat.Wire.{Codec}
use pgcat.Wire.Sink.{Sink, write_all}
use pgcat.Messages.Reply.{simple_query}
use pgcat.Server.Parameters.{Text, ServerParameters, compare_params}
use pgcat.Server.State.{
  Lru, Server, Outcome, done, failed, panicked, stuck, M, ◌>>=◌, ◌>>◌, return, cleanup_reset,
  cleanup_set_true,
}
use pgcat.Server.Recv.{recv}

module _ {C : Type 0} where
  abbrev pub sent : Result Error (Unit {0}) → Sink → M C (Unit {0})
  sent (ok _) sink s = (done tt, record s { sink = sink })
  sent (err e) sink s = (failed e, record s { sink = sink; bad = true })
  sent panic sink s = (panicked, record s { sink = sink })

  unfoldable pub send : List ℕ → M C (Unit {0})
  send messages s = let (r, sink) = write_all messages s.sink in sent r sink s

  pub mark_bad : Server C → Server C
  mark_bad s = record s { bad = true }

  unfoldable pub mark_dirty : Server C → Server C
  mark_dirty s = record s { cleanup_state = cleanup_set_true s.cleanup_state }

  -- `is_bad`, given whether the DNS cache holds other addresses for the host by now.
  pub is_bad : Bool → Server C → Bool
  is_bad dns_changed s = if s.bad then s.bad else dns_changed

module _ (c : Codec) (L : Lru) where
  abbrev pub recv_plain : M L.Cache (List ℕ)
  recv_plain s = let (o, s', _) = recv c L s none in (o, s')

  -- `if !self.data_available { break; }`
  abbrev pub again :
      Outcome (List ℕ)
      → Server L.Cache
      → Outcome (Unit {0}) × Server L.Cache
      → Outcome (Unit {0}) × Server L.Cache
  again (done _) s more = if s.data_available then more else (done tt, s)
  again (failed e) s more = (failed e, s)
  again panicked s more = (panicked, s)
  again stuck s more = (stuck, s)

  pub recv_all : ℕ → M L.Cache (Unit {0})
  recv_all zero s = (stuck, s)
  recv_all (suc fuel) s =
      let (o, s') = recv_plain s in let more = recv_all fuel s' in again o s' more

  -- Each round reads a message, so there are fewer rounds than bytes to read.
  unfoldable pub query : Text → M L.Cache (Unit {0})
  unfolding recv_all
  query text = do send (simple_query c text); λ s. recv_all (suc (length s.inbox)) s

  -- "SET {key} TO '{value}';" for each entry.
  pub set_statements : List (Text × Text) → Text
  set_statements [] = []
  set_statements ((key, value) ∷ diff) =
      codes "SET " ++ (key ++ (codes " TO '" ++ (value ++ (codes "';" ++ set_statements diff))))

  -- The cleanup state is reset whether the query fails or not.
  abbrev pub reset_after : Outcome (Unit {0}) × Server L.Cache → Outcome (Unit {0}) × Server L.Cache
  reset_after (r, s) = (r, record s { cleanup_state = cleanup_reset s.cleanup_state })

  abbrev pub sync_diff : List (Text × Text) → M L.Cache (Unit {0})
  sync_diff [] s = (done tt, s)
  sync_diff (entry ∷ diff) s = reset_after (query (set_statements (entry ∷ diff)) s)

  unfoldable pub sync_parameters : ServerParameters → M L.Cache (Unit {0})
  unfolding query set_statements
  sync_parameters parameters s = sync_diff (compare_params s.server_parameters parameters) s
