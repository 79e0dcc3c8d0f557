-- ===== src/Server/State.antt =====
-- src/server.rs, the state of a connection, and methods that change it and may fail. Left out are what
-- only the log and the statistics read, the mirrors, and the address set of the DNS cache.
use pgcat.Prelude.{ℕ, Bool, true, false, ◌||◌, Option, List}
use pgcat.Errors.{Error}
use pgcat.Wire.Sink.{Sink}
use pgcat.Server.Parameters.{Text, ServerParameters}

pub record CleanupState : Type 0 where
  pub needs_cleanup_set : Bool
  pub needs_cleanup_prepare : Bool

abbrev pub cleanup_new : CleanupState
cleanup_new = record { needs_cleanup_set = false; needs_cleanup_prepare = false }

abbrev pub needs_cleanup : CleanupState → Bool
needs_cleanup s = s.needs_cleanup_set || s.needs_cleanup_prepare

abbrev pub cleanup_set_true : CleanupState → CleanupState
cleanup_set_true s = record { needs_cleanup_set = true; needs_cleanup_prepare = true }

abbrev pub cleanup_reset : CleanupState → CleanupState
cleanup_reset s = record { needs_cleanup_set = false; needs_cleanup_prepare = false }

-- The cache type of the lru crate, for names of prepared statements. `peek` is what it holds.
pub record Lru : Type 1 where
  pub Cache : Type 0
  pub get : Text → Cache → Bool × Cache
  pub push : Text → Cache → Option Text × Cache
  pub pop : Text → Cache → Cache
  pub clear : Cache → Cache
  pub peek : Cache → Text → Bool

pub record Server (C : Type 0) : Type 0 where
  -- The bytes that the peer sends from here on; after them the stream is at its end.
  pub inbox : List ℕ
  pub sink : Sink
  pub buffer : List ℕ
  pub server_parameters : ServerParameters
  pub process_id : ℕ
  pub secret_key : ℕ
  pub in_transaction : Bool
  pub data_available : Bool
  pub in_copy_mode : Bool
  pub bad : Bool
  pub cleanup_state : CleanupState
  pub cleanup_connections : Bool
  pub prepared_statement_cache : Option C
  pub registering_prepared_statement : List Text

-- `stuck` is no outcome of the program: a loop of the model ran out of fuel.
pub data Outcome (A : Type 0) : Type 0 where
  done : A → Outcome A
  failed : Error → Outcome A
  panicked : Outcome A
  stuck : Outcome A

-- A method on `&mut self`: what it changed stays changed when it fails.
abbrev pub M : Type 0 → Type 0 → Type 0
M C A = Server C → Outcome A × Server C

abbrev pub after : {C A B : Type 0} → Outcome A → Server C → (A → M C B) → Outcome B × Server C
after (done a) s f = f a s
after (failed e) s f = (failed e, s)
after panicked s f = (panicked, s)
after stuck s f = (stuck, s)

infixl 5 ◌>>=◌ ◌>>◌
abbrev pub ◌>>=◌ : {C A B : Type 0} → M C A → (A → M C B) → M C B
◌>>=◌ m f s = let (r, s') = m s in after r s' f

abbrev pub ◌>>◌ : {C B : Type 0} → M C (Unit {0}) → M C B → M C B
m >> k = m >>= λ _. k

abbrev pub return : {C A : Type 0} → A → M C A
return a s = (done a, s)
