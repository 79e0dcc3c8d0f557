-- ===== src/Server/Recv/Evolves.antt =====
-- src/server.rs: what the replies to a query change of the statements and of the cleanup that is due.
use pgcat.Prelude.{
  ℕ, zero, suc, ◌≡◌, refl, Bool, true, false, Option, none, some, List, [], ◌∷◌, ◌++◌, length,
  text_eq, codes, ◌==◌, if◌then◌else◌,
}
use pgcat.Prelude.Result.{Result, ok, err, panic}
use pgcat.Errors.{Error}
use pgcat.Wire.{Codec, read_string_mut}
use pgcat.Wire.Stream.{read_message}
use pgcat.Server.Parameters.{Text, ServerParameters}
use pgcat.Server.State.{CleanupState, Lru, Server, Outcome}
use pgcat.Server.Recv.{
  Flow, continues, breaks, fails, panics, Round, on_ready, unregister, note_plan, plan_changed,
  on_error_response, note_command, on_command_complete, status_value, status_key,
  on_parameter_status, on_message, recv_round, recv_loop, recv, finish, code_of, take_body,
}

-- The second cache is the first with some statements taken out.
pub data Popped (L : Lru) (from : Option L.Cache) : Option L.Cache → Type 0 where
  none_popped : Popped L from from
  popped :
      (name : Text) (cache : L.Cache)
      → Popped L from (some cache)
      → Popped L from (some (L.pop name cache))

pub Popped-trans : (L : Lru) (a b d : Option L.Cache) → Popped L a b → Popped L b d → Popped L a d
Popped-trans L a b d p none_popped = p
Popped-trans L a b d p (popped name cache q) =
    popped name cache (Popped-trans L a b (some cache) p q)

-- A cleanup that is due stays due.
abbrev pub StaysDue : CleanupState → CleanupState → Type 0
StaysDue s t =
    (s.needs_cleanup_set ≡ true → t.needs_cleanup_set ≡ true)
    × (s.needs_cleanup_prepare ≡ true → t.needs_cleanup_prepare ≡ true)

pub record Evolves (L : Lru) (s t : Server L.Cache) : Type 0 where
  pub statements : Popped L s.prepared_statement_cache t.prepared_statement_cache
  pub due : StaysDue s.cleanup_state t.cleanup_state

module _ (c : Codec) (L : Lru) where
  pub unchanged :
      (s t : Server L.Cache)
      → t.prepared_statement_cache ≡ s.prepared_statement_cache
      → t.cleanup_state ≡ s.cleanup_state
      → Evolves L s t
  unchanged s t e e' = record { statements = rw e none_popped; due = rw e' ((λ h. h), (λ h. h)) }

  pub Evolves-trans : (s t u : Server L.Cache) → Evolves L s t → Evolves L t u → Evolves L s u
  Evolves-trans s t u a b = record {
    statements = Popped-trans L _ _ _ a.statements b.statements;
    due = ((λ h. b.due.0 (a.due.0 h)), (λ h. b.due.1 (a.due.1 h)));
  }

  -- Of a round the state is what counts.
  record Moves (s : Server L.Cache) (r : Round c L) : Type 0 where
    moves : Evolves L s r.1

  if-Moves :
      (b : Bool) {s : Server L.Cache} {x y : Round c L}
      → Moves s x
      → Moves s y
      → Moves s (if b then x else y)
  if-Moves true p q = p
  if-Moves false p q = q

  stays :
      (s t : Server L.Cache) (flow : Flow) (p : Option ServerParameters)
      → t.prepared_statement_cache ≡ s.prepared_statement_cache
      → t.cleanup_state ≡ s.cleanup_state
      → Moves s (flow, t, p)
  stays s t flow p e e' = record { moves = unchanged s t e e' }

  on_ready-Moves :
      (body : List ℕ) (s : Server L.Cache) (p : Option ServerParameters)
      → Moves s (on_ready c L body s p)
  unfolding on_ready
  on_ready-Moves [] s p = stays s s panics p refl refl
  on_ready-Moves (status ∷ body) s p = if-Moves (status == b'T') (stays s _ breaks p refl refl) (
      if-Moves (status == b'I') (stays s _ breaks p refl refl)
        (if-Moves (status == b'E') (stays s _ breaks p refl refl) (stays s _ _ p refl refl)))

  unregister-Popped : (names : List Text) (k : Option L.Cache) → Popped L k (unregister c L names k)
  unfolding unregister
  unregister-Popped [] k = none_popped
  unregister-Popped (name ∷ names) none = none_popped
  unregister-Popped (name ∷ names) (some cache) = popped name cache none_popped

  if-Due :
      (b : Bool) (s t u : CleanupState)
      → StaysDue s t
      → StaysDue s u
      → StaysDue s (if b then t else u)
  if-Due true s t u p q = p
  if-Due false s t u p q = q

  note_plan-Due :
      (body : List ℕ) (k : Option L.Cache) (s : CleanupState) → StaysDue s (note_plan c L body k s)
  unfolding note_plan
  note_plan-Due body none s = ((λ h. h), (λ h. h))
  note_plan-Due body (some k) s =
      if-Due (plan_changed c L body) s (record s { needs_cleanup_prepare = true }) s
        ((λ h. h), (λ h. refl)) ((λ h. h), (λ h. h))

  note_command-Due :
      (r : Result Error (List ℕ × List ℕ)) (b : Bool) (s : CleanupState)
      → StaysDue s (note_command c L r b s)
  unfolding note_command
  note_command-Due (ok (command, rest)) b s =
      if-Due (text_eq command (codes "SET")) s _ _
        (if-Due b s s (record s { needs_cleanup_set = true }) ((λ h. h), (λ h. h))
          ((λ h. refl), (λ h. h)))
        (if-Due (text_eq command (codes "PREPARE")) s (record s { needs_cleanup_prepare = true }) s
          ((λ h. h), (λ h. refl)) ((λ h. h), (λ h. h)))
  note_command-Due (err e) b s = ((λ h. h), (λ h. h))
  note_command-Due panic b s = ((λ h. h), (λ h. h))

  on_error-Moves :
      (body : List ℕ) (s : Server L.Cache) (p : Option ServerParameters)
      → Moves s (on_error_response c L body s p)
  unfolding on_error_response
  on_error-Moves body s p = record {
    moves = record {
      statements = unregister-Popped s.registering_prepared_statement s.prepared_statement_cache;
      due = note_plan-Due body s.prepared_statement_cache s.cleanup_state;
    };
  }

  on_command-Moves :
      (body : List ℕ) (s : Server L.Cache) (p : Option ServerParameters)
      → Moves s (on_command_complete c L body s p)
  unfolding on_command_complete
  on_command-Moves body s p = record {
    moves = record {
      statements = none_popped;
      due = note_command-Due (read_string_mut c body) s.in_transaction s.cleanup_state;
    };
  }

  value-Moves :
      (key : Text) (r : Result Error (List ℕ × List ℕ)) (s : Server L.Cache)
      (p : Option ServerParameters)
      → Moves s (status_value c L key r s p)
  unfolding status_value
  value-Moves key (ok (v, r)) s p = stays s _ continues _ refl refl
  value-Moves key (err e) s p = stays s s panics p refl refl
  value-Moves key panic s p = stays s s panics p refl refl

  key-Moves :
      (r : Result Error (List ℕ × List ℕ)) (s : Server L.Cache) (p : Option ServerParameters)
      → Moves s (status_key c L r s p)
  unfolding status_key
  key-Moves (ok (k, r)) s p = value-Moves k (read_string_mut c r) s p
  key-Moves (err e) s p = stays s s panics p refl refl
  key-Moves panic s p = stays s s panics p refl refl

  on_message-Moves :
      (code : ℕ) (body : List ℕ) (s : Server L.Cache) (p : Option ServerParameters)
      → Moves s (on_message c L code body s p)
  unfolding on_message on_parameter_status
  on_message-Moves code body s p = if-Moves (code == b'Z') (on_ready-Moves body s p) (
      if-Moves (code == b'E') (on_error-Moves body s p) (
        if-Moves (code == b'C') (on_command-Moves body s p) (
          if-Moves (code == b'S') (key-Moves (read_string_mut c body) s p) (
            if-Moves (code == b'D') (stays s _ _ p refl refl) (
              if-Moves (code == b'G') (stays s _ breaks p refl refl) (
                if-Moves (code == b'H') (stays s _ breaks p refl refl) (
                  if-Moves (code == b'd') (stays s s _ p refl refl) (
                    if-Moves (code == b'c') (stays s s continues p refl refl) (
                      if-Moves (code == b'1') (stays s _ continues p refl refl)
                        (stays s s continues p refl refl))))))))))

  round-Evolves :
      (s : Server L.Cache) (p : Option ServerParameters) → Evolves L s (recv_round c L s p).1
  unfolding recv_round
  round-Evolves s p = looked (read_message c s.inbox)
    where
      looked :
          (x : Result Error (List ℕ × List ℕ))
          → let r : Round c L = elim x [
            | ok (m, rest) ↦
                on_message c L
                  (code_of c L m)
                  (take_body c L m)
                  (record s { inbox = rest; buffer = s.buffer ++ m })
                  p
            | err e ↦ (fails e, record s { bad = true }, p)
            | panic ↦ (panics, s, p)
          ] in
            Evolves L s r.1
      looked (ok (m, rest)) =
          Evolves-trans s (record s { inbox = rest; buffer = s.buffer ++ m }) _
            (unchanged s _ refl refl) (on_message-Moves (code_of c L m) (take_body c L m) _ p).moves
      looked (err e) = unchanged s _ refl refl
      looked panic = unchanged s s refl refl

  finish-Evolves :
      (s t : Server L.Cache) (flow : Flow) (p : Option ServerParameters)
      (more : Outcome (List ℕ) × Server L.Cache × Option ServerParameters)
      → Evolves L s t
      → Evolves L t more.1
      → Evolves L s (finish c L flow t p more).1
  finish-Evolves s t continues p more a h = Evolves-trans s t more.1 a h
  finish-Evolves s t breaks p more a h = Evolves-trans s t _ a (unchanged t _ refl refl)
  finish-Evolves s t (fails e) p more a h = a
  finish-Evolves s t panics p more a h = a

  loop-Evolves :
      (fuel : ℕ) (s : Server L.Cache) (p : Option ServerParameters)
      → Evolves L s (recv_loop c L fuel s p).1
  unfolding recv_loop
  loop-Evolves zero s p = unchanged s s refl refl
  loop-Evolves (suc fuel) s p =
      finish-Evolves s (recv_round c L s p).1 (recv_round c L s p).0 (recv_round c L s p).2
        (recv_loop c L fuel (recv_round c L s p).1 (recv_round c L s p).2) (round-Evolves s p)
        (loop-Evolves fuel (recv_round c L s p).1 (recv_round c L s p).2)

  -- Whatever is received, statements are only taken out of the cache, and a cleanup that is due
  -- stays due.
  pub recv-Evolves :
      (s : Server L.Cache) (p : Option ServerParameters) → Evolves L s (recv c L s p).1
  unfolding recv
  recv-Evolves s p = loop-Evolves (suc (length s.inbox)) s p
