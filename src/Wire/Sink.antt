-- ===== src/Wire/Sink.antt =====
-- src/messages.rs, the three functions that write to a socket. What becomes of each write is the
-- environment's: `faults` lists it for the writes to come, and past its end they succeed. A write that
-- fails may have sent some of its bytes.
pub mod Writes
use pgcat.Prelude.{ℕ, Option, none, some, List, [], ◌∷◌, ◌++◌, take}
use pgcat.Prelude.Result.{Result, ok, err, panic}
use pgcat.Errors.{Error, socket_error}

pub record Sink : Type 0 where
  pub written : List ℕ
  pub faults : List (Option ℕ)

-- `write_all`, `write_all_half` and `write_all_flush` differ in what they borrow and in the flush.
unfoldable pub write_all : List ℕ → Sink → Result Error (Unit {0}) × Sink
write_all bytes s = elim s.faults [
  | [] ↦ (ok tt, record s { written = s.written ++ bytes })
  | none ∷ rest ↦ (ok tt, record { written = s.written ++ bytes; faults = rest })
  | some n ∷ rest ↦
      (err socket_error, record { written = s.written ++ take n bytes; faults = rest })
]

-- Two writes, the second only after the first has gone through: `write_all(…).await?`.
unfoldable pub write_both : List ℕ → List ℕ → Sink → Result Error (Unit {0}) × Sink
unfolding write_all
write_both first second s =
    let (r, s') = write_all first s in
    elim r [ ok _ ↦ write_all second s' | err e ↦ (err e, s') | panic ↦ (panic, s') ]
