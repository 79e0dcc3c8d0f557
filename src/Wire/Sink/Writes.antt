-- ===== src/Wire/Sink/Writes.antt =====
-- src/messages.rs: what a write leaves on the wire.
use pgcat.Prelude.{ℕ, ◌≡◌, refl, Option, none, some, List, [], ◌∷◌, ◌++◌}
use pgcat.Prelude.Result.{Result, ok, err, panic}
use pgcat.Errors.{Error}
use pgcat.Wire.Sink.{Sink, write_all}

-- What is promised of each result of a write.
abbrev pub Written : List ℕ → Sink → Result Error (Unit {0}) → Sink → Type 0
Written bytes s (ok _) t = t.written ≡ s.written ++ bytes
Written bytes s (err e) t = Unit
Written bytes s panic t = ⊥

write_all-Written_at :
    (bytes w : List ℕ) (fs : List (Option ℕ))
    → let s : Sink = record { written = w; faults = fs } in
      Written bytes s (write_all bytes s).0 (write_all bytes s).1
unfolding write_all
write_all-Written_at bytes w [] = refl
write_all-Written_at bytes w (none ∷ fs) = refl
write_all-Written_at bytes w (some n ∷ fs) = tt

pub write_all-Written :
    (bytes : List ℕ) (s : Sink) → Written bytes s (write_all bytes s).0 (write_all bytes s).1
write_all-Written bytes s = write_all-Written_at bytes s.written s.faults
