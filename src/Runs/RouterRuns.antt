-- ===== src/Runs/RouterRuns.antt =====
-- Concrete inputs for the theorems on src/query_router.rs.
use pgcat.Prelude.{
  ℕ, ◌≡◌, refl, true, false, Option, none, some, List, [], ◌∷◌, ◌++◌, codes, length, arith, inl,
}
use pgcat.Prelude.Result.{ok, panic}
use pgcat.Prelude.Parse.{parse_digits, digits_from}
use pgcat.Wire.{position_nul}
use pgcat.Wire.Laws.{IsText}
use pgcat.Router.{QueryRouter, primary_reads}
use pgcat.Router.Command.{try_execute_command}
use pgcat.Router.Command.Laws.{query_message, long_number_panics}
use pgcat.Router.Infer.{
  Query, other_expr, query, other, is_mutation_query, Statement, infer, with_role,
}
use pgcat.Router.Infer.Roles.{GoesPrimary, infer-GoesPrimary, lock_overridden}
use pgcat.Router.FromBind.{infer_shard_from_bind}
use pgcat.Router.FromBind.Reads.{
  bind_body, bind_message, encoded, taken, shards_of, IsBind, inner_chooses,
}
use pgcat.Runs.{codec, codec-IsCodec}
use pgcat.Runs.PoolRuns.{settings}

-- A digest of four bytes.
abbrev pub digest : List ℕ → List ℕ
digest bytes = 1 ∷ (2 ∷ (3 ∷ (4 ∷ [])))

abbrev pub router : QueryRouter
router = record {
  active_shard = none;
  active_role = none;
  query_parser_enabled = none;
  primary_reads_enabled = none;
  pool_settings = settings;
  placeholders = [];
}

-- The text that every expression captures, and which expression matches.
abbrev only_first : List ℕ → List ℕ
only_first text = 0 ∷ []

abbrev captures : ℕ → List ℕ → Option (List ℕ)
captures n text = some (codes "99999999999999999999")

set_text : IsText codec (codes "SET")
unfolding position_nul
set_text = record { valid = refl; nul_free = refl }

parsed : parse_digits (codes "99999999999999999999") ≡ some 99999999999999999999
unfolding parse_digits digits_from
parsed = refl

-- The number is too long for an i64.
long_number_panics_example :
    try_execute_command codec digest
      (record { regex_set = some only_first; regex_list = some captures })
      0
      (query_message codec codec-IsCodec digest (codes "SET") set_text)
      router
    ≡ panic
long_number_panics_example =
    long_number_panics codec codec-IsCodec digest (codes "SET") set_text only_first captures 0
      99999999999999999999 (codes "99999999999999999999") router (omega arith) refl refl parsed
      (inl (refl, refl, omega arith))

-- An INSERT that is one statement of a message.
abbrev insert : Statement
insert = other false (ok [])

abbrev locking : Query
locking = record { has_locks = true; body = other_expr; recently_mutated = false; keys = ok [] }

abbrev plain : Query
plain = record { has_locks = false; body = other_expr; recently_mutated = false; keys = ok [] }

infer-GoesPrimary_example : GoesPrimary (infer digest false (query plain ∷ (insert ∷ [])) router)
infer-GoesPrimary_example =
    infer-GoesPrimary digest false (query plain ∷ (insert ∷ [])) router refl tt

lock_overridden_example :
    infer digest false (query locking ∷ (query plain ∷ [])) router
    ≡ (ok tt, with_role digest none router)
unfolding is_mutation_query primary_reads
lock_overridden_example =
    lock_overridden digest locking plain false router refl refl refl refl refl refl

-- The only placeholder that a statement compares with the sharding key.
abbrev waiting : ℕ → QueryRouter
waiting n = record router { placeholders = n ∷ [] }

no_text : IsText codec []
unfolding position_nul
no_text = record { valid = refl; nul_free = refl }

-- The first of two parameters, which holds the length and the digits of another.
abbrev first : List ℕ
first = codec.put_i32 (length (codes "7")) ++ (codes "7" ++ [])

two-IsBind :
    IsBind digest codec codec-IsCodec
      (waiting 2)
      []
      []
      2
      (encoded codec (first ∷ (codes "42" ∷ [])))
unfolding bind_body encoded
two-IsBind = record {
  splits = refl;
  has_placeholders = refl;
  is_portal = no_text;
  is_name = no_text;
  few = omega arith;
  short = omega arith;
}

inner_chooses_example :
    infer_shard_from_bind digest codec
      (bind_message codec [] [] 2 (encoded codec (first ∷ (codes "42" ∷ []))))
      (waiting 2)
    ≡ taken digest (waiting 2) (shards_of digest (waiting 2) (codes "7" ∷ []) [])
inner_chooses_example =
    inner_chooses digest codec codec-IsCodec (waiting 2) [] [] (codes "7") [] (codes "42") refl
      (omega arith) (omega arith) two-IsBind
