-- ===== src/Router/FromBind/Reads.antt =====
-- What `infer_shard_from_bind` of src/query_router.rs reads from the parameters of a Bind message.
use pgcat.Prelude.{
  ℕ, ◌%◌, suc, ◌+◌, ◌^◌, ◌<◌, ◌≡◌, refl, ap, ◌∙◌, Bool, true, false, Option, none, some, List, [],
  ◌∷◌, ◌++◌, length, ◌==◌, arith, length-append, le→ltb, drop-append_self, lt→ltb,
}
use pgcat.Prelude.Words.{i32_as_usize}
use pgcat.Prelude.Result.{Result, ok, err, panic}
use pgcat.Errors.{Error}
use pgcat.Wire.{Codec, IsCodec, ◌>>=◌, get_i16, get_i32}
use pgcat.Wire.Laws.{IsText, read_string_lem, take-length}
use pgcat.Prelude.Parse.{parse_i64}
use pgcat.Router.{QueryRouter, sharder}
use pgcat.Router.Infer.{insert_shard, only}
use pgcat.Router.FromBind.{
  text, uniform, contains, parameter_format, read_parameters, read_shards, choose_shard,
  infer_shard_from_bind, conclude, text_value, add_value, sharded, is_empty,
}
use pgcat.Sharding
use mathlib.Core.List.{append_assoc}

-- A Bind message with all parameters in text format: their number, and their encoding.
unfoldable pub bind_body : Codec → List ℕ → List ℕ → ℕ → List ℕ → List ℕ
bind_body c portal name n parameters =
    portal ++ (0 ∷ (name ++ (0 ∷ (c.put_i16 0 ++ (c.put_i16 n ++ parameters)))))

unfoldable pub bind_message : Codec → List ℕ → List ℕ → ℕ → List ℕ → List ℕ
unfolding bind_body
bind_message c portal name n parameters =
    b'B'
    ∷ (c.put_i32 (4 + length (bind_body c portal name n parameters))
        ++ bind_body c portal name n parameters)

unfoldable pub encoded : Codec → List (List ℕ) → List ℕ
encoded c [] = []
encoded c (v ∷ vs) = c.put_i32 (length v) ++ (v ++ encoded c vs)

-- The parameters from the one at `i` are all placeholders, and none is longer than a length can say.
unfoldable pub AllWanted : List ℕ → ℕ → List (List ℕ) → Type 0
AllWanted placeholders i [] = Unit {0}
AllWanted placeholders i (v ∷ vs) =
    (contains (suc i) placeholders ≡ true) × (length v < 2 ^ 31) × AllWanted placeholders (suc i) vs

module _ (digest : List ℕ → List ℕ) where
  abbrev with_shard : List ℕ → Result ⊥ ℕ → Option (List ℕ)
  with_shard shards (ok n) = some (insert_shard n shards)
  with_shard shards _ = none

  abbrev with_key : QueryRouter → Option ℕ → List ℕ → Option (List ℕ)
  with_key r none shards = some shards
  with_key r (some key) shards = with_shard shards (Sharding.shard digest (sharder r) key)

  -- The shards of those values that are numbers; `none` where one of them has no shard.
  unfoldable pub shards_of : QueryRouter → List (List ℕ) → List ℕ → Option (List ℕ)
  shards_of r [] shards = some shards
  shards_of r (v ∷ vs) shards = elim (with_key r (parse_i64 v) shards) [
    | none ↦ none
    | some shards' ↦ shards_of r vs shards'
  ]

  abbrev pub left : Option (List ℕ) → List ℕ → Result Error (List ℕ × List ℕ)
  left none rest = panic
  left (some shards) rest = ok (shards, rest)

  -- The answer and the router: one shard is taken, and no placeholder is left.
  abbrev pub taken : QueryRouter → Option (List ℕ) → Result Error (Bool × QueryRouter)
  taken r none = panic
  taken r (some shards) = ok (choose_shard (only shards) (record r { placeholders = [] }))

  module _ (c : Codec) (w : IsCodec c) where
    read_body :
        (r : QueryRouter) (portal name : List ℕ) (n : ℕ) (ps : List ℕ)
        → IsText c portal
        → IsText c name
        → n < 2 ^ 15
        → read_shards digest c r (bind_body c portal name n ps)
          ≡ read_parameters digest c r (uniform text) 0 n [] ps
    unfolding read_shards bind_body parameter_format
    read_body r portal name n ps tp tn h = rw (
      read_string_lem c w portal (name ++ (0 ∷ (c.put_i16 0 ++ (c.put_i16 n ++ ps)))) tp,
      read_string_lem c w name (c.put_i16 0 ++ (c.put_i16 n ++ ps)) tn,
      w.get_put_i16 0 (c.put_i16 n ++ ps) (omega arith),
      w.get_put_i16 n ps (omega arith),
      lt→ltb n (2 ^ 15) h,
      read_shards,
      ◌>>=◌,
      get_i16,
    )

    as_usize_small : (n : ℕ) → n < 2 ^ 31 → i32_as_usize n ≡ n
    as_usize_small n h = ground arith

    text_value-append :
        (v rest : List ℕ)
        → length v < 2 ^ 31
        → text_value (i32_as_usize (length v)) (v ++ rest) ≡ ok (parse_i64 v, rest)
    text_value-append v rest h = rw (
      as_usize_small (length v) h,
      le→ltb (length (v ++ rest)) (length v) (omega (arith, length-append v rest)),
      take-length v rest,
      drop-append_self v rest,
    )

    add_key_left :
        (r : QueryRouter) (key : Option ℕ) (shards rest : List ℕ)
        → add_value digest c r key shards rest ≡ left (with_key r key shards) rest
    add_key_left r none shards rest = refl
    add_key_left r (some key) shards rest = shard_left (Sharding.shard digest (sharder r) key)
      where
        shard_left :
            (x : Result ⊥ ℕ) → sharded digest c x shards rest ≡ left (with_shard shards x) rest
        shard_left (ok n) = refl
        shard_left (err e) = elim e [ ]
        shard_left panic = refl

    -- Reading the parameters adds the shards of their values.
    read_parameters_all :
        (r : QueryRouter) (vs : List (List ℕ)) (i : ℕ) (shards rest : List ℕ)
        → AllWanted r.placeholders i vs
        → read_parameters digest c r (uniform text) i (length vs) shards (encoded c vs ++ rest)
          ≡ left (shards_of r vs shards) rest
    unfolding read_parameters encoded AllWanted shards_of
    read_parameters_all r [] i shards rest h = refl
    read_parameters_all r (v ∷ vs) i shards rest (wanted, short, h) =
        rw
          (
            append_assoc,
            w.get_put_i32 (length v) ((v ++ encoded c vs) ++ rest) (omega arith),
            append_assoc,
            wanted,
            text_value-append v (encoded c vs ++ rest) short,
            add_key_left r (parse_i64 v) shards (encoded c vs ++ rest),
            ◌>>=◌,
            get_i32,
          )
          (after (λ shards'. read_parameters_all r vs (suc i) shards' rest h)
            (with_key r (parse_i64 v) shards))
      where
        after :
            ((shards' : List ℕ)
              → read_parameters digest c r
                  (uniform text)
                  (suc i)
                  (length vs)
                  shards'
                  (encoded c vs ++ rest)
                ≡ left (shards_of r vs shards') rest)
            → (x : Option (List ℕ))
            → (elim (left x (encoded c vs ++ rest)) [
              | ok (shards', bs) ↦
                  read_parameters digest c r (uniform text) (suc i) (length vs) shards' bs
              | err e ↦ err e
              | panic ↦ panic
            ])
              ≡ left (elim x [ none ↦ none | some shards' ↦ shards_of r vs shards' ]) rest
        after more none = refl
        after more (some shards') = more shards'

    -- A message that this client may route by its parameters.
    pub record IsBind (r : QueryRouter) (portal name : List ℕ) (n : ℕ) (ps : List ℕ) : Type 0 where
      pub splits : r.pool_settings.query_parser_read_write_splitting ≡ true
      pub has_placeholders : is_empty r.placeholders ≡ false
      pub is_portal : IsText c portal
      pub is_name : IsText c name
      pub few : n < 2 ^ 15
      pub short : 4 + length (bind_body c portal name n ps) < 2 ^ 31

    sized : (m : ℕ) → m < 2 ^ 31 → (suc m == (m + 1) % 2 ^ 64) ≡ true
    sized m h = ground arith

    infer_from_body :
        (r : QueryRouter) (portal name : List ℕ) (n : ℕ) (ps : List ℕ)
        → IsBind r portal name n ps
        → infer_shard_from_bind digest c (bind_message c portal name n ps) r
          ≡ conclude r (read_parameters digest c r (uniform text) 0 n [] ps)
    unfolding infer_shard_from_bind bind_message
    infer_from_body r portal name n ps h =
        rw
          (
            h.splits,
            w.get_put_i32 (4 + length (bind_body c portal name n ps)) (bind_body c portal name n ps)
                (omega (arith, h.short)),
            as_usize_small (4 + length (bind_body c portal name n ps)) h.short,
            length-append (c.put_i32 (4 + length (bind_body c portal name n ps)))
                (bind_body c portal name n ps),
            w.length_i32 (4 + length (bind_body c portal name n ps)),
            sized (4 + length (bind_body c portal name n ps)) h.short,
            h.has_placeholders,
            read_body r portal name n ps h.is_portal h.is_name h.few,
            ◌>>=◌,
            get_i32,
          )
          refl

    shards_taken :
        (r : QueryRouter) (x : Option (List ℕ)) (rest : List ℕ)
        → conclude r (left x rest) ≡ taken r x
    shards_taken r none rest = refl
    shards_taken r (some shards) rest = refl

    read_unwanted :
        (r : QueryRouter) (i n len : ℕ) (shards rest : List ℕ)
        → contains (suc i) r.placeholders ≡ false
        → len < 2 ^ 31
        → read_parameters digest c r (uniform text) i (suc n) shards (c.put_i32 len ++ rest)
          ≡ read_parameters digest c r (uniform text) (suc i) n shards rest
    unfolding read_parameters
    read_unwanted r i n len shards rest unwanted h =
        rw (w.get_put_i32 len rest (omega arith), unwanted, ◌>>=◌, get_i32) refl

    inner_first :
        (v rest tail : List ℕ)
        → (c.put_i32 (length v) ++ (v ++ rest)) ++ tail ≡ encoded c (v ∷ []) ++ (rest ++ tail)
    unfolding encoded
    inner_first v rest tail = simp append_assoc

    -- Of two parameters in text format only the second is wanted, but the first is not skipped: if
    -- it starts with what reads as a parameter, the shard is that of this inner value, whatever the
    -- second is. Splitting is on and the lengths fit their types.
    pub inner_chooses :
        (r : QueryRouter) (portal name inner rest second : List ℕ)
        → r.placeholders ≡ 2 ∷ []
        → length inner < 2 ^ 31
        → length (c.put_i32 (length inner) ++ (inner ++ rest)) < 2 ^ 31
        → IsBind r portal name 2
            (encoded c ((c.put_i32 (length inner) ++ (inner ++ rest)) ∷ (second ∷ [])))
        → infer_shard_from_bind digest c
            (bind_message c portal name 2
              (encoded c ((c.put_i32 (length inner) ++ (inner ++ rest)) ∷ (second ∷ []))))
            r
          ≡ taken r (shards_of r (inner ∷ []) [])
    unfolding encoded AllWanted
    inner_chooses r portal name inner rest second p short long h =
        let tail = encoded c (second ∷ []) in
        infer_from_body r portal name 2 _ h
        ∙ ap (conclude r) (
            read_unwanted r 0 1 (length (c.put_i32 (length inner) ++ (inner ++ rest))) []
              ((c.put_i32 (length inner) ++ (inner ++ rest)) ++ tail) (rw p refl) long
            ∙ ap (read_parameters digest c r (uniform text) 1 1 []) (inner_first inner rest tail)
            ∙ read_parameters_all r (inner ∷ []) 1 [] (rest ++ tail) (rw p refl, short, tt))
        ∙ shards_taken r (shards_of r (inner ∷ []) []) (rest ++ tail)
