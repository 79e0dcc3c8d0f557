-- ===== src/Messages/Parse/RoundTrip.antt =====
-- src/messages.rs: a Parse message is read back as it was written.
use pgcat.Prelude.{
  ℕ, ◌+◌, ◌*◌, ◌%◌, ◌^◌, ◌<◌, ◌≡◌, refl, ◌∙◌, List, [], ◌∷◌, ◌++◌, length, length-append, All,
  arith,
}
use pgcat.Prelude.Words.{i16_as_usize, i16_rounds}
use pgcat.Prelude.Result.{ok, and_then}
use pgcat.Wire.{Codec, IsCodec, read_string, get_i32, get_i16}
use pgcat.Wire.Laws.{
  IsText, to_c_string_lem, read_string_c_string, bind_ok, get_i32_put, get_i16_put,
}
use pgcat.Messages.Parse.{Parse, read_types, read_parse, parse_try_from, put_types, parse_to_bytes}
use mathlib.Core.List.{append_assoc, append-nil}

-- A message that a client can send: its texts fit the wire, its counts agree with its lists, and
-- it states its own length.
pub record IsValid (c : Codec) (p : Parse) : Type 0 where
  pub name_text : IsText c p.name
  pub query_text : IsText c p.query
  pub counted : p.num_params ≡ length p.param_types
  pub few : p.num_params < 2 ^ 15
  pub words : All (λ t. t < 2 ^ 32) p.param_types
  pub measured : p.len ≡ 4 + (length p.name + 1) + (length p.query + 1) + 2 + 4 * p.num_params
  pub fits : p.len < 2 ^ 31

module _ (c : Codec) (w : IsCodec c) where
  read_types-put_types :
      (ts rest : List ℕ)
      → All (λ t. t < 2 ^ 32) ts
      → read_types c (length ts) (put_types c ts ++ rest) ≡ ok (ts, rest)
  unfolding read_types put_types
  read_types-put_types [] rest h = refl
  read_types-put_types (t ∷ ts) rest (ht, hts) =
      rw (append_assoc (c.put_i32 t) (put_types c ts) rest) (
        bind_ok (get_i32 c) _ (get_i32_put c w t (put_types c ts ++ rest) ht)
        ∙ bind_ok (read_types c (length ts)) _ (read_types-put_types ts rest hts))

  -- The bytes of a message, with what follows it.
  abbrev pub layout : Parse → List ℕ → List ℕ
  layout p rest =
      p.code
      ∷ (c.put_i32 p.len
          ++ ((p.name ++ (0 ∷ []))
              ++ ((p.query ++ (0 ∷ []))
                  ++ (c.put_i16 p.num_params ++ (put_types c p.param_types ++ rest)))))

  parse_layout : (p : Parse) → IsValid c p → parse_to_bytes c p ≡ ok (layout p [])
  unfolding parse_to_bytes
  parse_layout p v =
      rw
        (
          to_c_string_lem p.name v.name_text.nul_free,
          to_c_string_lem p.query v.query_text.nul_free,
          append-nil,
          measure,
        )
        refl
    where
      signed : i16_as_usize p.num_params ≡ p.num_params
      signed = ground (arith, v.few)

      measure :
          (4
              + length (p.name ++ (0 ∷ []))
              + length (p.query ++ (0 ∷ []))
              + 2
              + 4 * i16_as_usize p.num_params)
            % 2 ^ 64
            % 2 ^ 32
          ≡ p.len
      measure =
          rw (signed, length-append p.name (0 ∷ []), length-append p.query (0 ∷ [])) (omega arith)

  pub read_layout :
      (p : Parse) (rest : List ℕ) → IsValid c p → read_parse c (layout p rest) ≡ ok (p, rest)
  unfolding read_parse
  read_layout p rest v =
      bind_ok (get_i32 c) _ (get_i32_put c w p.len _ (omega arith))
      ∙ bind_ok (read_string c) _ (read_string_c_string c w p.name _ v.name_text)
      ∙ bind_ok (read_string c) _ (read_string_c_string c w p.query _ v.query_text)
      ∙ bind_ok (get_i16 c) _ (get_i16_put c w p.num_params _ (omega arith))
      ∙ bind_ok (read_types c (i16_rounds p.num_params)) _
          (rw (rounds) (read_types-put_types p.param_types rest v.words))
    where
      rounds : i16_rounds p.num_params ≡ length p.param_types
      rounds = ground (arith, v.few, v.counted)

  -- A Parse message that is written and read back is the same message, if its texts fit the wire,
  -- its counts agree with its lists and it states its own length.
  pub parse_try_from-to_bytes :
      (p : Parse) → IsValid c p → and_then (parse_to_bytes c p) (parse_try_from c) ≡ ok p
  unfolding parse_try_from
  parse_try_from-to_bytes p v = rw (parse_layout p v, read_layout p [] v)
