-- ===== src/Messages/Names.antt =====
-- src/messages.rs: `get_name` of Parse and Bind finds what the whole message would give.
use pgcat.Prelude.{ℕ, ◌≡◌, ap, ◌∙◌, List, [], ◌∷◌}
use pgcat.Prelude.Words.{i16_rounds}
use pgcat.Prelude.Result.{ok, map_ok, map_ok_inv}
use pgcat.Wire.{Codec, IsCodec, ◌>>=◌, read_string, get_i32, advance, get_i16}
use pgcat.Wire.Laws.{bind_ok, bind_elim, advance_header}
use pgcat.Messages.Parse.{Parse, read_parse, parse_try_from, parse_get_name, read_types}
use pgcat.Messages.Bind.{Bind, read_bind, bind_try_from, bind_get_name, read_tail}

module _ (c : Codec) (w : IsCodec c) where
  read_parse_name :
      (buf rest : List ℕ) (p : Parse)
      → read_parse c buf ≡ ok (p, rest)
      → parse_get_name c buf ≡ ok p.name
  unfolding read_parse parse_get_name
  read_parse_name [] rest p h = absurd (cc h)
  read_parse_name (code ∷ stream) rest p h = bind_elim (get_i32 c) _ stream h λ len s1 e1 h1.
      bind_elim (read_string c) _ s1 h1 λ name s2 e2 h2.
        bind_elim (read_string c) _ s2 h2 λ query s3 e3 h3.
          bind_elim (get_i16 c) _ s3 h3 λ n s4 e4 h4.
            bind_elim (read_types c (i16_rounds n)) _ s4 h4 λ ts s5 e5 h5.
              ap (map_ok (λ r. r.0)) (
                bind_ok (advance 5) (λ _. read_string c) {bs = code ∷ stream}
                  (advance_header c w code len stream s1 e1)
                ∙ e2)
              ∙ cc h5

  read_bind_name :
      (buf rest : List ℕ) (b : Bind)
      → read_bind c buf ≡ ok (b, rest)
      → bind_get_name c buf ≡ ok b.prepared_statement
  unfolding read_bind bind_get_name
  read_bind_name [] rest b h = absurd (cc h)
  read_bind_name (code ∷ stream) rest b h = bind_elim (get_i32 c) _ stream h λ len s1 e1 h1.
      bind_elim (read_string c) _ s1 h1 λ portal s2 e2 h2.
        bind_elim (read_string c) _ s2 h2 λ name s3 e3 h3.
          bind_elim (read_tail c) _ s3 h3 λ t s4 e4 h4.
            ap (map_ok (λ r. r.0)) (
              bind_ok (advance 5) (λ _. read_string c >>= λ _. read_string c) {bs = code ∷ stream}
                (advance_header c w code len stream s1 e1)
              ∙ bind_ok (read_string c) (λ _. read_string c) e2
              ∙ e3)
            ∙ cc h4

  -- Whenever a buffer is read as a Parse message, or as a Bind message, `get_name` answers the name
  -- of its prepared statement.
  pub get_name-try_from :
      (buf buf' : List ℕ) (p : Parse) (b : Bind)
      → parse_try_from c buf ≡ ok p
      → bind_try_from c buf' ≡ ok b
      → (parse_get_name c buf ≡ ok p.name) × (bind_get_name c buf' ≡ ok b.prepared_statement)
  unfolding parse_try_from bind_try_from
  get_name-try_from buf buf' p b h h' =
      let (rest, e) = map_ok_inv (read_parse c buf) h in
      let (rest', e') = map_ok_inv (read_bind c buf') h' in
      (read_parse_name buf rest p e, read_bind_name buf' rest' b e')
