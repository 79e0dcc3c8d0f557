-- ===== src/Messages/Bind/Rename.antt =====
-- src/messages.rs: giving a Bind message the name under which the server knows its statement.
use pgcat.Prelude.{
  ℕ, ◌+◌, ◌^◌, ◌<◌, ◌≡◌, refl, sym, ap, ◌∙◌, List, [], ◌∷◌, ◌++◌, length, length-append, arith,
  true,
}
use pgcat.Prelude.Words.{has_capacity}
use pgcat.Prelude.Result.{ok, and_then, map_ok, map_ok_inv}
use pgcat.Wire.{Codec, IsCodec, return, ◌>>=◌, read_string, get_i32}
use pgcat.Wire.Laws.{IsText, to_c_string_lem, read_string_c_string, bind_ok, bind_elim, get_i32_put}
use pgcat.Wire.Stream.Framing.{frame}
use pgcat.Messages.Bind.{
  Bind, with_tail, read_tail, read_bind, bind_try_from, rename, rename_to, renamed_len,
}

-- The body of a Bind message: the two names, and what stands behind them.
abbrev pub bind_body : List ℕ → List ℕ → List ℕ → List ℕ
bind_body portal name tail = (portal ++ (0 ∷ [])) ++ ((name ++ (0 ∷ [])) ++ tail)

module _ (c : Codec) (w : IsCodec c) (code : ℕ) (portal name tail : List ℕ) where
  length-bind_body :
      length (bind_body portal name tail) ≡ length portal + 1 + (length name + 1) + length tail
  length-bind_body = omega (
    arith,
    length-append (portal ++ (0 ∷ [])) ((name ++ (0 ∷ [])) ++ tail),
    length-append portal (0 ∷ []),
    length-append (name ++ (0 ∷ [])) tail,
    length-append name (0 ∷ []),
  )

module _ (c : Codec) (w : IsCodec c) (code : ℕ) (portal name new_name tail : List ℕ) where
  rename_to_lem :
      IsText c portal
      → IsText c new_name
      → length (bind_body portal name tail) + 4 < 2 ^ 31
      → length (bind_body portal new_name tail) + 4 < 2 ^ 31
      → rename_to c code (length (bind_body portal name tail) + 4) portal name new_name tail
        ≡ ok (frame c code (bind_body portal new_name tail), tail)
  unfolding rename_to
  rename_to_lem tp tn old_fits new_fits =
      rw (measure, room, to_c_string_lem portal tp.nul_free, to_c_string_lem new_name tn.nul_free)
        refl
    where
      measure :
          renamed_len c (length (bind_body portal name tail) + 4) name new_name
          ≡ length (bind_body portal new_name tail) + 4
      measure =
          unfold renamed_len in
          omega (
            arith,
            length-bind_body c w code portal name tail,
            length-bind_body c w code portal new_name tail,
          )

      room : has_capacity (length (bind_body portal new_name tail) + 4) ≡ true
      room = ground (arith, new_fits)

  -- Renaming a Bind message gives the message with the new name in the place of the old one, its
  -- length adapted and every other byte as it was. The names are texts that the protocol can carry,
  -- and the lengths before and after fit an i32.
  pub rename-frame :
      IsText c portal
      → IsText c name
      → IsText c new_name
      → length (bind_body portal name tail) + 4 < 2 ^ 31
      → length (bind_body portal new_name tail) + 4 < 2 ^ 31
      → rename c (frame c code (bind_body portal name tail)) new_name
        ≡ ok (frame c code (bind_body portal new_name tail))
  unfolding rename
  rename-frame tp to tn old_fits new_fits = ap (map_ok (λ r. r.0)) (
      bind_ok (get_i32 c) _ (get_i32_put c w _ _ (omega arith))
      ∙ bind_ok (read_string c) _ (read_string_c_string c w portal _ tp)
      ∙ bind_ok (read_string c) _ (read_string_c_string c w name tail to)
      ∙ rename_to_lem tp tn old_fits new_fits)

module _ (c : Codec) (w : IsCodec c) (code : ℕ) (portal tail : List ℕ) where
  read_bind-frame :
      (name : List ℕ)
      → IsText c portal
      → IsText c name
      → length (bind_body portal name tail) + 4 < 2 ^ 31
      → read_bind c (frame c code (bind_body portal name tail))
        ≡ (read_tail c >>= λ t.
              return (with_tail code (length (bind_body portal name tail) + 4) portal name t))
            tail
  unfolding read_bind
  read_bind-frame name tp tn fits =
      bind_ok (get_i32 c) _ (get_i32_put c w _ _ (omega arith))
      ∙ bind_ok (read_string c) _ (read_string_c_string c w portal _ tp)
      ∙ bind_ok (read_string c) _ (read_string_c_string c w name tail tn)

  -- Where the server's copy of a Bind message is read, it is the client's message under the new
  -- name: the same portal, formats, values and result columns, with the length adapted. The names
  -- are texts that the protocol can carry, and the lengths before and after fit an i32.
  pub bind_try_from-rename :
      (name new_name : List ℕ) (b : Bind)
      → IsText c portal
      → IsText c name
      → IsText c new_name
      → length (bind_body portal name tail) + 4 < 2 ^ 31
      → length (bind_body portal new_name tail) + 4 < 2 ^ 31
      → bind_try_from c (frame c code (bind_body portal name tail)) ≡ ok b
      → and_then (rename c (frame c code (bind_body portal name tail)) new_name) (bind_try_from c)
        ≡ ok (record b {
          len = length (bind_body portal new_name tail) + 4;
          prepared_statement = new_name;
        })
  unfolding bind_try_from
  bind_try_from-rename name new_name b tp to tn old_fits new_fits h =
      rw (rename-frame c w code portal name new_name tail tp to tn old_fits new_fits) (
        let (rest, e) = map_ok_inv (read_bind c (frame c code (bind_body portal name tail))) h in
        bind_elim (read_tail c) _ tail (sym (read_bind-frame name tp to old_fits) ∙ e) λ t s et ht.
          ap (map_ok (λ r. r.0))
            (read_bind-frame new_name tp tn new_fits ∙ bind_ok (read_tail c) _ et)
          ∙ cc ht)
