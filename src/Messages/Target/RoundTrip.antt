-- ===== src/Messages/Target/RoundTrip.antt =====
-- src/messages.rs: Describe and Close messages that are written and read back.
use pgcat.Prelude.{
  ℕ, ◌+◌, ◌%◌, ◌^◌, ◌<◌, ◌≡◌, ap, ◌∙◌, List, [], ◌∷◌, ◌++◌, length, length-append, arith,
}
use pgcat.Prelude.Result.{ok, and_then, map_ok}
use pgcat.Wire.{Codec, IsCodec, read_string, get_i32}
use pgcat.Wire.Laws.{IsText, to_c_string_lem, read_string_lem, bind_ok, get_i32_put}
use pgcat.Wire.Stream.Framing.{frame}
use pgcat.Messages.Target.{
  Describe, describe_try_from, describe_to_bytes, close_try_from, close_to_bytes, describe_rename,
  close_new,
}

module _ (c : Codec) (w : IsCodec c) (name : List ℕ) (t : IsText c name)
    (fits : length name + 6 < 2 ^ 31) where
  measure : (4 + 1 + length (name ++ (0 ∷ []))) % 2 ^ 32 ≡ length name + 6
  measure = omega (arith, length-append name (0 ∷ []))

  -- A Describe message that is renamed, written and read back has the new name and the length that
  -- goes with it, with its code and target as before, if the name can be carried and the length fits
  -- an i32.
  pub describe_try_from-rename :
      (d : Describe)
      → and_then (describe_to_bytes c (describe_rename d name)) (describe_try_from c)
        ≡ ok (record d { len = length name + 6; statement_name = name })
  unfolding describe_to_bytes describe_try_from describe_rename
  describe_try_from-rename d =
      rw (to_c_string_lem name t.nul_free, measure)
        (ap (map_ok (λ r. r.0)) (
          bind_ok (get_i32 c) _ (get_i32_put c w (length name + 6) _ (omega arith))
          ∙ bind_ok (read_string c) _ (read_string_lem c w name [] t)))

  -- The Close message for a prepared statement is one message on the wire, and is read back as it
  -- is, if the name can be carried and the length fits an i32.
  pub close_try_from-new :
      (and_then (close_to_bytes c (close_new name)) (close_try_from c) ≡ ok (close_new name))
      × (close_to_bytes c (close_new name) ≡ ok (frame c b'C' (b'S' ∷ (name ++ (0 ∷ [])))))
  unfolding close_to_bytes close_try_from close_new
  close_try_from-new = (
    rw (to_c_string_lem name t.nul_free, measure, new_len)
        (ap (map_ok (λ r. r.0)) (
          bind_ok (get_i32 c) _ (get_i32_put c w (length name + 6) _ (omega arith))
          ∙ bind_ok (read_string c) _ (read_string_lem c w name [] t))),
    rw (to_c_string_lem name t.nul_free) (
        ap (λ (n : ℕ). ok (b'C' ∷ (c.put_i32 n ++ (b'S' ∷ (name ++ (0 ∷ []))))))
          (omega (arith, length-append name (0 ∷ [])))),
  )
    where
      new_len : (4 + 1 + length name + 1) % 2 ^ 32 ≡ length name + 6
      new_len = omega arith
