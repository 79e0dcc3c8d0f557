-- ===== src/Messages/Bind/RoundTrip.antt =====
-- src/messages.rs: a Bind message that is written and read back.
use pgcat.Prelude.{
  ℕ, ◌+◌, ◌*◌, ◌-◌, ◌%◌, ◌^◌, ◌<◌, ◌≡◌, refl, ap, ◌∙◌, ◌⊎◌, inl, inr, List, [], ◌∷◌, ◌++◌, length,
  length-append, take-append_self, drop-append_self, All, arith, true, false, if◌then◌else◌, le→ltb,
  ◌==◌,
}
use pgcat.Prelude.Words.{i16_as_usize, i16_rounds, i32_as_usize}
use pgcat.Prelude.Result.{ok, and_then, map_ok}
use pgcat.Wire.{Codec, IsCodec, read_string, get_i32, get_i16}
use pgcat.Wire.Laws.{
  IsText, to_c_string_lem, read_string_c_string, bind_ok, get_i32_put, get_i16_put,
}
use pgcat.Messages.Bind.{
  param_bytes, Bind, Tail, read_codes, read_value, read_values, is_positive, read_tail, read_bind,
  bind_try_from, put_codes, put_values, values_len, bind_to_bytes,
}
use mathlib.Core.List.{append_assoc, append-nil}

-- A parameter with its bytes, or a NULL.
abbrev pub IsValue : ℕ × List ℕ → Type 0
IsValue (n, v) = ((n ≡ length v) × (n < 2 ^ 31)) ⊎ ((n ≡ 2 ^ 32 - 1) × (v ≡ []))

abbrev null_count : ℕ → ℕ
null_count n = if n == 2 ^ 32 - 1 then 1 else 0

abbrev pub nulls : List (ℕ × List ℕ) → ℕ
nulls [] = 0
nulls ((n, v) ∷ vs) = null_count n + nulls vs

abbrev values_size : List (ℕ × List ℕ) → ℕ
values_size [] = 0
values_size ((n, v) ∷ vs) = 4 + length v + values_size vs

param_bytes_lem :
    (n : ℕ) (v rest : List ℕ) → IsValue (n, v) → param_bytes n (v ++ rest) ≡ ok (v, rest)
unfolding param_bytes
param_bytes_lem n [] rest h = rw nothing
  where
    nothing : is_positive n ≡ false
    nothing = ground (arith, h)
param_bytes_lem n (x ∷ v) rest (inl (e, small)) = rw (
  positive,
  le→ltb (length ((x ∷ v) ++ rest)) n (omega (arith, e, length-append v rest)),
  e,
  take-append_self v rest,
  drop-append_self v rest,
)
  where
    positive : is_positive n ≡ true
    positive = ground (arith, e, small)
param_bytes_lem n (x ∷ v) rest (inr (e, e')) = absurd (cc e')

value_step :
    (len n : ℕ) (v : List ℕ)
    → n ≡ length v
    → n < 2 ^ 31
    → len < 2 ^ 32
    → ((len + (4 + i32_as_usize n)) % 2 ^ 64 ≡ len + 4 + length v) × (null_count n ≡ 0)
value_step len n v e small fits = ground arith

null_step : (len : ℕ) → len < 2 ^ 32 → (len + (4 + i32_as_usize (2 ^ 32 - 1))) % 2 ^ 64 ≡ len + 3
null_step len fits = omega arith

module _ (c : Codec) (w : IsCodec c) where
  read_codes-put_codes :
      (xs rest : List ℕ)
      → All (λ x. x < 2 ^ 16) xs
      → read_codes c (length xs) (put_codes c xs ++ rest) ≡ ok (xs, rest)
  unfolding read_codes put_codes
  read_codes-put_codes [] rest h = refl
  read_codes-put_codes (x ∷ xs) rest (hx, hxs) =
      rw (append_assoc (c.put_i16 x) (put_codes c xs) rest) (
        bind_ok (get_i16 c) _ (get_i16_put c w x (put_codes c xs ++ rest) hx)
        ∙ bind_ok (read_codes c (length xs)) _ (read_codes-put_codes xs rest hxs))

  read_value-put_value :
      (n : ℕ) (v rest : List ℕ)
      → IsValue (n, v)
      → read_value c (c.put_i32 n ++ (v ++ rest)) ≡ ok ((n, v), rest)
  unfolding read_value
  read_value-put_value n v rest h =
      bind_ok (get_i32 c) _ (get_i32_put c w n (v ++ rest) (ground (arith, h)))
      ∙ bind_ok (param_bytes n) _ (param_bytes_lem n v rest h)

  read_values-put_values :
      (vs : List (ℕ × List ℕ)) (rest : List ℕ)
      → All IsValue vs
      → read_values c (length vs) (put_values c vs ++ rest) ≡ ok (vs, rest)
  unfolding read_values put_values
  read_values-put_values [] rest h = refl
  read_values-put_values ((n, v) ∷ vs) rest (hv, hvs) =
      rw
        (
          append_assoc (c.put_i32 n) (v ++ put_values c vs) rest,
          append_assoc v (put_values c vs) rest,
        )
        (bind_ok (read_value c) _ (read_value-put_value n v (put_values c vs ++ rest) hv)
          ∙ bind_ok (read_values c (length vs)) _ (read_values-put_values vs rest hvs))

  values_len-nulls :
      (len : ℕ) (vs : List (ℕ × List ℕ))
      → All IsValue vs
      → len + values_size vs < 2 ^ 32
      → values_len c len vs + nulls vs ≡ len + values_size vs
  unfolding values_len
  values_len-nulls len [] h fits = omega arith
  values_len-nulls len ((n, v) ∷ vs) (inl (e, small), hs) fits =
      let (step, flag) = value_step len n v e small (omega arith) in
      omega (
        arith,
        flag,
        ap (λ (l : ℕ). values_len c l vs) step,
        values_len-nulls (len + 4 + length v) vs hs (omega arith),
      )
  values_len-nulls len ((n, v) ∷ vs) (inr (e, e'), hs) fits =
      rw (e, e')
        (omega (
          arith,
          ap (λ (l : ℕ). values_len c l vs) (null_step len (omega arith)),
          values_len-nulls (len + 3) vs hs (omega arith),
        ))

-- A message whose texts fit the wire and whose counts agree with its lists.
pub record IsValid (c : Codec) (b : Bind) : Type 0 where
  pub portal_text : IsText c b.portal
  pub name_text : IsText c b.prepared_statement
  pub formats_counted : b.num_param_format_codes ≡ length b.param_format_codes
  pub values_counted : b.num_param_values ≡ length b.param_values
  pub results_counted : b.num_result_column_format_codes ≡ length b.result_columns_format_codes
  pub few_formats : b.num_param_format_codes < 2 ^ 15
  pub few_values : b.num_param_values < 2 ^ 15
  pub few_results : b.num_result_column_format_codes < 2 ^ 15
  pub formats_words : All (λ x. x < 2 ^ 16) b.param_format_codes
  pub values_valid : All IsValue b.param_values
  pub results_words : All (λ x. x < 2 ^ 16) b.result_columns_format_codes

-- The length of the message, by the protocol: everything but its code.
abbrev pub true_len : Bind → ℕ
true_len b =
    4
    + (length b.portal + 1)
    + (length b.prepared_statement + 1)
    + 2
    + 2 * length b.param_format_codes
    + 2
    + values_size b.param_values
    + 2
    + 2 * length b.result_columns_format_codes

module _ (c : Codec) (w : IsCodec c) (b : Bind) (v : IsValid c b) where
  abbrev tail_bytes : List ℕ
  tail_bytes =
      c.put_i16 b.num_param_format_codes
      ++ (put_codes c b.param_format_codes
          ++ (c.put_i16 b.num_param_values
              ++ (put_values c b.param_values
                  ++ (c.put_i16 b.num_result_column_format_codes
                      ++ put_codes c b.result_columns_format_codes))))

  rounds : (n : ℕ) → n < 2 ^ 15 → (i16_rounds n ≡ n) × (i16_as_usize n ≡ n)
  rounds n h = ground arith

  abbrev tail_of : Tail
  tail_of = record {
    num_param_format_codes = b.num_param_format_codes;
    param_format_codes = b.param_format_codes;
    num_param_values = b.num_param_values;
    param_values = b.param_values;
    num_result_column_format_codes = b.num_result_column_format_codes;
    result_columns_format_codes = b.result_columns_format_codes;
  }

  -- One list with its count in front.
  counted_codes :
      (n : ℕ) (xs rest : List ℕ)
      → n ≡ length xs
      → n < 2 ^ 15
      → All (λ x. x < 2 ^ 16) xs
      → read_codes c (i16_rounds n) (put_codes c xs ++ rest) ≡ ok (xs, rest)
  counted_codes n xs rest e h words =
      rw ((rounds n h).0, e) (read_codes-put_codes c w xs rest words)

  read_tail_bytes : read_tail c tail_bytes ≡ ok (tail_of, [])
  unfolding read_tail
  read_tail_bytes =
      bind_ok (get_i16 c) _
        (get_i16_put c w b.num_param_format_codes _ (omega (arith, v.few_formats)))
      ∙ bind_ok (read_codes c (i16_rounds b.num_param_format_codes)) _
          (counted_codes _ _ _ v.formats_counted v.few_formats v.formats_words)
      ∙ bind_ok (get_i16 c) _ (get_i16_put c w b.num_param_values _ (omega (arith, v.few_values)))
      ∙ bind_ok (read_values c (i16_rounds b.num_param_values)) _ (
          rw ((rounds b.num_param_values v.few_values).0, v.values_counted)
            (read_values-put_values c w b.param_values _ v.values_valid))
      ∙ bind_ok (get_i16 c) _
          (get_i16_put c w b.num_result_column_format_codes _ (omega (arith, v.few_results)))
      ∙ bind_ok (read_codes c (i16_rounds b.num_result_column_format_codes)) _
          (rw append-nil at (counted_codes _ _ [] v.results_counted v.few_results v.results_words))

  -- The sum that `bind_to_bytes` computes: one short for each NULL.
  abbrev start : ℕ
  start =
      (4
        + length (b.portal ++ (0 ∷ []))
        + length (b.prepared_statement ++ (0 ∷ []))
        + 2
        + 2 * i16_as_usize b.num_param_format_codes
        + 2)
      % 2 ^ 64

  start_lem :
      true_len b < 2 ^ 31
      → start
        ≡ 4
          + (length b.portal + 1)
          + (length b.prepared_statement + 1)
          + 2
          + 2 * length b.param_format_codes
          + 2
  start_lem fits = rw ((rounds b.num_param_format_codes v.few_formats).1) (
      omega (
        arith,
        length-append b.portal (0 ∷ []),
        length-append b.prepared_statement (0 ∷ []),
        v.formats_counted,
      ))

  measure :
      true_len b < 2 ^ 31
      → (values_len c start b.param_values + 2 + 2 * i16_as_usize b.num_result_column_format_codes)
          % 2 ^ 64
          % 2 ^ 32
        ≡ true_len b - nulls b.param_values
  measure fits =
      rw ((rounds b.num_result_column_format_codes v.few_results).1, start_lem fits)
        (omega (
          arith,
          values_len-nulls c w
              (4
                + (length b.portal + 1)
                + (length b.prepared_statement + 1)
                + 2
                + 2 * length b.param_format_codes
                + 2)
              b.param_values v.values_valid (omega arith),
          v.results_counted,
        ))

  bind_layout :
      true_len b < 2 ^ 31
      → bind_to_bytes c b
        ≡ ok (
            b.code
            ∷ (c.put_i32 (true_len b - nulls b.param_values)
                ++ ((b.portal ++ (0 ∷ [])) ++ ((b.prepared_statement ++ (0 ∷ [])) ++ tail_bytes))))
  unfolding bind_to_bytes
  bind_layout fits =
      rw
        (
          to_c_string_lem b.portal v.portal_text.nul_free,
          to_c_string_lem b.prepared_statement v.name_text.nul_free,
        )
        (ap
          (λ (n : ℕ). ok (
            b.code
            ∷ (c.put_i32 n
                ++ ((b.portal ++ (0 ∷ [])) ++ ((b.prepared_statement ++ (0 ∷ [])) ++ tail_bytes)))))
          (measure fits))

  -- A Bind message whose texts fit the wire, whose counts agree with its lists and whose true length
  -- fits an i32 is read back as it was written, but for its length, which falls short of the true
  -- one by one for each NULL among its parameters.
  pub bind_try_from-to_bytes :
      true_len b < 2 ^ 31
      → and_then (bind_to_bytes c b) (bind_try_from c)
        ≡ ok (record b { len = true_len b - nulls b.param_values })
  unfolding bind_try_from read_bind
  bind_try_from-to_bytes fits = rw (bind_layout fits) (
      ap (map_ok (λ r. r.0)) (
        bind_ok (get_i32 c) _ (get_i32_put c w _ _ (omega arith))
        ∙ bind_ok (read_string c) _ (read_string_c_string c w b.portal _ v.portal_text)
        ∙ bind_ok (read_string c) _ (read_string_c_string c w b.prepared_statement _ v.name_text)
        ∙ bind_ok (read_tail c) _ read_tail_bytes))
