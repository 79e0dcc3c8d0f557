-- ===== src/Runs/MessageRuns.antt =====
-- Concrete inputs for the theorems on the messages of src/messages.rs.
use pgcat.Prelude.{ℕ, ◌-◌, ◌^◌, ◌≡◌, refl, inl, inr, none, some, List, [], ◌∷◌, ◌++◌, codes, arith}
use pgcat.Prelude.Result.{ok, and_then}
use pgcat.Wire.{position_nul, read_until_nul, read_string}
use pgcat.Wire.Laws.{IsText}
use pgcat.Wire.Stream.Framing.{frame}
use pgcat.Messages.Parse.{Parse, read_parse, read_types, parse_try_from, parse_to_bytes}
use pgcat.Messages.Parse.RoundTrip as ParseTrip
use pgcat.Messages.Bind.{
  Bind, read_bind, read_codes, read_value, read_values, read_tail, copy_to_slice, param_bytes,
  bind_try_from, bind_to_bytes, rename,
}
use pgcat.Messages.Bind.Rename.{bind_body, rename-frame, bind_try_from-rename}
use pgcat.Messages.Bind.RoundTrip as BindTrip
use pgcat.Messages.Reply.{put_row, put_nullable_row, data_row, data_row_nullable}
use pgcat.Messages.Reply.Rows.{read_data_row, read_data_row-put}
use pgcat.Runs.{codec, codec-IsCodec}

abbrev old_name : List ℕ
old_name = codes "s1"

abbrev new_name : List ℕ
new_name = codes "PGCAT_7"

old_IsText : IsText codec old_name
unfolding position_nul
old_IsText = record { valid = refl; nul_free = refl }

new_IsText : IsText codec new_name
unfolding position_nul
new_IsText = record { valid = refl; nul_free = refl }

empty_IsText : IsText codec []
unfolding position_nul
empty_IsText = record { valid = refl; nul_free = refl }

-- One format, a NULL and a value of one byte, no result format.
abbrev tail : List ℕ
tail =
    0
    ∷ (1
        ∷ (0
            ∷ (1
                ∷ (0
                    ∷ (2
                        ∷ (255
                            ∷ (255
                                ∷ (255
                                    ∷ (255 ∷ (0 ∷ (0 ∷ (0 ∷ (1 ∷ (9 ∷ (0 ∷ (0 ∷ []))))))))))))))))

rename-frame_example :
    rename codec (frame codec b'B' (bind_body [] old_name tail)) new_name
    ≡ ok (frame codec b'B' (bind_body [] new_name tail))
rename-frame_example =
    rename-frame codec codec-IsCodec b'B' [] old_name new_name tail empty_IsText old_IsText
      new_IsText (omega arith) (omega arith)

abbrev bound : Bind
bound = record {
  code = b'B';
  len = 25;
  portal = [];
  prepared_statement = old_name;
  num_param_format_codes = 1;
  param_format_codes = 1 ∷ [];
  num_param_values = 2;
  param_values = (2 ^ 32 - 1, []) ∷ ((1, 9 ∷ []) ∷ []);
  num_result_column_format_codes = 0;
  result_columns_format_codes = [];
}

bound-IsValid : BindTrip.IsValid codec bound
bound-IsValid = record {
  portal_text = empty_IsText;
  name_text = old_IsText;
  formats_counted = refl;
  values_counted = refl;
  results_counted = refl;
  few_formats = omega arith;
  few_values = omega arith;
  few_results = omega arith;
  formats_words = (omega arith, tt);
  values_valid = (inr (refl, refl), (inl (refl, omega arith), tt));
  results_words = tt;
}

bind_try_from-to_bytes_example :
    and_then (bind_to_bytes codec bound) (bind_try_from codec)
    ≡ ok (record bound { len = BindTrip.true_len bound - BindTrip.nulls bound.param_values })
bind_try_from-to_bytes_example =
    BindTrip.bind_try_from-to_bytes codec codec-IsCodec bound bound-IsValid (omega arith)

abbrev parse_two : Parse
parse_two = record {
  code = b'P';
  len = 24;
  name = old_name;
  query = codes "SELECT";
  num_params = 2;
  param_types = 23 ∷ (25 ∷ []);
}

parse_two-IsValid : ParseTrip.IsValid codec parse_two
unfolding position_nul
parse_two-IsValid = record {
  name_text = old_IsText;
  query_text = record { valid = refl; nul_free = refl };
  counted = refl;
  few = omega arith;
  words = (omega arith, (omega arith, tt));
  measured = refl;
  fits = omega arith;
}

parse_try_from-to_bytes_example :
    and_then (parse_to_bytes codec parse_two) (parse_try_from codec) ≡ ok parse_two
parse_try_from-to_bytes_example =
    ParseTrip.parse_try_from-to_bytes codec codec-IsCodec parse_two parse_two-IsValid

read_data_row-put_example :
    (read_data_row codec (data_row_nullable codec (some (codes "1") ∷ (none ∷ [])))
      ≡ ok (some (codes "1") ∷ (none ∷ []), []))
    × (read_data_row codec (data_row codec (codes "22" ∷ [])) ≡ ok (some (codes "22") ∷ [], []))
unfolding put_nullable_row put_row
read_data_row-put_example =
    read_data_row-put codec codec-IsCodec (some (codes "1") ∷ (none ∷ [])) (codes "22" ∷ [])
      (omega arith, (tt, tt)) (omega arith, tt) (omega arith) (omega arith) (omega arith)
      (omega arith)

bound_read : bind_try_from codec (frame codec b'B' (bind_body [] old_name tail)) ≡ ok (bound)
unfolding bind_try_from read_bind read_codes read_value read_values read_tail copy_to_slice
    param_bytes read_string read_until_nul
bound_read = refl

bind_try_from-rename_example :
    and_then
      (rename codec (frame codec b'B' (bind_body [] old_name tail)) new_name)
      (bind_try_from codec)
    ≡ ok (record bound { len = 30; prepared_statement = new_name })
bind_try_from-rename_example =
    bind_try_from-rename codec codec-IsCodec b'B' [] tail old_name new_name (bound) empty_IsText
      old_IsText new_IsText (omega arith) (omega arith) bound_read

abbrev parse_bytes : List ℕ
parse_bytes = frame codec b'P' (old_name ++ (0 ∷ (codes "SELECT" ++ (0 ∷ (0 ∷ (0 ∷ []))))))

abbrev parsed : Parse
parsed = record {
  code = b'P';
  len = 16;
  name = old_name;
  query = codes "SELECT";
  num_params = 0;
  param_types = [];
}

parsed_read : parse_try_from codec parse_bytes ≡ ok parsed
unfolding parse_try_from read_parse read_types read_string read_until_nul
parsed_read = refl
