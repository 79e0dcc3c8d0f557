-- ===== src/Messages/Startup.antt =====
-- src/messages.rs, `parse_params` and `parse_startup`: names and values from the startup packet of a client.
pub mod Pairs
use pgcat.Prelude.{
  ℕ, Bool, true, false, Option, none, some, List, [], ◌∷◌, ◌++◌, codes, length, ltb, ◌==◌, ◌%◌, ◌+◌,
  ◌/◌, ◌||◌, not, if◌then◌else◌,
}
use pgcat.Prelude.Result.{Result, ok, err, panic, ◌>>=◌}
use pgcat.Prelude.Dict.{insert, lookup, text_Eq}
use pgcat.Errors.{Error, client_bad_startup}

abbrev pub Text : Type 0
Text = List ℕ

-- `tmp.push(c as char)`: a byte is taken for the character of that number, which has two bytes in UTF-8
-- from 128 on.
unfoldable pub as_char : ℕ → Text
as_char b = if ltb b 128 then b ∷ [] else (192 + b / 64) ∷ ((128 + b % 64) ∷ [])

-- The loops over the bytes, `inside` a text or not: empty texts are left out, and the end of the
-- bytes inside a text is a panic.
abbrev pub push_text : Text → Option (List Text) → Option (List Text)
push_text tmp none = none
push_text [] (some texts) = some texts
push_text (b ∷ tmp) (some texts) = some ((b ∷ tmp) ∷ texts)

unfoldable pub read_texts : Bool → Text → List ℕ → Option (List Text)
unfolding as_char
read_texts false tmp [] = some []
read_texts true tmp [] = none
read_texts inside tmp (b ∷ bytes) =
    let closed = read_texts false [] bytes in
    let more = read_texts true (tmp ++ as_char b) bytes in
    if b == 0 then push_text tmp closed else more

unfoldable pub insert_pairs : List Text → List (Text × Text) → List (Text × Text)
insert_pairs (name ∷ (value ∷ texts)) params = insert_pairs texts (insert name value params)
insert_pairs _ params = params

abbrev pub paired : Option (List Text) → Result Error (List (Text × Text))
paired none = panic
paired (some texts) =
    if not (length texts % 2 == 0) || ltb (length texts) 2
    then err client_bad_startup
    else ok (insert_pairs texts [])

unfoldable pub parse_params : List ℕ → Result Error (List (Text × Text))
unfolding read_texts insert_pairs
parse_params bytes = paired (read_texts false [] bytes)

abbrev pub with_user : List (Text × Text) → Result Error (List (Text × Text))
with_user params = elim (lookup (codes "user") params) [
  | none ↦ err client_bad_startup
  | some user ↦ ok params
]

unfoldable pub parse_startup : List ℕ → Result Error (List (Text × Text))
unfolding parse_params
parse_startup bytes = parse_params bytes >>= with_user
