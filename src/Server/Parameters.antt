-- ===== src/Server/Parameters.antt =====
-- src/server.rs, the session parameters of a connection. A HashMap is an association list.
pub mod Diff
use pgcat.Prelude.{
  ℕ, ◌+◌, ◌%◌, ◌^◌, Bool, true, false, ◌||◌, Option, none, some, List, [], ◌∷◌, ◌++◌, length, codes,
  text_eq, if◌then◌else◌,
}
use pgcat.Prelude.Dict.{text_Eq, lookup, insert}
use pgcat.Wire.{Codec}

abbrev pub Text : Type 0
Text = List ℕ

abbrev pub ServerParameters : Type 0
ServerParameters = List (Text × Text)

abbrev pub tracked_parameters : List Text
tracked_parameters =
    codes "client_encoding"
    ∷ codes "DateStyle"
    ∷ codes "TimeZone"
    ∷ codes "standard_conforming_strings"
    ∷ codes "application_name"
    ∷ []

pub contains : Text → List Text → Bool
contains k [] = false
contains k (x ∷ xs) = text_eq x k || contains k xs

-- The spelling under which a key is kept.
pub canonical : Text → Text
canonical key =
    if text_eq key (codes "timezone")
    then codes "TimeZone"
    else if text_eq key (codes "datestyle")
    then codes "DateStyle"
    else key

unfoldable pub set_param : Text → Text → Bool → ServerParameters → ServerParameters
set_param key value startup p =
    if contains (canonical key) tracked_parameters || startup
    then insert (canonical key) value p
    else p

pub parameters_new : ServerParameters
unfolding set_param contains canonical
parameters_new = set_param (codes "application_name") (codes "pgcat") false (
    set_param (codes "standard_conforming_strings") (codes "on") false (
      set_param (codes "TimeZone") (codes "Etc/UTC") false (
        set_param (codes "DateStyle") (codes "ISO, MDY") false
          (set_param (codes "client_encoding") (codes "UTF8") false []))))

-- The entries in the order in which the map gives them.
pub set_from_hashmap : List (Text × Text) → Bool → ServerParameters → ServerParameters
unfolding set_param
set_from_hashmap [] startup p = p
set_from_hashmap ((key, value) ∷ more) startup p =
    set_from_hashmap more startup (set_param key value startup p)

-- One key of the loop in `compare_params`.
abbrev pub compare_key : Option Text → Option Text → Text → List (Text × Text) → List (Text × Text)
compare_key (some value) (some incoming) key diff =
    if text_eq value incoming then diff else insert key incoming diff
compare_key (some value) none key diff = diff
compare_key none incoming key diff = diff

pub compare_keys :
    List Text → ServerParameters → ServerParameters → List (Text × Text) → List (Text × Text)
compare_keys [] p incoming diff = diff
compare_keys (key ∷ keys) p incoming diff =
    compare_keys keys p incoming (compare_key (lookup key p) (lookup key incoming) key diff)

-- The tracked parameters in which `incoming` differs, with the incoming values.
unfoldable pub compare_params : ServerParameters → ServerParameters → List (Text × Text)
unfolding compare_keys
compare_params p incoming = compare_keys tracked_parameters p incoming []

-- `none` is the panic of `unwrap`.
pub get_application_name : ServerParameters → Option Text
get_application_name p = lookup (codes "application_name") p

pub add_parameter_message : Codec → Text → Text → List ℕ → List ℕ
add_parameter_message c key value buffer =
    buffer
    ++ (b'S'
        ∷ (c.put_i32 ((4 + length key + 1 + length value + 1) % 2 ^ 32)
            ++ (key ++ (0 ∷ (value ++ (0 ∷ []))))))
