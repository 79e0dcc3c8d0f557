-- ===== src/Server/Parameters/Diff.antt =====
-- src/server.rs: what the difference of two sets of parameters is good for.
use pgcat.Prelude.{
  ◌≡◌, refl, ◌∙◌, inl, inr, Bool, true, false, Option, none, some, List, [], ◌∷◌, text_eq,
  text_eq_sound, text_eq_refl, if◌then◌else◌, arith, Bool-cases,
}
use pgcat.Prelude.Dict.{text_Eq, lookup, lookup-insert}
use pgcat.Server.Parameters.{
  Text, ServerParameters, tracked_parameters, contains, compare_key, compare_keys, compare_params,
}

-- What a key of the diff should be: the incoming value where both have one and they differ.
abbrev pub wanted : Option Text → Option Text → Option Text
wanted (some value) (some incoming) = if text_eq value incoming then none else some incoming
wanted (some value) none = none
wanted none incoming = none

abbrev or_else : Option Text → Option Text → Option Text
or_else (some x) o = some x
or_else none o = o

lookup-compare_key :
    (a b : Option Text) (key k : Text) (diff : List (Text × Text))
    → lookup k (compare_key a b key diff)
      ≡ (if text_eq key k then or_else (wanted a b) (lookup k diff) else lookup k diff)
lookup-compare_key (some x) (some y) key k diff = ground (arith, lookup-insert key k y diff)
lookup-compare_key (some x) none key k diff = ground arith
lookup-compare_key none b key k diff = ground arith

again :
    (b : Bool) (o d : Option Text)
    → (if b then or_else o (or_else o d) else or_else o d) ≡ or_else o d
again true none d = refl
again true (some x) d = refl
again false o d = refl

last : (b : Bool) (o : Option Text) → (if b then or_else o none else none) ≡ (if b then o else none)
last true none = refl
last true (some x) = refl
last false o = refl

lookup-compare_keys :
    (keys : List Text) (p incoming : ServerParameters) (diff : List (Text × Text)) (k : Text)
    → lookup k (compare_keys keys p incoming diff) ≡ (
        if contains k keys
        then or_else (wanted (lookup k p) (lookup k incoming)) (lookup k diff)
        else lookup k diff)
unfolding compare_keys contains
lookup-compare_keys [] p incoming diff k = refl
lookup-compare_keys (key ∷ keys) p incoming diff k = elim (Bool-cases (text_eq key k)) [
  | inl same ↦
      rw
        (
          ← text_eq_sound key k same,
          lookup-compare_keys keys p incoming _ key,
          lookup-compare_key (lookup key p) (lookup key incoming) key key diff,
          text_eq_refl key,
        )
        (again (contains key keys) (wanted (lookup key p) (lookup key incoming)) (lookup key diff))
  | inr other ↦ rw (
    lookup-compare_keys keys p incoming _ k,
    lookup-compare_key (lookup key p) (lookup key incoming) key k diff,
    other,
  )
]

-- The difference holds, for each tracked parameter that both sides have with different values, the
-- incoming value, and nothing else.
pub lookup-compare_params :
    (p incoming : ServerParameters) (k : Text)
    → lookup k (compare_params p incoming)
      ≡ (if contains k tracked_parameters then wanted (lookup k p) (lookup k incoming) else none)
unfolding compare_params
lookup-compare_params p incoming k =
    lookup-compare_keys tracked_parameters p incoming [] k
    ∙ last (contains k tracked_parameters) (wanted (lookup k p) (lookup k incoming))
