-- ===== src/Messages/Startup/Pairs.antt =====
-- src/messages.rs: what `parse_params` makes of texts that end in null bytes.
use pgcat.Prelude.{
  ℕ, ◌≡◌, refl, ap, sym, ◌∙◌, Bool, true, false, some, List, [], ◌∷◌, ◌++◌, ◌==◌, All, ◌<◌, lt→ltb,
}
use mathlib.Core.List.{append_assoc, append-nil}
use pgcat.Messages.Startup.{Text, as_char, push_text, read_texts, paired, parse_params}

abbrev pub NulFree : Text → Type 0
NulFree = All λ b. (b == 0) ≡ false

-- The characters whose numbers the bytes are.
unfoldable pub as_chars : List ℕ → Text
as_chars [] = []
as_chars (b ∷ t) = as_char b ++ as_chars t

abbrev pub IsAscii : Text → Type 0
IsAscii = All λ b. b < 128

as_chars-IsAscii : (t : Text) → IsAscii t → as_chars t ≡ t
unfolding as_chars as_char
as_chars-IsAscii [] h = refl
as_chars-IsAscii (b ∷ t) (h, hs) = rw (lt→ltb b 128 h, as_chars-IsAscii t hs) refl

unfoldable pub encoded : List Text → List ℕ
encoded [] = 0 ∷ []
encoded (t ∷ ts) = t ++ (0 ∷ encoded ts)

-- The texts that are not empty.
unfoldable pub kept : List Text → List Text
kept [] = []
kept ([] ∷ ts) = kept ts
kept ((b ∷ t) ∷ ts) = (b ∷ t) ∷ kept ts

read_texts-append :
    (inside : Bool) (t tmp : Text) (rest : List ℕ)
    → NulFree t
    → read_texts inside tmp (t ++ (0 ∷ rest))
      ≡ push_text (tmp ++ as_chars t) (read_texts false [] rest)
unfolding read_texts as_chars
read_texts-append true [] tmp rest h =
    ap (λ (z : Text). push_text z (read_texts false [] rest)) (sym (append-nil tmp))
read_texts-append false [] tmp rest h =
    ap (λ (z : Text). push_text z (read_texts false [] rest)) (sym (append-nil tmp))
read_texts-append true (b ∷ t) tmp rest (h, hs) = rw h (
    read_texts-append true t (tmp ++ as_char b) rest hs
    ∙ ap (λ (z : Text). push_text z (read_texts false [] rest))
        (append_assoc tmp (as_char b) (as_chars t)))
read_texts-append false (b ∷ t) tmp rest (h, hs) = rw h (
    read_texts-append true t (tmp ++ as_char b) rest hs
    ∙ ap (λ (z : Text). push_text z (read_texts false [] rest))
        (append_assoc tmp (as_char b) (as_chars t)))

read_texts-All :
    (ts : List Text)
    → All NulFree ts
    → All IsAscii ts
    → read_texts false [] (encoded ts) ≡ some (kept ts)
unfolding encoded kept read_texts
read_texts-All [] h g = refl
read_texts-All ([] ∷ ts) (h, hs) (g, gs) = rw (read_texts-All ts hs gs) refl
read_texts-All ((b ∷ t) ∷ ts) (h, hs) (g, gs) =
    read_texts-append false (b ∷ t) [] (encoded ts) h
    ∙ ap (λ (z : Text). push_text z (read_texts false [] (encoded ts))) (as_chars-IsAscii (b ∷ t) g)
    ∙ ap (push_text (b ∷ t)) (read_texts-All ts hs gs)

-- Of ASCII texts with their null bytes the parser pairs those that are not empty: an empty value makes the
-- names after it values.
pub parse_params-encoded :
    (ts : List Text)
    → All NulFree ts
    → All IsAscii ts
    → parse_params (encoded ts) ≡ paired (some (kept ts))
unfolding parse_params
parse_params-encoded ts h g = ap paired (read_texts-All ts h g)
