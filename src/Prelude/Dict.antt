-- ===== src/Prelude/Dict.antt =====
-- A HashMap as an association list with each key at most once, over a Boolean equality.
use pgcat.Prelude.{
  ℕ, ◌≡◌, refl, Bool, true, List, [], ◌∷◌, Option, none, some, arith, if◌then◌else◌, text_eq,
  text_eq_sound, text_eq_refl,
}

pub record Eq {ℓ} (A : Type ℓ) : Type ℓ where
  pub beq : A → A → Bool
  pub sound : (a b : A) → beq a b ≡ true → a ≡ b
  pub self : (a : A) → beq a a ≡ true

instance abbrev pub text_Eq : Eq (List ℕ)
text_Eq = record { beq = text_eq; sound = text_eq_sound; self = text_eq_refl }

module _ {K V : Type 0} ⦃e : Eq K⦄ where
  abbrev pub lookup : K → List (K × V) → Option V
  lookup k [] = none
  lookup k ((j, v) ∷ m) = if e.beq j k then some v else lookup k m

  abbrev pub insert : K → V → List (K × V) → List (K × V)
  insert k v [] = (k, v) ∷ []
  insert k v ((j, w) ∷ m) = if e.beq j k then (k, v) ∷ m else (j, w) ∷ insert k v m

  abbrev pub remove : K → List (K × V) → List (K × V)
  remove k [] = []
  remove k ((j, w) ∷ m) = if e.beq j k then m else (j, w) ∷ remove k m

  pub lookup-insert :
      (k j : K) (v : V) (m : List (K × V))
      → lookup j (insert k v m) ≡ (if e.beq k j then some v else lookup j m)
  lookup-insert k j v [] = refl
  lookup-insert k j v ((i, w) ∷ m) =
      ground (arith, e.sound i k, e.sound k j, e.sound i j, e.self j, lookup-insert k j v m)

  -- Each key stands once.
  abbrev pub IsDict : List (K × V) → Type 0
  IsDict [] = Unit {0}
  IsDict ((k, v) ∷ m) = (lookup k m ≡ none) × IsDict m

  pub insert-IsDict : (k : K) (v : V) (m : List (K × V)) → IsDict m → IsDict (insert k v m)
  insert-IsDict k v [] d = (refl, tt)
  insert-IsDict k v ((i, w) ∷ m) (fresh, d) =
      ground
        (arith, e.sound i k, e.sound k i, e.self i, lookup-insert k i v m, insert-IsDict k v m d)

  pub lookup-remove :
      (k j : K) (m : List (K × V))
      → IsDict m
      → lookup j (remove k m) ≡ (if e.beq k j then none else lookup j m)
  lookup-remove k j [] d = ground arith
  lookup-remove k j ((i, w) ∷ m) (fresh, d) =
      ground (arith, e.sound i k, e.sound k j, e.sound i j, e.self j, lookup-remove k j m d)

  pub remove-IsDict : (k : K) (m : List (K × V)) → IsDict m → IsDict (remove k m)
  remove-IsDict k [] d = tt
  remove-IsDict k ((i, w) ∷ m) (fresh, d) =
      ground (arith, remove-IsDict k m d, lookup-remove k i m d)
