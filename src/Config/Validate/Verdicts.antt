-- ===== src/Config/Validate/Verdicts.antt =====
-- src/config.rs: checks in a row decide the conjunction of what each of them asks for.
use pgcat.Prelude.{◌≡◌, refl, Bool, true, false, List, [], ◌∷◌, All}
use pgcat.Prelude.Result.{Result, ok, err, panic, ◌>>=◌, ◌>>◌}
use pgcat.Errors.{Error}
use pgcat.Config.Validate.{require, for_each}

-- A check that passes if and only if `A` holds, and does not panic.
abbrev pub Decides : {X : Type 0} → Type 0 → Result Error X → Type 0
Decides A (ok _) = A
Decides A (err _) = A → ⊥
Decides A panic = ⊥

pub require-Decides : (b : Bool) → Decides (b ≡ true) (require b)
require-Decides true = refl
require-Decides false = λ h. cc h

both-Decides :
    {Y : Type 0} (A B : Type 0) (s : Result Error Y) → A → Decides B s → Decides (A × B) s
both-Decides A B (ok y) a b = (a, b)
both-Decides A B (err e) a b = λ h. b h.1
both-Decides A B panic a b = b

pub bind-Decides :
    {X Y : Type 0} (A B : Type 0) (r : Result Error X) (f : X → Result Error Y)
    → Decides A r
    → ((x : X) → Decides B (f x))
    → Decides (A × B) (r >>= f)
bind-Decides A B (ok x) f h k = both-Decides A B (f x) h (k x)
bind-Decides A B (err e) f h k = λ g. h g.0
bind-Decides A B panic f h k = h

pub then-Decides :
    {Y : Type 0} (A B : Type 0) (r : Result Error (Unit {0})) (s : Result Error Y)
    → Decides A r
    → Decides B s
    → Decides (A × B) (r >> s)
then-Decides A B r s h k = bind-Decides A B r (λ _. s) h λ _. k

-- A row of tests.
pub test-Decides :
    {Y : Type 0} (b : Bool) (B : Type 0) (s : Result Error Y)
    → Decides B s
    → Decides ((b ≡ true) × B) (require b >> s)
test-Decides b B s h = then-Decides (b ≡ true) B (require b) s (require-Decides b) h

pub iff-Decides :
    {X A B : Type 0} (r : Result Error X) → (A → B) → (B → A) → Decides A r → Decides B r
iff-Decides (ok x) to from h = to h
iff-Decides (err e) to from h = λ b. h (from b)
iff-Decides panic to from h = h

pub for_each-Decides :
    {A : Type 0} (Q : A → Type 0) (f : A → Result Error (Unit {0})) (as' : List A)
    → ((a : A) → Decides (Q a) (f a))
    → Decides (All Q as') (for_each f as')
for_each-Decides Q f [] h = tt
for_each-Decides Q f (a ∷ as') h =
    then-Decides (Q a) (All Q as') (f a) (for_each f as') (h a) (for_each-Decides Q f as' h)

-- The same as a type of its own, from which a use can tell what is decided.
pub record Verdict {X : Type 0} (A : Type 0) (r : Result Error X) : Type 0 where
  pub decides : Decides A r

pub verdict : (A : Type 0) (r : Result Error (Unit {0})) → Decides A r → Verdict A r
verdict A r h = record { decides = h }

pub all_of :
    {A B : Type 0} {r s : Result Error (Unit {0})}
    → Verdict A r
    → Verdict B s
    → Verdict (A × B) (r >> s)
all_of {A = A} {B = B} {r = r} {s = s} h k = record {
  decides = then-Decides A B r s h.decides k.decides;
}
