-- ===== src/Prelude/Result.antt =====
-- Rust results. A panic is a value of its own, so that its absence can be proved.
use mathlib.Core.Path.{◌≡◌}

pub data Result {ℓ κ} (E : Type κ) (A : Type ℓ) : Type (ℓ ⊔ κ) where
  ok : A → Result E A
  err : E → Result E A
  panic : Result E A

infixl 5 ◌>>=◌ ◌>>◌
abbrev pub ◌>>=◌ {ℓ κ ι} :
    {E : Type ι} {A : Type ℓ} {B : Type κ} → Result E A → (A → Result E B) → Result E B
ok a >>= f = f a
err e >>= f = err e
panic >>= f = panic

abbrev pub ◌>>◌ {ℓ κ} : {E : Type κ} {B : Type ℓ} → Result E (Unit {0}) → Result E B → Result E B
m >> k = m >>= λ _. k

-- The same under a name, for the modules whose `do` blocks are of another monad.
abbrev pub and_then {ℓ κ ι} :
    {E : Type ι} {A : Type ℓ} {B : Type κ} → Result E A → (A → Result E B) → Result E B
and_then m f = m >>= f

abbrev pub map_ok {ℓ κ ι} :
    {E : Type ι} {A : Type ℓ} {B : Type κ} → (A → B) → Result E A → Result E B
map_ok f (ok a) = ok (f a)
map_ok f (err e) = err e
map_ok f panic = panic

pub map_ok_inv {κ} :
    {E : Type κ} {A B : Type 0} (x : Result E (A × B)) {a : A}
    → map_ok (λ (r : A × B). r.0) x ≡ ok a
    → (b : B) × (x ≡ ok (a, b))
map_ok_inv (ok (a, b)) h = (b, cc)
map_ok_inv (err e) h = absurd (cc h)
map_ok_inv panic h = absurd (cc h)
