-- ===== src/Pool/Checkout/Order.antt =====
-- src/pool.rs: which servers a checkout considers, and in which order.
use pgcat.Prelude.{ℕ, ◌≡◌, refl, true, Option, none, some, List, [], ◌∷◌, ◌++◌, ◌==◌, All}
use pgcat.Prelude.Result.{Result, ok, err, panic, ◌>>=◌}
use pgcat.Prelude.Sort.{sort_desc, sort_desc-All, retain, retain-All}
use mathlib.Core.List.{reverse, reverse-append}
use pgcat.Errors.{Error}
use pgcat.Config.{Role, Address, shard_of, role_of, role_matches}
use pgcat.Pool.{
  ConnectionPool, LoadBalancingMode, random, least_outstanding_connections, DefaultShard, shard,
  random_shard, random_healthy,
}
use pgcat.Pool.Bans.{error_count}
use pgcat.Pool.Checkout.{
  flatten, by_default, by_shard, keyed, addresses_of, by_load, candidates_of, busy_connection_count,
}

-- What a shuffle of std documents, as far as it is relied on: it makes up no address.
abbrev pub Shuffles : (List Address → List Address) → Type 1
Shuffles shuffle = (P : Address → Type 0) (xs : List Address) → All P xs → All P (shuffle xs)

-- The shard that a checkout is for: the one asked for, or else the default one if there is one.
abbrev pub default_id : DefaultShard → Option ℕ
default_id (shard id) = some id
default_id _ = none

abbrev pub target_shard : Option ℕ → DefaultShard → Option ℕ
target_shard (some id) default = some id
target_shard none default = default_id default

abbrev pub OnShard : Option ℕ → Address → Type 0
OnShard none a = Unit
OnShard (some id) a = (shard_of a == id) ≡ true

-- A server that a checkout for this shard and role may lend.
abbrev pub IsWanted : Option ℕ → Option Role → Address → Type 0
IsWanted id role a = (role_matches (role_of a) role ≡ true) × OnShard id a

pub All-append {ℓ} :
    {A : Type 0} (P : A → Type ℓ) (xs ys : List A) → All P xs → All P ys → All P (xs ++ ys)
All-append P [] ys h g = g
All-append P (x ∷ xs) ys (p, h) g = (p, All-append P xs ys h g)

pub All-reverse {ℓ} : {A : Type 0} (P : A → Type ℓ) (xs : List A) → All P xs → All P (reverse xs)
All-reverse P [] h = tt
All-reverse P (x ∷ xs) (p, h) =
    rw (reverse-append (x ∷ []) xs)
      (All-append P (reverse xs) (x ∷ []) (All-reverse P xs h) (p, tt))

All-map :
    {A : Type 0} (P Q : A → Type 0) (xs : List A) → ((a : A) → P a → Q a) → All P xs → All Q xs
All-map P Q [] f h = tt
All-map P Q (x ∷ xs) f (p, h) = (f x p, All-map P Q xs f h)

All-unit : {A : Type 0} (xs : List A) → All (λ _. Unit {0}) xs
All-unit [] = tt
All-unit (x ∷ xs) = (tt, All-unit xs)

module _ (role : Option Role) where
  abbrev HasRole : Address → Type 0
  HasRole a = role_matches (role_of a) role ≡ true

  retained :
      (id : ℕ) (xs : List Address)
      → All HasRole xs
      → All (IsWanted (some id) role) (retain (λ a. shard_of a == id) xs)
  retained id xs h = retain-All HasRole (λ a. shard_of a == id) xs h

  default-IsWanted :
      (d : DefaultShard) (errors : Address → ℕ) (xs : List Address)
      → All HasRole xs
      → All (IsWanted (default_id d) role) (by_default d errors xs)
  default-IsWanted (shard id) errors xs h = retained id xs h
  default-IsWanted random_shard errors xs h =
      All-map HasRole (IsWanted none role) xs (λ a p. (p, tt)) h
  default-IsWanted random_healthy errors xs h =
      sort_desc-All (IsWanted none role) errors xs
        (All-map HasRole (IsWanted none role) xs (λ a p. (p, tt)) h)

  shard-IsWanted :
      (id : Option ℕ) (d : DefaultShard) (errors : Address → ℕ) (xs : List Address)
      → All HasRole xs
      → All (IsWanted (target_shard id d) role) (by_shard id d errors xs)
  shard-IsWanted (some id) d errors xs h = retained id xs h
  shard-IsWanted none d errors xs h = default-IsWanted d errors xs h

-- What holds of the list that a computation answers.
abbrev pub AnswersAll : {A : Type 0} → (A → Type 0) → Result Error (List A) → Type 0
AnswersAll P (ok xs) = All P xs
AnswersAll P _ = Unit

-- Each pair has its address's key.
abbrev KeyedBy : (Address → Result Error ℕ) → (Address → Type 0) → ℕ × Address → Type 0
KeyedBy key P (n, a) = (key a ≡ ok n) × P a

keyed-KeyedBy :
    (key : Address → Result Error ℕ) (P : Address → Type 0) (xs : List Address)
    → All P xs
    → AnswersAll (KeyedBy key P) (keyed key xs)
unfolding keyed
keyed-KeyedBy key P [] h = tt
keyed-KeyedBy key P (a ∷ rest) (p, h) =
    cons (key a) refl (keyed key rest) (keyed-KeyedBy key P rest h)
  where
    cons :
        (r : Result Error ℕ)
        → key a ≡ r
        → (m : Result Error (List (ℕ × Address))) → AnswersAll (KeyedBy key P) m
        → AnswersAll (KeyedBy key P) (r >>= λ n. m >>= λ more. ok ((n, a) ∷ more))
    cons (ok n) e (ok more) g = ((e, p), g)
    cons (ok n) e (err x) g = tt
    cons (ok n) e panic g = tt
    cons (err x) e m g = tt
    cons panic e m g = tt

addresses_of-All :
    (key : Address → Result Error ℕ) (P : Address → Type 0) (xs : List (ℕ × Address))
    → All (KeyedBy key P) xs
    → All P (addresses_of xs)
addresses_of-All key P [] h = tt
addresses_of-All key P ((n, a) ∷ xs) ((e, p), h) = (p, addresses_of-All key P xs h)

loaded-All :
    (P : Address → Type 0) (p : ConnectionPool) (r : Result Error (List (ℕ × Address)))
    → AnswersAll (KeyedBy (busy_connection_count p) P) r
    → AnswersAll P (r >>= λ pairs. ok (addresses_of (sort_desc (λ (x : ℕ × Address). x.0) pairs)))
loaded-All P p (ok pairs) h =
    addresses_of-All (busy_connection_count p) P _
      (sort_desc-All (KeyedBy (busy_connection_count p) P) (λ (x : ℕ × Address). x.0) pairs h)
loaded-All P p (err e) h = tt
loaded-All P p panic h = tt

by_load-All :
    (mode : LoadBalancingMode) (p : ConnectionPool) (P : Address → Type 0) (xs : List Address)
    → All P xs
    → AnswersAll P (by_load mode p xs)
by_load-All random p P xs h = h
by_load-All least_outstanding_connections p P xs h =
    loaded-All P p (keyed (busy_connection_count p) xs)
      (keyed-KeyedBy (busy_connection_count p) P xs h)

All-second : {A : Type 0} (P Q : A → Type 0) (xs : List A) → All (λ x. P x × Q x) xs → All Q xs
All-second P Q [] h = tt
All-second P Q (x ∷ xs) ((p, q), h) = (q, All-second P Q xs h)

-- Every candidate has the role and the shard that are asked for, whatever the order.
pub candidates_of-IsWanted :
    (shuffle : List Address → List Address) (p : ConnectionPool) (id : Option ℕ)
    (role : Option Role)
    → Shuffles shuffle
    → AnswersAll
        (IsWanted (target_shard id p.settings.default_shard) role)
        (candidates_of shuffle p id role)
unfolding candidates_of
candidates_of-IsWanted shuffle p id role keeps = by_load-All p.settings.load_balancing_mode p _ _ (
    shard-IsWanted role id p.settings.default_shard (error_count p) _ (
      keeps (HasRole role) _ (
        All-second (λ _. Unit) (HasRole role) _
          (retain-All (λ _. Unit) (λ a. role_matches (role_of a) role) (flatten p.addresses)
            (All-unit (flatten p.addresses))))))
