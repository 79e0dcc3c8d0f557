-- ===== src/Pool/Checkout/Balance.antt =====
-- src/pool.rs: what balancing by load makes of the candidates.
use pgcat.Prelude.{
  ℕ, ◌≡◌, ◌-◌, refl, ap, ◌∙◌, sym, subst, Option, none, some, List, [], ◌∷◌, ◌==◌, All, arith,
}
use pgcat.Prelude.Result.{Result, ok, err, panic, ◌>>=◌}
use pgcat.Prelude.Sort.{
  sort_desc, sort_desc-All, sort_desc-IsDescending, sort_desc-mem, retain, retain-mem, IsDescending,
}
use mathlib.Core.List.{Memᴰ}
use pgcat.Errors.{Error}
use pgcat.Config.{Role, Address, shard_of, role_of, index_of, role_matches}
use pgcat.Pool.{
  State, ConnectionPool, least_outstanding_connections, DefaultShard, shard, random_shard,
  random_healthy,
}
use pgcat.Pool.Bans.{error_count}
use pgcat.Pool.Checkout.{
  flatten, by_default, by_shard, keyed, addresses_of, by_load, candidates_of, pool_state, busy_of,
  busy_connection_count,
}
use pgcat.Pool.Checkout.Order.{OnShard, IsWanted, default_id, target_shard}

-- A shuffle keeps every address.
abbrev pub Keeps : (List Address → List Address) → Type 0
Keeps shuffle = (a : Address) (xs : List Address) → Memᴰ a xs → Memᴰ a (shuffle xs)

-- The connections of a server's pool that are lent; a count of idle ones that has overtaken that of
-- all connections is taken for all.
abbrev pub IsBusy : ConnectionPool → ℕ × Address → Type 0
IsBusy p (n, a) =
    (state : State) × (pool_state p (shard_of a) (index_of a) ≡ ok state)
    × (n ≡ state.connections - state.idle_connections)

busy_of_lem : (state : State) → busy_of state ≡ state.connections - state.idle_connections
unfolding busy_of
busy_of_lem state = ground arith

IsBusy-of :
    (p : ConnectionPool) (a : Address) (r : Result Error State) (n : ℕ)
    → pool_state p (shard_of a) (index_of a) ≡ r
    → (r >>= λ state. ok (busy_of state)) ≡ ok n
    → IsBusy p (n, a)
IsBusy-of p a (ok state) n e h = (state, e, eq)
  where
    eq : n ≡ state.connections - state.idle_connections
    eq = let same : busy_of state ≡ n = cc in sym same ∙ busy_of_lem state
IsBusy-of p a (err x) n e h = absurd (cc)
IsBusy-of p a panic n e h = absurd (cc)

-- The wanted servers of the pool, with the least loaded last.
abbrev pub Balanced : ConnectionPool → Option ℕ → Option Role → Result Error (List Address) → Type 0
Balanced p id role (ok xs) =
    ((a : Address) → Memᴰ a (flatten p.addresses) → IsWanted id role a → Memᴰ a xs)
    × ((pairs : List (ℕ × Address)) × (xs ≡ addresses_of pairs)
        × IsDescending (λ (x : ℕ × Address). x.0) pairs
        × All (IsBusy p) pairs)
Balanced p id role _ = Unit

mem-pair :
    (a : Address) (xs : List (ℕ × Address)) → Memᴰ a (addresses_of xs) → (n : ℕ) × Memᴰ (n, a) xs
mem-pair a [] m = elim m [ ]
mem-pair a ((n, b) ∷ xs) (Memᴰ.head e) = (n, Memᴰ.head (ap (λ (z : Address). (n, z)) e))
mem-pair a ((n, b) ∷ xs) (Memᴰ.tail m) = let (k, h) = mem-pair a xs m in (k, Memᴰ.tail h)

pair-mem :
    (n : ℕ) (a : Address) (xs : List (ℕ × Address)) → Memᴰ (n, a) xs → Memᴰ a (addresses_of xs)
pair-mem n a [] m = elim m [ ]
pair-mem n a ((k, b) ∷ xs) (Memᴰ.head e) = Memᴰ.head (ap (λ (z : ℕ × Address). z.1) e)
pair-mem n a ((k, b) ∷ xs) (Memᴰ.tail m) = Memᴰ.tail (pair-mem n a xs m)

-- What the keys are of, in which order and by which count.
abbrev Keyed : ConnectionPool → List Address → Result Error (List (ℕ × Address)) → Type 0
Keyed p xs (ok pairs) = (addresses_of pairs ≡ xs) × All (IsBusy p) pairs
Keyed p xs _ = Unit

keyed-Keyed :
    (p : ConnectionPool) (xs : List Address) → Keyed p xs (keyed (busy_connection_count p) xs)
unfolding keyed busy_connection_count
keyed-Keyed p [] = (refl, tt)
keyed-Keyed p (a ∷ xs) =
    cons (busy_connection_count p a) refl (keyed (busy_connection_count p) xs) (keyed-Keyed p xs)
  where
    cons :
        (r : Result Error ℕ)
        → busy_connection_count p a ≡ r
        → (m : Result Error (List (ℕ × Address))) → Keyed p xs m
        → Keyed p (a ∷ xs) (r >>= λ n. m >>= λ more. ok ((n, a) ∷ more))
    cons (ok n) e (ok more) (same, h) =
        (ap (λ (zs : List Address). a ∷ zs) same, (IsBusy-of p a _ n refl e, h))
    cons (ok n) e (err x) g = tt
    cons (ok n) e panic g = tt
    cons (err x) e m g = tt
    cons panic e m g = tt

loaded-Balanced :
    (p : ConnectionPool) (id : Option ℕ) (role : Option Role) (xs : List Address)
    (r : Result Error (List (ℕ × Address)))
    → ((a : Address) → Memᴰ a (flatten p.addresses) → IsWanted id role a → Memᴰ a xs)
    → Keyed p xs r
    → Balanced p id role
        (r >>= λ pairs. ok (addresses_of (sort_desc (λ (x : ℕ × Address). x.0) pairs)))
loaded-Balanced p id role xs (ok pairs) all (same, h) = (
  λ a m wanted.
      let (n, found) = mem-pair a pairs (subst (Memᴰ a) (sym same) (all a m wanted)) in
      pair-mem n a _ (sort_desc-mem (λ (x : ℕ × Address). x.0) (n, a) pairs found),
  (
    sort_desc (λ (x : ℕ × Address). x.0) pairs,
    refl,
    sort_desc-IsDescending (λ (x : ℕ × Address). x.0) pairs,
    sort_desc-All (IsBusy p) (λ (x : ℕ × Address). x.0) pairs h,
  ),
)
loaded-Balanced p id role xs (err e) all h = tt
loaded-Balanced p id role xs panic all h = tt

default-mem :
    (d : DefaultShard) (errors : Address → ℕ) (a : Address) (xs : List Address)
    → OnShard (default_id d) a
    → Memᴰ a xs
    → Memᴰ a (by_default d errors xs)
default-mem (shard id) errors a xs h m = retain-mem (λ b. shard_of b == id) a xs h m
default-mem random_shard errors a xs h m = m
default-mem random_healthy errors a xs h m = sort_desc-mem errors a xs m

shard-mem :
    (id : Option ℕ) (d : DefaultShard) (errors : Address → ℕ) (a : Address) (xs : List Address)
    → OnShard (target_shard id d) a
    → Memᴰ a xs
    → Memᴰ a (by_shard id d errors xs)
shard-mem (some id) d errors a xs h m = retain-mem (λ b. shard_of b == id) a xs h m
shard-mem none d errors a xs h m = default-mem d errors a xs h m

-- When the pool balances by load, every server of the pool with the role and the shard that are
-- asked for is a candidate, and the candidates are in descending order of their lent connections,
-- which are all of the server's less the idle ones, so that the first to be taken from the end is a
-- least loaded one. The shuffle keeps every address.
pub candidates_of-Balanced :
    (shuffle : List Address → List Address) (p : ConnectionPool) (id : Option ℕ)
    (role : Option Role)
    → Keeps shuffle
    → p.settings.load_balancing_mode ≡ least_outstanding_connections
    → Balanced p (target_shard id p.settings.default_shard) role (candidates_of shuffle p id role)
unfolding candidates_of
candidates_of-Balanced shuffle p id role keeps e =
    let wanted =
      by_shard id p.settings.default_shard (error_count p)
        (shuffle (retain (λ a. role_matches (role_of a) role) (flatten p.addresses))) in
    subst
      (λ mode. Balanced p (target_shard id p.settings.default_shard) role (by_load mode p wanted))
      (sym e)
      (loaded-Balanced p _ role wanted (keyed (busy_connection_count p) wanted)
        (λ a m (has_role, on_shard).
          shard-mem id p.settings.default_shard (error_count p) a _ on_shard
            (keeps a _ (retain-mem (λ b. role_matches (role_of b) role) a _ has_role m)))
        (keyed-Keyed p wanted))
