-- ===== src/Messages/Parse/Naming.antt =====
-- src/messages.rs: how Parse messages are named and hashed for the pool's statement cache.
use pgcat.Prelude.{
  ℕ, ◌+◌, ◌%◌, ◌^◌, ◌<◌, ◌≡◌, ◌≢◌, refl, ap, List, [], ◌∷◌, ◌++◌, length, length-append, arith,
  codes,
}
use pgcat.Prelude.Decimal.{decimal, decimal-injective}
use pgcat.Messages.Parse.{Parse, rewrite, get_hash, join_types}
use mathlib.Core.List.{append_assoc}

-- Rewriting keeps the statement, its parameters and its code, and moves the counter on by one. Names
-- made at different values of the 64-bit counter differ.
pub rewrite_names :
    (p q : Parse) (n m : ℕ)
    → n < 2 ^ 64
    → m < 2 ^ 64
    → (rewrite p n).0.name ≡ (rewrite q m).0.name
    → (n ≡ m)
      × ((rewrite p n).0 ≡ record p { name = (rewrite p n).0.name })
      × ((rewrite p n).1 ≡ (n + 1) % 2 ^ 64)
unfolding rewrite
rewrite_names p q n m hn hm e =
    (decimal-injective 20 n m (omega arith) (omega arith) (cc), refl, refl)

-- The text that is hashed does not keep the query apart from the parameters: a query that ends in 1
-- and has no parameters has the hash of the query without that digit and one parameter of type 0,
-- whatever the hasher, though the queries differ.
pub get_hash_collides :
    (hasher : List ℕ → ℕ) (p : Parse)
    → let longer = record p { query = p.query ++ codes "1"; num_params = 0; param_types = [] } in
      let shorter = record p { num_params = 1; param_types = 0 ∷ [] } in
      (get_hash hasher longer ≡ get_hash hasher shorter) × (longer.query ≢ shorter.query)
unfolding get_hash
get_hash_collides hasher p =
    (unfold join_types decimal in ap hasher (append_assoc p.query (codes "1") (codes "0")), longer)
  where
    longer : p.query ++ codes "1" ≢ p.query
    longer e = absurd (omega (arith, ap length e, length-append p.query (codes "1")))
