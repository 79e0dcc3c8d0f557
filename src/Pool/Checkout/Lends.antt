-- ===== src/Pool/Checkout/Lends.antt =====
-- src/pool.rs: what a whole checkout answers.
use pgcat.Prelude.{
  ℕ, suc, ◌≡◌, Bool, true, false, Option, none, some, List, [], ◌∷◌, ◌==◌, if◌then◌else◌, All,
}
use pgcat.Prelude.Result.{Result, ok, err, panic, ◌>>=◌}
use mathlib.Core.List.{reverse}
use pgcat.Errors.{Error}
use pgcat.Config.{Role, Address}
use pgcat.Wire.{Codec}
use pgcat.Server.State.{Lru, Server}
use pgcat.Pool.{ConnectionPool}
use pgcat.Pool.Bans.{is_banned, error_count}
use pgcat.Pool.Bans.History.{History, start, IsSound, History-Sound}
use pgcat.Pool.Checkout.{
  Attempt, Found, or_next, try_candidate, try_all, finish, get, candidates_of, effective_shard_id,
  shards, valid_shard_id, invalid,
}
use pgcat.Pool.Checkout.Safe.{Connected, try_candidate-Connected, History-trans}
use pgcat.Pool.Checkout.Refuses.{Refuses, get-Refuses}
use pgcat.Pool.Checkout.Order.{
  Shuffles, IsWanted, target_shard, candidates_of-IsWanted, AnswersAll, All-reverse,
}

-- The shard that is asked for; a pool with one shard has only that.
abbrev pub asked : ConnectionPool → Option ℕ → Option ℕ
asked p id = if shards p == 1 then some 0 else id

module _ (c : Codec) (L : Lru) (attempt : ℕ → Address → Attempt L.Cache) where
  -- A server that is lent has what was asked for, is not banned and has no errors counted.
  abbrev Lent : (Address → Type 0) → ConnectionPool → Result Error (Found c L) → Type 0
  Lent P p (ok (some (server, a), q)) =
      History p q × P a × (is_banned q a ≡ ok false) × (error_count q a ≡ 0)
  Lent P p (ok (none, q)) = History p q
  Lent P p (err e) = Unit
  Lent P p panic = Unit

  or_next-Lent :
      (P : Address → Type 0) (p : ConnectionPool) (a : Address)
      (r : Result Error (Option (Server L.Cache) × ConnectionPool))
      (more : ConnectionPool → Result Error (Found c L))
      → P a
      → Connected c L p a r
      → ((q : ConnectionPool) → History p q → Lent P p (more q))
      → Lent P p (r >>= or_next c L a more)
  or_next-Lent P p a (ok (some server, q)) more pa (h, free, n) k = (h, pa, free, n)
  or_next-Lent P p a (ok (none, q)) more pa h k = k q h
  or_next-Lent P p a (err e) more pa h k = tt
  or_next-Lent P p a panic more pa h k = tt

  earlier :
      (P : Address → Type 0) (p q : ConnectionPool) (r : Result Error (Found c L))
      → History p q
      → Lent P q r
      → Lent P p r
  earlier P p q (ok (some (server, a), t)) h (h', pa, free, n) = (History-trans h h', pa, free, n)
  earlier P p q (ok (none, t)) h h' = History-trans h h'
  earlier P p q (err e) h h' = tt
  earlier P p q panic h h' = tt

  try_all-Lent :
      (P : Address → Type 0) (order : List Address) (round : ℕ) (p : ConnectionPool)
      → All P order
      → IsSound p
      → Lent P p (try_all c L attempt order round p)
  unfolding try_all
  try_all-Lent P [] round p h s = start p
  try_all-Lent P (a ∷ rest) round p (pa, h) s =
      or_next-Lent P p a (try_candidate c L (attempt round a) a p)
        (try_all c L attempt rest (suc round)) pa
        (try_candidate-Connected c L p (attempt round a) a s)
        λ q past.
          earlier P p q _ past (try_all-Lent P rest (suc round) q h (History-Sound p q s past))

  -- What is promised of a checkout.
  abbrev pub CheckedOut :
      (Address → Type 0)
      → ConnectionPool
      → Result Error (Server L.Cache × Address) × ConnectionPool
      → Type 0
  CheckedOut P p (ok (server, a), q) =
      History p q × P a × (is_banned q a ≡ ok false) × (error_count q a ≡ 0)
  CheckedOut P p (err e, q) = History p q
  CheckedOut P p (panic, q) = Unit

  finish-CheckedOut :
      (P : Address → Type 0) (p : ConnectionPool) (r : Result Error (Found c L))
      → Lent P p r
      → CheckedOut P p (finish c L attempt p r)
  finish-CheckedOut P p (ok (some (server, a), q)) h = h
  finish-CheckedOut P p (ok (none, q)) h = h
  finish-CheckedOut P p (err e) h = start p
  finish-CheckedOut P p panic h = tt

  candidates-Lent :
      (P : Address → Type 0) (p : ConnectionPool) (r : Result Error (List Address))
      → AnswersAll P r
      → IsSound p
      → Lent P p (r >>= λ candidates. try_all c L attempt (reverse candidates) 0 p)
  candidates-Lent P p (ok xs) h s = try_all-Lent P (reverse xs) 0 p (All-reverse P xs h) s
  candidates-Lent P p (err e) h s = tt
  candidates-Lent P p panic h s = tt

  module _ (shuffle : List Address → List Address) (keeps : Shuffles shuffle)
      (role : Option Role) where
    abbrev Wanted : ConnectionPool → Option ℕ → Address → Type 0
    Wanted p id = IsWanted (target_shard id p.settings.default_shard) role

    effective-Lent :
        (p : ConnectionPool) (id : Option ℕ) (one valid : Bool)
        → IsSound p
        → Lent (Wanted p (if one then some 0 else id)) p (
            (if one then ok (some 0) else if valid then ok id else invalid id) >>= λ shard_id.
            candidates_of shuffle p shard_id role >>= λ candidates.
            try_all c L attempt (reverse candidates) 0 p)
    effective-Lent p id true valid s =
        candidates-Lent _ p _ (candidates_of-IsWanted shuffle p (some 0) role keeps) s
    effective-Lent p id false true s =
        candidates-Lent _ p _ (candidates_of-IsWanted shuffle p id role keeps) s
    effective-Lent p none false false s = tt
    effective-Lent p (some n) false false s = tt

    get-Lends :
        (p : ConnectionPool) (id : Option ℕ)
        → IsSound p
        → CheckedOut
            (IsWanted (target_shard (asked p id) p.settings.default_shard) role)
            p
            (get c L attempt shuffle id role p)
    unfolding get effective_shard_id
    get-Lends p id s =
        finish-CheckedOut _ p _ (effective-Lent p id (shards p == 1) (valid_shard_id p id) s)

    -- From a pool whose ban lists hold each address once and no primary, a checkout moves the pool
    -- only by bans, unbans, retries and resets of error counts. When it lends a server, that server
    -- has the role that was asked for, stands on the shard that was asked for (or on the default
    -- shard, or on any), is not banned and has no errors counted. The only errors are that the shard
    -- that was asked for does not exist and that all servers are down.
    pub get-CheckedOut :
        (p : ConnectionPool) (id : Option ℕ)
        → IsSound p
        → CheckedOut
            (IsWanted (target_shard (asked p id) p.settings.default_shard) role)
            p
            (get c L attempt shuffle id role p)
          × Refuses c L attempt p id (get c L attempt shuffle id role p).0
    get-CheckedOut p id s = (get-Lends p id s, get-Refuses c L attempt shuffle id role p)
