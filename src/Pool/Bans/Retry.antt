-- ===== src/Pool/Bans/Retry.antt =====
-- src/pool.rs: what `try_unban` answers, and what it leaves of the bans.
use pgcat.Prelude.{
  ℕ, ◌<◌, ◌≡◌, refl, sym, ap, subst, ◌∙◌, ◌⊎◌, inl, inr, Bool, true, false, Option, none, some,
  List, [], length, get_elem?, set, ◌==◌, ==_refl, if◌then◌else◌, Bool-cases,
}
use pgcat.Prelude.Result.{Result, ok, err, panic, ◌>>=◌}
use pgcat.Prelude.Dict.{IsDict, lookup, remove}
use pgcat.Errors.{Error}
use pgcat.Config.{primary, Address, shard_of, role_of, role_eq, address_eq_refl, address_Eq}
use pgcat.Pool.{BanReason, BanList, ConnectionPool}
use pgcat.Pool.Bans.{
  try_unban, try_replica, try_one, exceeded, change_bans, is_banned, is_some, count_replicas, at,
  or_panic,
}
use pgcat.Pool.Bans.Effects.{
  IsValid, get_elem?-lt, All-get_elem?, changed_banned, is_banned_at, remove_banned,
  change_bans-some,
}

-- What is promised of each answer.
abbrev pub Tried : ConnectionPool → Address → Result Error (Bool × ConnectionPool) → Type 0
Tried p a (ok (true, q)) = (role_eq (role_of a) primary ≡ true) ⊎ (is_banned q a ≡ ok false)
Tried p a (ok (false, q)) = (q ≡ p) × (is_banned p a ≡ ok true)
Tried p a (err e) = ⊥
Tried p a panic = ⊥

-- A change of the one list that lifts the ban.
lifted-Tried :
    (p : ConnectionPool) (a : Address) (f : BanList → BanList) (bans : BanList)
    → get_elem? p.banlist (shard_of a) ≡ some bans
    → is_banned (record p { banlist = set p.banlist (shard_of a) (f bans) }) a ≡ ok false
    → Tried p a ((change_bans f (shard_of a) p) >>= λ q. ok (true, q))
lifted-Tried p a f bans e h =
    subst (λ r. Tried p a (r >>= λ q. ok (true, q)))
      (sym (change_bans-some f (shard_of a) p bans e)) (inr h)

try_one-Tried :
    (p : ConnectionPool) (a : Address) (now : ℕ) (bans : BanList) (o : Option (BanReason × ℕ))
    → get_elem? p.banlist (shard_of a) ≡ some bans
    → IsDict bans
    → lookup a bans ≡ o
    → Tried p a (try_one a now p o)
try_one-Tried p a now bans none e d h = inr (is_banned_at p bans a e ∙ ap (λ o. ok (is_some o)) h)
try_one-Tried p a now bans (some entry) e d h =
    elim (Bool-cases (exceeded now p.settings.ban_time entry))
      as (λ _. Tried p a (try_one a now p (some entry))) [
        | inl over ↦
            subst
              (λ b. Tried p a (
                if b
                then ((change_bans (remove a) (shard_of a) p) >>= λ q. ok (true, q))
                else ok (false, p)))
              (sym over)
              (lifted-Tried p a (remove a) bans e (
                remove_banned p a a bans e d
                ∙ ap (λ b. if b then ok false else is_banned p a) (address_eq_refl a)))
        | inr still ↦
            subst
              (λ b. Tried p a (
                if b
                then ((change_bans (remove a) (shard_of a) p) >>= λ q. ok (true, q))
                else ok (false, p)))
              (sym still) (refl, is_banned_at p bans a e ∙ ap (λ o. ok (is_some o)) h)
      ]

pub try_replica-Tried :
    (p : ConnectionPool) (a : Address) (now : ℕ) (servers : List Address) (bans : BanList)
    (b : Bool)
    → get_elem? p.banlist (shard_of a) ≡ some bans
    → IsDict bans
    → Tried p a (
        if b
        then ((change_bans (λ _. []) (shard_of a) p) >>= λ q. ok (true, q))
        else try_one a now p (lookup a bans))
try_replica-Tried p a now servers bans true e d =
    lifted-Tried p a (λ _. []) bans e
      (changed_banned p (shard_of a) bans [] a e
        ∙ ap (λ b. if b then ok false else is_banned p a) (==_refl (shard_of a)))
try_replica-Tried p a now servers bans false e d =
    try_one-Tried p a now bans (lookup a bans) e d refl

try_split :
    (p : ConnectionPool) (a : Address) (b : Bool) (r : Result Error (Bool × ConnectionPool))
    → role_eq (role_of a) primary ≡ b
    → Tried p a r
    → Tried p a (if b then ok (true, p) else r)
try_split p a true r e h = inl e
try_split p a false r e h = h

-- For a server in a configured shard of a pool whose lists have each address once, `try_unban`
-- answers without a panic. When it answers true, the server is a primary or is not banned any more;
-- when it answers false, the server is banned and nothing has changed.
pub try_unban-Tried :
    (p : ConnectionPool) (a : Address) (now : ℕ)
    → shard_of a < length p.addresses
    → shard_of a < length p.banlist
    → IsValid p
    → Tried p a (try_unban a now p)
unfolding try_unban
try_unban-Tried p a now h h' d =
    let (servers, f) = get_elem?-lt p.addresses (shard_of a) h in
    let (bans, e) = get_elem?-lt p.banlist (shard_of a) h' in
    try_split p a (role_eq (role_of a) primary) _ refl (
      subst
        (λ o. Tried p a (
          or_panic o >>= λ servers.
          at p.banlist (shard_of a) >>= λ bans. try_replica a now p servers bans))
        (sym f)
        (subst (λ o. Tried p a (or_panic o >>= λ bans. try_replica a now p servers bans)) (sym e)
          (try_replica-Tried p a now servers bans (length bans == count_replicas servers) e
            (All-get_elem? IsDict p.banlist (shard_of a) bans d e))))
