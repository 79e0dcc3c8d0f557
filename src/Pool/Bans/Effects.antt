-- ===== src/Pool/Bans/Effects.antt =====
-- src/pool.rs: what a ban and an unban do to every address.
use pgcat.Prelude.{
  ℕ, zero, suc, ◌<◌, ◌≡◌, refl, sym, ap, subst, ◌∙◌, inl, inr, Bool, true, false, Option, some,
  List, [], ◌∷◌, length, get_elem?, set, ◌==◌, ==_iff, ==_refl, if◌then◌else◌, arith, Bool-cases,
  All,
}
use pgcat.Prelude.Result.{Result, ok, ◌>>=◌}
use pgcat.Prelude.Dict.{IsDict, lookup, insert, remove, lookup-insert, lookup-remove}
use pgcat.Errors.{Error}
use pgcat.Config.{
  primary, Address, shard_of, role_of, role_eq, address_eq, address_eq_sound, address_Eq,
}
use pgcat.Pool.{BanReason, BanList, ConnectionPool}
use pgcat.Pool.Bans.{
  ban, unban, is_banned, is_some, change_bans, count_error, at, or_panic, counts_as_error,
  increment_error_count,
}

pub get_elem?-set {ℓ} :
    {A : Type ℓ} (xs : List A) (i j : ℕ) (x v : A)
    → get_elem? xs i ≡ some x
    → get_elem? (set xs i v) j ≡ (if i == j then some v else get_elem? xs j)
get_elem?-set [] i j x v h = absurd (cc h)
get_elem?-set (y ∷ xs) zero zero x v h = ground arith
get_elem?-set (y ∷ xs) zero (suc j) x v h = ground arith
get_elem?-set (y ∷ xs) (suc i) zero x v h = ground arith
get_elem?-set (y ∷ xs) (suc i) (suc j) x v h = get_elem?-set xs i j x v h ∙ ground arith

pub get_elem?-lt {ℓ} :
    {A : Type ℓ} (xs : List A) (i : ℕ) → i < length xs → (x : A) × (get_elem? xs i ≡ some x)
get_elem?-lt [] i h = absurd (omega arith)
get_elem?-lt (x ∷ xs) zero h = (x, refl)
get_elem?-lt (x ∷ xs) (suc i) h = get_elem?-lt xs i (omega arith)

some_injective {ℓ} : {A : Type ℓ} {x y : A} → some x ≡ some y → x ≡ y
some_injective h = cc h

pub All-get_elem? {ℓ κ} :
    {A : Type ℓ} (P : A → Type κ) (xs : List A) (i : ℕ) (x : A)
    → All P xs
    → get_elem? xs i ≡ some x
    → P x
All-get_elem? P [] i x h e = absurd (cc e)
All-get_elem? P (y ∷ xs) zero x (p, h) e = subst P (some_injective e) p
All-get_elem? P (y ∷ xs) (suc i) x (p, h) e = All-get_elem? P xs i x h e

pub All-set {ℓ κ} :
    {A : Type ℓ} (P : A → Type κ) (xs : List A) (i : ℕ) (v : A)
    → All P xs
    → P v
    → All P (set xs i v)
All-set P [] i v h q = h
All-set P (y ∷ xs) zero v (p, h) q = (q, h)
All-set P (y ∷ xs) (suc i) v (p, h) q = (p, All-set P xs i v h q)

-- What `is_banned` makes of the list that it finds.
abbrev seen : Address → Option BanList → Result Error Bool
seen b o = or_panic o >>= λ bans. ok (is_some (lookup b bans))

if_ap :
    {A B : Type 0} (b : Bool) (x y : A) (f : A → B)
    → f (if b then x else y) ≡ (if b then f x else f y)
if_ap true x y f = refl
if_ap false x y f = refl

-- A list that is changed at one shard, as seen by an address.
pub changed_banned :
    (p : ConnectionPool) (i : ℕ) (bans new : BanList) (b : Address)
    → get_elem? p.banlist i ≡ some bans
    → is_banned (record p { banlist = set p.banlist i new }) b
      ≡ (if i == shard_of b then ok (is_some (lookup b new)) else is_banned p b)
unfolding is_banned
changed_banned p i bans new b h =
    ap (λ o. seen b o) (get_elem?-set p.banlist i (shard_of b) bans new h)
    ∙ if_ap (i == shard_of b) (some new) (get_elem? p.banlist (shard_of b)) (seen b)

address_eq_shard : (a b : Address) → (shard_of a == shard_of b) ≡ false → address_eq a b ≡ false
address_eq_shard a b h = elim (Bool-cases (address_eq a b)) [
  | inl same ↦ absurd (cc (h, ap shard_of (address_eq_sound a b same), ==_refl (shard_of a)))
  | inr other ↦ other
]

pub is_banned_at :
    (p : ConnectionPool) (bans : BanList) (b : Address)
    → get_elem? p.banlist (shard_of b) ≡ some bans
    → is_banned p b ≡ ok (is_some (lookup b bans))
unfolding is_banned
is_banned_at p bans b h = ap (seen b) h

-- Every list of bans has each address once.
abbrev pub IsValid : ConnectionPool → Type 0
IsValid p = All IsDict p.banlist

insert_banned :
    (p : ConnectionPool) (a b : Address) (bans : BanList) (entry : BanReason × ℕ)
    → get_elem? p.banlist (shard_of a) ≡ some bans
    → is_banned (record p { banlist = set p.banlist (shard_of a) (insert a entry bans) }) b
      ≡ (if address_eq a b then ok true else is_banned p b)
insert_banned p a b bans entry h =
    changed_banned p (shard_of a) bans (insert a entry bans) b h
    ∙ elim (Bool-cases (shard_of a == shard_of b)) [
      | inl same ↦ elim (Bool-cases (address_eq a b)) [
        | inl e ↦ rw (same, lookup-insert a b entry bans, e)
        | inr e ↦
            rw (same, lookup-insert a b entry bans, e)
              (sym
                (is_banned_at p bans b (ap (get_elem? p.banlist) (sym ((==_iff _ _).0 same)) ∙ h)))
      ]
      | inr other ↦ rw (other, address_eq_shard a b other)
    ]

pub remove_banned :
    (p : ConnectionPool) (a b : Address) (bans : BanList)
    → get_elem? p.banlist (shard_of a) ≡ some bans
    → IsDict bans
    → is_banned (record p { banlist = set p.banlist (shard_of a) (remove a bans) }) b
      ≡ (if address_eq a b then ok false else is_banned p b)
remove_banned p a b bans h d =
    changed_banned p (shard_of a) bans (remove a bans) b h
    ∙ elim (Bool-cases (shard_of a == shard_of b)) [
      | inl same ↦ elim (Bool-cases (address_eq a b)) [
        | inl e ↦ rw (same, lookup-remove a b bans d, e)
        | inr e ↦
            rw (same, lookup-remove a b bans d, e)
              (sym
                (is_banned_at p bans b (ap (get_elem? p.banlist) (sym ((==_iff _ _).0 same)) ∙ h)))
      ]
      | inr other ↦ rw (other, address_eq_shard a b other)
    ]

pub count_error_banlist :
    (a : Address) (reason : BanReason) (p : ConnectionPool)
    → (count_error a reason p).banlist ≡ p.banlist
unfolding count_error increment_error_count
count_error_banlist a reason p = elim (Bool-cases (counts_as_error reason)) [
  | inl e ↦ rw e
  | inr e ↦ rw e
]

pub is_banned_banlist :
    (p q : ConnectionPool) (b : Address) → p.banlist ≡ q.banlist → is_banned p b ≡ is_banned q b
unfolding is_banned
is_banned_banlist p q b h = ap (λ l. seen b (get_elem? l (shard_of b))) h

at-some : {A : Type 0} (xs : List A) (i : ℕ) (x : A) → get_elem? xs i ≡ some x → at xs i ≡ ok x
at-some xs i x h = ap or_panic h

-- A change at a shard that exists.
pub change_bans-some :
    (f : BanList → BanList) (i : ℕ) (p : ConnectionPool) (bans : BanList)
    → get_elem? p.banlist i ≡ some bans
    → change_bans f i p ≡ ok (record p { banlist = set p.banlist i (f bans) })
change_bans-some f i p bans h =
    ap (λ r. r >>= λ bans. ok (record p { banlist = set p.banlist i (f bans) }))
      (at-some p.banlist i bans h)

-- A ban of a server in a configured shard succeeds. It bans that server and no other, and a primary
-- not at all.
pub is_banned-ban :
    (p : ConnectionPool) (a b : Address) (reason : BanReason) (now : ℕ)
    → shard_of a < length p.banlist
    → (q : ConnectionPool) × (ban a reason now p ≡ ok q)
      × (is_banned q b ≡ (
          if role_eq (role_of a) primary
          then is_banned p b
          else (if address_eq a b then ok true else is_banned p b)))
unfolding ban
is_banned-ban p a b reason now h =
    let c = count_error a reason p in
    let same = is_banned_banlist c p b (count_error_banlist a reason p) in
    let (bans, e) = get_elem?-lt c.banlist (shard_of a) (rw (count_error_banlist a reason p) h) in
    elim (Bool-cases (role_eq (role_of a) primary)) [
      | inl exempt ↦ (c, rw exempt refl, rw exempt same)
      | inr bannable ↦ (
        record c { banlist = set c.banlist (shard_of a) (insert a (reason, now) bans) },
        rw bannable (change_bans-some (insert a (reason, now)) (shard_of a) c bans e),
        rw bannable (
            insert_banned c a b bans (reason, now) e
            ∙ ap (λ r. if address_eq a b then ok true else r) same),
      )
    ]

-- An unban of a server in a configured shard succeeds and lifts the ban of that server only, where
-- each list of bans has each address once.
pub is_banned-unban :
    (p : ConnectionPool) (a b : Address)
    → shard_of a < length p.banlist
    → IsValid p
    → (q : ConnectionPool) × (unban a p ≡ ok q)
      × (is_banned q b ≡ (if address_eq a b then ok false else is_banned p b))
unfolding unban
is_banned-unban p a b h d =
    let (bans, e) = get_elem?-lt p.banlist (shard_of a) h in
    (
      record p { banlist = set p.banlist (shard_of a) (remove a bans) },
      change_bans-some (remove a) (shard_of a) p bans e,
      remove_banned p a b bans e (All-get_elem? IsDict p.banlist (shard_of a) bans d e),
    )
