-- ===== src/Pool/Bans/History.antt =====
-- src/pool.rs: bans over any sequence of operations of the clients, the admin and the checkouts.
use pgcat.Prelude.{
  ℕ, ◌<◌, ◌≡◌, refl, sym, ap, subst, ◌∙◌, inl, inr, Bool, true, false, Option, none, some, List, [],
  ◌∷◌, length, get_elem?, set, ◌==◌, if◌then◌else◌, Bool-cases, All,
}
use pgcat.Prelude.Result.{Result, ok, err, panic, ◌>>=◌}
use pgcat.Prelude.Dict.{IsDict, lookup, insert, remove, insert-IsDict, remove-IsDict}
use pgcat.Errors.{Error}
use pgcat.Config.{
  primary, Address, shard_of, role_of, role_eq, address_eq, address_eq_sound, address_Eq,
}
use pgcat.Pool.{BanReason, BanList, ConnectionPool}
use pgcat.Pool.Bans.{
  ban, unban, reset_error_count, try_unban, try_replica, try_one, exceeded, change_bans,
  count_error, is_banned, is_some, count_replicas, or_panic,
}
use pgcat.Pool.Bans.Effects.{
  IsValid, get_elem?-lt, All-get_elem?, All-set, is_banned_at, count_error_banlist,
}

-- What a pool can go through.
pub data Step : ConnectionPool → ConnectionPool → Type 0 where
  banned :
      (p q : ConnectionPool) (a : Address) (reason : BanReason) (now : ℕ)
      → ban a reason now p ≡ ok q
      → Step p q
  unbanned : (p q : ConnectionPool) (a : Address) → unban a p ≡ ok q → Step p q
  retried :
      (p q : ConnectionPool) (a : Address) (now : ℕ) (answer : Bool)
      → try_unban a now p ≡ ok (answer, q)
      → Step p q
  checked_out : (p : ConnectionPool) (a : Address) → Step p (reset_error_count a p)

pub data History : ConnectionPool → ConnectionPool → Type 0 where
  start : (p : ConnectionPool) → History p p
  next : (p q r : ConnectionPool) → History p q → Step q r → History p r

abbrev pub Good : BanList → Type 0
Good bans =
    IsDict bans
    × All (λ (entry : Address × (BanReason × ℕ)). role_eq (role_of entry.0) primary ≡ false) bans

abbrev pub IsSound : ConnectionPool → Type 0
IsSound p = All Good p.banlist

abbrev SoundWhenOk : Result Error ConnectionPool → Type 0
SoundWhenOk (ok q) = IsSound q
SoundWhenOk _ = Unit

abbrev SoundAnswer : Result Error (Bool × ConnectionPool) → Type 0
SoundAnswer (ok (b, q)) = IsSound q
SoundAnswer _ = Unit

abbrev AreReplicas : BanList → Type 0
AreReplicas = All (λ (entry : Address × (BanReason × ℕ)). role_eq (role_of entry.0) primary ≡ false)

insert-AreReplicas :
    (a : Address) (entry : BanReason × ℕ) (l : BanList)
    → role_eq (role_of a) primary ≡ false
    → AreReplicas l
    → AreReplicas (insert a entry l)
insert-AreReplicas a entry [] n h = (n, tt)
insert-AreReplicas a entry ((k, e) ∷ l) n (g, h) =
    elim (Bool-cases (address_eq k a)) as (λ _. AreReplicas (insert a entry ((k, e) ∷ l))) [
      | inl same ↦ rw same (n, h)
      | inr other ↦ rw other (g, insert-AreReplicas a entry l n h)
    ]

remove-AreReplicas : (a : Address) (l : BanList) → AreReplicas l → AreReplicas (remove a l)
remove-AreReplicas a [] h = tt
remove-AreReplicas a ((k, e) ∷ l) (g, h) =
    elim (Bool-cases (address_eq k a)) as (λ _. AreReplicas (remove a ((k, e) ∷ l))) [
      | inl same ↦ rw same h
      | inr other ↦ rw other (g, remove-AreReplicas a l h)
    ]

changed-Sound :
    (p : ConnectionPool) (f : BanList → BanList) (i : ℕ) (o : Option BanList)
    → ((l : BanList) → Good l → Good (f l))
    → get_elem? p.banlist i ≡ o
    → IsSound p
    → SoundWhenOk (or_panic o >>= λ l. ok (record p { banlist = set p.banlist i (f l) }))
changed-Sound p f i none keeps e h = tt
changed-Sound p f i (some l) keeps e h =
    All-set Good p.banlist i (f l) h (keeps l (All-get_elem? Good p.banlist i l h e))

change_bans-Sound :
    (p : ConnectionPool) (f : BanList → BanList) (i : ℕ)
    → ((l : BanList) → Good l → Good (f l))
    → IsSound p
    → SoundWhenOk (change_bans f i p)
change_bans-Sound p f i keeps h = changed-Sound p f i (get_elem? p.banlist i) keeps refl h

split-Sound :
    (b : Bool) (r s : Result Error ConnectionPool)
    → (b ≡ true → SoundWhenOk r)
    → (b ≡ false → SoundWhenOk s)
    → SoundWhenOk (if b then r else s)
split-Sound true r s h g = h refl
split-Sound false r s h g = g refl

ban-Sound :
    (p : ConnectionPool) (a : Address) (reason : BanReason) (now : ℕ)
    → IsSound p
    → SoundWhenOk (ban a reason now p)
unfolding ban
ban-Sound p a reason now h =
    let c = count_error a reason p in
    let kept : IsSound c = subst (All Good) (sym (count_error_banlist a reason p)) h in
    split-Sound (role_eq (role_of a) primary) (ok c) _ (λ _. kept)
      λ n.
        change_bans-Sound c (insert a (reason, now)) (shard_of a)
          (λ l g. (insert-IsDict a (reason, now) l g.0, insert-AreReplicas a (reason, now) l n g.1))
          kept

removes : (a : Address) (l : BanList) → Good l → Good (remove a l)
removes a l g = (remove-IsDict a l g.0, remove-AreReplicas a l g.1)

unban-Sound : (p : ConnectionPool) (a : Address) → IsSound p → SoundWhenOk (unban a p)
unfolding unban
unban-Sound p a h = change_bans-Sound p (remove a) (shard_of a) (removes a) h

answered : (r : Result Error ConnectionPool) → SoundWhenOk r → SoundAnswer (r >>= λ q. ok (true, q))
answered (ok q) h = h
answered (err e) h = tt
answered panic h = tt

split_answer :
    (b : Bool) (r s : Result Error (Bool × ConnectionPool))
    → SoundAnswer r
    → SoundAnswer s
    → SoundAnswer (if b then r else s)
split_answer true r s h g = h
split_answer false r s h g = g

try_one-Sound :
    (p : ConnectionPool) (a : Address) (now : ℕ) (o : Option (BanReason × ℕ))
    → IsSound p
    → SoundAnswer (try_one a now p o)
try_one-Sound p a now none h = h
try_one-Sound p a now (some entry) h =
    split_answer (exceeded now p.settings.ban_time entry) _ (ok (false, p))
      (answered (change_bans (remove a) (shard_of a) p) (unban_sound p a h)) h
  where
    unban_sound :
        (p : ConnectionPool) (a : Address)
        → IsSound p
        → SoundWhenOk (change_bans (remove a) (shard_of a) p)
    unban_sound p a h = change_bans-Sound p (remove a) (shard_of a) (removes a) h

looked-Sound :
    (p : ConnectionPool) (a : Address) (now : ℕ) (servers : Option (List Address))
    (l : Option BanList)
    → IsSound p
    → SoundAnswer
        (or_panic servers >>= λ servers. or_panic l >>= λ bans. try_replica a now p servers bans)
looked-Sound p a now none l h = tt
looked-Sound p a now (some servers) none h = tt
looked-Sound p a now (some servers) (some bans) h =
    split_answer (length bans == count_replicas servers) _ (try_one a now p (lookup a bans))
      (answered (change_bans (λ _. []) (shard_of a) p)
        (change_bans-Sound p (λ _. []) (shard_of a) (λ l g. (tt, tt)) h))
      (try_one-Sound p a now (lookup a bans) h)

try_unban-Sound :
    (p : ConnectionPool) (a : Address) (now : ℕ) → IsSound p → SoundAnswer (try_unban a now p)
unfolding try_unban
try_unban-Sound p a now h =
    split_answer (role_eq (role_of a) primary) (ok (true, p)) _ h (
      looked-Sound p a now (get_elem? p.addresses (shard_of a)) (get_elem? p.banlist (shard_of a))
        h)

pub Step-Sound : (p q : ConnectionPool) → IsSound p → Step p q → IsSound q
unfolding reset_error_count
Step-Sound p q h (banned _ _ a reason now e) = subst SoundWhenOk e (ban-Sound p a reason now h)
Step-Sound p q h (unbanned _ _ a e) = subst SoundWhenOk e (unban-Sound p a h)
Step-Sound p q h (retried _ _ a now answer e) = subst SoundAnswer e (try_unban-Sound p a now h)
Step-Sound p q h (checked_out _ a) = h

pub History-Sound : (p q : ConnectionPool) → IsSound p → History p q → IsSound q
History-Sound p q h (start _) = h
History-Sound p r h (next _ q _ past step) = Step-Sound q r (History-Sound p q h past) step

lookup-primary :
    (a : Address) (l : BanList)
    → role_eq (role_of a) primary ≡ true
    → AreReplicas l
    → lookup a l ≡ none
lookup-primary a [] e h = refl
lookup-primary a ((k, entry) ∷ l) e (g, h) =
    elim (Bool-cases (address_eq k a)) as (λ _. lookup a ((k, entry) ∷ l) ≡ none) [
      | inl same ↦
          absurd (cc (ap (λ x. role_eq (role_of x) primary) (address_eq_sound k a same), e, g))
      | inr other ↦ rw other (lookup-primary a l e h)
    ]

pub found-primary :
    (q : ConnectionPool) (a : Address)
    → IsSound q
    → role_eq (role_of a) primary ≡ true
    → (l : BanList) × (get_elem? q.banlist (shard_of a) ≡ some l)
    → is_banned q a ≡ ok false
found-primary q a sound e (l, f) =
    is_banned_at q l a f
    ∙ ap (λ o. ok (is_some o))
        (lookup-primary a l e (All-get_elem? Good q.banlist (shard_of a) l sound f).1)

-- From a pool with no bans, no sequence of bans, unbans, retries and checkouts bans a primary of a
-- configured shard, and each shard's list has each address once.
pub primary_never_banned :
    (p q : ConnectionPool) (a : Address)
    → All (λ bans. bans ≡ []) p.banlist
    → History p q
    → role_eq (role_of a) primary ≡ true
    → shard_of a < length q.banlist
    → (is_banned q a ≡ ok false) × IsValid q
primary_never_banned p q a fresh past e h =
    let sound = History-Sound p q (none_sound p.banlist fresh) past in
    (found-primary q a sound e (get_elem?-lt q.banlist (shard_of a) h), valid q.banlist sound)
  where
    none_sound : (ls : List BanList) → All (λ bans. bans ≡ []) ls → All Good ls
    none_sound [] h = tt
    none_sound (l ∷ ls) (e, h) = (subst Good (sym e) (tt, tt), none_sound ls h)

    valid : (ls : List BanList) → All Good ls → All IsDict ls
    valid [] h = tt
    valid (l ∷ ls) (g, h) = (g.0, valid ls h)
