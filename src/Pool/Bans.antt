-- ===== src/Pool/Bans.antt =====
-- src/pool.rs, banning and unbanning servers. The clock is an argument. A shard out of range panics.
pub mod Effects
pub mod Retry
pub mod History
use pgcat.Prelude.{
  ℕ, suc, ◌+◌, ◌%◌, ◌^◌, Bool, true, false, Option, none, some, List, [], ◌∷◌, length, get_elem?,
  set, ltb, ◌==◌, if◌then◌else◌,
}
use pgcat.Prelude.Result.{Result, ok, err, panic, ◌>>=◌}
use pgcat.Prelude.Dict.{lookup, insert, remove}
use pgcat.Config.{Role, primary, replica, Address, shard_of, role_of, role_eq, address_Eq}
use pgcat.Pool.{
  ℤ, pos, negsuc, BanReason, failed_health_check, message_send_failed, message_receive_failed,
  failed_checkout, statement_timeout, admin_ban, BanList, ConnectionPool,
}
use pgcat.Errors.{Error}

abbrev pub or_panic : {A : Type 0} → Option A → Result Error A
or_panic none = panic
or_panic (some x) = ok x

-- `xs[i]`
abbrev pub at : {A : Type 0} → List A → ℕ → Result Error A
at xs i = or_panic (get_elem? xs i)

abbrev pub counts_as_error : BanReason → Bool
counts_as_error statement_timeout = false
counts_as_error (admin_ban d) = false
counts_as_error _ = true

-- `Address::error_count`, `increment_error_count`, `reset_error_count`
abbrev or_zero : Option ℕ → ℕ
or_zero none = 0
or_zero (some n) = n

unfoldable pub error_count : ConnectionPool → Address → ℕ
error_count p a = or_zero (lookup a p.error_counts)

unfoldable pub increment_error_count : Address → ConnectionPool → ConnectionPool
unfolding error_count
increment_error_count a p = record p {
  error_counts = insert a ((error_count p a + 1) % 2 ^ 64) p.error_counts;
}

unfoldable pub reset_error_count : Address → ConnectionPool → ConnectionPool
reset_error_count a p = record p { error_counts = insert a 0 p.error_counts }

unfoldable pub count_error : Address → BanReason → ConnectionPool → ConnectionPool
count_error a reason p =
    let counted = increment_error_count a p in if counts_as_error reason then counted else p

-- `banlist[address.shard]` changed by `f`.
abbrev pub change_bans : (BanList → BanList) → ℕ → ConnectionPool → Result Error ConnectionPool
change_bans f shard p = do
  bans ← at p.banlist shard
  ok (record p { banlist = set p.banlist shard (f bans) })

unfoldable pub ban : Address → BanReason → ℕ → ConnectionPool → Result Error ConnectionPool
unfolding count_error
ban a reason now p =
    let counted = count_error a reason p in
    let banned = change_bans (insert a (reason, now)) (shard_of a) counted in
    if role_eq (role_of a) primary then ok counted else banned

unfoldable pub unban : Address → ConnectionPool → Result Error ConnectionPool
unban a = change_bans (remove a) (shard_of a)

abbrev pub is_some {ℓ} : {A : Type ℓ} → Option A → Bool
is_some none = false
is_some (some a) = true

unfoldable pub is_banned : ConnectionPool → Address → Result Error Bool
is_banned p a = at p.banlist (shard_of a) >>= λ bans. ok (is_some (lookup a bans))

abbrev pub count_replicas : List Address → ℕ
count_replicas [] = 0
count_replicas (a ∷ rs) =
    let rest = count_replicas rs in if role_eq (role_of a) replica then suc rest else rest

-- `now - since > duration`
abbrev pub elapsed : ℕ → ℕ → ℤ → Bool
elapsed now since (pos d) = ltb (since + d) now
elapsed now since (negsuc d) = ltb since (now + suc d)

abbrev pub exceeded : ℕ → ℤ → BanReason × ℕ → Bool
exceeded now ban_time (admin_ban duration, since) = elapsed now since duration
exceeded now ban_time (_, since) = elapsed now since ban_time

-- The end of `try_unban`, which looks at the one ban.
abbrev pub try_one :
    Address → ℕ → ConnectionPool → Option (BanReason × ℕ) → Result Error (Bool × ConnectionPool)
try_one a now p none = ok (true, p)
try_one a now p (some entry) =
    let unbanned = (change_bans (remove a) (shard_of a) p) >>= λ q. ok (true, q) in
    if exceeded now p.settings.ban_time entry then unbanned else ok (false, p)

-- The two tests of `try_unban` on the shard of a replica.
abbrev pub try_replica :
    Address → ℕ → ConnectionPool → List Address → BanList → Result Error (Bool × ConnectionPool)
try_replica a now p servers bans =
    let cleared = (change_bans (λ _. []) (shard_of a) p) >>= λ q. ok (true, q) in
    let one = try_one a now p (lookup a bans) in
    if length bans == count_replicas servers then cleared else one

unfoldable pub try_unban : Address → ℕ → ConnectionPool → Result Error (Bool × ConnectionPool)
try_unban a now p =
    let attempt = at p.addresses (shard_of a) >>= λ servers.
    at p.banlist (shard_of a) >>= λ bans. try_replica a now p servers bans in
    if role_eq (role_of a) primary then ok (true, p) else attempt
