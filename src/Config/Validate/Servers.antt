-- ===== src/Config/Validate/Servers.antt =====
-- src/config.rs: which shards the checks accept.
use pgcat.Prelude.{
  ◌+◌, ◌≤◌, ◌≡◌, refl, Bool, true, false, not, List, [], ◌∷◌, length, leb, ◌==◌, All, arith,
}
use pgcat.Config.{primary, role_eq}
use pgcat.Config.Validate.{
  ServerConfig, Shard, contains, insert_all, count_primaries, is_empty, shard_validate,
}
use pgcat.Config.Validate.Verdicts.{Decides, require-Decides, test-Decides, iff-Decides}

-- Each server differs from those before it.
abbrev pub NewTo : List ServerConfig → List ServerConfig → Type 0
NewTo seen [] = Unit {0}
NewTo seen (a ∷ as') = (contains a seen ≡ false) × NewTo (a ∷ seen) as'

insert_all_le :
    (seen as' : List ServerConfig) → length (insert_all seen as') ≤ length seen + length as'
unfolding insert_all
insert_all_le seen [] = omega arith
insert_all_le seen (a ∷ as') = ground (arith, insert_all_le seen as', insert_all_le (a ∷ seen) as')

insert_all-NewTo :
    (seen as' : List ServerConfig)
    → length (insert_all seen as') ≡ length seen + length as'
    → NewTo seen as'
unfolding insert_all
insert_all-NewTo seen [] h = tt
insert_all-NewTo seen (a ∷ as') h =
    ground (arith, insert_all_le seen as', insert_all-NewTo (a ∷ seen) as')

NewTo-insert_all :
    (seen as' : List ServerConfig)
    → NewTo seen as'
    → length (insert_all seen as') ≡ length seen + length as'
unfolding insert_all
NewTo-insert_all seen [] h = omega arith
NewTo-insert_all seen (a ∷ as') (h, hs) = rw h (omega (arith, NewTo-insert_all (a ∷ seen) as' hs))

abbrev NotPrimary : ServerConfig → Type 0
NotPrimary a = role_eq a.role primary ≡ false

-- No server after a primary is a primary.
abbrev pub SinglePrimary : List ServerConfig → Type 0
SinglePrimary [] = Unit {0}
SinglePrimary (a ∷ as') = (role_eq a.role primary ≡ true → All NotPrimary as') × SinglePrimary as'

none_counted : (as' : List ServerConfig) → count_primaries as' ≤ 0 → All NotPrimary as'
unfolding count_primaries
none_counted [] h = tt
none_counted (a ∷ as') h = ground (arith, none_counted as')

none-counted : (as' : List ServerConfig) → All NotPrimary as' → count_primaries as' ≡ 0
unfolding count_primaries
none-counted [] h = refl
none-counted (a ∷ as') (h, hs) = rw h (none-counted as' hs)

counted_single : (as' : List ServerConfig) → count_primaries as' ≤ 1 → SinglePrimary as'
unfolding count_primaries
counted_single [] h = tt
counted_single (a ∷ as') h = ground (arith, none_counted as', counted_single as')

single_counted : (as' : List ServerConfig) → SinglePrimary as' → count_primaries as' ≤ 1
unfolding count_primaries
single_counted [] h = omega arith
single_counted (a ∷ as') (h, hs) = ground (arith, none-counted as', single_counted as')

abbrev pub IsShard : Shard → Type 0
IsShard s = (is_empty s.servers ≡ false) × SinglePrimary s.servers × NewTo [] s.servers

-- The three tests of a shard, as they are written.
abbrev Tested : Shard → Type 0
Tested s =
    (not (is_empty s.servers) ≡ true)
    × ((leb (count_primaries s.servers) 1 ≡ true)
        × ((length (insert_all [] s.servers) == length s.servers) ≡ true))

not-true : (b : Bool) → not b ≡ true → b ≡ false
not-true true h = absurd (cc h)
not-true false h = refl

Tested-IsShard : (s : Shard) → Tested s → IsShard s
Tested-IsShard s (e, (one, new)) = (
  not-true (is_empty s.servers) e,
  counted_single s.servers (ground arith),
  insert_all-NewTo [] s.servers (ground arith),
)

IsShard-Tested : (s : Shard) → IsShard s → Tested s
IsShard-Tested s (e, one, new) =
    let few = single_counted s.servers one in
    let all = NewTo-insert_all [] s.servers new in (rw e refl, (ground arith, ground arith))

pub shard_validate-Decides : (s : Shard) → Decides (IsShard s) (shard_validate s)
unfolding shard_validate
shard_validate-Decides s = iff-Decides (shard_validate s) (Tested-IsShard s) (IsShard-Tested s) (
    test-Decides (not (is_empty s.servers)) _ _
      (test-Decides (leb (count_primaries s.servers) 1) _ _ (require-Decides _)))
