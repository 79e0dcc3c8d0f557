-- ===== src/Config.antt =====
-- src/config.rs, roles and addresses. An address is what its equality and its hash read: its
-- statistics and its error counter are shared cells, which the pool's state holds.
pub mod Validate
use pgcat.Prelude.{
  ℕ, ◌≡◌, refl, Bool, true, false, ◌&&◌, Option, none, some, List, ◌==◌, ==_iff, ==_refl, text_eq,
  text_eq_sound, text_eq_refl, arith,
}
use pgcat.Prelude.Dict.{Eq}

pub data Role : Type 0 where
  primary replica mirror : Role

abbrev pub role_eq : Role → Role → Bool
role_eq primary primary = true
role_eq replica replica = true
role_eq mirror mirror = true
role_eq _ _ = false

-- `Role == Option<Role>`
abbrev pub role_matches : Role → Option Role → Bool
role_matches role none = true
role_matches role (some other) = role_eq role other

mutual
  pub data Address : Type 0 where
    address :
        (id : ℕ) (host : List ℕ) (port : ℕ) (shard : ℕ) (database : List ℕ) (role : Role)
        (replica_number : ℕ) (address_index : ℕ) (username : List ℕ) (pool_name : List ℕ)
        (mirrors : Addresses)
        → Address

  pub data Addresses : Type 0 where
    nil : Addresses
    cons : Address → Addresses → Addresses

abbrev pub shard_of : Address → ℕ
shard_of (address id host port shard database role number index user pool mirrors) = shard

abbrev pub role_of : Address → Role
role_of (address id host port shard database role number index user pool mirrors) = role

abbrev pub host_of : Address → List ℕ
host_of (address id host port shard database role number index user pool mirrors) = host

abbrev pub port_of : Address → ℕ
port_of (address id host port shard database role number index user pool mirrors) = port

abbrev pub index_of : Address → ℕ
index_of (address id host port shard database role number index user pool mirrors) = index

unfoldable mutual
  pub address_eq : Address → Address → Bool
  address_eq (address i h p s d r n x u o m) (address i' h' p' s' d' r' n' x' u' o' m') =
      (i == i')
      && (text_eq h h'
          && ((p == p')
              && ((s == s')
                  && ((x == x')
                      && ((n == n')
                          && (text_eq d d'
                              && (role_eq r r'
                                  && (text_eq u u' && (text_eq o o' && addresses_eq m m')))))))))

  pub addresses_eq : Addresses → Addresses → Bool
  addresses_eq nil nil = true
  addresses_eq nil (cons b qs) = false
  addresses_eq (cons a rs) nil = false
  addresses_eq (cons a rs) (cons b qs) = address_eq a b && addresses_eq rs qs

both : (a b : Bool) → a && b ≡ true → (a ≡ true) × (b ≡ true)
both true true h = (refl, refl)
both true false h = absurd (cc h)
both false b h = absurd (cc h)

role_eq_sound : (r s : Role) → role_eq r s ≡ true → r ≡ s
role_eq_sound r s h = ground arith

role_eq_refl : (r : Role) → role_eq r r ≡ true
role_eq_refl r = ground arith

mutual
  unfolding address_eq addresses_eq

  pub address_eq_sound : (a b : Address) → address_eq a b ≡ true → a ≡ b
  address_eq_sound (address i h p s d r n x u o m) (address i' h' p' s' d' r' n' x' u' o' m') e =
      let (e1, f1) = both _ _ e in
      let (e2, f2) = both _ _ f1 in
      let (e3, f3) = both _ _ f2 in
      let (e4, f4) = both _ _ f3 in
      let (e5, f5) = both _ _ f4 in
      let (e6, f6) = both _ _ f5 in
      let (e7, f7) = both _ _ f6 in
      let (e8, f8) = both _ _ f7 in
      let (e9, f9) = both _ _ f8 in
      let (e10, e11) = both _ _ f9 in
      rw (
        (==_iff i i').0 e1,
        text_eq_sound h h' e2,
        (==_iff p p').0 e3,
        (==_iff s s').0 e4,
        (==_iff x x').0 e5,
        (==_iff n n').0 e6,
        text_eq_sound d d' e7,
        role_eq_sound r r' e8,
        text_eq_sound u u' e9,
        text_eq_sound o o' e10,
        addresses_eq_sound m m' e11,
      )

  addresses_eq_sound : (rs qs : Addresses) → addresses_eq rs qs ≡ true → rs ≡ qs
  addresses_eq_sound nil nil e = refl
  addresses_eq_sound nil (cons b qs) e = absurd (cc e)
  addresses_eq_sound (cons a rs) nil e = absurd (cc e)
  addresses_eq_sound (cons a rs) (cons b qs) e =
      let (e1, e2) = both _ _ e in rw (address_eq_sound a b e1, addresses_eq_sound rs qs e2)

mutual
  unfolding address_eq addresses_eq

  pub address_eq_refl : (a : Address) → address_eq a a ≡ true
  address_eq_refl (address i h p s d r n x u o m) = rw (
    ==_refl i,
    text_eq_refl h,
    ==_refl p,
    ==_refl s,
    ==_refl x,
    ==_refl n,
    text_eq_refl d,
    role_eq_refl r,
    text_eq_refl u,
    text_eq_refl o,
    addresses_eq_refl m,
  )

  addresses_eq_refl : (rs : Addresses) → addresses_eq rs rs ≡ true
  addresses_eq_refl nil = refl
  addresses_eq_refl (cons a rs) = rw (address_eq_refl a, addresses_eq_refl rs)

instance abbrev pub address_Eq : Eq Address
address_Eq = record { beq = address_eq; sound = address_eq_sound; self = address_eq_refl }
