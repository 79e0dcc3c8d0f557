-- ===== src/Client/Startup/Own.antt =====
-- src/messages.rs and src/client.rs: pgcat reads the startup packet that it writes itself.
use pgcat.Prelude.{
  ℕ, ◌+◌, ◌^◌, ◌<◌, ◌%◌, ◌≡◌, refl, sym, List, [], ◌∷◌, ◌++◌, codes, length, Bool, true, false, ltb,
  ◌&&◌, ◌||◌, ◌==◌, All, arith, length-append, text_eq,
}
use mathlib.Core.List.{append_assoc, append-nil}
use pgcat.Prelude.Result.{ok}
use pgcat.Wire.{Codec, IsCodec}
use pgcat.Messages.Reply
use pgcat.Messages.Startup.{Text, parse_startup, insert_pairs}
use pgcat.Messages.Startup.Pairs.{NulFree, IsAscii, encoded, kept, parse_params-encoded}
use pgcat.Client.Startup.{startup, get_startup}
use pgcat.Client.Startup.Packets.{packet, get_startup-packet}

abbrev has_nul : Text → Bool
has_nul [] = false
has_nul (b ∷ t) = b == 0 || has_nul t

NulFree-of : (t : Text) → has_nul t ≡ false → NulFree t
NulFree-of [] h = tt
NulFree-of (b ∷ t) h = ground (arith, NulFree-of t)

abbrev all_ascii : Text → Bool
all_ascii [] = true
all_ascii (b ∷ t) = ltb b 128 && all_ascii t

IsAscii-of : (t : Text) → all_ascii t ≡ true → IsAscii t
IsAscii-of [] h = tt
IsAscii-of (b ∷ t) h = ground (arith, IsAscii-of t)

module _ (c : Codec) (w : IsCodec c) where
  texts : Text → Text → List Text
  texts user database =
      codes "user"
      ∷ (user ∷ (codes "application_name" ∷ (codes "pgcat" ∷ (codes "database" ∷ (database ∷ [])))))

  params_encoded :
      (user database : Text) → Reply.startup_params c user database ≡ encoded (texts user database)
  unfolding Reply.startup_params encoded texts
  params_encoded user database = simp append_assoc

  texts-NulFree :
      (user database : Text) → NulFree user → NulFree database → All NulFree (texts user database)
  unfolding texts
  texts-NulFree user database u d = (
    NulFree-of (codes "user") refl,
    (
      u,
      (
        NulFree-of (codes "application_name") refl,
        (NulFree-of (codes "pgcat") refl, (NulFree-of (codes "database") refl, (d, tt))),
      ),
    ),
  )

  texts-IsAscii :
      (user database : Text) → IsAscii user → IsAscii database → All IsAscii (texts user database)
  unfolding texts
  texts-IsAscii user database u d = (
    IsAscii-of (codes "user") refl,
    (
      u,
      (
        IsAscii-of (codes "application_name") refl,
        (IsAscii-of (codes "pgcat") refl, (IsAscii-of (codes "database") refl, (d, tt))),
      ),
    ),
  )

  startup-packet :
      (user database : Text)
      → length (Reply.startup_params c user database) + 8 < 2 ^ 31
      → Reply.startup c user database
        ≡ packet c w startup (Reply.startup_params c user database) ++ []
  unfolding Reply.startup
  startup-packet user database h =
      let params = Reply.startup_params c user database in
      let eight : length (c.put_i32 196608 ++ params) + 4 ≡ length params + 8 =
        omega (arith, length-append (c.put_i32 196608) params, w.length_i32 196608) in
      rw (eight, modulo (length params + 8) h) (sym (append-nil _))
    where
      modulo : (n : ℕ) → n < 2 ^ 31 → n % 2 ^ 32 ≡ n
      modulo n h = omega arith

  -- The startup packet that pgcat sends to a server is understood by its own parser: as a startup,
  -- with the user, the application name and the database that were put into it. The user and the
  -- database are not empty, are ASCII and hold no null byte, and the length fits an i32.
  pub startup_understood :
      (a b : ℕ) (user database : Text)
      → NulFree (a ∷ user)
      → NulFree (b ∷ database)
      → IsAscii (a ∷ user)
      → IsAscii (b ∷ database)
      → let params = Reply.startup_params c (a ∷ user) (b ∷ database) in
        length params + 8 < 2 ^ 31
        → (get_startup c (Reply.startup c (a ∷ user) (b ∷ database)) ≡ ok ((startup, params), []))
          × (parse_startup params
              ≡ ok (
                  (codes "user", a ∷ user)
                  ∷ ((codes "application_name", codes "pgcat")
                      ∷ ((codes "database", b ∷ database) ∷ []))))
  unfolding parse_startup kept insert_pairs text_eq texts
  startup_understood a b user database u d x y h = (
    rw (startup-packet (a ∷ user) (b ∷ database) h) (get_startup-packet c w startup _ [] h),
    rw
        (
          params_encoded (a ∷ user) (b ∷ database),
          parse_params-encoded (texts (a ∷ user) (b ∷ database))
              (texts-NulFree (a ∷ user) (b ∷ database) u d)
              (texts-IsAscii (a ∷ user) (b ∷ database) x y),
        )
        refl,
  )
