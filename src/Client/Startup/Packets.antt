-- ===== src/Client/Startup/Packets.antt =====
-- src/client.rs: which packets `get_startup` understands.
use pgcat.Prelude.{
  ℕ, ◌+◌, ◌-◌, ◌^◌, ◌<◌, ◌≡◌, refl, List, ◌++◌, length, ltb, arith, Bool, true, false, ◌||◌,
  length-append, le→ltb, lt→ltb, ltb→lt, drop-append_self,
}
use mathlib.Core.List.{append_assoc}
use pgcat.Prelude.Words.{i32_as_usize}
use pgcat.Prelude.Result.{ok, panic}
use pgcat.Wire.{Codec, IsCodec, ◌>>=◌}
use pgcat.Wire.Laws.{take-length}
use pgcat.Client.Startup.{
  ClientConnectionType, startup, tls, cancel_query, read_rest, read_code, by_code, get_startup,
}

abbrev pub code_of : ClientConnectionType → ℕ
code_of startup = 196608
code_of tls = 80877103
code_of cancel_query = 80877102

module _ (c : Codec) (w : IsCodec c) where
  exact :
      (len : ℕ) (bytes rest : List ℕ)
      → len ≡ length bytes + 4
      → len < 2 ^ 31
      → read_rest c len (bytes ++ rest) ≡ ok (bytes, rest)
  exact len bytes rest e h = rw (
    e,
    small (length bytes) (omega (arith, e)),
    enough (length bytes) (omega (arith, e)),
    less (length bytes),
    le→ltb (length (bytes ++ rest)) (length bytes) (omega (arith, length-append bytes rest)),
    take-length bytes rest,
    drop-append_self bytes rest,
  )
    where
      small : (n : ℕ) → n + 4 < 2 ^ 31 → i32_as_usize (n + 4) ≡ n + 4
      small n h = ground arith

      less : (n : ℕ) → n + 4 - 4 ≡ n
      less n = omega arith

      enough : (n : ℕ) → n + 4 < 2 ^ 31 → (ltb (n + 4) 4 || ltb (2 ^ 63 - 1) (n + 4 - 4)) ≡ false
      enough n h = ground arith

  -- A packet with one of the three codes, as the protocol writes it.
  abbrev pub packet : ClientConnectionType → List ℕ → List ℕ
  packet kind body = c.put_i32 (length body + 8) ++ (c.put_i32 (code_of kind) ++ body)

  read_code_at :
      (code : ℕ) (body stream : List ℕ)
      → code < 2 ^ 32
      → read_code c (c.put_i32 code ++ body) stream ≡ ok ((code, body), stream)
  read_code_at code body stream h = rw (w.get_put_i32 code body h, read_code)

  by_code_at :
      (kind : ClientConnectionType) (body stream : List ℕ)
      → by_code c (code_of kind, body) stream ≡ ok ((kind, body), stream)
  by_code_at startup body stream = refl
  by_code_at tls body stream = refl
  by_code_at cancel_query body stream = refl

  code_bound : (kind : ClientConnectionType) → code_of kind < 2 ^ 32
  code_bound startup = omega arith
  code_bound tls = omega arith
  code_bound cancel_query = omega arith

  -- A packet is understood as what it is, and what comes behind it is left.
  pub get_startup-packet :
      (kind : ClientConnectionType) (body rest : List ℕ)
      → length body + 8 < 2 ^ 31
      → get_startup c (packet kind body ++ rest) ≡ ok ((kind, body), rest)
  unfolding get_startup
  get_startup-packet kind body rest h =
      let head = c.put_i32 (code_of kind) in
      rw
        (
          append_assoc (c.put_i32 (length body + 8)) (head ++ body) rest,
          w.get_put_i32 (length body + 8) ((head ++ body) ++ rest) (omega (arith, h)),
          exact (length body + 8) (head ++ body) rest
              (omega (arith, length-append head body, w.length_i32 (code_of kind))) h,
          read_code_at (code_of kind) body rest (code_bound kind),
          ◌>>=◌,
        )
        (by_code_at kind body rest)

  tiny : (len : ℕ) (stream : List ℕ) → len < 4 → read_rest c len stream ≡ panic
  tiny len stream h = rw (same len h, lt→ltb len 4 h) refl
    where
      same : (n : ℕ) → n < 4 → i32_as_usize n ≡ n
      same n h = ground arith

  no_code : (bytes stream : List ℕ) → length bytes < 4 → read_code c bytes stream ≡ panic
  no_code bytes stream h = rw (w.get_short_i32 bytes h, read_code) refl

  -- A first packet that says it is shorter than eight bytes, and that is as long as it says, makes
  -- `get_startup` panic, before the client has said who it is.
  pub short_packets_panic :
      (len : ℕ) (bytes rest : List ℕ)
      → len < 8
      → length bytes ≡ len - 4
      → get_startup c (c.put_i32 len ++ (bytes ++ rest)) ≡ panic
  unfolding get_startup
  short_packets_panic len bytes rest h e = either (ltb len 4) refl
    where
      long : ltb len 4 ≡ false → len ≡ length bytes + 4
      long f = ground arith

      either : (b : Bool) → ltb len 4 ≡ b → get_startup c (c.put_i32 len ++ (bytes ++ rest)) ≡ panic
      either true f =
          rw
            (
              w.get_put_i32 len (bytes ++ rest) (omega (arith, h)),
              tiny len (bytes ++ rest) (ltb→lt len 4 f),
              ◌>>=◌,
            )
            refl
      either false f =
          rw
            (
              w.get_put_i32 len (bytes ++ rest) (omega (arith, h)),
              exact len bytes rest (long f) (omega (arith, h)),
              no_code bytes rest (omega (arith, h, e)),
              ◌>>=◌,
            )
            refl
