-- ===== src/Wire/Stream/Framing.antt =====
-- src/messages.rs: messages cut out of a stream.
use pgcat.Prelude.{
  ℕ, ◌+◌, ◌-◌, ◌%◌, ◌^◌, ◌≤◌, ◌<◌, ◌≡◌, refl, sym, ap, ◌∙◌, List, [], ◌∷◌, ◌++◌, length,
  length-append, take, drop, take-append-drop, length-take_le, take-append_self, drop-append_self,
  ltb, arith, if◌then◌else◌, Option-cases, inl, inr, le→ltb, ◌⊎◌, ◌||◌, ◌==◌, true,
}
use pgcat.Prelude.Words.{i32_as_usize, has_capacity}
use pgcat.Prelude.Result.{ok, err, panic}
use pgcat.Errors.{socket_error}
use pgcat.Wire.{Codec, IsCodec}
use pgcat.Wire.Stream.{read_body, read_sized, read_message}
use mathlib.Core.List.{append_assoc}
use native.Mathlib.Decide.{dec_lt}

-- A message: a code, the length of what follows the code, and the body.
abbrev pub frame : Codec → ℕ → List ℕ → List ℕ
frame c code body = code ∷ (c.put_i32 (length body + 4) ++ body)

-- What `read_sized` does with each length, a bit pattern of an i32.
read_sized_fits :
    (c : Codec) (code len : ℕ) (stream : List ℕ)
    → 4 ≤ len
    → len < 2 ^ 31
    → read_sized c code len stream ≡ read_body c (code ∷ c.put_i32 len) (len - 4) stream
unfolding read_sized
read_sized_fits c code len stream lo hi =
    rw (room, as_is, le→ltb ((5 + len + 2 ^ 64 - 4) % 2 ^ 64) 5 (omega arith), same) refl
  where
    room : has_capacity len ≡ true
    room = ground arith

    as_is : i32_as_usize len ≡ len
    as_is = ground arith

    same : (5 + len + 2 ^ 64 - 4) % 2 ^ 64 - 5 ≡ len - 4
    same = omega arith

read_sized_bad :
    (c : Codec) (code len : ℕ) (stream : List ℕ)
    → (len < 4) ⊎ (2 ^ 31 ≤ len)
    → len < 2 ^ 32
    → read_sized c code len stream
      ≡ (if ltb len 4 || (len == 2 ^ 32 - 1) then err socket_error else panic)
unfolding read_sized
read_sized_bad c code len stream bad h = ground arith

read_body_sound :
    (c : Codec) (header stream m rest : List ℕ) (n : ℕ)
    → read_body c header n stream ≡ ok (m, rest)
    → (n ≤ length stream) × (m ≡ header ++ take n stream) × (rest ≡ drop n stream)
unfolding read_body
read_body_sound c header stream m rest n h = ground arith

read_sized_sound :
    (c : Codec) (code len : ℕ) (stream m rest : List ℕ)
    → len < 2 ^ 32
    → read_sized c code len stream ≡ ok (m, rest)
    → (4 ≤ len) × (len < 2 ^ 31)
read_sized_sound c code len stream m rest h e = elim (dec_lt len 4) [
  | yes small ↦ absurd (ground (arith, read_sized_bad c code len stream (inl small) h))
  | no large ↦ elim (dec_lt len (2 ^ 31)) [
    | yes fits ↦ (omega arith, fits)
    | no big ↦ absurd (ground (arith, read_sized_bad c code len stream (inr (omega arith)) h))
  ]
]

-- What `read_body` takes when the stream is long enough.
read_body_enough :
    (c : Codec) (header body rest : List ℕ) (n : ℕ)
    → n ≡ length body
    → read_body c header n (body ++ rest) ≡ ok (header ++ body, rest)
unfolding read_body
read_body_enough c header body rest n e = rw (
  e,
  le→ltb (length (body ++ rest)) (length body) (omega (arith, length-append body rest)),
  take-append_self body rest,
  drop-append_self body rest,
)

module _ (c : Codec) (w : IsCodec c) where
  read_message_sized :
      (code len : ℕ) (rest : List ℕ)
      → len < 2 ^ 32
      → read_message c (code ∷ (c.put_i32 len ++ rest)) ≡ read_sized c code len rest
  unfolding read_message
  read_message_sized code len rest h = rw (w.get_put_i32 len rest h, read_message)

  -- A whole message at the front of the stream, of a length that fits an i32, is read as it is, and
  -- what follows it is left.
  pub read_message-frame :
      (code : ℕ) (body rest : List ℕ)
      → length body + 4 < 2 ^ 31
      → read_message c (frame c code body ++ rest) ≡ ok (frame c code body, rest)
  read_message-frame code body rest h = rw (append_assoc (c.put_i32 (length body + 4)) body rest) (
      read_message_sized code (length body + 4) (body ++ rest) (omega arith)
      ∙ read_sized_fits c code (length body + 4) (body ++ rest) (omega arith) h
      ∙ read_body_enough c _ body rest _ (omega arith))

  -- A length below four is refused, one of -1 too; any other negative length panics, since a buffer
  -- of that capacity is asked for before the length is checked.
  pub read_message_bad_length :
      (code len : ℕ) (rest : List ℕ)
      → (len < 4) ⊎ (2 ^ 31 ≤ len)
      → len < 2 ^ 32
      → read_message c (code ∷ (c.put_i32 len ++ rest))
        ≡ (if ltb len 4 || (len == 2 ^ 32 - 1) then err socket_error else panic)
  read_message_bad_length code len rest bad h =
      read_message_sized code len rest h ∙ read_sized_bad c code len rest bad h

  read_message_split :
      (code len : ℕ) (stream r m rest : List ℕ)
      → stream ≡ c.put_i32 len ++ r
      → len < 2 ^ 32
      → read_sized c code len r ≡ ok (m, rest)
      → (x : ℕ) × (body : List ℕ) × (m ≡ frame c x body) × (code ∷ stream ≡ m ++ rest)
  read_message_split code len stream r m rest split bound h =
      let (lo, hi) = read_sized_sound c code len r m rest bound h in
      let (enough, em, er) =
        read_body_sound c (code ∷ c.put_i32 len) r m rest (len - 4)
          (sym (read_sized_fits c code len r lo hi) ∙ h) in
      (
        code,
        take (len - 4) r,
        rw (em, length-take_le (len - 4) r enough)
            (ap (λ (n : ℕ). code ∷ (c.put_i32 n ++ take (len - 4) r)) (omega arith)),
        rw (
          em,
          er,
          split,
          append_assoc (c.put_i32 len) (take (len - 4) r) (drop (len - 4) r),
          take-append-drop (len - 4) r,
        ),
      )

  -- Whatever `read_message` answers is a message that states its own length, and it is exactly what
  -- stood at the front of the stream.
  pub read_message_sound :
      (bs m rest : List ℕ)
      → read_message c bs ≡ ok (m, rest)
      → (code : ℕ) × (body : List ℕ) × (m ≡ frame c code body) × (bs ≡ m ++ rest)
  read_message_sound [] m rest h = unfold read_message in cc
  read_message_sound (code ∷ stream) m rest h = elim (Option-cases (c.get_i32 stream)) [
    | inl e ↦ absurd (unfold read_message in ground arith)
    | inr ((len, r), e) ↦
        let (split, bound) = w.get_i32_split stream r len e in
        read_message_split code len stream r m rest split bound
          (sym (rw split (read_message_sized code len r bound)) ∙ h)
  ]
