-- ===== src/Wire/Laws.antt =====
-- Strings on the wire: what the two `read_string` functions of src/messages.rs make of a buffer.
use pgcat.Prelude.{
  ℕ, suc, ◌<◌, ◌≡◌, refl, sym, ap, ◌∙◌, true, none, some, List, [], ◌∷◌, ◌++◌, length, take, drop,
  drop-append_self, length-append, ltb, le→ltb, false, arith, ◌^◌, Option-cases,
}
use pgcat.Prelude.Result.{Result, ok, err, panic}
use pgcat.Errors.{Error, parse_bytes_error}
use mathlib.Core.List.{append_assoc}
use pgcat.Wire.{
  Codec, IsCodec, read_until_nul, position_nul, drop_last, to_c_string, read_string,
  read_string_mut, Reader, ◌>>=◌, get_i32, get_i16, advance,
}

-- A text that the protocol can carry: valid UTF-8 with no null byte.
pub record IsText (c : Codec) (s : List ℕ) : Type 0 where
  pub valid : c.is_utf8 s ≡ true
  pub nul_free : position_nul s ≡ none

pub read_until_nul-append :
    (s rest : List ℕ)
    → position_nul s ≡ none
    → read_until_nul (s ++ (0 ∷ rest)) ≡ (s ++ (0 ∷ []), rest)
unfolding position_nul read_until_nul
read_until_nul-append [] rest h = refl
read_until_nul-append (b ∷ s) rest h =
    ground (arith, read_until_nul-append s rest, Option-cases (position_nul s))

read_until_nul_all : (s : List ℕ) → position_nul s ≡ none → read_until_nul s ≡ (s, [])
unfolding position_nul read_until_nul
read_until_nul_all [] h = refl
read_until_nul_all (b ∷ s) h = ground (arith, read_until_nul_all s, Option-cases (position_nul s))

position_nul-append :
    (s rest : List ℕ) → position_nul s ≡ none → position_nul (s ++ (0 ∷ rest)) ≡ some (length s)
unfolding position_nul
position_nul-append [] rest h = refl
position_nul-append (b ∷ s) rest h =
    ground (arith, position_nul-append s rest, Option-cases (position_nul s))

drop_last-append : (s : List ℕ) (b : ℕ) → drop_last (s ++ (b ∷ [])) ≡ s
drop_last-append [] b = refl
drop_last-append (x ∷ []) b = refl
drop_last-append (x ∷ (y ∷ s)) b = ap (◌∷◌ x) (drop_last-append (y ∷ s) b)

pub take-length : (s rest : List ℕ) → take (length s) (s ++ rest) ≡ s
take-length [] rest = refl
take-length (x ∷ s) rest = rw (take-length s rest)

drop-length : (s rest : List ℕ) → drop (suc (length s)) (s ++ (0 ∷ rest)) ≡ rest
drop-length [] rest = refl
drop-length (x ∷ s) rest = drop-length s rest

pub to_c_string_lem : (s : List ℕ) → position_nul s ≡ none → to_c_string s ≡ ok (s ++ (0 ∷ []))
unfolding to_c_string
to_c_string_lem s h = rw (h, to_c_string)

-- A read that succeeds is followed by the rest of the block.
pub bind_ok :
    {A B : Type 0} (m : Reader A) (f : A → Reader B) {bs rest : List ℕ} {a : A}
    → m bs ≡ ok (a, rest)
    → (m >>= f) bs ≡ f a rest
bind_ok m f e = rw (e, ◌>>=◌)

bind_inv_at :
    {A B : Type 0} (m : Reader A) (f : A → Reader B) (bs : List ℕ) {r : B × List ℕ}
    (x : Result Error (A × List ℕ))
    → m bs ≡ x
    → (m >>= f) bs ≡ ok r
    → (a : A) × (rest : List ℕ) × (m bs ≡ ok (a, rest)) × (f a rest ≡ ok r)
bind_inv_at m f bs (ok (a, rest)) e h = (a, rest, e, sym (bind_ok m f e) ∙ h)
bind_inv_at m f bs (err x) e h = absurd (cc (rw (e, ◌>>=◌) at h))
bind_inv_at m f bs panic e h = absurd (cc (rw (e, ◌>>=◌) at h))

-- The other way round: a block that succeeds has a first read that succeeds.
pub bind_inv :
    {A B : Type 0} (m : Reader A) (f : A → Reader B) (bs : List ℕ) {r : B × List ℕ}
    → (m >>= f) bs ≡ ok r
    → (a : A) × (rest : List ℕ) × (m bs ≡ ok (a, rest)) × (f a rest ≡ ok r)
bind_inv m f bs h = bind_inv_at m f bs (m bs) refl h

-- The same with what is read as variables.
pub bind_elim :
    {A B P : Type 0} (m : Reader A) (f : A → Reader B) (bs : List ℕ) {r : B × List ℕ}
    → (m >>= f) bs ≡ ok r
    → ((a : A) (rest : List ℕ) → m bs ≡ ok (a, rest) → f a rest ≡ ok r → P)
    → P
bind_elim m f bs h k = let (a, rest, e, e') = bind_inv m f bs h in k a rest e e'

module _ (c : Codec) (w : IsCodec c) where
  read_string_line :
      (bs s rest : List ℕ)
      → read_until_nul bs ≡ (s ++ (0 ∷ []), rest)
      → read_string c bs ≡ ok (c.from_utf8_lossy s, rest)
  unfolding read_string
  read_string_line bs [] rest e = rw e
  read_string_line bs (x ∷ s) rest e = rw (e, drop_last-append (x ∷ s) 0)

  pub read_string_lem :
      (s rest : List ℕ) → IsText c s → read_string c (s ++ (0 ∷ rest)) ≡ ok (s, rest)
  read_string_lem s rest t = rw (
    read_string_line _ s rest (read_until_nul-append s rest t.nul_free),
    w.lossy_of_utf8 s t.valid,
  )

  -- A text that the protocol can carry, with its null byte, is read back by both functions, and what
  -- follows is left.
  pub read_string_both :
      (s rest : List ℕ)
      → IsText c s
      → (read_string c (s ++ (0 ∷ rest)) ≡ ok (s, rest))
        × (read_string_mut c (s ++ (0 ∷ rest)) ≡ ok (s, rest))
  unfolding read_string_mut
  read_string_both s rest t = (
    read_string_lem s rest t,
    rw (
      position_nul-append s rest t.nul_free,
      read_string_mut,
      take-length s (0 ∷ rest),
      drop-length s rest,
      w.lossy_of_utf8 s t.valid,
    ),
  )

  -- On a buffer with no null byte the functions differ: that of a BytesMut reports an error, that of
  -- a cursor drops the last byte and answers what is left, and panics if there is none.
  pub read_string_unterminated :
      (b : ℕ) (s : List ℕ)
      → position_nul (b ∷ s) ≡ none
      → (read_string_mut c (b ∷ s) ≡ err parse_bytes_error)
        × (read_string c (b ∷ s) ≡ ok (c.from_utf8_lossy (drop_last (b ∷ s)), []))
        × (read_string c [] ≡ panic)
  unfolding read_string_mut read_string
  read_string_unterminated b s h =
      (rw (h, read_string_mut), rw (read_until_nul_all (b ∷ s) h), unfold read_until_nul in refl)

  -- The same in the form in which messages are put together.
  pub read_string_c_string :
      (s rest : List ℕ) → IsText c s → read_string c ((s ++ (0 ∷ [])) ++ rest) ≡ ok (s, rest)
  read_string_c_string s rest t = rw append_assoc (read_string_lem s rest t)

  pub get_i32_put :
      (n : ℕ) (rest : List ℕ) → n < 2 ^ 32 → get_i32 c (c.put_i32 n ++ rest) ≡ ok (n, rest)
  get_i32_put n rest h = rw (w.get_put_i32 n rest h)

  pub get_i16_put :
      (n : ℕ) (rest : List ℕ) → n < 2 ^ 16 → get_i16 c (c.put_i16 n ++ rest) ≡ ok (n, rest)
  get_i16_put n rest h = rw (w.get_put_i16 n rest h)

  drop_exact : (n : ℕ) (xs ys : List ℕ) → length xs ≡ n → drop n (xs ++ ys) ≡ ys
  drop_exact n xs ys e = rw (← e) (drop-append_self xs ys)

  -- Skipping the code and the length leaves what reading them leaves.
  pub advance_header :
      (code len : ℕ) (stream rest : List ℕ)
      → get_i32 c stream ≡ ok (len, rest)
      → advance 5 (code ∷ stream) ≡ ok (tt, rest)
  advance_header code len stream rest h =
      let (split, _) = w.get_i32_split stream rest len (ground arith) in
      rw (split, long_enough split, drop_exact 4 (c.put_i32 len) rest (w.length_i32 len))
    where
      long_enough :
          stream ≡ c.put_i32 len ++ rest → ltb (length (code ∷ (c.put_i32 len ++ rest))) 5 ≡ false
      long_enough split =
          le→ltb (length (code ∷ (c.put_i32 len ++ rest))) 5
            (omega (arith, length-append (c.put_i32 len) rest, w.length_i32 len))
