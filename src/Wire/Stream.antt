-- ===== src/Wire/Stream.antt =====
-- src/messages.rs, `read_message`: one message from a stream of bytes that ends when the peer closes.
-- usize has 64 bits and its arithmetic wraps, as in a release build; a capacity above isize::MAX panics.
pub mod Framing
use pgcat.Prelude.{
  ℕ, suc, ◌+◌, ◌-◌, ◌%◌, ◌^◌, none, some, List, [], ◌∷◌, ◌++◌, length, take, drop, ltb,
  if◌then◌else◌,
}
use pgcat.Prelude.Words.{i32_as_usize, has_capacity}
use pgcat.Prelude.Result.{Result, ok, err, panic}
use pgcat.Errors.{Error, socket_error}
use pgcat.Wire.{Codec, Reader}

module _ (c : Codec) where
  -- `read_exact` of the body into `bytes[5..slice_end]`.
  read_body : List ℕ → ℕ → Reader (List ℕ)
  read_body header n stream =
      if ltb (length stream) n
      then err socket_error
      else ok (header ++ take n stream, drop n stream)

  -- After the code and the length. The buffer is sized before the length is looked at.
  read_sized : ℕ → ℕ → Reader (List ℕ)
  read_sized code len stream =
      let n = i32_as_usize len in
      let slice_end = (5 + n + 2 ^ 64 - 4) % 2 ^ 64 in
      if has_capacity len
      then (if ltb slice_end 5
          then err socket_error
          else read_body (code ∷ c.put_i32 len) (slice_end - 5) stream)
      else panic

  unfoldable pub read_message : Reader (List ℕ)
  unfolding read_body read_sized
  read_message [] = err socket_error
  read_message (code ∷ stream) = elim (c.get_i32 stream) [
    | none ↦ err socket_error
    | some (len, rest) ↦ read_sized code len rest
  ]
