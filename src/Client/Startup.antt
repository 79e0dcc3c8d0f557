-- ===== src/Client/Startup.antt =====
-- src/client.rs, `get_startup`: the first packet of a client. A stream is its bytes, after which it ends.
pub mod Packets
pub mod Own
use pgcat.Prelude.{
  ℕ, ◌-◌, ◌^◌, List, [], ◌∷◌, Option, none, some, length, take, drop, ltb, ◌==◌, ◌||◌,
  if◌then◌else◌,
}
use pgcat.Prelude.Words.{i32_as_usize}
use pgcat.Prelude.Result.{Result, ok, err, panic}
use pgcat.Errors.{Error, client_bad_startup, protocol_sync_error}
use pgcat.Wire.{Codec, Reader, ◌>>=◌, return}

pub data ClientConnectionType : Type 0 where
  startup tls cancel_query : ClientConnectionType

module _ (c : Codec) where
  -- `read_i32().await` and `read_exact(…).await`, whose errors become this one.
  abbrev pub read_length : Reader ℕ
  read_length stream = elim (c.get_i32 stream) [ none ↦ err client_bad_startup | some r ↦ ok r ]

  -- `vec![0u8; len as usize - 4]`: the subtraction panics or wraps, and then the vector is too long.
  abbrev pub read_rest : ℕ → Reader (List ℕ)
  read_rest len stream =
      let size = i32_as_usize len in
      if ltb size 4 || ltb (2 ^ 63 - 1) (size - 4)
      then panic
      else (if ltb (length stream) (size - 4)
          then err client_bad_startup
          else ok (take (size - 4) stream, drop (size - 4) stream))

  abbrev pub by_code : ℕ × List ℕ → Reader (ClientConnectionType × List ℕ)
  by_code (code, bytes) =
      if code == 80877103
      then return (tls, bytes)
      else (if code == 196608
          then return (startup, bytes)
          else (if code == 80877102 then return (cancel_query, bytes) else λ stream.
              err protocol_sync_error))

  abbrev pub read_code : List ℕ → Reader (ℕ × List ℕ)
  read_code bytes stream = elim (c.get_i32 bytes) [ none ↦ panic | some r ↦ ok (r, stream) ]

  unfoldable pub get_startup : Reader (ClientConnectionType × List ℕ)
  get_startup = do len ← read_length; bytes ← read_rest len; code ← read_code bytes; by_code code
