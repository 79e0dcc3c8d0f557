-- ===== src/Runs/WireRuns.antt =====
-- Concrete inputs for the theorems on src/messages.rs's streams and strings, and on src/sharding.rs.
use pgcat.Prelude.{
  ℕ, ◌-◌, ◌^◌, ◌<◌, ◌≡◌, inr, List, [], ◌∷◌, ◌++◌, ◌||◌, arith, All, ltb, ◌==◌, if◌then◌else◌,
}
use pgcat.Prelude.Result.{ok, err, panic}
use pgcat.Errors.{socket_error}
use pgcat.Wire.Stream.{read_message}
use pgcat.Wire.Stream.Framing.{
  frame, read_message_sound, read_message-frame, read_message_bad_length,
}
use pgcat.Sharding.{Sharder, sha1_function, shard, i64_to_string}
use pgcat.Sharding.Placement.{shard_lt}
use pgcat.Runs.{codec, codec-IsCodec}

-- CommandComplete, and a first byte of what follows.
abbrev body : List ℕ
body = 83 ∷ (69 ∷ (84 ∷ (0 ∷ [])))

read_whole :
    read_message codec (frame codec b'C' body ++ (90 ∷ [])) ≡ ok (frame codec b'C' body, 90 ∷ [])
read_whole = read_message-frame codec codec-IsCodec b'C' body (90 ∷ []) (omega arith)

read_message_sound_example :
    (code : ℕ) × (rest : List ℕ) × (frame codec b'C' body ≡ frame codec code rest)
    × (frame codec b'C' body ++ (90 ∷ []) ≡ frame codec b'C' body ++ (90 ∷ []))
read_message_sound_example =
    read_message_sound codec codec-IsCodec (frame codec b'C' body ++ (90 ∷ []))
      (frame codec b'C' body) (90 ∷ []) read_whole

read_message-frame_example :
    read_message codec (frame codec b'C' body ++ (90 ∷ [])) ≡ ok (frame codec b'C' body, 90 ∷ [])
read_message-frame_example =
    read_message-frame codec codec-IsCodec b'C' body (90 ∷ []) (omega arith)

read_message_bad_length_example :
    read_message codec (b'C' ∷ (codec.put_i32 4294967294 ++ body))
    ≡ (if ltb 4294967294 4 || (4294967294 == 2 ^ 32 - 1) then err socket_error else panic)
read_message_bad_length_example =
    read_message_bad_length codec codec-IsCodec b'C' 4294967294 body (inr (omega arith))
      (omega arith)

abbrev five_sha1 : Sharder
five_sha1 = record { shards = 5; sharding_function = sha1_function }

-- A digest that tells no inputs apart.
abbrev constant : List ℕ → List ℕ
constant bs = 8 ∷ (1 ∷ (2 ∷ (3 ∷ (250 ∷ []))))

constant_bytes : All (λ b. b < 256) (constant (i64_to_string 7))
constant_bytes = (omega arith, (omega arith, (omega arith, (omega arith, (omega arith, tt)))))

shard_lt_example : (r : ℕ) × (shard constant five_sha1 7 ≡ ok r) × (r < 5)
shard_lt_example = shard_lt constant five_sha1 7 constant_bytes (omega arith) (omega arith)
