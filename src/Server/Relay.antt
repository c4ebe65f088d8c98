-- ===== src/Server/Relay.antt =====
-- src/server.rs: `relay_file_stream`, the relay of an opened file to the client.
pub mod Delivered
use stuntdouble.Common.{
  ℕ, zero, suc, ◌+◌, ◌-◌, ◌*◌, min, Bool, true, false, Option, none, some, List, [], ◌∷◌, ◌++◌, ltb,
  ◌==◌, if◌then◌else◌, length,
}
use stuntdouble.Common.Bytes.{Bytes}
use stuntdouble.Common.Text.{u64_max}
use stuntdouble.Files.{StreamOutcome, complete, file_error, from_channel_close}

abbrev pub stream_chunk_bytes : ℕ
stream_chunk_bytes = 64 * 1024

-- The file and the channel to the client: `seek` and `send` tell whether they went well, and `read`
-- gives the bytes read, none of them at the end of the file.
pub record Relay : Type 1 where
  pub World : Type 0
  pub seek : ℕ → World → Bool × World
  pub read : ℕ → World → Option Bytes × World
  pub send : Bytes → World → Bool × World

-- How the relay ends: the outcome, the count of bytes, whether an error is sent last, and the chunks
-- that the client was sent.
pub record Ending (W : Type 0) : Type 0 where
  pub outcome : StreamOutcome
  pub counted : ℕ
  pub error_sent : Bool
  pub sent : Bytes
  pub world : W

module _ (relay : Relay) where
  abbrev pub stop : StreamOutcome → ℕ → Bool → relay.World → Ending relay.World
  stop outcome counted error_sent w = record {
    outcome = outcome;
    counted = counted;
    error_sent = error_sent;
    sent = [];
    world = w;
  }

  abbrev behind : Bytes → Option (Ending relay.World) → Option (Ending relay.World)
  behind bytes none = none
  behind bytes (some end) = some (record {
    outcome = end.outcome;
    counted = end.counted;
    error_sent = end.error_sent;
    sent = bytes ++ end.sent;
    world = end.world;
  })

  -- The loop on fuel, with the bytes counted and those that remain; `none` is the lack of fuel.
  pub pump : ℕ → ℕ → ℕ → ℕ → relay.World → Option (Ending relay.World)
  pump fuel len counted zero w = some (stop complete counted false w)
  pump zero len counted (suc remaining) w = none
  pump (suc fuel) len counted (suc remaining) w =
      let (got, after) = relay.read (min (suc remaining) stream_chunk_bytes) w in
      elim got [
        | none ↦ some (stop file_error counted true after)
        | some [] ↦ some (stop file_error counted false after)
        | some (c ∷ bytes) ↦
            let (taken, last) = relay.send (c ∷ bytes) after in
            elim taken [
              | false ↦ some (stop (from_channel_close counted (some len)) counted false last)
              | true ↦ behind (c ∷ bytes) (
                  pump fuel len (min (counted + length (c ∷ bytes)) u64_max)
                    (suc remaining - length (c ∷ bytes)) last)
            ]
      ]

  -- The seek that comes first, where there is one.
  pub seek_first : ℕ → relay.World → Bool × relay.World
  seek_first zero w = (true, w)
  seek_first (suc offset) w = relay.seek (suc offset) w

  -- From the offset and the length of the body. Each round takes a byte at least.
  pub relay_file_stream : ℕ → ℕ → relay.World → Option (Ending relay.World)
  relay_file_stream offset len w =
      let (found, ready) = seek_first offset w in
      elim found [ false ↦ some (stop file_error 0 true ready) | true ↦ pump len len 0 len ready ]
