-- ===== src/Ipc/Framing.antt =====
-- `framing` of crates/ipc-protocol/src/lib.rs: `[u32 LE length][msgpack payload]`.
-- A byte is a number below 256. The serialiser (`rmp_serde`), the writer and the reader are
-- parameters.
pub mod RoundTrip
mod Tests
use hypr_drive.Prelude.{
  ℕ, ◌+◌, ◌*◌, ◌/◌, ◌%◌, ◌^◌, Option, some, none, List, [], ◌∷◌, ◌++◌, length, take, drop, ltb,
  if◌then◌else◌,
}
use hypr_drive.Prelude.Results.{Result, ok, err, ◌>>=◌}

-- 128 MiB.
abbrev pub max_message_size : ℕ
max_message_size = 128 * 1024 * 1024

-- `io::Error`, by its kind: what `framing` raises itself, and what a reader or a writer raises.
pub data WireError : Type 0 where
  too_large bad_payload unexpected_eof device : WireError

-- `rmp_serde::to_vec` and `rmp_serde::from_slice` at one type.
pub record Codec (T : Type 0) : Type 0 where
  pub to_vec : T → Option (List ℕ)
  pub from_slice : List ℕ → Option T

-- `io::Write`: the writer after the call, if there is no error.
pub record Writer (W : Type 0) : Type 0 where
  pub write_all : List ℕ → W → Result WireError W
  pub flush : W → Result WireError W

-- A writer that gathers the bytes in memory.
abbrev pub buffer : Writer (List ℕ)
buffer = record { write_all = λ bytes w. ok (w ++ bytes); flush = λ w. ok w }

-- `len.to_le_bytes()` of a `u32`.
pub to_le_bytes : ℕ → List ℕ
to_le_bytes n = n % 256 ∷ n / 256 % 256 ∷ n / 65536 % 256 ∷ n / 16777216 % 256 ∷ []

pub from_le_bytes : List ℕ → ℕ
from_le_bytes [] = 0
from_le_bytes (b ∷ bs) = b + 256 * from_le_bytes bs

-- `read_exact` of `n` bytes from the bytes that are left to read.
pub read_exact : ℕ → List ℕ → Result WireError (List ℕ × List ℕ)
read_exact n bytes =
    if ltb (length bytes) n then err unexpected_eof else ok (take n bytes, drop n bytes)

abbrev pub or_bad : {A : Type 0} → Option A → Result WireError A
or_bad none = err bad_payload
or_bad (some a) = ok a

-- `payload.len() as u32`
pub len_u32 : List ℕ → ℕ
len_u32 payload = length payload % 2 ^ 32

module _ {T : Type 0} (codec : Codec T) where
  pub write_message : {W : Type 0} → Writer W → T → W → Result WireError W
  write_message writer msg w = do
    payload ← or_bad (codec.to_vec msg)
    if ltb max_message_size (len_u32 payload) then err too_large else do
      w ← writer.write_all (to_le_bytes (len_u32 payload)) w
      w ← writer.write_all payload w
      writer.flush w

  -- The message, and the bytes that are left to read.
  pub read_message : List ℕ → Result WireError (T × List ℕ)
  read_message bytes = do
    (len_buf, bytes) ← read_exact 4 bytes
    if ltb max_message_size (from_le_bytes len_buf) then err too_large else do
      (payload, bytes) ← read_exact (from_le_bytes len_buf) bytes
      msg ← or_bad (codec.from_slice payload)
      ok (msg, bytes)
