-- ===== src/Ipc/Framing/Tests.antt =====
-- Runs of the framing of crates/ipc-protocol/src/lib.rs, and its theorems at concrete messages.
use hypr_drive.Prelude.{
  ℕ, ◌+◌, ◌^◌, ◌≡◌, refl, some, List, [], ◌∷◌, ◌++◌, length, arith, replicate, length-replicate,
  take,
}
use hypr_drive.Prelude.Results.{ok, err}
use hypr_drive.Ipc.Framing.{
  unexpected_eof, Codec, Writer, to_le_bytes, from_le_bytes, read_exact, len_u32, write_message,
  read_message,
}
use hypr_drive.Ipc.Framing.RoundTrip.{
  IsCodec, IsWriter, frame, write_message-read_message, read_message-cut, write_message-oversized,
}

program : Unit {0}
unfolding write_message read_message to_le_bytes from_le_bytes read_exact len_u32 frame
program = tt

-- Messages that are their own bytes, and a writer that collects bytes in memory.
abbrev raw : Codec (List ℕ)
raw = record { to_vec = λ msg. some msg; from_slice = λ bytes. some bytes }

abbrev memory : Writer (List ℕ)
memory = record { write_all = λ bytes w. ok (w ++ bytes); flush = λ w. ok w }

raw-IsCodec : IsCodec raw
raw-IsCodec = record { read_back = λ msg payload e. ground arith }

abbrev memory-IsWriter : IsWriter memory
memory-IsWriter = record {
  contents = λ w. w;
  write_all_appends = λ bytes w w' e. ground arith;
  flush_keeps = λ w w' e. ground arith;
}

written : write_message raw memory (7 ∷ 8 ∷ []) [] ≡ ok (2 ∷ 0 ∷ 0 ∷ 0 ∷ 7 ∷ 8 ∷ [])
unfolding program
written = refl

read : read_message raw (2 ∷ 0 ∷ 0 ∷ 0 ∷ 7 ∷ 8 ∷ 9 ∷ []) ≡ ok (7 ∷ 8 ∷ [], 9 ∷ [])
unfolding program
read = refl

write_message-read_message_example :
    (bytes : List ℕ) × (2 ∷ 0 ∷ 0 ∷ 0 ∷ 7 ∷ 8 ∷ [] ≡ [] ++ bytes)
    × ((rest : List ℕ) → read_message raw (bytes ++ rest) ≡ ok (7 ∷ 8 ∷ [], rest))
write_message-read_message_example =
    write_message-read_message raw raw-IsCodec memory memory-IsWriter (7 ∷ 8 ∷ []) []
      (2 ∷ 0 ∷ 0 ∷ 0 ∷ 7 ∷ 8 ∷ []) written (λ payload e. ground (arith, ap_length e))
  where
    ap_length : {payload : List ℕ} → some (7 ∷ 8 ∷ []) ≡ some payload → length payload ≡ 2
    ap_length e = ground arith

read_message-cut_example : read_message raw (take 5 (frame (7 ∷ 8 ∷ []))) ≡ err unexpected_eof
unfolding program
read_message-cut_example = read_message-cut raw (7 ∷ 8 ∷ []) 5 (omega arith) (omega arith)

-- A payload of 4 GiB and 3 bytes, kept shut.
zeros : ℕ → List ℕ
zeros n = replicate n 0

length-zeros : (n : ℕ) → length (zeros n) ≡ n
unfolding zeros
length-zeros n = length-replicate n 0

write_message-oversized_example :
    (w' : List ℕ) × (write_message raw memory (zeros (2 ^ 32 + 3)) [] ≡ ok w')
write_message-oversized_example =
    write_message-oversized raw memory (zeros (2 ^ 32 + 3)) (zeros (2 ^ 32 + 3)) []
      (λ bytes v. (v ++ bytes, refl)) (λ v. refl) refl (omega (arith, length-zeros (2 ^ 32 + 3)))
      (omega (arith, length-zeros (2 ^ 32 + 3)))
