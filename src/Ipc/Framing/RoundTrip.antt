-- ===== src/Ipc/Framing/RoundTrip.antt =====
-- Writing and reading the messages of crates/ipc-protocol/src/lib.rs.
use mathlib.Core.List.{append_assoc}
use hypr_drive.Prelude.{
  ℕ, zero, suc, ◌-◌, ◌%◌, ◌^◌, ◌≤◌, ◌<◌, ◌≡◌, refl, ◌∙◌, sym, ap, Option, dec_lt, some, none, List,
  [], ◌∷◌, ◌++◌, length, take, drop, arith, length-append, length-take, ltb,
}
use hypr_drive.Prelude.Results.{Result, ok, err, ◌>>=◌, >>=-eq-ok, guard-eq-ok}
use hypr_drive.Ipc.Framing.{
  or_bad, max_message_size, WireError, too_large, unexpected_eof, Codec, Writer, buffer,
  to_le_bytes, from_le_bytes, read_exact, len_u32, write_message, read_message,
}

-- What the code relies on: a serialised message is read back.
pub record IsCodec {T : Type 0} (codec : Codec T) : Type 0 where
  pub read_back :
      (msg : T) (payload : List ℕ)
      → codec.to_vec msg ≡ some payload
      → codec.from_slice payload ≡ some msg

-- What the code relies on: a successful write appends its bytes, and a flush writes nothing.
pub record IsWriter {W : Type 0} (writer : Writer W) : Type 0 where
  pub contents : W → List ℕ
  pub write_all_appends :
      (bytes : List ℕ) (w w' : W)
      → writer.write_all bytes w ≡ ok w'
      → contents w' ≡ contents w ++ bytes
  pub flush_keeps : (w w' : W) → writer.flush w ≡ ok w' → contents w' ≡ contents w

-- The bytes of one message on the wire.
unfoldable pub frame : List ℕ → List ℕ
frame payload = to_le_bytes (len_u32 payload) ++ payload

take-append : (xs ys : List ℕ) → take (length xs) (xs ++ ys) ≡ xs
take-append [] ys = refl
take-append (x ∷ xs) ys = ap (◌∷◌ x) (take-append xs ys)

drop-append : (xs ys : List ℕ) → drop (length xs) (xs ++ ys) ≡ ys
drop-append [] ys = refl
drop-append (x ∷ xs) ys = drop-append xs ys

read_exact-append : (n : ℕ) (xs ys : List ℕ) → length xs ≡ n → read_exact n (xs ++ ys) ≡ ok (xs, ys)
unfolding read_exact
read_exact-append n xs ys h =
    rw (← h) (ground (arith, length-append xs ys, take-append xs ys, drop-append xs ys))

read_exact_short : (n : ℕ) (xs : List ℕ) → length xs < n → read_exact n xs ≡ err unexpected_eof
unfolding read_exact
read_exact_short n xs h = ground arith

take_past :
    (xs ys : List ℕ) (n : ℕ) → length xs ≤ n → take n (xs ++ ys) ≡ xs ++ take (n - length xs) ys
take_past [] ys n h = let e : n ≡ n - 0 = omega arith in ap (λ (k : ℕ). take k ys) e
take_past (x ∷ xs) ys zero h = absurd (omega arith)
take_past (x ∷ xs) ys (suc n) h =
    let e : n - length xs ≡ suc n - suc (length xs) = omega arith in
    ap (◌∷◌ x) (take_past xs ys n (omega arith) ∙ ap (λ (k : ℕ). xs ++ take k ys) e)

len_u32_small :
    (payload : List ℕ) → length payload ≤ max_message_size → len_u32 payload ≡ length payload
unfolding len_u32
len_u32_small payload h = omega arith

length-to_le_bytes : (n : ℕ) → length (to_le_bytes n) ≡ 4
unfolding to_le_bytes
length-to_le_bytes n = refl

-- A `u32` survives its four bytes.
from_le_bytes-to_le_bytes : (n : ℕ) → n < 2 ^ 32 → from_le_bytes (to_le_bytes n) ≡ n
unfolding from_le_bytes to_le_bytes
from_le_bytes-to_le_bytes n h = omega arith

or_bad-eq-ok : {T : Type 0} (o : Option T) (t : T) → or_bad o ≡ ok t → o ≡ some t
or_bad-eq-ok none t h = cc
or_bad-eq-ok (some u) t h = cc

len_u32-lt : (payload : List ℕ) → len_u32 payload < 2 ^ 32
unfolding len_u32
len_u32-lt payload = omega arith

module _ {T : Type 0} (codec : Codec T) where
  abbrev decode_rest : List ℕ × List ℕ → Result WireError (T × List ℕ)
  decode_rest (payload, rest) = do msg ← or_bad (codec.from_slice payload); ok (msg, rest)

  read_message_short :
      (bytes : List ℕ) → length bytes < 4 → read_message codec bytes ≡ err unexpected_eof
  unfolding read_message
  read_message_short bytes h = rw (read_exact_short 4 bytes h)

  -- After the header, reading goes on with the number of bytes that the header gives.
  read_message_header :
      (n : ℕ) (bytes : List ℕ)
      → n ≤ max_message_size
      → read_message codec (to_le_bytes n ++ bytes) ≡ (read_exact n bytes >>= decode_rest)
  unfolding read_message
  read_message_header n bytes h =
      rw
        (
          read_exact-append 4 (to_le_bytes n) bytes (length-to_le_bytes n),
          from_le_bytes-to_le_bytes n (omega arith),
        )
        (ground arith)

  pub write_message-buffer :
      (msg : T) (payload w : List ℕ)
      → codec.to_vec msg ≡ some payload
      → length payload ≤ max_message_size
      → write_message codec buffer msg w ≡ ok (w ++ frame payload)
  unfolding write_message frame
  write_message-buffer msg payload w e h = rw e (
      ground
        (arith, len_u32_small payload h, append_assoc w (to_le_bytes (len_u32 payload)) payload))

  -- A frame that is cut short is an error, wherever it is cut: no message is made of it.
  pub read_message-cut :
      (payload : List ℕ) (n : ℕ)
      → length payload ≤ max_message_size
      → n < length (frame payload)
      → read_message codec (take n (frame payload)) ≡ err unexpected_eof
  unfolding frame
  read_message-cut payload n small short = elim (dec_lt n 4) [
    | yes few ↦ cut_in_header (to_le_bytes (len_u32 payload) ++ payload) few
    | no enough ↦
        rw
          (
            take_past (to_le_bytes (len_u32 payload)) payload n
                (ground (arith, length-to_le_bytes (len_u32 payload))),
            length-to_le_bytes,
            read_message_header (len_u32 payload) (take (n - 4) payload)
                (omega (arith, len_u32_small payload small)),
          )
          (rw (read_exact_short (len_u32 payload) (take (n - 4) payload) (body_short enough)))
  ]
    where
      cut_in_header :
          (bytes : List ℕ) → n < 4 → read_message codec (take n bytes) ≡ err unexpected_eof
      cut_in_header bytes few =
          read_message_short (take n bytes) (omega (arith, length-take n bytes))

      body_short : ¬ (n < 4) → length (take (n - 4) payload) < len_u32 payload
      body_short enough = omega (
        arith,
        length-take (n - 4) payload,
        len_u32_small payload small,
        length-append (to_le_bytes (len_u32 payload)) payload,
        length-to_le_bytes (len_u32 payload),
      )

  module _ (lawful : IsCodec codec) where
    -- A frame of at most 128 MiB is read back, whatever bytes follow it, which are left to read.
    pub read_message-frame :
        (msg : T) (payload rest : List ℕ)
        → codec.to_vec msg ≡ some payload
        → length payload ≤ max_message_size
        → read_message codec (frame payload ++ rest) ≡ ok (msg, rest)
    unfolding frame len_u32
    read_message-frame msg payload rest e h =
        let n : length payload % 2 ^ 32 ≡ length payload = omega arith in
        rw (
          append_assoc (to_le_bytes (length payload % 2 ^ 32)) payload rest,
          read_message_header (length payload % 2 ^ 32) (payload ++ rest) (omega arith),
          read_exact-append (length payload % 2 ^ 32) payload rest (sym n),
          lawful.read_back msg payload e,
        )

    module _ {W : Type 0} (writer : Writer W) (sink : IsWriter writer) where
      -- What a successful write has done.
      write_message-frame :
          (msg : T) (w w' : W)
          → write_message codec writer msg w ≡ ok w'
          → (payload : List ℕ) × (codec.to_vec msg ≡ some payload)
            × (len_u32 payload ≤ max_message_size)
            × (sink.contents w' ≡ sink.contents w ++ frame payload)
      unfolding write_message frame
      write_message-frame msg w w' h =
          let (payload, e, h1) = >>=-eq-ok (or_bad (codec.to_vec msg)) _ h in
          let (fits, h2) = guard-eq-ok (ltb max_message_size (len_u32 payload)) too_large _ h1 in
          let (w1, e1, h3) = >>=-eq-ok (writer.write_all (to_le_bytes (len_u32 payload)) w) _ h2 in
          let (w2, e2, h4) = >>=-eq-ok (writer.write_all payload w1) _ h3 in
          (
            payload,
            or_bad-eq-ok (codec.to_vec msg) payload e,
            ground arith,
            sink.flush_keeps w2 w' h4
                ∙ sink.write_all_appends payload w1 w2 e2
                ∙ ap (λ (bs : List ℕ). bs ++ payload)
                    (sink.write_all_appends (to_le_bytes (len_u32 payload)) w w1 e1)
                ∙ append_assoc (sink.contents w) (to_le_bytes (len_u32 payload)) payload,
          )

      -- A message that is written with no error, of less than 4 GiB, is appended to the writer as
      -- one frame, and is what the reader gets from that frame, with the bytes behind it left.
      pub write_message-read_message :
          (msg : T) (w w' : W)
          → write_message codec writer msg w ≡ ok w'
          → ((payload : List ℕ) → codec.to_vec msg ≡ some payload → length payload < 2 ^ 32)
          → (bytes : List ℕ) × (sink.contents w' ≡ sink.contents w ++ bytes)
            × ((rest : List ℕ) → read_message codec (bytes ++ rest) ≡ ok (msg, rest))
      unfolding len_u32
      write_message-read_message msg w w' h small =
          let (payload, e, fits, added) = write_message-frame msg w w' h in
          (
            frame payload,
            added,
            λ rest. read_message-frame msg payload rest e (omega (arith, small payload e)),
          )

  -- A payload of more than 128 MiB is written with no error by a writer that does not fail, if its
  -- length modulo 2^32 is at most 128 MiB: the length is cut to a `u32` before it is checked.
  pub write_message-oversized :
      {W : Type 0} (writer : Writer W) (msg : T) (payload : List ℕ) (w : W)
      → ((bytes : List ℕ) (v : W) → (v' : W) × (writer.write_all bytes v ≡ ok v'))
      → ((v : W) → writer.flush v ≡ ok v)
      → codec.to_vec msg ≡ some payload
      → max_message_size < length payload
      → length payload % 2 ^ 32 ≤ max_message_size
      → (w' : W) × (write_message codec writer msg w ≡ ok w')
  unfolding write_message len_u32
  write_message-oversized writer msg payload w writes flushes e large wraps =
      let (w1, e1) = writes (to_le_bytes (len_u32 payload)) w in
      let (w2, e2) = writes payload w1 in (w2, rw e (ground (arith, e1, e2, flushes w2)))
