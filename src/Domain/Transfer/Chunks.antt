-- ===== src/Domain/Transfer/Chunks.antt =====
-- The chunks that a checkpoint of core/src/domain/transfer.rs says are missing.
use hypr_drive.Prelude.{
  ℕ, zero, suc, ◌+◌, ◌-◌, ◌^◌, ◌≤◌, ◌<◌, ◌≡◌, ◌↔◌, refl, Bool, true, false, List, [], ◌∷◌, length,
  arith, ◌==◌, if◌then◌else◌, Bool-cases, inl, inr,
}
use hypr_drive.Domain.Transfer.{
  Bitmap, IsBitmap, count_from, TransferCheckpoint, mark_complete, completed, remaining,
  is_finished, missing_from, missing_chunks,
}

-- A count over a range is that over its two parts.
count_from-split :
    (i m n k j : ℕ) (f : ℕ → Bool)
    → k ≡ m + n
    → j ≡ i + m
    → count_from i k f ≡ count_from i m f + count_from j n f
unfolding count_from
count_from-split i zero n k j f e e' =
    let p : k ≡ n = omega arith in let q : j ≡ i = omega arith in rw (p, q) (omega arith)
count_from-split i (suc m) n zero j f e e' = absurd (omega arith)
count_from-split i (suc m) n (suc k) j f e e' =
    omega (arith, count_from-split (suc i) m n k j f (omega arith) (omega arith))

count_from_none : (i n : ℕ) (f : ℕ → Bool) → ((k : ℕ) → i ≤ k → f k ≡ false) → count_from i n f ≡ 0
unfolding count_from
count_from_none i zero f h = refl
count_from_none i (suc n) f h =
    rw (h i (omega arith)) (omega (arith, count_from_none (suc i) n f (λ k le. h k (omega arith))))

module _ {B : Type 0} (bits : Bitmap B) (lawful : IsBitmap bits) where
  -- The completed chunks beyond the end of the transfer.
  abbrev pub stray : TransferCheckpoint B → ℕ
  stray c = count_from c.total_chunks (2 ^ 32 - c.total_chunks) (bits.contains c.completed_chunks)

  missing_count :
      (i n : ℕ) (b : B) → length (missing_from bits i n b) + count_from i n (bits.contains b) ≡ n
  unfolding missing_from count_from
  missing_count i zero b = refl
  missing_count i (suc n) b = elim (Bool-cases (bits.contains b i)) [
    | inl p ↦ rw p (omega (arith, missing_count (suc i) n b))
    | inr p ↦ rw p (omega (arith, missing_count (suc i) n b))
  ]

  -- The missing chunks and the completed ones make up the transfer and the strays.
  missing-len :
      (c : TransferCheckpoint B)
      → c.total_chunks < 2 ^ 32
      → length (missing_chunks bits c) + bits.len c.completed_chunks ≡ c.total_chunks + stray c
  unfolding missing_chunks
  missing-len c small =
      let f = bits.contains c.completed_chunks in
      omega (
        arith,
        lawful.size c.completed_chunks,
        missing_count 0 c.total_chunks c.completed_chunks,
        count_from-split 0 c.total_chunks (2 ^ 32 - c.total_chunks) (2 ^ 32) c.total_chunks f
            (omega arith) (omega arith),
      )

  empty_length : (xs : List ℕ) → (length xs ≡ 0) ↔ (xs ≡ [])
  empty_length [] = (λ _. refl, λ _. refl)
  empty_length (x ∷ xs) = (λ e. absurd (omega arith), λ e. cc)

  -- Where no completed chunk lies beyond the end of the transfer, `remaining` is the number of the
  -- missing chunks, and the transfer is finished exactly if none is missing.
  pub is_finished-missing_chunks :
      (c : TransferCheckpoint B)
      → c.total_chunks < 2 ^ 32
      → ((i : ℕ) → c.total_chunks ≤ i → bits.contains c.completed_chunks i ≡ false)
      → (remaining bits c ≡ length (missing_chunks bits c))
        × ((is_finished bits c ≡ true) ↔ (missing_chunks bits c ≡ []))
  unfolding remaining is_finished completed
  is_finished-missing_chunks c small within =
      let none_beyond =
        count_from_none c.total_chunks (2 ^ 32 - c.total_chunks) (bits.contains c.completed_chunks)
          within in
      let total = missing-len c small in
      (
        omega (arith, none_beyond, total),
        (
          λ h. (empty_length (missing_chunks bits c)).0 (ground (arith, none_beyond, total, h)),
          λ h.
              let none_missing = (empty_length (missing_chunks bits c)).1 h in
              ground (arith, none_beyond, total, none_missing),
        ),
      )

  abbrev pub without : ℕ → List ℕ → List ℕ
  without i [] = []
  without i (j ∷ js) = if i == j then without i js else j ∷ without i js

  missing_from-insert :
      (k i n : ℕ) (b : B)
      → missing_from bits i n (bits.insert k b) ≡ without k (missing_from bits i n b)
  unfolding missing_from
  missing_from-insert k i zero b = refl
  missing_from-insert k i (suc n) b =
      rw (lawful.inserted k i b) (ground (arith, missing_from-insert k (suc i) n b))

  -- Completing a chunk takes that chunk, and no other, from the missing ones, and leaves the
  -- others in their order.
  pub missing_chunks-mark_complete :
      (k : ℕ) (c : TransferCheckpoint B)
      → missing_chunks bits (mark_complete bits k c) ≡ without k (missing_chunks bits c)
  unfolding missing_chunks mark_complete
  missing_chunks-mark_complete k c = missing_from-insert k 0 c.total_chunks c.completed_chunks
