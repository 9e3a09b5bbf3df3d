-- ===== src/Domain/Transfer/Tests.antt =====
-- Checkpoints of core/src/domain/transfer.rs with a concrete set of chunks.
use hypr_drive.Prelude.{
  ℕ, ◌^◌, ◌≤◌, ◌≡◌, ◌↔◌, refl, Bool, true, false, ◌||◌, [], length, arith, ◌==◌,
}
use hypr_drive.Domain.Transfer.{
  Bitmap, IsBitmap, count_from, TransferCheckpoint, mark_complete, remaining, is_finished,
  missing_from, missing_chunks,
}
use hypr_drive.Domain.Transfer.Chunks.{is_finished-missing_chunks, missing_chunks-mark_complete}

-- A set by its members.
abbrev members : Bitmap (ℕ → Bool)
members = record {
  new = λ j. false;
  insert = λ i b j. (i == j) || b j;
  contains = λ b j. b j;
  len = λ b. count_from 0 (2 ^ 32) b;
}

members-IsBitmap : IsBitmap members
members-IsBitmap = record { new_empty = λ i. refl; inserted = λ i j b. refl; size = λ b. refl }

abbrev checkpoint : TransferCheckpoint (ℕ → Bool)
checkpoint = record {
  transfer_id = 1;
  completed_chunks = λ j. (0 == j) || (2 == j);
  total_chunks = 3;
}

within : (i : ℕ) → 3 ≤ i → ((0 == i) || (2 == i)) ≡ false
within i h = ground arith

is_finished-missing_chunks_example :
    (remaining members checkpoint ≡ length (missing_chunks members checkpoint))
    × ((is_finished members checkpoint ≡ true) ↔ (missing_chunks members checkpoint ≡ []))
is_finished-missing_chunks_example =
    is_finished-missing_chunks members members-IsBitmap checkpoint (omega arith) within

missing_chunks-mark_complete_example :
    missing_chunks members (mark_complete members 1 checkpoint) ≡ []
unfolding missing_chunks missing_from
missing_chunks-mark_complete_example =
    missing_chunks-mark_complete members members-IsBitmap 1 checkpoint
