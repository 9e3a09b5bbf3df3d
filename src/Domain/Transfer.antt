-- ===== src/Domain/Transfer.antt =====
-- core/src/domain/transfer.rs: checkpoints of transfers. The set of completed chunks is a
-- `RoaringBitmap`, which is a parameter; a chunk index is a number below 2^32.
pub mod Chunks
mod Tests
use hypr_drive.Prelude.{
  ℕ, zero, suc, ◌+◌, ◌-◌, ◌%◌, ◌^◌, Bool, true, false, ◌||◌, ◌≡◌, List, [], ◌∷◌, ◌==◌, leb,
  if◌then◌else◌,
}

pub data TransferRoute : Type 0 where
  lan wan relay : TransferRoute

pub record Bitmap (B : Type 0) : Type 0 where
  pub new : B
  pub insert : ℕ → B → B
  pub contains : B → ℕ → Bool
  pub len : B → ℕ

-- How many of the `n` numbers from `i` on pass the test.
unfoldable pub count_from : ℕ → ℕ → (ℕ → Bool) → ℕ
count_from i zero f = 0
count_from i (suc n) f = (if f i then 1 else 0) + count_from (suc i) n f

-- The documented behaviour of the bitmap: a set of `u32`s, and `len` its size.
pub record IsBitmap {B : Type 0} (bits : Bitmap B) : Type 0 where
  pub new_empty : (i : ℕ) → bits.contains bits.new i ≡ false
  pub inserted :
      (i j : ℕ) (b : B) → bits.contains (bits.insert i b) j ≡ ((i == j) || bits.contains b j)
  pub size : (b : B) → bits.len b ≡ count_from 0 (2 ^ 32) (bits.contains b)

pub record TransferCheckpoint (B : Type 0) : Type 0 where
  pub transfer_id : ℕ
  pub completed_chunks : B
  pub total_chunks : ℕ

module _ {B : Type 0} (bits : Bitmap B) where
  unfoldable pub new : ℕ → ℕ → TransferCheckpoint B
  new id total = record { transfer_id = id; completed_chunks = bits.new; total_chunks = total }

  unfoldable pub mark_complete : ℕ → TransferCheckpoint B → TransferCheckpoint B
  mark_complete i c = record c { completed_chunks = bits.insert i c.completed_chunks }

  unfoldable pub is_complete : ℕ → TransferCheckpoint B → Bool
  is_complete i c = bits.contains c.completed_chunks i

  -- `len() as u32`
  unfoldable pub completed : TransferCheckpoint B → ℕ
  completed c = bits.len c.completed_chunks % 2 ^ 32

  -- `saturating_sub`
  unfoldable pub remaining : TransferCheckpoint B → ℕ
  remaining c = c.total_chunks - completed c

  unfoldable pub is_finished : TransferCheckpoint B → Bool
  is_finished c = leb c.total_chunks (completed c)

  unfoldable pub missing_from : ℕ → ℕ → B → List ℕ
  missing_from i zero b = []
  missing_from i (suc n) b =
      let rest = missing_from (suc i) n b in if bits.contains b i then rest else i ∷ rest

  unfoldable pub missing_chunks : TransferCheckpoint B → List ℕ
  missing_chunks c = missing_from 0 c.total_chunks c.completed_chunks
