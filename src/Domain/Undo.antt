-- ===== src/Domain/Undo.antt =====
-- core/src/domain/undo.rs: the bounded stack of reversible operations.
pub mod Stack
use hypr_drive.Prelude.{
  ℕ, Bool, true, false, Option, some, none, String, List, [], ◌∷◌, ◌++◌, length, leb, if◌then◌else◌,
}
use hypr_drive.Changes.{DateTime}

abbrev pub max_undo_entries : ℕ
max_undo_entries = 50

pub record UndoEntry : Type 0 where
  pub description : String
  pub timestamp : DateTime
  pub inverse_action : String

-- The `VecDeque`, front first: the oldest entry comes first.
pub record UndoStack : Type 0 where
  pub entries : List UndoEntry

abbrev pub pop_front : {A : Type 0} → List A → List A
pop_front [] = []
pop_front (x ∷ xs) = xs

pub back : {A : Type 0} → List A → Option A
back [] = none
back (x ∷ []) = some x
back (x ∷ y ∷ xs) = back (y ∷ xs)

pub but_last : {A : Type 0} → List A → List A
but_last [] = []
but_last (x ∷ []) = []
but_last (x ∷ y ∷ xs) = x ∷ but_last (y ∷ xs)

pub new : UndoStack
new = record { entries = [] }

pub push : UndoEntry → UndoStack → UndoStack
push entry s =
    let kept = if leb max_undo_entries (length s.entries) then pop_front s.entries else s.entries in
    record { entries = kept ++ entry ∷ [] }

pub pop : UndoStack → Option UndoEntry × UndoStack
pop s = (back s.entries, record { entries = but_last s.entries })

pub peek : UndoStack → Option UndoEntry
peek s = back s.entries

unfoldable pub len : UndoStack → ℕ
len s = length s.entries

pub is_empty : UndoStack → Bool
is_empty s = is_nil s.entries
  where
    is_nil : List UndoEntry → Bool
    is_nil [] = true
    is_nil (_ ∷ _) = false
