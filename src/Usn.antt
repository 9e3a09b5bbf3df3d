-- ===== src/Usn.antt =====
-- crates/fs-indexer/src/platform/windows/usn.rs: changes from the USN journal of a volume.
-- An `i64` of the journal is an integer, within its range. The journal itself (`usn_journal_rs`)
-- and the drive letter of a path are parameters.
pub mod Poll
mod Tests
use hypr_drive.Prelude.{
  ℕ, ◌/◌, ◌%◌, Bool, true, false, not, ◌||◌, String, List, [], ◌∷◌, ◌==◌, if◌then◌else◌, none, ◌++◌,
}
use hypr_drive.Prelude.Int.{ℤ, pos, ltb_ℤ, ◌+ℤ◌}
use hypr_drive.Prelude.Results.{Result, ok, err, ◌>>=◌, map_err}
use hypr_drive.Changes.{DateTime, IndexEntry, FsChange, UsnCursor, FsIndexerError}

pub record JournalData : Type 0 where
  pub journal_id : ℕ
  pub next_usn : ℤ

pub record UsnRecord : Type 0 where
  pub usn : ℤ
  pub reason : ℕ
  pub fid : ℕ
  pub parent_fid : ℕ
  pub file_name : String
  pub file_attributes : ℕ

-- A volume's journal: whether it is opened, `query`, and the records from a USN on, those that cannot
-- be read among them. `is_recreated` is the message of a journal of another id, `lossy` and `now`
-- are `to_string_lossy` and `Utc::now()`.
pub record Journal : Type 0 where
  pub letter : Result FsIndexerError ℕ
  pub opened : Result String Unit
  pub query : Result String JournalData
  pub iter : ℤ → Result String (List (Result String UsnRecord))
  pub is_recreated : ℕ → ℕ → String
  pub lossy : String → String
  pub now : DateTime

-- The reason flags, each by its bit.
abbrev reason_file_create : ℕ
reason_file_create = 0x100

abbrev reason_file_delete : ℕ
reason_file_delete = 0x200

abbrev reason_rename_new_name : ℕ
reason_rename_new_name = 0x2000

abbrev reason_data_extend : ℕ
reason_data_extend = 0x2

abbrev reason_data_truncation : ℕ
reason_data_truncation = 0x4

abbrev reason_data_overwrite : ℕ
reason_data_overwrite = 0x1

-- `reason & flag != 0`, for a flag of one bit.
unfoldable pub has_flag : ℕ → ℕ → Bool
has_flag reason flag = reason / flag % 2 == 1

-- The change that a record stands for, if any: the first flag that is set, in this order.
unfoldable pub change_of : (String → String) → DateTime → UsnRecord → List FsChange
change_of lossy now r =
    if has_flag r.reason reason_file_create
    then FsChange.created (record {
      fid = r.fid;
      parent_fid = r.parent_fid;
      name = r.file_name;
      name_lossy = lossy r.file_name;
      full_path = "";
      size = 0;
      allocated_size = 0;
      is_dir = false;
      modified_at = now;
      attributes = r.file_attributes;
    })
      ∷ []
    else if has_flag r.reason reason_file_delete
    then FsChange.deleted r.fid none ∷ []
    else if has_flag r.reason reason_rename_new_name
    then FsChange.moved r.fid r.parent_fid r.file_name ∷ []
    else if has_flag r.reason reason_data_extend
        || has_flag r.reason reason_data_truncation
        || has_flag r.reason reason_data_overwrite
    then FsChange.modified r.fid 0 ∷ []
    else []

unfoldable pub max_usn : ℤ → UsnRecord → ℤ
max_usn m r = if ltb_ℤ m r.usn then r.usn else m

-- The loop on the records: the changes, and the largest USN.
unfoldable pub poll_records : Journal → ℤ → List (Result String UsnRecord) → List FsChange × ℤ
poll_records j m [] = ([], m)
poll_records j m (err _ ∷ rs) = poll_records j m rs
poll_records j m (ok r ∷ rs) =
    let (changes, last) = poll_records j (max_usn m r) rs in
    (change_of j.lossy j.now r ++ changes, last)

pub read_cursor : Journal → Result FsIndexerError UsnCursor
read_cursor j = do
  letter ← j.letter
  volume ← map_err FsIndexerError.journal_error j.opened
  found ← map_err FsIndexerError.journal_error j.query
  ok (record { journal_id = found.journal_id; next_usn = found.next_usn })

-- The check that the journal is the one that the cursor was made of.
unfoldable pub same_journal : Journal → ℕ → ℕ → Result FsIndexerError Unit
same_journal j expected found =
    if not (found == expected)
    then err (FsIndexerError.journal_error (j.is_recreated expected found))
    else ok tt

-- The result of a poll: the new cursor is one after the largest USN.
abbrev pub polled : ℕ → List FsChange × ℤ → List FsChange × UsnCursor
polled journal_id (changes, last) =
    (changes, record { journal_id = journal_id; next_usn = last +ℤ pos 1 })

unfoldable pub poll_changes :
    Journal → UsnCursor → Result FsIndexerError (List FsChange × UsnCursor)
poll_changes j cursor = do
  letter ← j.letter
  volume ← map_err FsIndexerError.journal_error j.opened
  found ← map_err FsIndexerError.journal_error j.query
  same ← same_journal j cursor.journal_id found.journal_id
  records ← map_err FsIndexerError.journal_error (j.iter cursor.next_usn)
  ok (polled cursor.journal_id (poll_records j cursor.next_usn records))
