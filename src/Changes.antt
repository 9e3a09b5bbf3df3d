-- ===== src/Changes.antt =====
-- crates/fs-indexer/src/types.rs and error.rs: index entries, filesystem changes, cursors, errors.
-- An `OsString` or a `PathBuf` is its text, and an `std::io::Error` its message. The numbers are
-- within the ranges of their Rust types.
use hypr_drive.Prelude.{ℕ, Bool, Option, List, String}
use hypr_drive.Prelude.Int.{ℤ}

-- A `DateTime<Utc>`: `timestamp()` is `secs`.
pub record DateTime : Type 0 where
  pub secs : ℤ
  pub nanos : ℕ

pub record IndexEntry : Type 0 where
  pub fid : ℕ
  pub parent_fid : ℕ
  pub name : String
  pub name_lossy : String
  pub full_path : String
  pub size : ℕ
  pub allocated_size : ℕ
  pub is_dir : Bool
  pub modified_at : DateTime
  pub attributes : ℕ

-- The fields of `Deleted` are fid, path; of `Moved` fid, new_parent_fid, new_name; of `Modified`
-- fid, new_size; of `FullRescanNeeded` volume, reason.
pub data FsChange : Type 0 where
  created : IndexEntry → FsChange
  deleted : ℕ → Option String → FsChange
  moved : ℕ → ℕ → String → FsChange
  modified : ℕ → ℕ → FsChange
  full_rescan_needed : String → String → FsChange

pub record VolumedChange : Type 0 where
  pub volume : String
  pub volume_id : String
  pub change : FsChange

pub record UsnCursor : Type 0 where
  pub journal_id : ℕ
  pub next_usn : ℤ

pub record LinuxCursor : Type 0 where
  pub last_scan_epoch_ms : ℤ
  pub fanotify_active : Bool

pub record ScanResult : Type 0 where
  pub entries : List IndexEntry
  pub cursor : Option UsnCursor
  pub linux_cursor : Option LinuxCursor

pub data FilesystemKind : Type 0 where
  ntfs fat32 ex_fat refs ext4 btrfs xfs zfs tmpfs nine_p nfs overlay_fs fuse unknown :
      FilesystemKind

-- The fields of `MftAccess` and `DetectionFailed` are volume, source; of `BrokenParentChain` fid,
-- parent_fid; of `InotifyWatchLimit` current, max; of `PseudoFilesystem` path, fs_type; of
-- `UnsupportedPlatform` platform, feature; of `HelperError` code, message.
pub data FsIndexerError : Type 0 where
  mft_access : String → String → FsIndexerError
  journal_error : String → FsIndexerError
  permission_denied : String → FsIndexerError
  unsupported_fs : FilesystemKind → FsIndexerError
  detection_failed : String → String → FsIndexerError
  broken_parent_chain : ℕ → ℕ → FsIndexerError
  watcher_init_error : String → FsIndexerError
  inotify_watch_limit : ℕ → ℕ → FsIndexerError
  pseudo_filesystem : String → String → FsIndexerError
  unsupported_platform : String → String → FsIndexerError
  helper_unavailable : String → FsIndexerError
  helper_error : String → String → FsIndexerError
  io : String → FsIndexerError
