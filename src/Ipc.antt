-- ===== src/Ipc.antt =====
-- crates/ipc-protocol/src/lib.rs: the messages between the daemon and its privileged helper.
-- The framing of the messages is in Ipc/Framing.antt.
pub mod Framing
use hypr_drive.Prelude.{ℕ, Bool, Option, List, String}
use hypr_drive.Prelude.Int.{ℤ}

pub record WireIndexEntry : Type 0 where
  pub fid : ℕ
  pub parent_fid : ℕ
  pub name : String
  pub full_path : String
  pub size : ℕ
  pub allocated_size : ℕ
  pub is_dir : Bool
  pub modified_at_epoch : ℤ
  pub attributes : ℕ

pub record WireCursor : Type 0 where
  pub journal_id : ℕ
  pub next_usn : ℤ

-- The fields are those of the source, in its order.
pub data WireChange : Type 0 where
  created : WireIndexEntry → WireChange
  deleted : ℕ → WireChange
  moved : ℕ → ℕ → String → WireChange
  modified : ℕ → ℕ → WireChange
  full_rescan_needed : String → String → WireChange

pub data ErrorCode : Type 0 where
  invalid_volume mft_access_denied journal_error protocol_mismatch internal : ErrorCode

pub data HelperRequest : Type 0 where
  ping shutdown : HelperRequest
  scan_volume read_cursor : String → HelperRequest
  poll_changes : String → ℕ → ℤ → HelperRequest

pub data HelperResponse : Type 0 where
  pong : String → ℕ → HelperResponse
  scan_result : List WireIndexEntry → Option WireCursor → HelperResponse
  cursor : WireCursor → HelperResponse
  changes : List WireChange → WireCursor → HelperResponse
  acknowledged : HelperResponse
  error : ErrorCode → String → HelperResponse

abbrev pub protocol_version : ℕ
protocol_version = 1
