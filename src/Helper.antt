-- ===== src/Helper.antt =====
-- The privileged helper and its client: helpers/hyprdrive-helper-windows/src/pipe_server.rs and
-- crates/fs-indexer/src/platform/windows/pipe.rs.
pub mod Server
pub mod Client
pub mod EndToEnd
mod Tests
use hypr_drive.Prelude.{ℕ, Option, String, List}
use hypr_drive.Prelude.Int.{ℤ}
use hypr_drive.Prelude.Results.{Result}
use hypr_drive.Changes.{DateTime, FsChange, UsnCursor, ScanResult, FsIndexerError}
use hypr_drive.Ipc.{HelperRequest, HelperResponse}
use hypr_drive.Ipc.Framing.{Codec, WireError}

-- The functions of hyprdrive_fs_indexer that the helper calls.
pub record Indexer : Type 0 where
  pub full_scan : String → Result FsIndexerError ScanResult
  pub read_cursor : String → Result FsIndexerError UsnCursor
  pub poll_changes : String → UsnCursor → Result FsIndexerError (List FsChange × UsnCursor)

-- What comes from outside the repository: `to_string_lossy` of a name or a path, which is a String
-- here whether it is Unicode or not; `from_timestamp` and `now` of chrono, the texts of errors and
-- of responses, the version of the build, and the serialiser at the two message types.
pub record Platform : Type 0 where
  pub lossy : String → String
  pub from_timestamp : ℤ → ℕ → Option DateTime
  pub now : DateTime
  pub display : FsIndexerError → String
  pub explain : WireError → String
  pub unexpected : String → HelperResponse → String
  pub version : String
  pub requests : Codec HelperRequest
  pub responses : Codec HelperResponse
