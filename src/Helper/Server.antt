-- ===== src/Helper/Server.antt =====
-- helpers/hyprdrive-helper-windows/src/pipe_server.rs: what the helper answers.
use hypr_drive.Prelude.{Option, none, some, List, [], map, ℕ}
use hypr_drive.Prelude.Results.{Result, ok, err, ◌>>=◌}
use hypr_drive.Changes.{IndexEntry, FsChange, UsnCursor, ScanResult, FsIndexerError}
use hypr_drive.Ipc.{
  WireIndexEntry, WireCursor, WireChange, ErrorCode, HelperRequest, HelperResponse,
  protocol_version,
}
use hypr_drive.Ipc.Framing.{WireError, buffer, write_message, read_message}
use hypr_drive.Helper.{Indexer, Platform}

unfoldable pub cursor_to_wire : UsnCursor → WireCursor
cursor_to_wire c = record { journal_id = c.journal_id; next_usn = c.next_usn }

-- The `match` on the error of a scan.
unfoldable pub scan_error_code : FsIndexerError → ErrorCode
scan_error_code (FsIndexerError.mft_access _ _) = ErrorCode.mft_access_denied
scan_error_code (FsIndexerError.unsupported_fs _) = ErrorCode.invalid_volume
scan_error_code _ = ErrorCode.internal

abbrev map_option : {A B : Type 0} → (A → B) → Option A → Option B
map_option f none = none
map_option f (some a) = some (f a)

abbrev bytes_sent : Result WireError (List ℕ) → List ℕ
bytes_sent (ok bytes) = bytes
bytes_sent (err _) = []

module _ (p : Platform) where
  -- The entry on the wire: the name is `name_lossy`, the path `to_string_lossy` of the path, the
  -- time in whole seconds.
  unfoldable pub entry_to_wire : IndexEntry → WireIndexEntry
  entry_to_wire e = record {
    fid = e.fid;
    parent_fid = e.parent_fid;
    name = e.name_lossy;
    full_path = p.lossy e.full_path;
    size = e.size;
    allocated_size = e.allocated_size;
    is_dir = e.is_dir;
    modified_at_epoch = e.modified_at.secs;
    attributes = e.attributes;
  }

  unfoldable pub change_to_wire : FsChange → WireChange
  unfolding entry_to_wire
  change_to_wire (FsChange.created entry) = WireChange.created (entry_to_wire entry)
  change_to_wire (FsChange.deleted fid _) = WireChange.deleted fid
  change_to_wire (FsChange.moved fid parent name) = WireChange.moved fid parent (p.lossy name)
  change_to_wire (FsChange.modified fid size) = WireChange.modified fid size
  change_to_wire (FsChange.full_rescan_needed volume reason) =
      WireChange.full_rescan_needed (p.lossy volume) reason

  unfoldable pub scan_answer : Result FsIndexerError ScanResult → HelperResponse
  unfolding entry_to_wire cursor_to_wire scan_error_code
  scan_answer (ok scan) =
      HelperResponse.scan_result (map entry_to_wire scan.entries)
        (map_option cursor_to_wire scan.cursor)
  scan_answer (err e) = HelperResponse.error (scan_error_code e) (p.display e)

  unfoldable pub cursor_answer : Result FsIndexerError UsnCursor → HelperResponse
  unfolding cursor_to_wire
  cursor_answer (ok c) = HelperResponse.cursor (cursor_to_wire c)
  cursor_answer (err e) = HelperResponse.error ErrorCode.journal_error (p.display e)

  unfoldable pub changes_answer : Result FsIndexerError (List FsChange × UsnCursor) → HelperResponse
  unfolding change_to_wire cursor_to_wire
  changes_answer (ok (changes, c)) =
      HelperResponse.changes (map change_to_wire changes) (cursor_to_wire c)
  changes_answer (err e) = HelperResponse.error ErrorCode.journal_error (p.display e)

  module _ (ix : Indexer) where
    unfoldable pub handle_request : HelperRequest → HelperResponse
    unfolding scan_answer cursor_answer changes_answer
    handle_request HelperRequest.ping = HelperResponse.pong p.version protocol_version
    handle_request (HelperRequest.scan_volume volume) = scan_answer (ix.full_scan volume)
    handle_request (HelperRequest.read_cursor volume) = cursor_answer (ix.read_cursor volume)
    handle_request (HelperRequest.poll_changes volume journal_id next_usn) =
        changes_answer
          (ix.poll_changes volume (record { journal_id = journal_id; next_usn = next_usn }))
    handle_request HelperRequest.shutdown = HelperResponse.acknowledged

    -- One connection of `run`: the bytes of the answer. A request that cannot be read, or an answer
    -- that cannot be written, is logged, and the connection closed.
    unfoldable pub serve : List ℕ → List ℕ
    serve bytes = bytes_sent (do
      (request, _) ← read_message p.requests bytes
      write_message p.responses buffer (handle_request request) [])
