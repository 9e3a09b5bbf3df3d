-- ===== src/Helper/Client.antt =====
-- crates/fs-indexer/src/platform/windows/pipe.rs: the daemon's calls of the helper.
use hypr_drive.Prelude.{Option, none, some, String, List, [], map, ℕ}
use hypr_drive.Prelude.Results.{Result, ok, err, ◌>>=◌, map_err}
use hypr_drive.Changes.{IndexEntry, FsChange, UsnCursor, ScanResult, FsIndexerError}
use hypr_drive.Ipc.{
  WireIndexEntry, WireCursor, WireChange, ErrorCode, HelperRequest, HelperResponse,
}
use hypr_drive.Ipc.Framing.{Writer, write_message, read_message}
use hypr_drive.Helper.{Platform}

-- `format!("{:?}", code)`
unfoldable pub code_name : ErrorCode → String
code_name ErrorCode.invalid_volume = "InvalidVolume"
code_name ErrorCode.mft_access_denied = "MftAccessDenied"
code_name ErrorCode.journal_error = "JournalError"
code_name ErrorCode.protocol_mismatch = "ProtocolMismatch"
code_name ErrorCode.internal = "Internal"

-- The pipe: whether it can be opened, or why not; the writer; and what the other side answers to
-- the bytes that it receives.
pub record Pipe : Type 0 where
  pub refused : Option String
  pub writer : Writer (List ℕ)
  pub respond : List ℕ → List ℕ

unfoldable pub wire_to_cursor : WireCursor → UsnCursor
wire_to_cursor c = record { journal_id = c.journal_id; next_usn = c.next_usn }

abbrev or_else : {A : Type 0} → Option A → A → A
or_else none a = a
or_else (some b) a = b

abbrev map_option : {A B : Type 0} → (A → B) → Option A → Option B
map_option f none = none
map_option f (some a) = some (f a)

module _ (p : Platform) where
  unfoldable pub wire_to_entry : WireIndexEntry → IndexEntry
  wire_to_entry w = record {
    fid = w.fid;
    parent_fid = w.parent_fid;
    name = w.name;
    name_lossy = w.name;
    full_path = w.full_path;
    size = w.size;
    allocated_size = w.allocated_size;
    is_dir = w.is_dir;
    modified_at = or_else (p.from_timestamp w.modified_at_epoch 0) p.now;
    attributes = w.attributes;
  }

  unfoldable pub wire_to_change : WireChange → FsChange
  unfolding wire_to_entry
  wire_to_change (WireChange.created entry) = FsChange.created (wire_to_entry entry)
  wire_to_change (WireChange.deleted fid) = FsChange.deleted fid none
  wire_to_change (WireChange.moved fid parent name) = FsChange.moved fid parent name
  wire_to_change (WireChange.modified fid size) = FsChange.modified fid size
  wire_to_change (WireChange.full_rescan_needed volume reason) =
      FsChange.full_rescan_needed volume reason

  unfoldable pub exchange :
      Option String → Pipe → HelperRequest → Result FsIndexerError HelperResponse
  exchange (some reason) pipe request = err (FsIndexerError.helper_unavailable reason)
  exchange none pipe request = do
    sent ←
        map_err (λ e. FsIndexerError.helper_error "WriteError" (p.explain e))
          (write_message p.requests pipe.writer request [])
    (response, _) ←
        map_err (λ e. FsIndexerError.helper_error "ReadError" (p.explain e))
          (read_message p.responses (pipe.respond sent))
    ok response

  unfoldable pub send_request : Pipe → HelperRequest → Result FsIndexerError HelperResponse
  send_request pipe request = exchange pipe.refused pipe request

  -- The error of a response that is not the expected one.
  unfoldable pub refuse : {A : Type 0} → String → HelperResponse → Result FsIndexerError A
  unfolding code_name
  refuse expected (HelperResponse.error code message) =
      err (FsIndexerError.helper_error (code_name code) message)
  refuse expected other =
      err (FsIndexerError.helper_error "UnexpectedResponse" (p.unexpected expected other))

  unfoldable pub scan_of : HelperResponse → Result FsIndexerError ScanResult
  unfolding wire_to_entry wire_to_cursor refuse
  scan_of (HelperResponse.scan_result entries cursor) = ok (record {
    entries = map wire_to_entry entries;
    cursor = map_option wire_to_cursor cursor;
    linux_cursor = none;
  })
  scan_of other = refuse "ScanResult" other

  unfoldable pub pipe_scan : Pipe → String → Result FsIndexerError ScanResult
  pipe_scan pipe volume = do
    response ← send_request pipe (HelperRequest.scan_volume (p.lossy volume))
    scan_of response

  unfoldable pub cursor_of : HelperResponse → Result FsIndexerError UsnCursor
  unfolding wire_to_cursor refuse
  cursor_of (HelperResponse.cursor c) = ok (wire_to_cursor c)
  cursor_of other = refuse "Cursor" other

  unfoldable pub pipe_read_cursor : Pipe → String → Result FsIndexerError UsnCursor
  pipe_read_cursor pipe volume = do
    response ← send_request pipe (HelperRequest.read_cursor (p.lossy volume))
    cursor_of response

  unfoldable pub changes_of : HelperResponse → Result FsIndexerError (List FsChange × UsnCursor)
  unfolding wire_to_change wire_to_cursor refuse
  changes_of (HelperResponse.changes events c) = ok (map wire_to_change events, wire_to_cursor c)
  changes_of other = refuse "Changes" other

  unfoldable pub pipe_poll_changes :
      Pipe → String → UsnCursor → Result FsIndexerError (List FsChange × UsnCursor)
  pipe_poll_changes pipe volume cursor = do
    response ←
        send_request pipe
          (HelperRequest.poll_changes (p.lossy volume) cursor.journal_id cursor.next_usn)
    changes_of response
