-- ===== src/Helper/EndToEnd.antt =====
-- The client (crates/fs-indexer/src/platform/windows/pipe.rs) against the helper that it is
-- connected to (helpers/hyprdrive-helper-windows/src/pipe_server.rs).
use mathlib.Core.List.{append-nil}
use hypr_drive.Prelude.{
  ◌≡◌, refl, ap, Option, none, some, String, List, [], ◌∷◌, map, ℕ, length, ◌≤◌,
}
use hypr_drive.Prelude.Results.{Result, ok, err}
use hypr_drive.Changes.{DateTime, IndexEntry, FsChange, UsnCursor, ScanResult, FsIndexerError}
use hypr_drive.Ipc.{HelperRequest}
use hypr_drive.Ipc.Framing.{max_message_size, Codec, buffer, read_message}
use hypr_drive.Ipc.Framing.RoundTrip.{IsCodec, frame, write_message-buffer, read_message-frame}
use hypr_drive.Helper.{Indexer, Platform}
use hypr_drive.Helper.Server.{
  entry_to_wire, change_to_wire, scan_error_code, scan_answer, changes_answer, handle_request,
  serve,
}
use hypr_drive.Helper.Client.{
  Pipe, code_name, wire_to_entry, wire_to_change, exchange, send_request, scan_of, changes_of,
  pipe_scan, pipe_poll_changes,
}

-- The documented behaviour of the serialiser, and of chrono: the whole seconds of any time are a
-- time.
pub record IsPlatform (p : Platform) : Type 0 where
  pub requests : IsCodec p.requests
  pub responses : IsCodec p.responses
  pub whole_seconds :
      (t : DateTime) → p.from_timestamp t.secs 0 ≡ some (record { secs = t.secs; nanos = 0 })

-- A message that the serialiser takes, within the limit of the protocol.
pub record Fits {T : Type 0} (codec : Codec T) (msg : T) : Type 0 where
  pub payload : List ℕ
  pub serialised : codec.to_vec msg ≡ some payload
  pub small : length payload ≤ max_message_size

-- The pipe to a running helper.
abbrev pub connected : Platform → Indexer → Pipe
connected p ix = record { refused = none; writer = buffer; respond = serve p ix }

module _ (p : Platform) where
  -- What arrives of an entry: the name as `name_lossy` has it, the path as `to_string_lossy` has
  -- it, and the time in whole seconds.
  abbrev pub received_entry : IndexEntry → IndexEntry
  received_entry e = record e {
    name = e.name_lossy;
    full_path = p.lossy e.full_path;
    modified_at = record { secs = e.modified_at.secs; nanos = 0 };
  }

  -- What arrives of a change: the path of a deleted file does not, a new name and a volume as
  -- `to_string_lossy` has them.
  abbrev pub received_change : FsChange → FsChange
  received_change (FsChange.created entry) = FsChange.created (received_entry entry)
  received_change (FsChange.deleted fid _) = FsChange.deleted fid none
  received_change (FsChange.moved fid parent name) = FsChange.moved fid parent (p.lossy name)
  received_change (FsChange.modified fid size) = FsChange.modified fid size
  received_change (FsChange.full_rescan_needed volume reason) =
      FsChange.full_rescan_needed (p.lossy volume) reason

  abbrev pub received_scan : Result FsIndexerError ScanResult → Result FsIndexerError ScanResult
  received_scan (ok scan) = ok (record {
    entries = map received_entry scan.entries;
    cursor = scan.cursor;
    linux_cursor = none;
  })
  received_scan (err e) =
      err (FsIndexerError.helper_error (code_name (scan_error_code e)) (p.display e))

  abbrev pub received_changes :
      Result FsIndexerError (List FsChange × UsnCursor)
      → Result FsIndexerError (List FsChange × UsnCursor)
  received_changes (ok (changes, c)) = ok (map received_change changes, c)
  received_changes (err e) = err (FsIndexerError.helper_error "JournalError" (p.display e))

-- A frame with nothing behind it.
read_whole :
    {T : Type 0} (codec : Codec T) (lawful : IsCodec codec) (msg : T) (fits : Fits codec msg)
    → read_message codec (frame fits.payload) ≡ ok (msg, [])
read_whole codec lawful msg fits =
    rw (← append-nil (frame fits.payload))
      (read_message-frame codec lawful msg fits.payload [] fits.serialised fits.small)

module _ (p : Platform) (lawful : IsPlatform p) where
  entry-received : (e : IndexEntry) → wire_to_entry p (entry_to_wire p e) ≡ received_entry p e
  unfolding wire_to_entry entry_to_wire
  entry-received e = rw (lawful.whole_seconds e.modified_at)

  entries-received :
      (es : List IndexEntry)
      → map (wire_to_entry p) (map (entry_to_wire p) es) ≡ map (received_entry p) es
  entries-received [] = refl
  entries-received (e ∷ es) = cc (entry-received e, entries-received es)

  change-received : (c : FsChange) → wire_to_change p (change_to_wire p c) ≡ received_change p c
  unfolding wire_to_change change_to_wire
  change-received (FsChange.created entry) = ap FsChange.created (entry-received entry)
  change-received (FsChange.deleted fid path) = refl
  change-received c = refl

  changes-received :
      (cs : List FsChange)
      → map (wire_to_change p) (map (change_to_wire p) cs) ≡ map (received_change p) cs
  changes-received [] = refl
  changes-received (c ∷ cs) = cc (change-received c, changes-received cs)

  scan-received :
      (r : Result FsIndexerError ScanResult) → scan_of p (scan_answer p r) ≡ received_scan p r
  unfolding scan_of scan_answer
  scan-received (ok scan) = case_cursor scan.cursor
    where
      case_cursor :
          (c : Option UsnCursor)
          → scan_of p (scan_answer p (ok (record scan { cursor = c })))
            ≡ received_scan p (ok (record scan { cursor = c }))
      case_cursor none = rw (entries-received scan.entries)
      case_cursor (some c) = rw (entries-received scan.entries)
  scan-received (err e) = refl

  poll-received :
      (r : Result FsIndexerError (List FsChange × UsnCursor))
      → changes_of p (changes_answer p r) ≡ received_changes p r
  unfolding changes_of changes_answer
  poll-received (ok (changes, c)) = rw (changes-received changes)
  poll-received (err e) = refl

  module _ (ix : Indexer) where
    serve-frame :
        (request : HelperRequest) (small : Fits p.requests request)
        (answer : Fits p.responses (handle_request p ix request))
        → serve p ix (frame small.payload) ≡ frame answer.payload
    unfolding serve
    serve-frame request small answer = rw (
      read_whole p.requests lawful.requests request small,
      write_message-buffer p.responses (handle_request p ix request) answer.payload []
          answer.serialised answer.small,
    )

    send_request_lem :
        (request : HelperRequest)
        → Fits p.requests request
        → Fits p.responses (handle_request p ix request)
        → send_request p (connected p ix) request ≡ ok (handle_request p ix request)
    unfolding send_request exchange
    send_request_lem request small answer = rw (
      write_message-buffer p.requests request small.payload [] small.serialised small.small,
      serve-frame request small answer,
      read_whole p.responses lawful.responses (handle_request p ix request) answer,
    )

    -- A scan through the pipe gives what the helper's own scan of the volume, as `to_string_lossy`
    -- has it, gives, when the request and the answer are within the limit of the protocol: every
    -- entry in its order, with the lossy name as name, the path as `to_string_lossy` has it and the
    -- time cut to whole seconds, and the cursor; a failed scan gives a helper error with the code
    -- of the failure and its text.
    pub pipe_scan-full_scan :
        (volume : String)
        → Fits p.requests (HelperRequest.scan_volume (p.lossy volume))
        → Fits p.responses (handle_request p ix (HelperRequest.scan_volume (p.lossy volume)))
        → pipe_scan p (connected p ix) volume ≡ received_scan p (ix.full_scan (p.lossy volume))
    unfolding pipe_scan handle_request
    pipe_scan-full_scan volume small answer =
        rw (send_request_lem (HelperRequest.scan_volume (p.lossy volume)) small answer)
          (scan-received (ix.full_scan (p.lossy volume)))

    -- A poll through the pipe asks the helper's indexer for the volume, as `to_string_lossy` has
    -- it, from the given cursor, and gives its changes in their order, with the next cursor, when
    -- the request and the answer are within the limit of the protocol; a created entry arrives as a
    -- scanned one does, a new name and the volume of a rescan as `to_string_lossy` has them, a
    -- deletion loses its path, and a failure is a journal error with its text.
    pub pipe_poll_changes-poll_changes :
        (volume : String) (cursor : UsnCursor)
        → Fits p.requests
            (HelperRequest.poll_changes (p.lossy volume) cursor.journal_id cursor.next_usn)
        → Fits p.responses (
            handle_request p ix
              (HelperRequest.poll_changes (p.lossy volume) cursor.journal_id cursor.next_usn))
        → pipe_poll_changes p (connected p ix) volume cursor
          ≡ received_changes p (ix.poll_changes (p.lossy volume) cursor)
    unfolding pipe_poll_changes handle_request
    pipe_poll_changes-poll_changes volume cursor small answer =
        rw
          (send_request_lem
            (HelperRequest.poll_changes (p.lossy volume) cursor.journal_id cursor.next_usn) small
            answer)
          (poll-received (ix.poll_changes (p.lossy volume) cursor))
