-- ===== src/Helper/Tests.antt =====
-- The theorems on the helper and its client at a concrete platform, whose serialiser takes a few
-- messages, and a concrete indexer.
use hypr_drive.Prelude.{◌≡◌, refl, Option, none, some, String, List, [], ◌∷◌, ℕ, arith}
use hypr_drive.Prelude.Text.{String_discrete}
use hypr_drive.Prelude.Int.{ℤ, pos, negsuc}
use hypr_drive.Prelude.Results.{ok, err}
use hypr_drive.Changes.{FsChange, UsnCursor, FsIndexerError}
use hypr_drive.Ipc.{WireChange, HelperRequest, HelperResponse, ErrorCode}
use hypr_drive.Helper.{Indexer, Platform}
use hypr_drive.Helper.Server.{handle_request}
use hypr_drive.Helper.Client.{code_name, pipe_scan, pipe_poll_changes}
use hypr_drive.Helper.EndToEnd.{
  IsPlatform, connected, pipe_scan-full_scan, pipe_poll_changes-poll_changes,
}

abbrev only_if : {P : Type 0} → Dec P → List ℕ → Option (List ℕ)
only_if (yes _) bytes = some bytes
only_if (no _) bytes = none

only_if-some :
    {P : Type 0} (d : Dec P) (bytes payload : List ℕ)
    → only_if d bytes ≡ some payload
    → P × (bytes ≡ payload)
only_if-some (yes p) bytes payload e = (p, cc)
only_if-some (no p) bytes payload e = cc

abbrev when_text : String → String → List ℕ → Option (List ℕ)
when_text s t bytes = only_if (String_discrete s t) bytes

when_text-some :
    (s t : String) (bytes payload : List ℕ)
    → when_text s t bytes ≡ some payload
    → (s ≡ t) × (bytes ≡ payload)
when_text-some s t bytes payload e = only_if-some (String_discrete s t) bytes payload e

-- The request for a scan of C:, and polls of it from a cursor of small numbers.
abbrev request_bytes : HelperRequest → Option (List ℕ)
request_bytes (HelperRequest.scan_volume v) = when_text v "C:" (1 ∷ [])
request_bytes (HelperRequest.poll_changes v j (pos u)) = when_text v "C:" (j ∷ u ∷ [])
request_bytes _ = none

abbrev bytes_request : List ℕ → Option HelperRequest
bytes_request (_ ∷ []) = some (HelperRequest.scan_volume "C:")
bytes_request (j ∷ u ∷ []) = some (HelperRequest.poll_changes "C:" j (pos u))
bytes_request _ = none

-- The answers with a denied access, and with one deletion.
abbrev deletion_bytes : ℕ → ℕ → ℤ → Option (List ℕ)
deletion_bytes fid j (pos u) = some (fid ∷ j ∷ u ∷ [])
deletion_bytes fid j (negsuc u) = none

abbrev response_bytes : HelperResponse → Option (List ℕ)
response_bytes (HelperResponse.error ErrorCode.mft_access_denied t) = when_text t "failed" (0 ∷ [])
response_bytes (HelperResponse.changes (WireChange.deleted fid ∷ []) c) =
    deletion_bytes fid c.journal_id c.next_usn
response_bytes _ = none

abbrev bytes_response : List ℕ → Option HelperResponse
bytes_response (_ ∷ []) = some (HelperResponse.error ErrorCode.mft_access_denied "failed")
bytes_response (fid ∷ j ∷ u ∷ []) = some (
    HelperResponse.changes (WireChange.deleted fid ∷ [])
      (record { journal_id = j; next_usn = pos u }))
bytes_response _ = none

request_read_back :
    (msg : HelperRequest) (payload : List ℕ)
    → request_bytes msg ≡ some payload
    → bytes_request payload ≡ some msg
request_read_back HelperRequest.ping payload e = cc
request_read_back HelperRequest.shutdown payload e = cc
request_read_back (HelperRequest.read_cursor v) payload e = cc
request_read_back (HelperRequest.scan_volume v) payload e =
    let (same, bytes) = when_text-some v "C:" (1 ∷ []) payload e in rw (same, ← bytes)
request_read_back (HelperRequest.poll_changes v j (pos u)) payload e =
    let (same, bytes) = when_text-some v "C:" (j ∷ u ∷ []) payload e in rw (same, ← bytes)
request_read_back (HelperRequest.poll_changes v j (negsuc u)) payload e = cc

deletion_read_back :
    (fid j : ℕ) (z : ℤ) (payload : List ℕ)
    → deletion_bytes fid j z ≡ some payload
    → bytes_response payload
      ≡ some (
          HelperResponse.changes
            (WireChange.deleted fid ∷ [])
            (record { journal_id = j; next_usn = z }))
deletion_read_back fid j (pos u) payload e = let p : fid ∷ j ∷ u ∷ [] ≡ payload = cc in rw (← p)
deletion_read_back fid j (negsuc u) payload e = cc

response_read_back :
    (msg : HelperResponse) (payload : List ℕ)
    → response_bytes msg ≡ some payload
    → bytes_response payload ≡ some msg
response_read_back (HelperResponse.error ErrorCode.mft_access_denied t) payload e =
    let (same, bytes) = when_text-some t "failed" (0 ∷ []) payload e in rw (same, ← bytes)
response_read_back (HelperResponse.changes (WireChange.deleted fid ∷ []) c) payload e =
    deletion_read_back fid c.journal_id c.next_usn payload e
response_read_back _ payload e = cc

-- A volume that is not Unicode has another text.
abbrev lossy_of : {s t : String} → Dec (s ≡ t) → String → String
lossy_of (yes _) s = "C:"
lossy_of (no _) s = s

abbrev lossy : String → String
lossy s = lossy_of (String_discrete s "C~") s

abbrev platform : Platform
platform = record {
  lossy = lossy;
  from_timestamp = λ s n. some (record { secs = s; nanos = n });
  now = record { secs = pos 0; nanos = 0 };
  display = λ e. "failed";
  explain = λ e. "pipe";
  unexpected = λ expected response. expected;
  version = "0.1.0";
  requests = record { to_vec = request_bytes; from_slice = bytes_request };
  responses = record { to_vec = response_bytes; from_slice = bytes_response };
}

abbrev indexer : Indexer
indexer = record {
  full_scan = λ v. err (FsIndexerError.mft_access v "access denied");
  read_cursor = λ v. ok (record { journal_id = 7; next_usn = pos 40 });
  poll_changes = λ v c. ok (FsChange.deleted 5 (some "C:/a") ∷ [], record c { next_usn = pos 41 });
}

platform-IsPlatform : IsPlatform platform
platform-IsPlatform = record {
  requests = record { read_back = request_read_back };
  responses = record { read_back = response_read_back };
  whole_seconds = λ t. refl;
}

pipe_scan-full_scan_example :
    pipe_scan platform (connected platform indexer) "C~"
    ≡ err (FsIndexerError.helper_error "MftAccessDenied" "failed")
unfolding handle_request code_name
pipe_scan-full_scan_example =
    pipe_scan-full_scan platform platform-IsPlatform indexer "C~"
      (record { payload = 1 ∷ []; serialised = refl; small = omega arith })
      (record { payload = 0 ∷ []; serialised = refl; small = omega arith })

abbrev cursor : UsnCursor
cursor = record { journal_id = 7; next_usn = pos 40 }

pipe_poll_changes-poll_changes_example :
    pipe_poll_changes platform (connected platform indexer) "C~" cursor
    ≡ ok (FsChange.deleted 5 none ∷ [], record { journal_id = 7; next_usn = pos 41 })
unfolding handle_request
pipe_poll_changes-poll_changes_example =
    pipe_poll_changes-poll_changes platform platform-IsPlatform indexer "C~" cursor
      (record { payload = 7 ∷ 40 ∷ []; serialised = refl; small = omega arith })
      (record { payload = 5 ∷ 7 ∷ 41 ∷ []; serialised = refl; small = omega arith })
