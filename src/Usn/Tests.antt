-- ===== src/Usn/Tests.antt =====
-- Polls of a concrete journal (crates/fs-indexer/src/platform/windows/usn.rs).
use hypr_drive.Prelude.{ℕ, ◌≡◌, refl, List, [], ◌∷◌, ◌++◌, map}
use hypr_drive.Prelude.Int.{ℤ, pos}
use hypr_drive.Prelude.Results.{ok}
use hypr_drive.Changes.{UsnCursor}
use hypr_drive.Usn.{UsnRecord, Journal, poll_changes}
use hypr_drive.Usn.Poll.{since, Holds, changes_in, poll_changes-resumed, poll_changes-idle}

abbrev at_usn : ℤ → ℕ → ℕ → UsnRecord
at_usn usn reason fid = record {
  usn = usn;
  reason = reason;
  fid = fid;
  parent_fid = 5;
  file_name = "a";
  file_attributes = 0;
}

abbrev journal_of : List UsnRecord → Journal
journal_of log = record {
  letter = ok 67;
  opened = ok tt;
  query = ok (record { journal_id = 1; next_usn = pos 100 });
  iter = λ s. ok (map ok (since s log));
  is_recreated = λ expected found. "recreated";
  lossy = λ s. s;
  now = record { secs = pos 0; nanos = 0 };
}

journal_of-Holds : (log : List UsnRecord) → Holds (journal_of log) 1 log
journal_of-Holds log = record {
  letter = (67, refl);
  opened = refl;
  query = (pos 100, refl);
  iter = λ s. refl;
}

abbrev written : List UsnRecord
written = at_usn (pos 10) 0x200 7 ∷ at_usn (pos 20) 0x102 8 ∷ []

abbrev written_later : List UsnRecord
written_later = at_usn (pos 30) 0x2 8 ∷ []

abbrev cursor : UsnCursor
cursor = record { journal_id = 1; next_usn = pos 20 }

poll_changes-resumed_example :
    (c' c'' : UsnCursor) × (poll_changes (journal_of written) cursor
      ≡ ok (changes_in (journal_of written) (since (pos 20) written), c'))
    × (poll_changes (journal_of (written ++ written_later)) c'
        ≡ ok (changes_in (journal_of (written ++ written_later)) written_later, c''))
    × (since (pos 20) (written ++ written_later) ≡ since (pos 20) written ++ written_later)
unfolding since
poll_changes-resumed_example =
    poll_changes-resumed (journal_of written) (journal_of (written ++ written_later)) cursor written
      written_later (at_usn (pos 20) 0x102 8) [] (journal_of-Holds written)
      (journal_of-Holds (written ++ written_later)) refl ((refl, (refl, tt)), tt)

-- The file 9 is created at the USN of the cursor, after a poll that found nothing.
abbrev idle_cursor : UsnCursor
idle_cursor = record { journal_id = 1; next_usn = pos 30 }

poll_changes-idle_example :
    (c' c'' : UsnCursor) × (poll_changes (journal_of written) idle_cursor ≡ ok ([], c'))
    × (poll_changes (journal_of (written ++ at_usn (pos 30) 0x100 9 ∷ [])) c' ≡ ok ([], c''))
unfolding since changes_in
poll_changes-idle_example =
    poll_changes-idle (journal_of written) (journal_of (written ++ at_usn (pos 30) 0x100 9 ∷ []))
      idle_cursor written [] (at_usn (pos 30) 0x100 9) (journal_of-Holds written)
      (journal_of-Holds (written ++ at_usn (pos 30) 0x100 9 ∷ [])) refl refl tt
