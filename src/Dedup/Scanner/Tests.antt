-- ===== src/Dedup/Scanner/Tests.antt =====
-- A run of the content scan of crates/dedup-engine/src/scanner.rs, and its theorem at that run.
use hypr_drive.Prelude.{ℕ, ◌≡◌, ◌↔◌, refl, Option, some, none, String, List, [], ◌∷◌, ℕ_discrete}
use hypr_drive.Prelude.Int.{pos}
use hypr_drive.Prelude.HashMap.{in_order, update}
use hypr_drive.Prelude.Members.{In}
use hypr_drive.Dedup.Scanner.{
  FileEntry, Hashers, hash_all, group_all, large_groups, refine, sized, retain_large, group_by_size,
  insert_bucket, sort_buckets, pairs_of, groups_for_full, scan_bucket, scan_content,
}
use hypr_drive.Dedup.Scanner.Content.{Duplicates, In-scan_content}

abbrev file : String → ℕ → FileEntry
file path size = record {
  path = path;
  size = size;
  name = path;
  extension = none;
  modified_at = pos 0;
  inode = none;
}

abbrev text_test : String → Option ℕ
text_test path = elim (Prim.Native.String.compare path "m") [
  | Prim.Native.Nat.Ordering.lt ↦ some 1
  | _ ↦ some 2
]

-- Contents by the first letter of the path; the mid hash cannot be had.
abbrev hashers : Hashers
hashers = record { partial_hash = λ p. some 0; mid_hash = λ p. none; full_hash = text_test }

abbrev files : List FileEntry
files = file "a" 10 ∷ file "x" 10 ∷ file "b" 10 ∷ file "y" 20 ∷ file "c" 10 ∷ file "d" 0 ∷ []

scanned : scan_content hashers in_order files 1 ≡ (0, 2) ∷ (0, 4) ∷ (2, 4) ∷ []
unfolding scan_content scan_bucket group_by_size sort_buckets insert_bucket retain_large sized
    group_all hash_all large_groups refine pairs_of groups_for_full update ℕ_discrete
scanned = refl

In-scan_content_example :
    In (0, 2) (scan_content hashers in_order files 1) ↔ Duplicates hashers files 1 0 2
In-scan_content_example = In-scan_content hashers in_order files 1 0 2
