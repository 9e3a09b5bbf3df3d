-- ===== src/Dedup/Tests.antt =====
-- A run of the content scan and the grouping of crates/dedup-engine, and their theorem there.
use hypr_drive.Prelude.{ℕ, ◌≡◌, ◌↔◌, refl, some, none, String, List, [], ◌∷◌, length, ℕ_discrete}
use hypr_drive.Prelude.Int.{pos}
use hypr_drive.Prelude.HashMap.{in_order, get, update}
use hypr_drive.Prelude.Members.{In, Before}
use hypr_drive.Dedup.UnionFind.{new, climb, find_root, compress, find, link, union_roots, union}
use hypr_drive.Dedup.UnionFind.Connected.{union_all}
use hypr_drive.Dedup.Scanner.{
  FileEntry, Hashers, hash_all, group_all, large_groups, refine, sized, retain_large, group_by_size,
  insert_bucket, sort_buckets, pairs_of, groups_for_full, scan_bucket, scan_content,
}
use hypr_drive.Dedup.Scanner.Content.{Duplicates}
use hypr_drive.Dedup.Grouping.{key_roots, collect_members, group_members}
use hypr_drive.Dedup.Duplicates.{group_members-Duplicates}

abbrev file : String → ℕ → FileEntry
file path size = record {
  path = path;
  size = size;
  name = path;
  extension = none;
  modified_at = pos 0;
  inode = none;
}

abbrev hashers : Hashers
hashers = record { partial_hash = λ p. some 0; mid_hash = λ p. none; full_hash = λ p. some 1 }

-- Two classes, by the size, and a file alone.
abbrev files : List FileEntry
files = file "a" 10 ∷ file "b" 20 ∷ file "c" 10 ∷ file "d" 5 ∷ file "e" 20 ∷ file "f" 10 ∷ []

program : Unit {0}
unfolding get update new climb find_root compress find link union_roots union union_all hash_all
    group_all large_groups refine sized retain_large group_by_size insert_bucket sort_buckets
    pairs_of groups_for_full scan_bucket scan_content key_roots collect_members group_members
    ℕ_discrete
program = tt

grouped :
    group_members in_order 6 (scan_content hashers in_order files 1)
    ≡ some ((0 ∷ 2 ∷ 5 ∷ []) ∷ (1 ∷ 4 ∷ []) ∷ [])
unfolding program
grouped = refl

group_members-Duplicates_example :
    (groups : List (List ℕ)) × (group_members in_order
        (length files)
        (scan_content hashers in_order files 1)
      ≡ some groups)
    × ((i j : ℕ) → ((g : List ℕ) × In g groups × Before i j g) ↔ Duplicates hashers files 1 i j)
group_members-Duplicates_example = group_members-Duplicates hashers in_order in_order files 1
