-- ===== src/Mft/Tests.antt =====
-- A path of crates/fs-indexer/src/platform/windows/mft.rs at a concrete table.
use hypr_drive.Prelude.{
  ℕ, ◌+◌, ◌*◌, ◌^◌, ◌≤◌, ◌≡◌, ◌↔◌, refl, true, some, String, List, [], ◌∷◌, length, ℕ_discrete,
}
use Prim.Native.String.{◌++◌}
use hypr_drive.Prelude.HashMap.{get, update}
use hypr_drive.Mft.{
  TopoEntry, ParentMap, record_number, build_parent_map, insert_entries, walk, max_depth, push_all,
  reconstruct_path,
}
use hypr_drive.Mft.Paths.{NamesTo, reconstruct_path-NamesTo}

abbrev topo : ℕ → ℕ → String → TopoEntry
topo fid parent_fid name = record {
  fid = fid;
  parent_fid = parent_fid;
  name = name;
  is_dir = true;
  attributes = 0;
}

-- The root, a directory whose reference has a sequence number, and a file that refers to it by
-- another one.
abbrev table : ParentMap
table =
    build_parent_map
      (topo 5 5 "." ∷ topo (30 + 2 ^ 48) 5 "docs" ∷ topo 31 (30 + 3 * 2 ^ 48) "a.txt" ∷ [])

abbrev push : String → String → String
push path name = path ++ "/" ++ name

found : reconstruct_path push 31 table "C:" ≡ some "C:/./docs/a.txt"
unfolding reconstruct_path walk build_parent_map insert_entries record_number get update ℕ_discrete
found = refl

reconstruct_path-NamesTo_example :
    (reconstruct_path push 31 table "C:" ≡ some "C:/./docs/a.txt") ↔ (
      (names : List String) × NamesTo table (record_number 31) names
      × (length names ≤ max_depth)
      × ("C:/./docs/a.txt" ≡ push_all push "C:" names))
reconstruct_path-NamesTo_example = reconstruct_path-NamesTo push 31 table "C:" "C:/./docs/a.txt"
