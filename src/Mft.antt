-- ===== src/Mft.antt =====
-- crates/fs-indexer/src/platform/windows/mft.rs: the paths of the entries of a master file table,
-- from the numbers of their parents. A `u64` is a number below 2^64; `PathBuf::push` is a parameter.
pub mod Paths
mod Tests
use hypr_drive.Prelude.{
  ℕ, zero, suc, ◌%◌, ◌^◌, Bool, true, false, Option, some, none, String, List, [], ◌∷◌, ℕ_discrete,
}
use hypr_drive.Prelude.HashMap.{get, update}

pub record TopoEntry : Type 0 where
  pub fid : ℕ
  pub parent_fid : ℕ
  pub name : String
  pub is_dir : Bool
  pub attributes : ℕ

-- The lower 48 bits of a file reference.
unfoldable pub record_number : ℕ → ℕ
record_number frn = frn % 2 ^ 48

-- What the map has for an entry: the record number of its parent, and its name.
pub record Parent : Type 0 where
  pub parent : ℕ
  pub name : String

abbrev pub ParentMap : Type 0
ParentMap = List (ℕ × Parent)

unfoldable pub insert_entries : List TopoEntry → ParentMap → ParentMap
insert_entries [] m = m
insert_entries (e ∷ entries) m = insert_entries entries (
    update ℕ_discrete (record_number e.fid)
      (λ _. record { parent = record_number e.parent_fid; name = e.name }) m)

-- `collect` into a map: of entries with one key the last remains.
unfoldable pub build_parent_map : List TopoEntry → ParentMap
unfolding insert_entries
build_parent_map entries = insert_entries entries []

-- The loop up the chain of parents, with the rounds that are left: the components, and whether the
-- root was reached. The vector is kept with its last element first, which is the reversed order
-- that the path is built in.
unfoldable pub walk : ℕ → ParentMap → ℕ → List String → List String × Bool
walk zero m current components = (components, false)
walk (suc n) m current components = elim (get ℕ_discrete current m) [
  | none ↦ (components, false)
  | some p ↦ elim (ℕ_discrete p.parent current) [
    | yes _ ↦ (p.name ∷ components, true)
    | no _ ↦ walk n m p.parent (p.name ∷ components)
  ]
]

abbrev pub max_depth : ℕ
max_depth = 4096

abbrev pub push_all : (String → String → String) → String → List String → String
push_all push path [] = path
push_all push path (name ∷ names) = push_all push (push path name) names

abbrev pub reached : (String → String → String) → String → List String × Bool → Option String
reached push root (components, true) = some (push_all push root components)
reached push root (components, false) = none

unfoldable pub reconstruct_path :
    (String → String → String) → ℕ → ParentMap → String → Option String
unfolding walk
reconstruct_path push fid m root = reached push root (walk max_depth m (record_number fid) [])
