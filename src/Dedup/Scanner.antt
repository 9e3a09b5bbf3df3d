-- ===== src/Dedup/Scanner.antt =====
-- crates/dedup-engine/src/scanner.rs: the pipeline that finds files of equal contents.
-- A `[u8; 32]` is the number of its bytes. The hash functions of crates/dedup-engine/src/hasher.rs
-- read files and call BLAKE3: they are parameters, by the path, `none` where they fail. The order
-- in which a hash map is visited is a parameter; parallel maps keep the order of their inputs.
pub mod Stages
pub mod Content
mod Tests
use hypr_drive.Prelude.{
  ℕ, zero, suc, ◌+◌, ◌*◌, Bool, Option, some, none, String, List, [], ◌∷◌, ◌++◌, map, length,
  get_elem?, leb, ltb, if◌then◌else◌, ℕ_discrete,
}
use hypr_drive.Prelude.Int.{ℤ}
use hypr_drive.Prelude.HashMap.{Visit, update}
use hypr_drive.Prelude.Members.{flat_map}

pub record FileEntry : Type 0 where
  pub path : String
  pub size : ℕ
  pub name : String
  pub extension : Option String
  pub modified_at : ℤ
  pub inode : Option ℕ

pub record Hashers : Type 0 where
  pub partial_hash : String → Option ℕ
  pub mid_hash : String → Option ℕ
  pub full_hash : String → Option ℕ

abbrev pub Groups : Type 0
Groups = List (ℕ × List ℕ)

abbrev pub or_default : Option (List ℕ) → List ℕ
or_default none = []
or_default (some group) = group

-- `groups.entry(key).or_default().push(idx)`
abbrev pub push_at : ℕ → ℕ → Groups → Groups
push_at key idx groups = update ℕ_discrete key (λ o. or_default o ++ idx ∷ []) groups

abbrev pub at_least_two : List ℕ → Bool
at_least_two group = leb 2 (length group)

-- The groups of two and more, in the order of the visit.
unfoldable pub large_groups : Groups → List (List ℕ)
large_groups [] = []
large_groups ((key, group) ∷ groups) =
    if at_least_two group then group ∷ large_groups groups else large_groups groups

-- The indices that could be hashed, with their hashes.
abbrev pub with_hash : ℕ → Option ℕ → List (ℕ × ℕ) → List (ℕ × ℕ)
with_hash idx none rest = rest
with_hash idx (some key) rest = (idx, key) ∷ rest

unfoldable pub hash_all : (ℕ → Option ℕ) → List ℕ → List (ℕ × ℕ)
hash_all hash [] = []
hash_all hash (idx ∷ group) = with_hash idx (hash idx) (hash_all hash group)

-- The loop that groups indices by a key.
unfoldable pub group_all : List (ℕ × ℕ) → Groups → Groups
group_all [] groups = groups
group_all ((idx, key) ∷ rest) groups = group_all rest (push_at key idx groups)

-- One stage on one group: hash, group by the hash, keep the groups of two and more.
unfoldable pub refine : Visit (ℕ × List ℕ) → (ℕ → Option ℕ) → List ℕ → List (List ℕ)
unfolding large_groups hash_all group_all
refine vis hash group = large_groups (vis.order (group_all (hash_all hash group) []))

-- `files.iter().enumerate()`, from an index on: the indices with the sizes that are kept.
unfoldable pub sized : ℕ → ℕ → List FileEntry → List (ℕ × ℕ)
sized min_size i [] = []
sized min_size i (f ∷ files) =
    if ltb f.size min_size
    then sized min_size (suc i) files
    else (i, f.size) ∷ sized min_size (suc i) files

-- `buckets.retain(|_, v| v.len() >= 2)`
unfoldable pub retain_large : Groups → Groups
retain_large [] = []
retain_large ((key, group) ∷ groups) =
    if at_least_two group then (key, group) ∷ retain_large groups else retain_large groups

unfoldable pub group_by_size : List FileEntry → ℕ → Groups
unfolding sized group_all retain_large
group_by_size files min_size = retain_large (group_all (sized min_size 0 files) [])

-- `sort_by_key(|(size, _)| *size)`, by insertion: the documented effect of the stable sort.
unfoldable pub insert_bucket : ℕ × List ℕ → Groups → Groups
insert_bucket bucket [] = bucket ∷ []
insert_bucket bucket (b ∷ buckets) =
    if leb bucket.0 b.0 then bucket ∷ b ∷ buckets else b ∷ insert_bucket bucket buckets

unfoldable pub sort_buckets : Groups → Groups
unfolding insert_bucket
sort_buckets [] = []
sort_buckets (bucket ∷ buckets) = insert_bucket bucket (sort_buckets buckets)

abbrev pub mid_hash_min_file_size : ℕ
mid_hash_min_file_size = 2 * 1024 * 1024

abbrev pub should_mid_hash : ℕ → Bool
should_mid_hash file_size = leb mid_hash_min_file_size file_size

-- The pairs of a group, the earlier index first.
unfoldable pub pairs_of : List ℕ → List (ℕ × ℕ)
pairs_of [] = []
pairs_of (i ∷ group) = map (λ j. (i, j)) group ++ pairs_of group

module _ (files : List FileEntry) where
  abbrev hash_of : (String → Option ℕ) → Option FileEntry → Option ℕ
  hash_of hash none = none
  hash_of hash (some f) = hash f.path

  -- The hash of the file at an index.
  abbrev pub hash_at : (String → Option ℕ) → ℕ → Option ℕ
  hash_at hash idx = hash_of hash (get_elem? files idx)

module _ (h : Hashers) (vis : Visit (ℕ × List ℕ)) (files : List FileEntry) where
  -- The groups that a bucket leaves for the full hash.
  unfoldable pub groups_for_full : ℕ → List ℕ → List (List ℕ)
  unfolding refine
  groups_for_full file_size bucket =
      let partial_groups = refine vis (hash_at files h.partial_hash) bucket in
      if should_mid_hash file_size
      then flat_map (refine vis (hash_at files h.mid_hash)) partial_groups
      else partial_groups

  -- The work on one bucket of one size.
  unfoldable pub scan_bucket : ℕ × List ℕ → List (ℕ × ℕ)
  unfolding groups_for_full refine pairs_of
  scan_bucket (file_size, bucket) =
      if at_least_two bucket
      then flat_map (λ group. flat_map pairs_of (refine vis (hash_at files h.full_hash) group))
          (groups_for_full file_size bucket)
      else []

  -- The pairs of indices, all of kind `Content`.
  unfoldable pub scan_content : ℕ → List (ℕ × ℕ)
  unfolding scan_bucket group_by_size sort_buckets
  scan_content min_size =
      flat_map scan_bucket (sort_buckets (vis.order (group_by_size files min_size)))
