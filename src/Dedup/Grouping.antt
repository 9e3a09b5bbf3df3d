-- ===== src/Dedup/Grouping.antt =====
-- The groups of `group_matches` in crates/dedup-engine/src/grouping.rs, as lists of indices. The
-- kinds of the matches and the choice of a reference are left out, and so are the sort and the
-- dedup of the members, which are pushed in increasing order, each once.
pub mod Roots
pub mod Classes
pub mod Linked
use hypr_drive.Prelude.{ℕ, Option, some, none, String, List, [], ◌∷◌, ℕ_discrete, ◌>>=◌}
use hypr_drive.Prelude.HashMap.{Visit, get, update}
use hypr_drive.Dedup.UnionFind.{UnionFind, new, range, find}
use hypr_drive.Dedup.UnionFind.Connected.{union_all}
use hypr_drive.Dedup.Scanner.{Groups, or_default, push_at, large_groups}

-- `components.entry(root).or_default()`
abbrev pub enter : ℕ → Groups → Groups
enter root m = update ℕ_discrete root or_default m

unfoldable pub key_roots : UnionFind → List (ℕ × ℕ) → Groups → Option (UnionFind × Groups)
unfolding find
key_roots uf [] m = some (uf, m)
key_roots uf ((a, b) ∷ pairs) m = do (root, next) ← find uf a; key_roots next pairs (enter root m)

-- `if let Some(members) = components.get_mut(&root)`
abbrev pub join : ℕ → ℕ → Option (List ℕ) → Groups → Groups
join root idx none m = m
join root idx (some members) m = push_at root idx m

unfoldable pub collect_members : UnionFind → List ℕ → Groups → Option Groups
unfolding find get
collect_members uf [] m = some m
collect_members uf (idx ∷ rest) m = do
  (root, next) ← find uf idx
  collect_members next rest (join root idx (get ℕ_discrete root m) m)

-- The members of the groups, for `count` files.
unfoldable pub group_members : Visit (ℕ × List ℕ) → ℕ → List (ℕ × ℕ) → Option (List (List ℕ))
unfolding union_all key_roots collect_members large_groups new
group_members vis count [] = some []
group_members vis count (pair ∷ pairs) = do
  uf ← union_all (new count) (pair ∷ pairs)
  (found, keyed) ← key_roots uf (pair ∷ pairs) []
  components ← collect_members found (range 0 count) keyed
  some (large_groups (vis.order components))
