-- ===== src/Dedup/UnionFind/Tests.antt =====
-- Runs of the union-find of crates/dedup-engine/src/grouping.rs, and its theorems at concrete data.
use hypr_drive.Prelude.{ℕ, ◌≡◌, ◌<◌, refl, some, none, List, [], ◌∷◌, arith, length}
use hypr_drive.Dedup.UnionFind.{UnionFind, new, find, union}
use hypr_drive.Dedup.UnionFind.Find.{Found, find_lem}
use hypr_drive.Dedup.UnionFind.Union.{United, union_lem}
use hypr_drive.Dedup.UnionFind.Connected.{union_all, Tracks}
use hypr_drive.Dedup.UnionFind.Components.{new-IsValid, union_all-components}

program : Unit {0}
unfolding new find union union_all
program = tt

abbrev pairs : List (ℕ × ℕ)
pairs = (0, 1) ∷ (2, 3) ∷ (1, 3) ∷ []

joined :
    union_all (new 5) pairs
    ≡ some (record { parent = 0 ∷ 0 ∷ 0 ∷ 2 ∷ 4 ∷ []; rank = 2 ∷ 0 ∷ 1 ∷ 0 ∷ 0 ∷ [] })
unfolding program
joined = refl

-- An index that is out of range panics.
out_of_range : union (new 2) 0 2 ≡ none
unfolding program
out_of_range = refl

new_size : 3 < length (new 5).parent
unfolding program
new_size = omega arith

find_lem_example :
    (answer : ℕ × UnionFind) × (find (new 5) 3 ≡ some answer) × Found (new 5) 3 answer
find_lem_example = find_lem (new 5) 3 (new-IsValid 5) new_size

union_lem_example : (uf : UnionFind) × (union (new 5) 3 3 ≡ some uf) × United (new 5) 3 3 uf
union_lem_example = union_lem (new 5) 3 3 (new-IsValid 5) new_size new_size

union_all-components_example :
    (uf : UnionFind) × (union_all (new 5) pairs ≡ some uf) × Tracks 5 pairs uf
union_all-components_example = union_all-components 5 pairs (omega arith)
