-- ===== src/Dedup/UnionFind.antt =====
-- crates/dedup-engine/src/grouping.rs: the union-find with path compression and rank.
-- `none` is a panic: an index out of bounds. The `while` loops run on fuel; `climb` is enough,
-- since every parent has a higher rank than its child.
pub mod Root
pub mod Find
pub mod Link
pub mod Union
pub mod Connected
pub mod Components
mod Tests
use hypr_drive.Prelude.{
  ℕ, zero, suc, ◌+◌, Option, some, none, List, [], ◌∷◌, ◌==◌, if◌then◌else◌, get_elem?, set,
  replicate, ◌>>=◌, compare, Ordering, max,
}

pub record UnionFind : Type 0 where
  pub parent : List ℕ
  pub rank : List ℕ

-- `(i..i + n).collect()`
abbrev pub range : ℕ → ℕ → List ℕ
range i zero = []
range i (suc n) = i ∷ range (suc i) n

unfoldable pub new : ℕ → UnionFind
new n = record { parent = range 0 n; rank = replicate n 0 }

abbrev pub largest : List ℕ → ℕ
largest [] = 0
largest (r ∷ rs) = max r (largest rs)

-- The fuel of both loops of `find`.
unfoldable pub climb : UnionFind → ℕ
climb uf = suc (largest uf.rank)

-- Pass 1 of `find`: `while self.parent[root] != root`.
unfoldable pub find_root : ℕ → List ℕ → ℕ → Option ℕ
find_root zero parent root = none
find_root (suc fuel) parent root = do
  up ← get_elem? parent root
  let rest = find_root fuel parent up
  if up == root then some root else rest

-- Pass 2 of `find`: `while current != root`.
unfoldable pub compress : ℕ → List ℕ → ℕ → ℕ → Option (List ℕ)
compress zero parent root current = none
compress (suc fuel) parent root current =
    let rest = (do
      next ← get_elem? parent current
      compress fuel (set parent current root) root next) in
    if current == root then some parent else rest

unfoldable pub find : UnionFind → ℕ → Option (ℕ × UnionFind)
unfolding find_root compress climb
find uf x = do
  root ← find_root (climb uf) uf.parent x
  parent ← compress (climb uf) uf.parent root x
  some (root, record uf { parent = parent })

-- The `match` on the ranks of the two roots.
unfoldable pub link : UnionFind → ℕ → ℕ → ℕ → Ordering → UnionFind
link uf rx ry rank_x Ordering.lt = record uf { parent = set uf.parent rx ry }
link uf rx ry rank_x Ordering.gt = record uf { parent = set uf.parent ry rx }
link uf rx ry rank_x Ordering.eq = record uf {
  parent = set uf.parent ry rx;
  rank = set uf.rank rx (rank_x + 1);
}

unfoldable pub union_roots : UnionFind → ℕ → ℕ → Option UnionFind
unfolding link
union_roots uf rx ry = if rx == ry then some uf else do
  rank_x ← get_elem? uf.rank rx
  rank_y ← get_elem? uf.rank ry
  some (link uf rx ry rank_x (compare rank_x rank_y))

unfoldable pub union : UnionFind → ℕ → ℕ → Option UnionFind
unfolding find union_roots
union uf x y = do (rx, uf1) ← find uf x; (ry, uf2) ← find uf1 y; union_roots uf2 rx ry
