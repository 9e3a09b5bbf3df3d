-- ===== src/Dedup/Grouping/Roots.antt =====
-- The loops of `group_matches` in crates/dedup-engine/src/grouping.rs, by the roots that the
-- union-find has before them.
use hypr_drive.Prelude.{
  ℕ, ◌<◌, ◌≡◌, refl, ◌∙◌, Option, some, none, List, [], ◌∷◌, length, ℕ_discrete,
}
use hypr_drive.Prelude.HashMap.{All, get}
use hypr_drive.Dedup.UnionFind.{UnionFind, find}
use hypr_drive.Dedup.UnionFind.Root.{Root, Root-unique}
use hypr_drive.Dedup.UnionFind.Find.{IsValid, find_lem}
use hypr_drive.Dedup.Scanner.{Groups}
use hypr_drive.Dedup.Grouping.{enter, join, key_roots, collect_members}

abbrev first_of : Option (ℕ × UnionFind) → ℕ
first_of none = 0
first_of (some (root, uf)) = root

-- The root of an element, as `find` gives it.
pub root_of : UnionFind → ℕ → ℕ
root_of uf x = first_of (find uf x)

pub root_of-Root :
    (uf : UnionFind) (x : ℕ) → IsValid uf → x < length uf.parent → Root uf.parent x (root_of uf x)
unfolding root_of
root_of-Root uf x v b = let (answer, e, f) = find_lem uf x v b in rw e f.root

-- Another state of the union-find, with the same roots.
pub record Keeps (start uf : UnionFind) : Type 0 where
  pub valid : IsValid uf
  pub same_length : length uf.parent ≡ length start.parent
  pub same_roots : (y s : ℕ) → Root start.parent y s → Root uf.parent y s

pub Keeps-refl : (uf : UnionFind) → IsValid uf → Keeps uf uf
Keeps-refl uf v = record { valid = v; same_length = refl; same_roots = λ y s r. r }

module _ (start : UnionFind) where
  -- The keys that the first loop enters.
  abbrev pub entered : List (ℕ × ℕ) → Groups → Groups
  entered [] m = m
  entered ((a, b) ∷ pairs) m = entered pairs (enter (root_of start a) m)

  -- The members that the second loop pushes.
  abbrev pub joined : List ℕ → Groups → Groups
  joined [] m = m
  joined (x ∷ xs) m = joined xs (join (root_of start x) x (get ℕ_discrete (root_of start x) m) m)

module _ (start : UnionFind) (v : IsValid start) where
  find-Keeps :
      (uf : UnionFind) (x : ℕ)
      → Keeps start uf
      → x < length start.parent
      → (next : UnionFind) × (find uf x ≡ some (root_of start x, next)) × Keeps start next
  find-Keeps uf x k b =
      let (answer, e, f) = find_lem uf x k.valid (rw k.same_length b) in
      let q : answer.0 ≡ root_of start x =
        Root-unique f.root (k.same_roots x (root_of start x) (root_of-Root start x v b)) in
      (
        answer.1,
        rw (← q) e,
        record {
          valid = f.valid;
          same_length = f.same_length ∙ k.same_length;
          same_roots = λ y s r. f.same_roots y s (k.same_roots y s r);
        },
      )

  pub key_roots-entered :
      (pairs : List (ℕ × ℕ)) (uf : UnionFind) (m : Groups)
      → Keeps start uf
      → All (λ e. e.0 < length start.parent) pairs
      → (next : UnionFind) × (key_roots uf pairs m ≡ some (next, entered start pairs m))
        × Keeps start next
  unfolding key_roots
  key_roots-entered [] uf m k b = (uf, refl, k)
  key_roots-entered ((x, y) ∷ pairs) uf m k b =
      let (next, e, k') = find-Keeps uf x k b.0 in
      let (last, f, k'') = key_roots-entered pairs next (enter (root_of start x) m) k' b.1 in
      (last, rw e f, k'')

  pub collect_members-joined :
      (xs : List ℕ) (uf : UnionFind) (m : Groups)
      → Keeps start uf
      → All (λ x. x < length start.parent) xs
      → collect_members uf xs m ≡ some (joined start xs m)
  unfolding collect_members
  collect_members-joined [] uf m k b = refl
  collect_members-joined (x ∷ xs) uf m k b =
      let (next, e, k') = find-Keeps uf x k b.0 in rw e (collect_members-joined xs next _ k' b.1)
