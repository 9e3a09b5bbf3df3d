-- ===== src/Mft/Paths.antt =====
-- The paths that crates/fs-indexer/src/platform/windows/mft.rs reconstructs, against the chains of
-- parents.
use mathlib.Core.Bool.{false≢true}
use mathlib.Core.List.{append_assoc, append-nil}
use hypr_drive.Prelude.{
  ℕ, zero, suc, ◌≤◌, ◌≡◌, ◌≢◌, ◌↔◌, refl, sym, ap, ◌∙◌, Bool, true, false, some, none, String, List,
  [], ◌∷◌, ◌++◌, length, length-append, arith, Option-cases, inl, inr, ℕ_discrete,
}
use hypr_drive.Prelude.HashMap.{get}
use hypr_drive.Mft.{
  Parent, ParentMap, record_number, walk, max_depth, push_all, reached, reconstruct_path,
}

-- The names on the way from the root, an entry that is its own parent, down to an entry.
pub data NamesTo (m : ParentMap) : ℕ → List String → Type 0 where
  at_root :
      (current : ℕ) (p : Parent)
      → get ℕ_discrete current m ≡ some p
      → p.parent ≡ current
      → NamesTo m current (p.name ∷ [])
  below :
      (current : ℕ) (p : Parent) (names : List String)
      → get ℕ_discrete current m ≡ some p
      → p.parent ≢ current
      → NamesTo m p.parent names
      → NamesTo m current (names ++ p.name ∷ [])

not_reached :
    (components found : List String)
    → ¬ (◌≡◌ {A = List String × Bool} (components, false) (found, true))
not_reached components found e = false≢true (ap (λ s. s.1) e)

walk-zero :
    (m : ParentMap) (current : ℕ) (components : List String)
    → walk zero m current components ≡ (components, false)
unfolding walk
walk-zero m current components = refl

walk-lost :
    (n : ℕ) (m : ParentMap) (current : ℕ) (components : List String)
    → get ℕ_discrete current m ≡ none
    → walk (suc n) m current components ≡ (components, false)
unfolding walk
walk-lost n m current components e = rw (walk, e)

walk-root :
    (n : ℕ) (m : ParentMap) (current : ℕ) (components : List String) (p : Parent)
    → get ℕ_discrete current m ≡ some p
    → p.parent ≡ current
    → walk (suc n) m current components ≡ (p.name ∷ components, true)
unfolding walk
walk-root n m current components p e q = rw (walk, e) (ground arith)

walk-below :
    (n : ℕ) (m : ParentMap) (current : ℕ) (components : List String) (p : Parent)
    → get ℕ_discrete current m ≡ some p
    → p.parent ≢ current
    → walk (suc n) m current components ≡ walk n m p.parent (p.name ∷ components)
unfolding walk
walk-below n m current components p e q = rw (walk, e) (ground arith)

-- What a walk of at most `n` rounds ends with.
abbrev Reaches : ℕ → ParentMap → ℕ → List String → List String → Type 0
Reaches n m current components found =
    (names : List String) × NamesTo m current names
    × (length names ≤ n)
    × (found ≡ names ++ components)

walk-Reaches :
    (n : ℕ) (m : ParentMap) (current : ℕ) (components found : List String)
    → walk n m current components ≡ (found, true)
    → Reaches n m current components found
walk-Reaches zero m current components found h =
    absurd (not_reached components found (sym (walk-zero m current components) ∙ h))
walk-Reaches (suc n) m current components found h = elim (Option-cases (get ℕ_discrete current m)) [
  | inl e ↦ absurd (not_reached components found (sym (walk-lost n m current components e) ∙ h))
  | inr (p, e) ↦ elim (ℕ_discrete p.parent current) [
    | yes q ↦
        let r = sym (walk-root n m current components p e q) ∙ h in
        (p.name ∷ [], at_root current p e q, omega arith, sym (ap (λ s. s.0) r))
    | no q ↦
        let r = sym (walk-below n m current components p e q) ∙ h in
        let (names, path, short, same) = walk-Reaches n m p.parent (p.name ∷ components) found r in
        (
          names ++ p.name ∷ [],
          below current p names e q path,
          omega (arith, length-append names (p.name ∷ [])),
          same ∙ sym (append_assoc names (p.name ∷ []) components),
        )
  ]
]

Reaches-walk :
    (n : ℕ) (m : ParentMap) (current : ℕ) (components : List String) {names : List String}
    → NamesTo m current names
    → length names ≤ n
    → walk n m current components ≡ (names ++ components, true)
Reaches-walk zero m current components (at_root _ p e q) h = absurd (omega arith)
Reaches-walk zero m current components (below _ p names e q path) h =
    absurd (omega (arith, length-append names (p.name ∷ [])))
Reaches-walk (suc n) m current components (at_root _ p e q) h =
    walk-root n m current components p e q
Reaches-walk (suc n) m current components (below _ p names e q path) h =
    walk-below n m current components p e q
    ∙ Reaches-walk n m p.parent (p.name ∷ components) path
        (omega (arith, length-append names (p.name ∷ [])))
    ∙ ap (λ s. (s, true)) (sym (append_assoc names (p.name ∷ []) components))

-- A path is reconstructed exactly for an entry from which the parents lead to a root, an entry that
-- is its own parent, over at most 4096 entries with both ends, and it is the volume's root with the
-- names on the way pushed, from the root entry down.
pub reconstruct_path-NamesTo :
    (push : String → String → String) (fid : ℕ) (m : ParentMap) (root path : String)
    → (reconstruct_path push fid m root ≡ some path) ↔ (
        (names : List String) × NamesTo m (record_number fid) names
        × (length names ≤ max_depth)
        × (path ≡ push_all push root names))
unfolding reconstruct_path
reconstruct_path-NamesTo push fid m root path = (
  λ h. there (walk max_depth m (record_number fid) []) refl h,
  λ (names, way, short, same).
      ap (reached push root) (Reaches-walk max_depth m (record_number fid) [] way short)
      ∙ ap (λ ns. some (push_all push root ns)) (append-nil names)
      ∙ ap some (sym same),
)
  where
    there :
        (s : List String × Bool)
        → walk max_depth m (record_number fid) [] ≡ s
        → reached push root s ≡ some path
        → (names : List String) × NamesTo m (record_number fid) names
          × (length names ≤ max_depth)
          × (path ≡ push_all push root names)
    there (found, true) e h =
        let (names, way, short, same) = walk-Reaches max_depth m (record_number fid) [] found e in
        let built : push_all push root found ≡ path = cc in
        (names, way, short, sym built ∙ ap (push_all push root) (same ∙ append-nil names))
    there (found, false) e h = cc
