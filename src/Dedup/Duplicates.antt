-- ===== src/Dedup/Duplicates.antt =====
-- The content scan of crates/dedup-engine/src/scanner.rs and the grouping of its pairs in
-- crates/dedup-engine/src/grouping.rs, together.
use mathlib.Core.Option.{some-injective}
use hypr_drive.Prelude.{
  ℕ, zero, suc, ◌<◌, ◌≤◌, ◌≡◌, refl, sym, ap, ◌∙◌, ◌↔◌, ◌⊎◌, Option, some, String, List, [], ◌∷◌,
  false, arith, length, inl, inr,
}
use hypr_drive.Prelude.HashMap.{Visit, All}
use hypr_drive.Prelude.Members.{In, here, there, Before}
use hypr_drive.Dedup.UnionFind.Connected.{Chain, stay, step, Edge, InRange}
use hypr_drive.Dedup.Scanner.{FileEntry, Hashers, should_mid_hash, scan_content}
use hypr_drive.Dedup.Scanner.Content.{size_at, Agree, Duplicates, In-scan_content}
use hypr_drive.Dedup.Grouping.{group_members}
use hypr_drive.Dedup.Grouping.Linked.{group_members-Chain}

All-In : {A : Type 0} (P : A → Type 0) (l : List A) → ((a : A) → In a l → P a) → All P l
All-In P [] f = tt
All-In P (x ∷ l) f = (f x (here x l refl), All-In P l (λ a h. f a (there x l h)))

In-Edge : (i j : ℕ) (pairs : List (ℕ × ℕ)) → In (i, j) pairs → Edge i j pairs
In-Edge i j _ (here (x, y) pairs e) = Edge.first x y pairs (ap (λ e. e.0) e) (ap (λ e. e.1) e)
In-Edge i j _ (there e pairs h) = Edge.later e pairs (In-Edge i j pairs h)

Edge-In : (i j : ℕ) (pairs : List (ℕ × ℕ)) → Edge i j pairs → In (i, j) pairs
Edge-In i j _ (Edge.first x y pairs p q) = here (x, y) pairs (rw (p, q) refl)
Edge-In i j _ (Edge.later e pairs h) = there e pairs (Edge-In i j pairs h)

size_at-in_range :
    (files : List FileEntry) (i : ℕ) {s : ℕ} → size_at files i ≡ some s → i < length files
size_at-in_range [] i e = cc
size_at-in_range (f ∷ files) zero e = omega arith
size_at-in_range (f ∷ files) (suc i) e = omega (arith, size_at-in_range files i e)

module _ (h : Hashers) (files : List FileEntry) (min_size : ℕ) where
  -- Two files agree, whichever comes first.
  record Alike (i j : ℕ) : Type 0 where
    pub size : ℕ
    pub large_enough : min_size ≤ size
    pub left : size_at files i ≡ some size
    pub right : size_at files j ≡ some size
    pub same_start : Agree files h.partial_hash i j
    pub same_middle : (should_mid_hash size ≡ false) ⊎ Agree files h.mid_hash i j
    pub same_content : Agree files h.full_hash i j

  Agree-sym : (hash : String → Option ℕ) (i j : ℕ) → Agree files hash i j → Agree files hash j i
  Agree-sym hash i j (k, e, f) = (k, f, e)

  Agree-trans :
      (hash : String → Option ℕ) (i j k : ℕ)
      → Agree files hash i j
      → Agree files hash j k
      → Agree files hash i k
  Agree-trans hash i j k (a, e, f) (b, e', f') = (b, e ∙ sym f ∙ e', f')

  Alike-sym : (i j : ℕ) → Alike i j → Alike j i
  Alike-sym i j a = record {
    size = a.size;
    large_enough = a.large_enough;
    left = a.right;
    right = a.left;
    same_start = Agree-sym h.partial_hash i j a.same_start;
    same_middle = middle a.same_middle;
    same_content = Agree-sym h.full_hash i j a.same_content;
  }
    where
      middle :
          (should_mid_hash a.size ≡ false) ⊎ Agree files h.mid_hash i j
          → (should_mid_hash a.size ≡ false) ⊎ Agree files h.mid_hash j i
      middle (inl e) = inl e
      middle (inr e) = inr (Agree-sym h.mid_hash i j e)

  Alike-trans : (i j k : ℕ) → Alike i j → Alike j k → Alike i k
  Alike-trans i j k a b = record {
    size = a.size;
    large_enough = a.large_enough;
    left = a.left;
    right = rw same b.right;
    same_start = Agree-trans h.partial_hash i j k a.same_start b.same_start;
    same_middle = middle a.same_middle (rw same b.same_middle);
    same_content = Agree-trans h.full_hash i j k a.same_content b.same_content;
  }
    where
      same : a.size ≡ b.size
      same = some-injective a.size b.size (sym a.right ∙ b.left)

      middle :
          (should_mid_hash a.size ≡ false) ⊎ Agree files h.mid_hash i j
          → (should_mid_hash a.size ≡ false) ⊎ Agree files h.mid_hash j k
          → (should_mid_hash a.size ≡ false) ⊎ Agree files h.mid_hash i k
      middle (inl e) d = inl e
      middle (inr e) (inl d) = inl d
      middle (inr e) (inr d) = inr (Agree-trans h.mid_hash i j k e d)

  Duplicates-Alike : (i j : ℕ) → Duplicates h files min_size i j → Alike i j
  Duplicates-Alike i j d = record {
    size = d.size;
    large_enough = d.large_enough;
    left = d.left;
    right = d.right;
    same_start = d.same_start;
    same_middle = d.same_middle;
    same_content = d.same_content;
  }

  Alike-Duplicates : (i j : ℕ) → i < j → Alike i j → Duplicates h files min_size i j
  Alike-Duplicates i j b a = record {
    earlier = b;
    size = a.size;
    large_enough = a.large_enough;
    left = a.left;
    right = a.right;
    same_start = a.same_start;
    same_middle = a.same_middle;
    same_content = a.same_content;
  }

  further : (i b j : ℕ) → (i ≡ b) ⊎ Alike i b → Alike b j → (i ≡ j) ⊎ Alike i j
  further i b j (inl e) a = inr (rw e a)
  further i b j (inr c) a = inr (Alike-trans i b j c a)

  module _ (vis : Visit (ℕ × List ℕ)) where
    abbrev pub pairs : List (ℕ × ℕ)
    pairs = scan_content h vis files min_size

    Edge-Alike : (i j : ℕ) → Edge i j pairs → Alike i j
    Edge-Alike i j e =
        Duplicates-Alike i j ((In-scan_content h vis files min_size i j).0 (Edge-In i j pairs e))

    -- Agreement is carried along a chain of pairs.
    Chain-Alike : (i j : ℕ) → Chain pairs i j → (i ≡ j) ⊎ Alike i j
    Chain-Alike i j (stay _ e) = inl e
    Chain-Alike i j (step b _ c (inl e)) = further i b j (Chain-Alike i b c) (Edge-Alike b j e)
    Chain-Alike i j (step b _ c (inr e)) =
        further i b j (Chain-Alike i b c) (Alike-sym j b (Edge-Alike j b e))

    pairs-InRange : All (InRange (length files)) pairs
    pairs-InRange = All-In (InRange (length files)) pairs (λ (i, j) n.
        let d = (In-scan_content h vis files min_size i j).0 n in
        (size_at-in_range files i d.left, size_at-in_range files j d.right))

-- Scanning and grouping together, in whatever order the maps are visited: there is no panic, and two
-- files are in one group exactly when they are duplicates, files of one size that is not below the
-- least one whose hashes can be had and agree, the mid hash only from 2 MiB on.
pub group_members-Duplicates :
    (h : Hashers) (scan_order group_order : Visit (ℕ × List ℕ)) (files : List FileEntry)
    (min_size : ℕ)
    → (groups : List (List ℕ)) × (group_members group_order
          (length files)
          (scan_content h scan_order files min_size)
        ≡ some groups)
      × ((i j : ℕ) → ((g : List ℕ) × In g groups × Before i j g) ↔ Duplicates h files min_size i j)
group_members-Duplicates h scan_order group_order files min_size =
    let (groups, e, f) =
      group_members-Chain group_order (length files) (pairs h files min_size scan_order)
        (pairs-InRange h files min_size scan_order) in
    (
      groups,
      e,
      λ i j. (
        λ g.
            let (l, b, c) = (f i j).0 g in
            joined i j l (Chain-Alike h files min_size scan_order i j c),
        λ d. (f i j).1 (
          d.earlier,
          size_at-in_range files j d.right,
          step i j (stay i refl)
              (inl (In-Edge i j _ ((In-scan_content h scan_order files min_size i j).1 d))),
        ),
      ),
    )
  where
    joined :
        (i j : ℕ) → i < j → (i ≡ j) ⊎ Alike h files min_size i j → Duplicates h files min_size i j
    joined i j l (inl e) = absurd (omega arith)
    joined i j l (inr a) = Alike-Duplicates h files min_size i j l a
