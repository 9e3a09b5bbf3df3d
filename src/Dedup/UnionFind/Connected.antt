-- ===== src/Dedup/UnionFind/Connected.antt =====
-- A run of unions in crates/dedup-engine/src/grouping.rs against the graph of the pairs.
use hypr_drive.Prelude.{
  ℕ, ◌<◌, ◌≡◌, ◌↔◌, refl, ◌∙◌, Option, some, List, [], ◌∷◌, arith, length, inl, inr, ◌⊎◌, ◌>>=◌,
}
use hypr_drive.Prelude.HashMap.{All}
use hypr_drive.Dedup.UnionFind.{UnionFind, find, union}
use hypr_drive.Dedup.UnionFind.Root.{Root-unique}
use hypr_drive.Dedup.UnionFind.Find.{IsValid, Found}
use hypr_drive.Dedup.UnionFind.Union.{Same, root_exists, United, reflect}

-- The loop of `group_matches` on the pairs, without the kinds of the matches: each union, and the
-- `find` after it, whose root is the key of the kind.
unfoldable pub union_all : UnionFind → List (ℕ × ℕ) → Option UnionFind
union_all uf [] = some uf
union_all uf ((a, b) ∷ pairs) = do
  next ← union uf a b
  (root, found) ← find next a
  union_all found pairs

pub data Edge (a b : ℕ) : List (ℕ × ℕ) → Type 0 where
  first : (x y : ℕ) (pairs : List (ℕ × ℕ)) → a ≡ x → b ≡ y → Edge a b ((x, y) ∷ pairs)
  later : (e : ℕ × ℕ) (pairs : List (ℕ × ℕ)) → Edge a b pairs → Edge a b (e ∷ pairs)

-- A path along the pairs, each of them walked in either direction.
pub data Chain (pairs : List (ℕ × ℕ)) (a : ℕ) : ℕ → Type 0 where
  stay : (b : ℕ) → a ≡ b → Chain pairs a b
  step : (b c : ℕ) → Chain pairs a b → Edge b c pairs ⊎ Edge c b pairs → Chain pairs a c

module _ {pairs : List (ℕ × ℕ)} where
  Chain-trans : {a b c : ℕ} → Chain pairs a b → Chain pairs b c → Chain pairs a c
  Chain-trans h (stay c e) = rw (← e) h
  Chain-trans h (step c d k e) = step c d (Chain-trans h k) e

  Chain-edge : {a b : ℕ} → Edge a b pairs → Chain pairs a b
  Chain-edge {a} {b} e = step a b (stay a refl) (inl e)

  Chain-weaken : (e : ℕ × ℕ) {a b : ℕ} → Chain pairs a b → Chain (e ∷ pairs) a b
  Chain-weaken e (stay b p) = stay b p
  Chain-weaken e (step b c h (inl k)) = step b c (Chain-weaken e h) (inl (later e pairs k))
  Chain-weaken e (step b c h (inr k)) = step b c (Chain-weaken e h) (inr (later e pairs k))

-- The sets of the union-find are the connected components of the pairs.
pub record Tracks (n : ℕ) (pairs : List (ℕ × ℕ)) (uf : UnionFind) : Type 0 where
  pub valid : IsValid uf
  pub size : length uf.parent ≡ n
  pub sets : (a b : ℕ) → a < n → b < n → Same uf a b ↔ Chain pairs a b

abbrev pub InRange : ℕ → ℕ × ℕ → Type 0
InRange n (a, b) = (a < n) × (b < n)

pub Edge-InRange :
    (n : ℕ) {a b : ℕ} {pairs : List (ℕ × ℕ)}
    → All (InRange n) pairs
    → Edge a b pairs
    → (a < n) × (b < n)
Edge-InRange n h (first x y pairs e f) = omega arith
Edge-InRange n h (later e pairs k) = Edge-InRange n h.1 k

module _ {n : ℕ} {pairs : List (ℕ × ℕ)} {uf uf' : UnionFind} (x y : ℕ)
    (bounds : All (InRange n) ((x, y) ∷ pairs)) (t : Tracks n pairs uf)
    (u : United uf x y uf') where
  joined-Chain : (a b : ℕ) → a < n → b < n → Same uf' a b → Chain ((x, y) ∷ pairs) a b
  joined-Chain a b ba bb h = walk ((u.joins a b (rw t.size ba) (rw t.size bb)).0 h)
    where
      old : (c d : ℕ) → c < n → d < n → Same uf c d → Chain ((x, y) ∷ pairs) c d
      old c d bc bd k = Chain-weaken (x, y) ((t.sets c d bc bd).0 k)

      edge : Edge x y ((x, y) ∷ pairs)
      edge = first x y pairs refl refl

      walk :
          (Same uf a b ⊎ ((Same uf a x × Same uf y b) ⊎ (Same uf a y × Same uf x b)))
          → Chain ((x, y) ∷ pairs) a b
      walk (inl k) = old a b ba bb k
      walk (inr (inl (k, l))) =
          Chain-trans (step x y (old a x ba bounds.0.0 k) (inl edge)) (old y b bounds.0.1 bb l)
      walk (inr (inr (k, l))) =
          Chain-trans (step y x (old a y ba bounds.0.1 k) (inr edge)) (old x b bounds.0.0 bb l)

  Same-self : (a : ℕ) → a < n → Same uf' a a
  Same-self a b = let (r, h) = root_exists uf' a u.valid (rw (u.same_length, t.size) b) in (r, h, h)

  Same-edge : (a b : ℕ) → Edge a b ((x, y) ∷ pairs) → Same uf' a b
  Same-edge a b e =
      let (ba, bb) = Edge-InRange n bounds e in
      (u.joins a b (rw t.size ba) (rw t.size bb)).1 (by_edge a b e ba bb)
    where
      self : (c : ℕ) → c < n → Same uf c c
      self c bc = let (r, h) = root_exists uf c t.valid (rw t.size bc) in (r, h, h)

      by_edge :
          (a b : ℕ)
          → Edge a b ((x, y) ∷ pairs)
          → a < n
          → b < n
          → (Same uf a b ⊎ ((Same uf a x × Same uf y b) ⊎ (Same uf a y × Same uf x b)))
      by_edge a b (first _ _ _ p q) ba bb =
          inr (inl ((rw p (self x bounds.0.0)), (rw q (self y bounds.0.1))))
      by_edge a b (later _ _ k) ba bb = inl ((t.sets a b ba bb).1 (Chain-edge k))

  Same-trans : {a b c : ℕ} → Same uf' a b → Same uf' b c → Same uf' a c
  Same-trans (r, h, k) (s, l, m) = (r, h, (rw (Root-unique k l) m))

  Chain-joined : (a b : ℕ) → a < n → Chain ((x, y) ∷ pairs) a b → Same uf' a b
  Chain-joined a b ba (stay _ e) = rw (← e) (Same-self a ba)
  Chain-joined a c ba (step b _ h (inl e)) = Same-trans (Chain-joined a b ba h) (Same-edge b c e)
  Chain-joined a c ba (step b _ h (inr e)) =
      let (r, p, q) = Same-edge c b e in Same-trans (Chain-joined a b ba h) (r, q, p)

  pub Tracks-union : Tracks n ((x, y) ∷ pairs) uf'
  Tracks-union = record {
    valid = u.valid;
    size = u.same_length ∙ t.size;
    sets = λ a b ba bb. (joined-Chain a b ba bb, Chain-joined a b ba);
  }

-- A find changes no set.
pub Tracks-find :
    {n : ℕ} {pairs : List (ℕ × ℕ)} {uf : UnionFind} (x : ℕ) {answer : ℕ × UnionFind}
    → Tracks n pairs uf
    → Found uf x answer
    → Tracks n pairs answer.1
Tracks-find {n} {pairs} {uf} x {answer} t f = record {
  valid = f.valid;
  size = f.same_length ∙ t.size;
  sets = λ a b ba bb. (
    λ (r, h, k). (t.sets a b ba bb).0 (
      r,
      reflect uf answer.1 t.valid f.same_roots a r (rw t.size ba) h,
      reflect uf answer.1 t.valid f.same_roots b r (rw t.size bb) k,
    ),
    λ c. let (r, h, k) = (t.sets a b ba bb).1 c in (r, f.same_roots a r h, f.same_roots b r k),
  );
}
