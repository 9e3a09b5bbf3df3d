-- ===== src/Sync/Causal.antt =====
-- `partial_order` of core/src/domain/sync.rs against the pointwise order of the clocks.
use Prim.Native.Nat.{Ordering}
use hypr_drive.Prelude.{
  ℕ, ◌+◌, ◌<◌, ◌≡◌, refl, ◌∙◌, ap, Bool, true, false, ◌||◌, none, some, List, [], ◌∷◌, ◌++◌, Option,
  arith, ltb,
}
use hypr_drive.Prelude.Maps.{lookup, alter, keys}
use hypr_drive.Sync.{
  VectorClock, DeviceId, u64_mod, get, key_set, verdict, scan, all_keys, partial_order, increment,
}
use hypr_drive.Sync.Merge.{Leq, IsValid, get-increment}

any : (DeviceId → Bool) → List DeviceId → Bool
any p [] = false
any p (k ∷ ks) = p k || any p ks

any-alter :
    (p : DeviceId → Bool) (k : DeviceId) (m : List (DeviceId × Unit {0}))
    → any p (keys (alter k (λ _. tt) m)) ≡ p k || any p (keys m)
unfolding any alter
any-alter p k [] = refl
any-alter p k ((j, v) ∷ m) = ground (arith, any-alter p k m)

any-key_set : (p : DeviceId → Bool) (ks : List DeviceId) → any p (keys (key_set ks)) ≡ any p ks
unfolding any key_set
any-key_set p [] = refl
any-key_set p (k ∷ ks) = any-alter p k (key_set ks) ∙ ap (λ b. p k || b) (any-key_set p ks)

any-append : (p : DeviceId → Bool) (xs ys : List DeviceId) → any p (xs ++ ys) ≡ any p xs || any p ys
unfolding any
any-append p [] ys = refl
any-append p (x ∷ xs) ys = ground (arith, any-append p xs ys)

any-none :
    (p : DeviceId → Bool) (k : DeviceId) (m : List (DeviceId × ℕ))
    → any p (keys m) ≡ false
    → p k ≡ true
    → lookup k m ≡ none
unfolding any lookup
any-none p k [] h q = refl
any-none p k ((j, v) ∷ m) h q = ground (arith, any-none p k m)

module _ (a b : VectorClock) where
  abbrev less : DeviceId → Bool
  less k = ltb (get a k) (get b k)

  abbrev greater : DeviceId → Bool
  greater k = ltb (get b k) (get a k)

  scan-any :
      (l g : Bool) (ks : List DeviceId)
      → scan a b l g ks ≡ verdict (l || any less ks) (g || any greater ks)
  unfolding scan any
  scan-any l g [] = ground arith
  scan-any l g (k ∷ ks) = ground (arith, scan-any (l || less k) (g || greater k) ks)

  any-Leq : (ks : List DeviceId) → Leq a b → any greater ks ≡ false
  unfolding any
  any-Leq [] h = refl
  any-Leq (k ∷ ks) h = ground (arith, any-Leq ks h, h k)

  any-Geq : (ks : List DeviceId) → Leq b a → any less ks ≡ false
  unfolding any
  any-Geq [] h = refl
  any-Geq (k ∷ ks) h = ground (arith, any-Geq ks h, h k)

  Leq-any : any greater (all_keys a b) ≡ false → Leq a b
  unfolding all_keys get
  Leq-any h k = ground (
    arith,
    any-none greater k a.entries,
    any-key_set greater (keys a.entries ++ keys b.entries),
    any-append greater (keys a.entries) (keys b.entries),
  )

  Geq-any : any less (all_keys a b) ≡ false → Leq b a
  unfolding all_keys get
  Geq-any h k = ground (
    arith,
    any-none less k b.entries,
    any-key_set less (keys a.entries ++ keys b.entries),
    any-append less (keys a.entries) (keys b.entries),
  )

-- The causal relation of two clocks, as `partial_order` names it.
pub data Related (a b : VectorClock) : Option Ordering → Type 0 where
  same : Leq a b → Leq b a → Related a b (some Ordering.eq)
  before : Leq a b → ¬ Leq b a → Related a b (some Ordering.lt)
  after : ¬ Leq a b → Leq b a → Related a b (some Ordering.gt)
  concurrent : ¬ Leq a b → ¬ Leq b a → Related a b none

module _ (a b : VectorClock) where
  Related-verdict :
      (l g : Bool)
      → any (less a b) (all_keys a b) ≡ l
      → any (greater a b) (all_keys a b) ≡ g
      → Related a b (verdict l g)
  Related-verdict false false p q = same (Leq-any a b q) (Geq-any a b p)
  Related-verdict true false p q =
      before (Leq-any a b q) (λ h. cc (p, any-Geq a b (all_keys a b) h))
  Related-verdict false true p q = after (λ h. cc (q, any-Leq a b (all_keys a b) h)) (Geq-any a b p)
  Related-verdict true true p q =
      concurrent (λ h. cc (q, any-Leq a b (all_keys a b) h))
        (λ h. cc (p, any-Geq a b (all_keys a b) h))

  -- `partial_order` answers `Equal`, `Less`, `Greater` or `None` according to which of the clocks
  -- is below the other at every device: both, the first alone, the second alone, or neither.
  pub partial_order-Related : Related a b (partial_order a b)
  unfolding partial_order
  partial_order-Related =
      rw (scan-any a b false false (all_keys a b)) (Related-verdict _ _ refl refl)

Related-lt :
    {a b : VectorClock} {r : Option Ordering}
    → Related a b r
    → Leq a b
    → ¬ Leq b a
    → r ≡ some Ordering.lt
Related-lt (same p q) h n = absurd (n q)
Related-lt (before p q) h n = refl
Related-lt (after p q) h n = absurd (p h)
Related-lt (concurrent p q) h n = absurd (p h)

-- A device's next event comes after all that its clock has seen, while the counter has room.
pub partial_order-increment :
    (d : DeviceId) (c : VectorClock)
    → IsValid c
    → get c d + 1 < u64_mod
    → partial_order c (increment d c) ≡ some Ordering.lt
partial_order-increment d c v room =
    Related-lt (partial_order-Related c (increment d c))
      (λ k. ground (arith, get-increment d k c v)) (λ h. ground (arith, get-increment d d c v, h d))
