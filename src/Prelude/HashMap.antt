-- ===== src/Prelude/HashMap.antt =====
-- Hash maps of the standard library: a list of entries with distinct keys. The order in which a
-- `HashMap` is iterated is unspecified, so a client takes it as a parameter, `Visit`.
use mathlib.Core.List.Permᴰ
use mathlib.Core.List.{Permᴰ}
use mathlib.Core.Logic.{ite, if_pos, if_neg}
use hypr_drive.Prelude.Lists.{length}
use Prim.Native.Nat.{suc, ◌≤◌}
use mathlib.Core.Path.{◌≡◌, refl, sym, ap, ◌∙◌}
use mathlib.Core.Logic.{◌≢◌}
use mathlib.Core.List.{List, [], ◌∷◌, ◌++◌, map, filter, map-append, filter-append}
use mathlib.Core.Option.{Option, none, some}
use native.Mathlib.Omega.{arith}

-- An iteration order: every entry of the map is visited once.
pub record Visit {ℓ} (E : Type ℓ) : Type ℓ where
  pub order : List E → List E
  pub once : (m : List E) → Permᴰ (order m) m

abbrev pub in_order {ℓ} : {E : Type ℓ} → Visit E
in_order = record { order = λ m. m; once = λ m. Permᴰ.refl m }

abbrev pub All {ℓ κ} : {E : Type ℓ} → (E → Type κ) → List E → Type κ
All P [] = Unit
All P (x ∷ xs) = P x × All P xs

pub All-mono {ℓ κ ι} :
    {E : Type ℓ} {P : E → Type κ} {Q : E → Type ι}
    → ((e : E) → P e → Q e)
    → (l : List E) → All P l
    → All Q l
All-mono f [] a = tt
All-mono f (x ∷ l) a = (f x a.0, All-mono f l a.1)

pub All-Permᴰ {ℓ κ} : {E : Type ℓ} (P : E → Type κ) {l m : List E} → Permᴰ l m → All P l → All P m
All-Permᴰ P Permᴰ.nil a = tt
All-Permᴰ P (Permᴰ.cons e p) a = (rw e at a.0, All-Permᴰ P p a.1)
All-Permᴰ P (Permᴰ.swap e f) a = (rw f at a.1.0, (rw e at a.0, a.1.1))
All-Permᴰ P (Permᴰ.trans p q) a = All-Permᴰ P q (All-Permᴰ P p a)

-- Rearranging at most one entry changes nothing.
pub Permᴰ-short {ℓ} : {E : Type ℓ} {l m : List E} → Permᴰ l m → length l ≤ 1 → l ≡ m
Permᴰ-short Permᴰ.nil h = refl
Permᴰ-short (Permᴰ.cons e p) h = rw (e, Permᴰ-short p (omega arith))
Permᴰ-short (Permᴰ.swap e f) h = absurd (omega arith)
Permᴰ-short (Permᴰ.trans p q) h = let e = Permᴰ-short p h in e ∙ Permᴰ-short q (rw e at h)

Permᴰ-length {ℓ} : {E : Type ℓ} {l m : List E} → Permᴰ l m → length l ≡ length m
Permᴰ-length Permᴰ.nil = refl
Permᴰ-length (Permᴰ.cons e p) = ap suc (Permᴰ-length p)
Permᴰ-length (Permᴰ.swap e f) = refl
Permᴰ-length (Permᴰ.trans p q) = Permᴰ-length p ∙ Permᴰ-length q

abbrev pub option_list {ℓ} : {V : Type ℓ} → Option V → List V
option_list none = []
option_list (some v) = v ∷ []

length-option_list {ℓ} : {V : Type ℓ} (o : Option V) → length (option_list o) ≤ 1
length-option_list none = omega arith
length-option_list (some v) = omega arith

module _ {ℓ} {K V : Type ℓ} (dec : Discrete K) where
  unfoldable pub get : K → List (K × V) → Option V
  get k [] = none
  get k ((j, v) ∷ m) = ite (dec j k) (some v) (get k m)

  -- `map.entry(k)`, with the new value made from the old one, if any.
  unfoldable pub update : K → (Option V → V) → List (K × V) → List (K × V)
  update k f [] = (k, f none) ∷ []
  update k f ((j, v) ∷ m) = ite (dec j k) ((j, f (some v)) ∷ m) ((j, v) ∷ update k f m)

  -- The values at `k`, in the order of the list.
  abbrev pub at_key : K → List (K × V) → List V
  at_key k m = map (λ e. e.1) (filter (λ e. dec e.0 k) m)

  pub at_key-append : (k : K) (l m : List (K × V)) → at_key k (l ++ m) ≡ at_key k l ++ at_key k m
  at_key-append k l m =
      ap (map (λ e. e.1)) (filter-append (λ e. dec e.0 k) l m)
      ∙ map-append (λ e. e.1) (filter (λ e. dec e.0 k) l) (filter (λ e. dec e.0 k) m)

  abbrev pub Fresh : K → List (K × V) → Type ℓ
  Fresh k = All (λ e. e.0 ≢ k)

  -- No key has two entries.
  abbrev pub IsMap : List (K × V) → Type ℓ
  IsMap [] = Unit
  IsMap ((j, v) ∷ m) = Fresh j m × IsMap m

  pub get-update :
      (k j : K) (f : Option V → V) (m : List (K × V))
      → get j (update k f m) ≡ ite (dec k j) (some (f (get k m))) (get j m)
  unfolding get update
  get-update k j f [] = ground arith
  get-update k j f ((i, v) ∷ m) = ground (arith, get-update k j f m)

  Fresh-update :
      (i k : K) (f : Option V → V) (m : List (K × V)) → k ≢ i → Fresh i m → Fresh i (update k f m)
  unfolding update
  Fresh-update i k f [] h a = (h, tt)
  Fresh-update i k f ((j, v) ∷ m) h a = ground (arith, Fresh-update i k f m h a.1)

  pub update-IsMap : (k : K) (f : Option V → V) (m : List (K × V)) → IsMap m → IsMap (update k f m)
  unfolding update
  update-IsMap k f [] u = (tt, tt)
  update-IsMap k f ((j, v) ∷ m) u = elim (dec j k) [
    | yes p ↦ ground (arith, u)
    | no p ↦ ground (arith, update-IsMap k f m u.1, Fresh-update j k f m (λ e. p (sym e)) u.0)
  ]

  at_key-Fresh : (k : K) (m : List (K × V)) → Fresh k m → at_key k m ≡ []
  at_key-Fresh k [] a = refl
  at_key-Fresh k ((j, v) ∷ m) a = ground (arith, at_key-Fresh k m a.1, a.0)

  pub at_key-get : (k : K) (m : List (K × V)) → IsMap m → at_key k m ≡ option_list (get k m)
  unfolding get
  at_key-get k [] u = refl
  at_key-get k ((j, v) ∷ m) u = elim (dec j k) [
    | yes p ↦ ground (arith, at_key-Fresh k m (rw p at u.0))
    | no p ↦ ground (arith, at_key-get k m u.1)
  ]

  -- Whatever the order in which a map is visited, a key is visited with the value it has.
  pub at_key-visit :
      (vis : Visit (K × V)) (k : K) (m : List (K × V))
      → IsMap m
      → at_key k (vis.order m) ≡ option_list (get k m)
  at_key-visit vis k m u =
      let p : Permᴰ (at_key k (vis.order m)) (at_key k m) =
        Permᴰ.map (λ e. e.1) (Permᴰ.filter (λ e. dec e.0 k) (vis.once m)) in
      let e = at_key-get k m u in
      Permᴰ-short p
        (omega (arith, Permᴰ-length p, ap (length {A = V}) e, length-option_list (get k m)))
      ∙ e

  pub All-update {κ} :
      (P : K × V → Type κ) (k : K) (f : Option V → V) (m : List (K × V))
      → P (k, f none)
      → ((v : V) → P (k, v) → P (k, f (some v)))
      → All P m
      → All P (update k f m)
  unfolding update
  All-update P k f [] new old a = (new, tt)
  All-update P k f ((j, v) ∷ m) new old a = elim (dec j k) [
    | yes p ↦ rw (if_pos _ p) (rw p (old v (rw p at a.0)), a.1)
    | no p ↦ rw (if_neg _ p) (a.0, All-update P k f m new old a.1)
  ]
