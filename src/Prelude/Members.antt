-- ===== src/Prelude/Members.antt =====
-- Membership and order of occurrence in a list, as families that a proof can take apart.
use mathlib.Core.Path.{◌≡◌, refl, ap, ◌∙◌, subst}
use mathlib.Core.Logic.{◌⊎◌, inl, inr}
use mathlib.Core.List.{List, [], ◌∷◌, ◌++◌, map}
use native.Mathlib.Omega.{arith}
use Prim.Native.Nat.{◌≤◌}
use hypr_drive.Prelude.Lists.{length}
use mathlib.Core.List.{Permᴰ}

pub data In {ℓ} {A : Type ℓ} (a : A) : List A → Type ℓ where
  here : (x : A) (xs : List A) → a ≡ x → In a (x ∷ xs)
  there : (x : A) (xs : List A) → In a xs → In a (x ∷ xs)

-- One element stands before another in a list.
pub data Before {ℓ} {A : Type ℓ} (a b : A) : List A → Type ℓ where
  first : (x : A) (xs : List A) → a ≡ x → In b xs → Before a b (x ∷ xs)
  later : (x : A) (xs : List A) → Before a b xs → Before a b (x ∷ xs)

abbrev pub flat_map {ℓ κ} : {A : Type ℓ} {B : Type κ} → (A → List B) → List A → List B
flat_map f [] = []
flat_map f (x ∷ xs) = f x ++ flat_map f xs

module _ {ℓ} {A : Type ℓ} where
  pub In-cons : {a x : A} {xs : List A} → In a (x ∷ xs) → (a ≡ x) ⊎ In a xs
  In-cons (here _ _ e) = inl e
  In-cons (there _ _ h) = inr h

  pub Before-cons :
      {a b x : A} {xs : List A} → Before a b (x ∷ xs) → ((a ≡ x) × In b xs) ⊎ Before a b xs
  Before-cons (first _ _ e h) = inl (e, h)
  Before-cons (later _ _ h) = inr h

  pub In-append-cases : {a : A} (xs ys : List A) → In a (xs ++ ys) → In a xs ⊎ In a ys
  In-append-cases [] ys h = inr h
  In-append-cases (x ∷ xs) ys (here _ _ e) = inl (here x xs e)
  In-append-cases (x ∷ xs) ys (there _ _ h) = elim (In-append-cases xs ys h) [
    | inl k ↦ inl (there x xs k)
    | inr k ↦ inr k
  ]

  pub In-append_left : {a : A} (xs ys : List A) → In a xs → In a (xs ++ ys)
  In-append_left _ ys (here x xs e) = here x (xs ++ ys) e
  In-append_left _ ys (there x xs h) = there x (xs ++ ys) (In-append_left xs ys h)

  pub In-append_right : {a : A} (xs ys : List A) → In a ys → In a (xs ++ ys)
  In-append_right [] ys h = h
  In-append_right (x ∷ xs) ys h = there x (xs ++ ys) (In-append_right xs ys h)

  pub In-map {κ} : {B : Type κ} (f : A → B) {a : A} (xs : List A) → In a xs → In (f a) (map f xs)
  In-map f _ (here x xs e) = here (f x) (map f xs) (ap f e)
  In-map f _ (there x xs h) = there (f x) (map f xs) (In-map f xs h)

  pub In-Permᴰ : {a : A} {l m : List A} → Permᴰ l m → In a l → In a m
  In-Permᴰ Permᴰ.nil h = h
  In-Permᴰ (Permᴰ.cons e p) (here x _ h) = here _ _ (h ∙ e)
  In-Permᴰ (Permᴰ.cons e p) (there x _ h) = there _ _ (In-Permᴰ p h)
  In-Permᴰ (Permᴰ.swap e f) (here x _ h) = there _ _ (here _ _ (h ∙ e))
  In-Permᴰ (Permᴰ.swap e f) (there x _ (here y _ h)) = here _ _ (h ∙ f)
  In-Permᴰ (Permᴰ.swap e f) (there x _ (there y _ h)) = there _ _ (there _ _ h)
  In-Permᴰ (Permᴰ.trans p q) h = In-Permᴰ q (In-Permᴰ p h)

  pub length-In : {a : A} {xs : List A} → In a xs → 1 ≤ length xs
  length-In (here x xs e) = omega arith
  length-In (there x xs h) = omega arith

  pub length-Before : {a b : A} {xs : List A} → Before a b xs → 2 ≤ length xs
  length-Before (first x xs e h) = omega (arith, length-In h)
  length-Before (later x xs h) = omega (arith, length-Before h)

  pub Before-In : {a b : A} {xs : List A} → Before a b xs → In a xs × In b xs
  Before-In (first x xs e h) = (here x xs e, there x xs h)
  Before-In (later x xs h) = let (p, q) = Before-In h in (there x xs p, there x xs q)

module _ {ℓ κ} {A : Type ℓ} {B : Type κ} (f : A → List B) where
  pub In-flat_map-inv :
      {b : B} (xs : List A) → In b (flat_map f xs) → (a : A) × In a xs × In b (f a)
  In-flat_map-inv [] h = elim h [ ]
  In-flat_map-inv (x ∷ xs) h = elim (In-append-cases (f x) (flat_map f xs) h) [
    | inl k ↦ (x, here x xs refl, k)
    | inr k ↦ let (a, p, q) = In-flat_map-inv xs k in (a, there x xs p, q)
  ]

  pub In-flat_map : {a : A} {b : B} (xs : List A) → In a xs → In b (f a) → In b (flat_map f xs)
  In-flat_map {b = b} _ (here x xs e) h =
      In-append_left (f x) (flat_map f xs) (subst (λ y. In b (f y)) e h)
  In-flat_map _ (there x xs k) h = In-append_right (f x) (flat_map f xs) (In-flat_map xs k h)
