-- ===== src/Dedup/Grouping/Classes.antt =====
-- The groups of `group_matches` in crates/dedup-engine/src/grouping.rs are the connected components
-- of the pairs.
use mathlib.Core.List.{append_assoc, append-nil}
use mathlib.Core.Logic.{ite, if_pos, if_neg}
use hypr_drive.Prelude.{
  ℕ, ◌≡◌, refl, sym, ap, ◌∙◌, ◌⊎◌, Option, some, none, List, [], ◌∷◌, ◌++◌, ℕ_discrete, inl, inr,
  Option-cases,
}
use hypr_drive.Prelude.HashMap.{get, get-update, update-IsMap, IsMap}
use hypr_drive.Dedup.UnionFind.{UnionFind}
use hypr_drive.Dedup.UnionFind.Connected.{Edge}
use hypr_drive.Dedup.Scanner.{Groups, or_default, hash_all}
use hypr_drive.Dedup.Scanner.Stages.{with_key}
use hypr_drive.Dedup.Grouping.{enter, join}
use hypr_drive.Dedup.Grouping.Roots.{root_of, entered, joined}

abbrev pub add_to : List ℕ → Option (List ℕ) → Option (List ℕ)
add_to more none = none
add_to more (some h) = some (h ++ more)

add_to-nil : (o : Option (List ℕ)) → o ≡ add_to [] o
add_to-nil none = refl
add_to-nil (some h) = ap some (sym (append-nil h))

add_to-add_to :
    (xs ys : List ℕ) (o : Option (List ℕ)) → add_to ys (add_to xs o) ≡ add_to (xs ++ ys) o
add_to-add_to xs ys none = refl
add_to-add_to xs ys (some h) = ap some (append_assoc h xs ys)

-- The members of a key, pushed in order, if the key is there.
module _ (start : UnionFind) where
  abbrev pub rooted : List ℕ → List (ℕ × ℕ)
  rooted xs = hash_all (λ x. some (root_of start x)) xs

  get-join :
      (k root x : ℕ) (m : Groups)
      → get ℕ_discrete k (join root x (get ℕ_discrete root m) m)
        ≡ ite (ℕ_discrete root k) (add_to (x ∷ []) (get ℕ_discrete k m)) (get ℕ_discrete k m)
  get-join k root x m = elim (Option-cases (get ℕ_discrete root m)) [
    | inl n ↦ elim (ℕ_discrete root k) [
      | yes p ↦
          let n' : get ℕ_discrete k m ≡ none = rw (← p) n in
          rw (n, if_pos (ℕ_discrete root k) p, n') refl
      | no p ↦ rw (n, if_neg (ℕ_discrete root k) p) refl
    ]
    | inr (h, e) ↦ rw e (
        get-update ℕ_discrete root k (λ o. or_default o ++ x ∷ []) m
        ∙ pushed (ℕ_discrete root k) h e)
  ]
    where
      pushed :
          (d : Dec (root ≡ k)) (h : List ℕ)
          → get ℕ_discrete root m ≡ some h
          → ite d (some (or_default (get ℕ_discrete root m) ++ x ∷ [])) (get ℕ_discrete k m)
            ≡ ite d (add_to (x ∷ []) (get ℕ_discrete k m)) (get ℕ_discrete k m)
      pushed (yes p) h e = let e' : get ℕ_discrete k m ≡ some h = rw (← p) e in rw (e, e') refl
      pushed (no p) h e = refl

  pub get-joined :
      (k : ℕ) (xs : List ℕ) (m : Groups)
      → get ℕ_discrete k (joined start xs m) ≡ add_to (with_key k (rooted xs)) (get ℕ_discrete k m)
  unfolding hash_all
  get-joined k [] m = add_to-nil (get ℕ_discrete k m)
  get-joined k (x ∷ xs) m =
      get-joined k xs (join (root_of start x) x (get ℕ_discrete (root_of start x) m) m)
      ∙ ap (add_to (with_key k (rooted xs))) (get-join k (root_of start x) x m)
      ∙ split (ℕ_discrete (root_of start x) k) (get ℕ_discrete k m)
    where
      W : List ℕ
      W = with_key k (rooted xs)

      split :
          (d : Dec (root_of start x ≡ k)) (o : Option (List ℕ))
          → add_to W (ite d (add_to (x ∷ []) o) o) ≡ add_to (ite d (x ∷ W) W) o
      split (yes p) o = add_to-add_to (x ∷ []) W o
      split (no p) o = refl

  -- A key that has no members yet, whether it is entered or not.
  abbrev IsEmpty : Option (List ℕ) → Type 0
  IsEmpty o = (o ≡ none) ⊎ (o ≡ some [])

  or_default-IsEmpty : (o : Option (List ℕ)) → IsEmpty o → some (or_default o) ≡ some []
  or_default-IsEmpty o (inl e) = rw e refl
  or_default-IsEmpty o (inr e) = rw e refl

  get-enter :
      (k r : ℕ) (m : Groups)
      → IsEmpty (get ℕ_discrete k m)
      → get ℕ_discrete k (enter r m) ≡ ite (ℕ_discrete r k) (some []) (get ℕ_discrete k m)
  get-enter k r m h = get-update ℕ_discrete r k or_default m ∙ split (ℕ_discrete r k)
    where
      split :
          (d : Dec (r ≡ k))
          → ite d (some (or_default (get ℕ_discrete r m))) (get ℕ_discrete k m)
            ≡ ite d (some []) (get ℕ_discrete k m)
      split (yes p) = rw p (or_default-IsEmpty (get ℕ_discrete k m) h)
      split (no p) = refl

  enter-IsEmpty :
      (k r : ℕ) (m : Groups) → IsEmpty (get ℕ_discrete k m) → IsEmpty (get ℕ_discrete k (enter r m))
  enter-IsEmpty k r m h = rw (get-enter k r m h) (split (ℕ_discrete r k))
    where
      split : (d : Dec (r ≡ k)) → IsEmpty (ite d (some []) (get ℕ_discrete k m))
      split (yes p) = inr refl
      split (no p) = h

  pub entered-IsEmpty :
      (k : ℕ) (pairs : List (ℕ × ℕ)) (m : Groups)
      → IsEmpty (get ℕ_discrete k m)
      → IsEmpty (get ℕ_discrete k (entered start pairs m))
  entered-IsEmpty k [] m h = h
  entered-IsEmpty k ((a, b) ∷ pairs) m h =
      entered-IsEmpty k pairs (enter (root_of start a) m) (enter-IsEmpty k (root_of start a) m h)

  stays_entered :
      (k : ℕ) (pairs : List (ℕ × ℕ)) (m : Groups)
      → get ℕ_discrete k m ≡ some []
      → get ℕ_discrete k (entered start pairs m) ≡ some []
  stays_entered k [] m h = h
  stays_entered k ((a, b) ∷ pairs) m h =
      stays_entered k pairs (enter (root_of start a) m)
        (get-enter k (root_of start a) m (inr h) ∙ split (ℕ_discrete (root_of start a) k))
    where
      split : (d : Dec (root_of start a ≡ k)) → ite d (some []) (get ℕ_discrete k m) ≡ some []
      split (yes p) = refl
      split (no p) = h

  -- The root of the first element of each pair is entered.
  pub Edge-entered :
      (a b : ℕ) (pairs : List (ℕ × ℕ)) (m : Groups)
      → Edge a b pairs
      → IsEmpty (get ℕ_discrete (root_of start a) m)
      → get ℕ_discrete (root_of start a) (entered start pairs m) ≡ some []
  Edge-entered a b [] m e h = elim e [ ]
  Edge-entered a b _ m (Edge.first x y pairs p q) h =
      stays_entered (root_of start a) pairs (enter (root_of start x) m) (
        get-enter (root_of start a) (root_of start x) m h
        ∙ if_pos (ℕ_discrete (root_of start x) (root_of start a)) (ap (root_of start) (sym p)) _ _)
  Edge-entered a b _ m (Edge.later e pairs k) h =
      Edge-entered a b pairs (enter (root_of start e.0) m) k
        (enter-IsEmpty (root_of start a) (root_of start e.0) m h)

  pub entered-IsMap :
      (pairs : List (ℕ × ℕ)) (m : Groups)
      → IsMap ℕ_discrete m
      → IsMap ℕ_discrete (entered start pairs m)
  entered-IsMap [] m u = u
  entered-IsMap ((a, b) ∷ pairs) m u =
      entered-IsMap pairs (enter (root_of start a) m)
        (update-IsMap ℕ_discrete (root_of start a) or_default m u)

  pub joined-IsMap :
      (xs : List ℕ) (m : Groups) → IsMap ℕ_discrete m → IsMap ℕ_discrete (joined start xs m)
  joined-IsMap [] m u = u
  joined-IsMap (x ∷ xs) m u = joined-IsMap xs _ (join-IsMap (get ℕ_discrete (root_of start x) m))
    where
      join-IsMap : (o : Option (List ℕ)) → IsMap ℕ_discrete (join (root_of start x) x o m)
      join-IsMap none = u
      join-IsMap (some h) =
          update-IsMap ℕ_discrete (root_of start x) (λ o. or_default o ++ x ∷ []) m u
