-- ===== src/Dedup/Scanner/Stages.antt =====
-- The stages of crates/dedup-engine/src/scanner.rs: which pairs of indices end in one group.
use mathlib.Core.List.{append-nil}
use hypr_drive.Prelude.{
  ℕ, ◌≡◌, ◌≢◌, refl, sym, ap, ◌∙◌, ◌↔◌, true, Option, some, none, List, [], ◌∷◌, ◌++◌, arith,
  ℕ_discrete, inl, inr, Bool-cases, Option-cases,
}
use mathlib.Core.List.{append_assoc}
use mathlib.Core.Option.{some-injective}
use mathlib.Core.List.Permᴰ
use mathlib.Core.Logic.{ite, if_pos, if_neg}
use hypr_drive.Prelude.HashMap.{Visit, get, get-update, IsMap, Fresh, update-IsMap}
use hypr_drive.Prelude.Members.{
  In, here, there, In-cons, Before, first, later, Before-cons, Before-In, length-Before, In-Permᴰ,
}
use hypr_drive.Dedup.Scanner.{
  Groups, or_default, push_at, at_least_two, large_groups, hash_all, group_all, refine,
}

-- The indices that are paired with a key, in order.
abbrev pub with_key : ℕ → List (ℕ × ℕ) → List ℕ
with_key k [] = []
with_key k ((idx, key) ∷ l) = ite (ℕ_discrete key k) (idx ∷ with_key k l) (with_key k l)

get-group_all :
    (k : ℕ) (l : List (ℕ × ℕ)) (m : Groups)
    → or_default (get ℕ_discrete k (group_all l m))
      ≡ or_default (get ℕ_discrete k m) ++ with_key k l
unfolding group_all
get-group_all k [] m = sym (append-nil _)
get-group_all k ((idx, key) ∷ l) m = elim (ℕ_discrete key k) [
  | yes p ↦
      rw
        (
          get-group_all k l (push_at key idx m),
          get-update ℕ_discrete key k (λ o. or_default o ++ idx ∷ []) m,
          if_pos (ℕ_discrete key k) p,
          if_pos (ℕ_discrete key k) p,
          p,
        )
        (append_assoc (or_default (get ℕ_discrete k m)) (idx ∷ []) (with_key k l))
  | no p ↦
      rw
        (
          get-group_all k l (push_at key idx m),
          get-update ℕ_discrete key k (λ o. or_default o ++ idx ∷ []) m,
          if_neg (ℕ_discrete key k) p,
          if_neg (ℕ_discrete key k) p,
        )
        refl
]

group_all-IsMap :
    (l : List (ℕ × ℕ)) (m : Groups) → IsMap ℕ_discrete m → IsMap ℕ_discrete (group_all l m)
unfolding group_all
group_all-IsMap [] m u = u
group_all-IsMap ((idx, key) ∷ l) m u =
    group_all-IsMap l (push_at key idx m)
      (update-IsMap ℕ_discrete key (λ o. or_default o ++ idx ∷ []) m u)

-- A key that has an entry in a map is found with that entry, and only then.
Fresh-In : (k : ℕ) {h : List ℕ} (m : Groups) → Fresh ℕ_discrete k m → In (k, h) m → k ≢ k
Fresh-In k [] a i = elim i [ ]
Fresh-In k _ a (here _ _ e) = absurd (a.0 (sym (ap (λ e. e.0) e)))
Fresh-In k _ a (there _ xs i) = Fresh-In k xs a.1 i

pub get-In : (k : ℕ) (h : List ℕ) (m : Groups) → get ℕ_discrete k m ≡ some h → In (k, h) m
unfolding get
get-In k h [] e = cc
get-In k h ((j, v) ∷ m) e = elim (ℕ_discrete j k) [
  | yes p ↦ here (j, v) m (ground (arith, p, e))
  | no p ↦ there (j, v) m (get-In k h m (ground (arith, p, e)))
]

pub In-get :
    (k : ℕ) (h : List ℕ) (m : Groups)
    → IsMap ℕ_discrete m
    → In (k, h) m
    → get ℕ_discrete k m ≡ some h
unfolding get
In-get k h [] u i = elim i [ ]
In-get k h _ u (here (j, v) m e) =
    rw (if_pos (ℕ_discrete j k) (sym (ap (λ e. e.0) e))) (ap (λ e. some e.1) (sym e))
In-get k h _ u (there (j, v) m i) = elim (ℕ_discrete j k) [
  | yes p ↦ absurd (Fresh-In j {h = h} m u.0 (rw p i) refl)
  | no p ↦ rw (if_neg (ℕ_discrete j k) p) (In-get k h m u.1 i)
]

-- Two indices stand in one group exactly where both come with the key of the group.
module _ (k : ℕ) where
  In-with_key : (j : ℕ) (l : List (ℕ × ℕ)) → In j (with_key k l) ↔ In (j, k) l
  In-with_key j [] = (λ h. elim h [ ], λ h. elim h [ ])
  In-with_key j ((x, key) ∷ l) = elim (ℕ_discrete key k) [
    | yes p ↦ rw (if_pos (ℕ_discrete key k) p) (
      λ h. elim (In-cons h) [
        | inl e ↦ here (x, key) l (rw (e, p) refl)
        | inr i ↦ there (x, key) l ((In-with_key j l).0 i)
      ],
      λ h. elim (In-cons h) [
        | inl e ↦ here x (with_key k l) (ap (λ e. e.0) e)
        | inr i ↦ there x (with_key k l) ((In-with_key j l).1 i)
      ],
    )
    | no p ↦ rw (if_neg (ℕ_discrete key k) p) (
      λ h. there (x, key) l ((In-with_key j l).0 h),
      λ h. elim (In-cons h) [
        | inl e ↦ absurd (p (sym (ap (λ e. e.1) e)))
        | inr i ↦ (In-with_key j l).1 i
      ],
    )
  ]

  pub Before-with_key :
      (i j : ℕ) (l : List (ℕ × ℕ)) → Before i j (with_key k l) ↔ Before (i, k) (j, k) l
  Before-with_key i j [] = (λ h. elim h [ ], λ h. elim h [ ])
  Before-with_key i j ((x, key) ∷ l) = elim (ℕ_discrete key k) [
    | yes p ↦ rw (if_pos (ℕ_discrete key k) p) (
      λ h. elim (Before-cons h) [
        | inl (e, b) ↦ first (x, key) l (rw (e, p) refl) ((In-with_key j l).0 b)
        | inr b ↦ later (x, key) l ((Before-with_key i j l).0 b)
      ],
      λ h. elim (Before-cons h) [
        | inl (e, b) ↦ first x (with_key k l) (ap (λ e. e.0) e) ((In-with_key j l).1 b)
        | inr b ↦ later x (with_key k l) ((Before-with_key i j l).1 b)
      ],
    )
    | no p ↦ rw (if_neg (ℕ_discrete key k) p) (
      λ h. later (x, key) l ((Before-with_key i j l).0 h),
      λ h. elim (Before-cons h) [
        | inl (e, b) ↦ absurd (p (sym (ap (λ e. e.1) e)))
        | inr b ↦ (Before-with_key i j l).1 b
      ],
    )
  ]

pub In-large_groups :
    (g : List ℕ) (m : Groups)
    → In g (large_groups m) ↔ (k : ℕ) × In (k, g) m × (at_least_two g ≡ true)
unfolding large_groups
In-large_groups g [] = (λ h. elim h [ ], λ (k, h, e). elim h [ ])
In-large_groups g ((key, group) ∷ m) = elim (Bool-cases (at_least_two group)) [
  | inl t ↦ rw t (
    λ h. elim (In-cons h) [
      | inl e ↦ (key, here (key, group) m (ap (λ g. (key, g)) e), rw e t)
      | inr i ↦ let (k, n, b) = (In-large_groups g m).0 i in (k, there (key, group) m n, b)
    ],
    λ (k, h, b). elim (In-cons h) [
      | inl e ↦ here group (large_groups m) (ap (λ e. e.1) e)
      | inr i ↦ there group (large_groups m) ((In-large_groups g m).1 (k, i, b))
    ],
  )
  | inr f ↦ rw f (
    λ h. let (k, n, b) = (In-large_groups g m).0 h in (k, there (key, group) m n, b),
    λ (k, h, b). elim (In-cons h) [
      | inl e ↦ let q = ap (λ e. at_least_two e.1) e in absurd (cc)
      | inr i ↦ (In-large_groups g m).1 (k, i, b)
    ],
  )
]

module _ (vis : Visit (ℕ × List ℕ)) (l : List (ℕ × ℕ)) where
  get-group_all_nil : (k : ℕ) → or_default (get ℕ_discrete k (group_all l [])) ≡ with_key k l
  get-group_all_nil k = unfold get in get-group_all k l []

  pub In-group_all :
      (k : ℕ) (h : List ℕ) → In (k, h) (vis.order (group_all l [])) → h ≡ with_key k l
  In-group_all k h i =
      let e = In-get k h (group_all l []) (group_all-IsMap l [] tt) (In-Permᴰ (vis.once _) i) in
      ap or_default (sym e) ∙ get-group_all_nil k

  pub group_all-In :
      (i k : ℕ) → In i (with_key k l) → In (k, with_key k l) (vis.order (group_all l []))
  group_all-In i k h =
      In-Permᴰ (Permᴰ.symm (vis.once _)) (get-In k (with_key k l) _ (found _ (get-group_all_nil k)))
    where
      found : (o : Option (List ℕ)) → or_default o ≡ with_key k l → o ≡ some (with_key k l)
      found none e = absurd (elim (rw (← e) at h) [ ])
      found (some g) e = ap some e

pub at_least_two-Before : {i j : ℕ} {g : List ℕ} → Before i j g → at_least_two g ≡ true
at_least_two-Before h = ground (arith, length-Before h)

module _ (hash : ℕ → Option ℕ) where
  same_entry :
      {i x k key : ℕ}
      → hash x ≡ some key
      → (◌≡◌ {A = ℕ × ℕ} (i, k) (x, key)) ↔ (i ≡ x) × (hash i ≡ some k)
  same_entry {k = k} {key = key} q = (
    λ e. let a = ap (λ e. e.0) e in let b = ap (λ e. e.1) e in (a, cc),
    λ (e, f). let p : some k ≡ some key = cc in rw (e, some-injective k key p) refl,
  )

  In-hash_all :
      (j k : ℕ) (group : List ℕ) → In (j, k) (hash_all hash group) ↔ In j group × (hash j ≡ some k)
  unfolding hash_all
  In-hash_all j k [] = (λ h. elim h [ ], λ (h, _). elim h [ ])
  In-hash_all j k (x ∷ group) = elim (Option-cases (hash x)) [
    | inl n ↦ rw n (
      λ h. let (i, e) = (In-hash_all j k group).0 h in (there x group i, e),
      λ (i, e). elim (In-cons i) [ inl p ↦ absurd (cc) | inr i ↦ (In-hash_all j k group).1 (i, e) ],
    )
    | inr (key, q) ↦ rw q (
      λ h. elim (In-cons h) [
        | inl p ↦ let (a, e) = (same_entry q).0 p in (here x group a, e)
        | inr i ↦ let (i, e) = (In-hash_all j k group).0 i in (there x group i, e)
      ],
      λ (i, e). elim (In-cons i) [
        | inl p ↦ here (x, key) (hash_all hash group) ((same_entry q).1 (p, e))
        | inr i ↦ there (x, key) (hash_all hash group) ((In-hash_all j k group).1 (i, e))
      ],
    )
  ]

  pub Before-hash_all :
      (i j k : ℕ) (group : List ℕ)
      → Before (i, k) (j, k) (hash_all hash group)
        ↔ Before i j group × (hash i ≡ some k) × (hash j ≡ some k)
  unfolding hash_all
  Before-hash_all i j k [] = (λ h. elim h [ ], λ (h, _, _). elim h [ ])
  Before-hash_all i j k (x ∷ group) = elim (Option-cases (hash x)) [
    | inl n ↦ rw n (
      λ h. let (b, e, f) = (Before-hash_all i j k group).0 h in (later x group b, e, f),
      λ (b, e, f). elim (Before-cons b) [
        | inl (p, _) ↦ absurd (cc)
        | inr b ↦ (Before-hash_all i j k group).1 (b, e, f)
      ],
    )
    | inr (key, q) ↦ rw q (
      λ h. elim (Before-cons h) [
        | inl (p, b) ↦
            let (a, e) = (same_entry q).0 p in
            let (n, f) = (In-hash_all j k group).0 b in (first x group a n, e, f)
        | inr b ↦ let (b, e, f) = (Before-hash_all i j k group).0 b in (later x group b, e, f)
      ],
      λ (b, e, f). elim (Before-cons b) [
        | inl (p, n) ↦
            first (x, key) (hash_all hash group) ((same_entry q).1 (p, e))
              ((In-hash_all j k group).1 (n, f))
        | inr b ↦ later (x, key) (hash_all hash group) ((Before-hash_all i j k group).1 (b, e, f))
      ],
    )
  ]

-- One stage keeps two indices together exactly where both are hashed, with one hash.
pub Before-refine :
    (vis : Visit (ℕ × List ℕ)) (hash : ℕ → Option ℕ) (group : List ℕ) (i j : ℕ)
    → ((g : List ℕ) × In g (refine vis hash group) × Before i j g)
      ↔ ((k : ℕ) × Before i j group × (hash i ≡ some k) × (hash j ≡ some k))
unfolding refine
Before-refine vis hash group i j = (
  λ (g, n, b).
      let (k, n', _) = (In-large_groups g (vis.order (group_all l []))).0 n in
      let b' : Before i j (with_key k l) = rw (← In-group_all vis l k g n') b in
      let (c, e, f) = (Before-hash_all hash i j k group).0 ((Before-with_key k i j l).0 b') in
      (k, c, e, f),
  λ (k, b, e, f).
      let c = (Before-with_key k i j l).1 ((Before-hash_all hash i j k group).1 (b, e, f)) in
      (
        with_key k l,
        (In-large_groups (with_key k l) (vis.order (group_all l []))).1
            (k, group_all-In vis l i k (Before-In c).0, at_least_two-Before c),
        c,
      ),
)
  where
    l : List (ℕ × ℕ)
    l = hash_all hash group
