-- ===== src/Dedup/Scanner/Content.antt =====
-- The result of `scan_content` of crates/dedup-engine/src/scanner.rs, against the pairs of files
-- that agree on every hash.
use hypr_drive.Prelude.{
  ℕ, zero, suc, ◌+◌, ◌≤◌, ◌<◌, ◌≡◌, refl, sym, ap, ◌↔◌, ◌⊎◌, true, false, Option, some, none,
  String, List, [], ◌∷◌, map, leb, ltb, arith, inl, inr, Bool-cases,
}
use mathlib.Core.Option.{some-injective}
use mathlib.Core.List.Permᴰ
use hypr_drive.Prelude.HashMap.{Visit, in_order}
use hypr_drive.Prelude.Members.{
  In, here, there, In-cons, Before, first, later, Before-cons, Before-In, In-Permᴰ, flat_map,
  In-flat_map, In-flat_map-inv, In-map, In-append_left, In-append_right, In-append-cases,
}
use hypr_drive.Dedup.Scanner.{
  FileEntry, Hashers, Groups, at_least_two, group_all, refine, sized, retain_large, group_by_size,
  insert_bucket, sort_buckets, should_mid_hash, pairs_of, hash_at, groups_for_full, scan_bucket,
  scan_content,
}
use hypr_drive.Dedup.Scanner.Stages.{
  with_key, Before-with_key, In-group_all, group_all-In, at_least_two-Before, Before-refine,
}

In-pairs_of : (i j : ℕ) (g : List ℕ) → In (i, j) (pairs_of g) ↔ Before i j g
unfolding pairs_of
In-pairs_of i j [] = (λ h. elim h [ ], λ h. elim h [ ])
In-pairs_of i j (x ∷ g) = (
  λ h. elim (In-append-cases (map (λ j. (x, j)) g) (pairs_of g) h) [
    | inl k ↦ let (e, n) = In-paired g k in first x g e n
    | inr k ↦ later x g ((In-pairs_of i j g).0 k)
  ],
  λ h. elim (Before-cons h) [
    | inl (e, n) ↦
        In-append_left (map (λ j. (x, j)) g) (pairs_of g) (rw e (In-map (λ j. (x, j)) g n))
    | inr b ↦ In-append_right (map (λ j. (x, j)) g) (pairs_of g) ((In-pairs_of i j g).1 b)
  ],
)
  where
    In-paired : (g : List ℕ) → In {A = ℕ × ℕ} (i, j) (map (λ j. (x, j)) g) → (i ≡ x) × In j g
    In-paired [] h = elim h [ ]
    In-paired (y ∷ g) h = elim (In-cons h) [
      | inl e ↦ (ap (λ e. e.0) e, here y g (ap (λ e. e.1) e))
      | inr i ↦ let (e, n) = In-paired g i in (e, there y g n)
    ]

In-insert_bucket : (e b : ℕ × List ℕ) (m : Groups) → In e (insert_bucket b m) ↔ In e (b ∷ m)
unfolding insert_bucket
In-insert_bucket e b [] = (λ h. h, λ h. h)
In-insert_bucket e b (c ∷ m) = elim (Bool-cases (leb b.0 c.0)) [
  | inl t ↦ rw t (λ h. h, λ h. h)
  | inr f ↦ rw f (
    λ h. elim (In-cons h) [
      | inl p ↦ there b (c ∷ m) (here c m p)
      | inr i ↦ elim (In-cons ((In-insert_bucket e b m).0 i)) [
        | inl p ↦ here b (c ∷ m) p
        | inr n ↦ there b (c ∷ m) (there c m n)
      ]
    ],
    λ h. elim (In-cons h) [
      | inl p ↦ there c (insert_bucket b m) ((In-insert_bucket e b m).1 (here b m p))
      | inr i ↦ elim (In-cons i) [
        | inl p ↦ here c (insert_bucket b m) p
        | inr n ↦ there c (insert_bucket b m) ((In-insert_bucket e b m).1 (there b m n))
      ]
    ],
  )
]

In-sort_buckets : (e : ℕ × List ℕ) (m : Groups) → In e (sort_buckets m) ↔ In e m
unfolding sort_buckets
In-sort_buckets e [] = (λ h. h, λ h. h)
In-sort_buckets e (b ∷ m) =
    let (to, from) = In-insert_bucket e b (sort_buckets m) in
    (
      λ h. elim (In-cons (to h)) [
        | inl p ↦ here b m p
        | inr i ↦ there b m ((In-sort_buckets e m).0 i)
      ],
      λ h. elim (In-cons h) [
        | inl p ↦ from (here b (sort_buckets m) p)
        | inr i ↦ from (there b (sort_buckets m) ((In-sort_buckets e m).1 i))
      ],
    )

In-retain_large :
    (e : ℕ × List ℕ) (m : Groups) → In e (retain_large m) ↔ In e m × (at_least_two e.1 ≡ true)
unfolding retain_large
In-retain_large e [] = (λ h. elim h [ ], λ (h, _). elim h [ ])
In-retain_large e ((key, group) ∷ m) = elim (Bool-cases (at_least_two group)) [
  | inl t ↦ rw t (
    λ h. elim (In-cons h) [
      | inl p ↦ (here (key, group) m p, rw p t)
      | inr i ↦ let (n, b) = (In-retain_large e m).0 i in (there (key, group) m n, b)
    ],
    λ (h, b). elim (In-cons h) [
      | inl p ↦ here (key, group) (retain_large m) p
      | inr i ↦ there (key, group) (retain_large m) ((In-retain_large e m).1 (i, b))
    ],
  )
  | inr f ↦ rw f (
    λ h. let (n, b) = (In-retain_large e m).0 h in (there (key, group) m n, b),
    λ (h, b). elim (In-cons h) [
      | inl p ↦ let q = ap (λ e. at_least_two e.1) p in absurd (cc)
      | inr i ↦ (In-retain_large e m).1 (i, b)
    ],
  )
]

-- The size of the file at an index.
abbrev pub size_at : List FileEntry → ℕ → Option ℕ
size_at [] i = none
size_at (f ∷ files) zero = some f.size
size_at (f ∷ files) (suc i) = size_at files i

-- A hash can be had for both files, and it is one hash.
abbrev pub Agree : List FileEntry → (String → Option ℕ) → ℕ → ℕ → Type 0
Agree files hash i j = (k : ℕ) × (hash_at files hash i ≡ some k) × (hash_at files hash j ≡ some k)

-- The two files are of one size, not below the least one, and agree on each hash that is taken of
-- files of that size; the first stands earlier in the list.
pub record Duplicates (h : Hashers) (files : List FileEntry) (min_size i j : ℕ) : Type 0 where
  pub earlier : i < j
  pub size : ℕ
  pub large_enough : min_size ≤ size
  pub left : size_at files i ≡ some size
  pub right : size_at files j ≡ some size
  pub same_start : Agree files h.partial_hash i j
  pub same_middle : (should_mid_hash size ≡ false) ⊎ Agree files h.mid_hash i j
  pub same_content : Agree files h.full_hash i j

module _ (h : Hashers) (vis : Visit (ℕ × List ℕ)) (files : List FileEntry) where
  Before-groups_for_full :
      (size : ℕ) (bucket : List ℕ) (i j : ℕ)
      → ((g : List ℕ) × In g (groups_for_full h vis files size bucket) × Before i j g)
        ↔ Before i j bucket
          × Agree files h.partial_hash i j
          × ((should_mid_hash size ≡ false) ⊎ Agree files h.mid_hash i j)
  unfolding groups_for_full
  Before-groups_for_full size bucket i j =
      let (to, from) = Before-refine vis (hash_at files h.partial_hash) bucket i j in
      elim (Bool-cases (should_mid_hash size)) [
        | inl t ↦ rw t (
          λ (g, n, b).
              let (p, q, n') =
                In-flat_map-inv (refine vis (hash_at files h.mid_hash))
                  (refine vis (hash_at files h.partial_hash) bucket) n in
              let (k, c, e, f) =
                (Before-refine vis (hash_at files h.mid_hash) p i j).0 (g, n', b) in
              let (l, d, e', f') = to (p, q, c) in (d, (l, e', f'), inr (k, e, f)),
          λ (b, (k, e, f), m). elim m [
            | inl x ↦ absurd (cc)
            | inr (l, e', f') ↦
                let (p, q, c) = from (k, b, e, f) in
                let (g, n, d) =
                  (Before-refine vis (hash_at files h.mid_hash) p i j).1 (l, c, e', f') in
                (
                  g,
                  In-flat_map (refine vis (hash_at files h.mid_hash))
                      (refine vis (hash_at files h.partial_hash) bucket) q n,
                  d,
                )
          ],
        )
        | inr f ↦ rw f (
          λ x. let (k, b, e, e') = to x in (b, (k, e, e'), inl refl),
          λ (b, (k, e, e'), m). from (k, b, e, e'),
        )
      ]

  In-scan_bucket :
      (size : ℕ) (bucket : List ℕ) (i j : ℕ)
      → In (i, j) (scan_bucket h vis files (size, bucket))
        ↔ Before i j bucket
          × Agree files h.partial_hash i j
          × ((should_mid_hash size ≡ false) ⊎ Agree files h.mid_hash i j)
          × Agree files h.full_hash i j
  unfolding scan_bucket
  In-scan_bucket size bucket i j =
      let full : List ℕ → List (List ℕ) = refine vis (hash_at files h.full_hash) in
      let groups = groups_for_full h vis files size bucket in
      let (to, from) = Before-groups_for_full size bucket i j in
      elim (Bool-cases (at_least_two bucket)) [
        | inl t ↦ rw t (
          λ n.
              let (g, n', m) = In-flat_map-inv (λ g. flat_map pairs_of (full g)) groups n in
              let (p, q, o) = In-flat_map-inv pairs_of (full g) m in
              let (k, c, e, f) =
                (Before-refine vis (hash_at files h.full_hash) g i j).0
                  (p, q, (In-pairs_of i j p).0 o) in
              let (b, a, m) = to (g, n', c) in (b, a, m, (k, e, f)),
          λ (b, a, m, (k, e, f)).
              let (g, n, c) = from (b, a, m) in
              let (p, q, d) =
                (Before-refine vis (hash_at files h.full_hash) g i j).1 (k, c, e, f) in
              In-flat_map (λ g. flat_map pairs_of (full g)) groups n
                (In-flat_map pairs_of (full g) q ((In-pairs_of i j p).1 d)),
        )
        | inr f ↦
            rw f (λ n. elim n [ ], λ (b, _, _, _). let t = at_least_two-Before b in absurd (cc))
      ]

shift : (a d : ℕ) → suc a + d ≡ a + suc d
shift a d = omega arith

add_zero : {a : ℕ} → a + 0 ≡ a
add_zero = omega arith

zero_add : (a : ℕ) → 0 + a ≡ a
zero_add a = omega arith

module _ (m : ℕ) where
  sized-inv :
      (a j s : ℕ) (fs : List FileEntry)
      → In (j, s) (sized m a fs)
      → (d : ℕ) × (j ≡ a + d) × (size_at fs d ≡ some s) × (m ≤ s)
  unfolding sized
  sized-inv a j s [] h = elim h [ ]
  sized-inv a j s (f ∷ fs) h = elim (Bool-cases (ltb f.size m)) [
    | inl t ↦ skip (sized-inv (suc a) j s fs (rw t at h))
    | inr t ↦ elim (In-cons (rw t at h)) [
      | inl e ↦
          let p = ap (λ e. e.0) e in
          let q = ap (λ e. e.1) e in (0, omega arith, ap some (sym q), ground (arith, t, q))
      | inr i ↦ skip (sized-inv (suc a) j s fs i)
    ]
  ]
    where
      skip :
          (d : ℕ) × (j ≡ suc a + d) × (size_at fs d ≡ some s) × (m ≤ s)
          → (d : ℕ) × (j ≡ a + d) × (size_at (f ∷ fs) d ≡ some s) × (m ≤ s)
      skip (d, p, e, l) = (suc d, omega arith, e, l)

  In-sized :
      (a d s : ℕ) (fs : List FileEntry)
      → size_at fs d ≡ some s
      → m ≤ s
      → In (a + d, s) (sized m a fs)
  unfolding sized
  In-sized a d s [] e l = cc
  In-sized a zero s (f ∷ fs) e l =
      let q = some-injective f.size s e in
      let t : ltb f.size m ≡ false = ground (arith, q, l) in
      rw t (here (a, f.size) (sized m (suc a) fs) (rw (q, add_zero) refl))
  In-sized a (suc d) s (f ∷ fs) e l =
      let n : In (a + suc d, s) (sized m (suc a) fs) =
        rw (← shift a d) (In-sized (suc a) d s fs e l) in
      elim (Bool-cases (ltb f.size m)) [
        | inl t ↦ rw t n
        | inr t ↦ rw t (there (a, f.size) (sized m (suc a) fs) n)
      ]

  Before-sized-inv :
      (a i j s : ℕ) (fs : List FileEntry) → Before (i, s) (j, s) (sized m a fs) → i < j
  unfolding sized
  Before-sized-inv a i j s [] h = elim h [ ]
  Before-sized-inv a i j s (f ∷ fs) h = elim (Bool-cases (ltb f.size m)) [
    | inl t ↦ Before-sized-inv (suc a) i j s fs (rw t at h)
    | inr t ↦ elim (Before-cons (rw t at h)) [
      | inl (e, n) ↦
          let p = ap (λ e. e.0) e in let (d, q, _, _) = sized-inv (suc a) j s fs n in omega arith
      | inr b ↦ Before-sized-inv (suc a) i j s fs b
    ]
  ]

  Before-sized :
      (a d d' s : ℕ) (fs : List FileEntry)
      → size_at fs d ≡ some s
      → size_at fs d' ≡ some s
      → d < d'
      → m ≤ s
      → Before (a + d, s) (a + d', s) (sized m a fs)
  unfolding sized
  Before-sized a d d' s [] e e' b l = cc
  Before-sized a d zero s (f ∷ fs) e e' b l = absurd (omega arith)
  Before-sized a zero (suc d') s (f ∷ fs) e e' b l =
      let q = some-injective f.size s e in
      let t : ltb f.size m ≡ false = ground (arith, q, l) in
      let n : In (a + suc d', s) (sized m (suc a) fs) =
        rw (← shift a d') (In-sized (suc a) d' s fs e' l) in
      rw t (first (a, f.size) (sized m (suc a) fs) (rw (q, add_zero) refl) n)
  Before-sized a (suc d) (suc d') s (f ∷ fs) e e' b l =
      let n : Before (a + suc d, s) (a + suc d', s) (sized m (suc a) fs) =
        rw (← shift a d, ← shift a d') (Before-sized (suc a) d d' s fs e e' (omega arith) l) in
      elim (Bool-cases (ltb f.size m)) [
        | inl t ↦ rw t n
        | inr t ↦ rw t (later (a, f.size) (sized m (suc a) fs) n)
      ]

  kept_size :
      {i s : ℕ} (fs : List FileEntry) → In (i, s) (sized m 0 fs) → (size_at fs i ≡ some s) × (m ≤ s)
  kept_size {i} {s} fs n = found (sized-inv 0 i s fs n)
    where
      found :
          (d : ℕ) × (i ≡ 0 + d) × (size_at fs d ≡ some s) × (m ≤ s)
          → (size_at fs i ≡ some s) × (m ≤ s)
      found (d, p, e, l) = let q : i ≡ d = omega arith in (rw q e, l)

  Before-all_sized :
      {i j s : ℕ} (fs : List FileEntry)
      → size_at fs i ≡ some s
      → size_at fs j ≡ some s
      → i < j
      → m ≤ s
      → Before (i, s) (j, s) (sized m 0 fs)
  Before-all_sized {i} {j} {s} fs e e' b l =
      rw (← zero_add i, ← zero_add j) (Before-sized 0 i j s fs e e' b l)

module _ (h : Hashers) (vis : Visit (ℕ × List ℕ)) (files : List FileEntry) (min_size : ℕ) where
  abbrev entries : List (ℕ × ℕ)
  entries = sized min_size 0 files

  abbrev buckets : Groups
  buckets = sort_buckets (vis.order (group_by_size files min_size))

  -- A bucket of the scan is the group of one size.
  bucket_inv :
      (i j s : ℕ) (g : List ℕ) → In (s, g) buckets → Before i j g → Before (i, s) (j, s) entries
  unfolding group_by_size
  bucket_inv i j s g n b =
      let r = In-Permᴰ (vis.once _) ((In-sort_buckets (s, g) _).0 n) in
      let e = In-group_all in_order entries s g ((In-retain_large (s, g) _).0 r).0 in
      (Before-with_key s i j entries).0 (rw (← e) b)

  bucket_lem :
      (i j s : ℕ)
      → Before (i, s) (j, s) entries
      → In (s, with_key s entries) buckets × Before i j (with_key s entries)
  unfolding group_by_size
  bucket_lem i j s b =
      let c = (Before-with_key s i j entries).1 b in
      let n = group_all-In in_order entries i s (Before-In c).0 in
      let r =
        (In-retain_large (s, with_key s entries) (group_all entries [])).1
          (n, at_least_two-Before c) in
      ((In-sort_buckets _ _).1 (In-Permᴰ (Permᴰ.symm (vis.once _)) r), c)

  -- The pairs of the scan are exactly the pairs of duplicates: files of one size that is not below
  -- the least one, whose partial and full hashes can be had and agree, and the mid hashes too from
  -- 2 MiB on; the file that stands earlier in the list comes first. In whatever order the maps are
  -- visited.
  pub In-scan_content :
      (i j : ℕ) → In (i, j) (scan_content h vis files min_size) ↔ Duplicates h files min_size i j
  unfolding scan_content
  In-scan_content i j = (
    λ n.
        let ((s, g), q, o) = In-flat_map-inv (scan_bucket h vis files) buckets n in
        let (b, a, m, f) = (In-scan_bucket h vis files s g i j).0 o in
        let c = bucket_inv i j s g q b in
        let (e, l) = kept_size min_size files (Before-In c).0 in
        record {
          earlier = Before-sized-inv min_size 0 i j s files c;
          size = s;
          large_enough = l;
          left = e;
          right = (kept_size min_size files (Before-In c).1).0;
          same_start = a;
          same_middle = m;
          same_content = f;
        },
    λ d.
        let c = Before-all_sized min_size files d.left d.right d.earlier d.large_enough in
        let (n, b) = bucket_lem i j d.size c in
        In-flat_map (scan_bucket h vis files) buckets n (
          (In-scan_bucket h vis files d.size (with_key d.size entries) i j).1
            (b, d.same_start, d.same_middle, d.same_content)),
  )
