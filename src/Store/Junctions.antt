-- ===== src/Store/Junctions.antt =====
-- The tags on objects of core/src/db/queries.rs keep the constraints of core/migrations.
use hypr_drive.Prelude.{
  ℕ, ◌≡◌, refl, ap, Bool, true, not, Option, some, none, String, List, [], ◌∷◌, ◌++◌, Bool-cases,
  inl, inr, ◌>>=◌,
}
use hypr_drive.Prelude.HashMap.{All}
use hypr_drive.Store.Rows.{keep, exists, same_iff}
use hypr_drive.Store.Rows.Existence.{All-mono, All-keep, All-snoc, exists-All}
use hypr_drive.Store.Rows.Unique.{Unique, Unique-keep, Unique-snoc}
use hypr_drive.Store.{Store, has_object}
use hypr_drive.Store.Tags.{is_junction, has_tag, add_tag, more, add_tags_batch, remove_tags_batch}
use hypr_drive.Store.Consistent.{IsConsistent}
use hypr_drive.Store.Preserved.{Good}
use hypr_drive.Store.Upgrade.{store_of}

module _ (t : Store) (c : IsConsistent t) where
  with_junctions-IsConsistent :
      (junctions : List (String × String))
      → Unique (λ e. e) junctions
      → All (λ e. has_object t.objects e.1 ≡ true) junctions
      → All (λ e. has_tag t.tags e.0 ≡ true) junctions
      → IsConsistent (record t { tags_on_objects = junctions })
  with_junctions-IsConsistent junctions u o g = record {
    object_ids = c.object_ids;
    location_ids = c.location_ids;
    places = c.places;
    junctions = u;
    cursor_keys = c.cursor_keys;
    states = c.states;
    owned = c.owned;
    parents = c.parents;
    tagged = o;
    known_tags = g;
  }

is_junction_self :
    (tag object : String) (e : String × String)
    → e ≡ (tag, object)
    → is_junction tag object e ≡ true
is_junction_self tag object e p =
    rw ((same_iff e.0 tag).1 (ap (λ e. e.0) p), (same_iff e.1 object).1 (ap (λ e. e.1) p)) refl

add_tag-Good :
    (tag object : String) (t : Store) → IsConsistent t → Good (store_of (add_tag tag object t))
unfolding add_tag
add_tag-Good tag object t c =
    elim (Bool-cases (exists (is_junction tag object) t.tags_on_objects)) [
      | inl h ↦ rw h c
      | inr n ↦ elim (Bool-cases (has_tag t.tags tag)) [
        | inr f ↦ rw (n, f) tt
        | inl g ↦ elim (Bool-cases (has_object t.objects object)) [
          | inr f ↦ rw (n, g, f) tt
          | inl o ↦
              rw (n, g, o)
                (with_junctions-IsConsistent t c (t.tags_on_objects ++ (tag, object) ∷ [])
                  (Unique-snoc (λ e. e) t.tags_on_objects (tag, object)
                    (All-mono (λ e f p. let t = is_junction_self tag object e p in absurd (cc))
                      t.tags_on_objects (exists-All (is_junction tag object) t.tags_on_objects n))
                    c.junctions)
                  (All-snoc (λ e. has_object t.objects e.1 ≡ true) t.tags_on_objects (tag, object)
                    c.tagged o)
                  (All-snoc (λ e. has_tag t.tags e.0 ≡ true) t.tags_on_objects (tag, object)
                    c.known_tags g))
        ]
      ]
    ]

pub add_tags_batch-Good :
    (tag : String) (ids : List String) (t : Store)
    → IsConsistent t
    → Good (store_of (add_tags_batch tag ids t))
unfolding add_tags_batch
add_tags_batch-Good tag [] t c = c
add_tags_batch-Good tag (id ∷ ids) t c =
    next (add_tag tag id t) (add_tag-Good tag id t c) (add_tags_batch-Good tag ids)
  where
    counted : (n : ℕ) (m : Option (ℕ × Store)) → Good (store_of m) → Good (store_of (more n m))
    counted n none g = g
    counted n (some (_, u)) g = g

    next :
        (m : Option (ℕ × Store))
        → Good (store_of m)
        → ((u : Store) → IsConsistent u → Good (store_of (add_tags_batch tag ids u)))
        → Good (store_of (m >>= (λ (n, u). more n (add_tags_batch tag ids u))))
    next none g h = tt
    next (some (n, u)) g h = counted n (add_tags_batch tag ids u) (h u g)

pub remove_tags_batch-IsConsistent :
    (tag : String) (ids : List String) (t : Store)
    → IsConsistent t
    → IsConsistent (remove_tags_batch tag ids t).1
unfolding remove_tags_batch
remove_tags_batch-IsConsistent tag [] t c = c
remove_tags_batch-IsConsistent tag (id ∷ ids) t c =
    remove_tags_batch-IsConsistent tag ids
      (record t { tags_on_objects = keep other t.tags_on_objects })
      (with_junctions-IsConsistent t c (keep other t.tags_on_objects)
        (Unique-keep (λ e. e) other t.tags_on_objects c.junctions)
        (All-keep other (λ _ _ h. h) t.tags_on_objects c.tagged)
        (All-keep other (λ _ _ h. h) t.tags_on_objects c.known_tags))
  where
    other : String × String → Bool
    other e = not (is_junction tag id e)
