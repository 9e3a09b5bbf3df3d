-- ===== src/Domain/Undo/Stack.antt =====
-- The undo stack of core/src/domain/undo.rs as an abstract stack: its entries, the newest first.
use hypr_drive.Prelude.{
  ℕ, zero, suc, ◌≤◌, ◌<◌, ◌≡◌, refl, sym, ap, ◌∙◌, Option, some, none, List, [], ◌∷◌, ◌++◌, length,
  arith, length-append, dec_lt, take,
}
use hypr_drive.Domain.Undo.{
  max_undo_entries, UndoEntry, UndoStack, pop_front, back, but_last, push, pop, peek, len,
}

abbrev pub reverse : {A : Type 0} → List A → List A
reverse [] = []
reverse (x ∷ xs) = reverse xs ++ x ∷ []

-- The entries, the newest first.
abbrev pub newest_first : UndoStack → List UndoEntry
newest_first s = reverse s.entries

reverse-snoc : {A : Type 0} (xs : List A) (x : A) → reverse (xs ++ x ∷ []) ≡ x ∷ reverse xs
reverse-snoc [] x = refl
reverse-snoc (y ∷ xs) x = ap (λ l. l ++ y ∷ []) (reverse-snoc xs x)

length-reverse : {A : Type 0} (xs : List A) → length (reverse xs) ≡ length xs
length-reverse [] = refl
length-reverse (x ∷ xs) = omega (arith, length-append (reverse xs) (x ∷ []), length-reverse xs)

take_prefix :
    {A : Type 0} (xs : List A) (y : A) (n : ℕ) → n ≡ length xs → take n (xs ++ y ∷ []) ≡ xs
take_prefix [] y n e = rw e
take_prefix (x ∷ xs) y zero e = absurd (omega arith)
take_prefix (x ∷ xs) y (suc n) e = ap (◌∷◌ x) (take_prefix xs y n (omega arith))

length-pop_front : {A : Type 0} (xs : List A) → length (pop_front xs) ≤ length xs
length-pop_front [] = omega arith
length-pop_front (x ∷ xs) = omega arith

take_all : {A : Type 0} (xs : List A) (n : ℕ) → length xs ≤ n → take n xs ≡ xs
take_all [] zero h = refl
take_all [] (suc n) h = refl
take_all (x ∷ xs) zero h = absurd (omega arith)
take_all (x ∷ xs) (suc n) h = ap (◌∷◌ x) (take_all xs n (omega arith))

-- Within its bound, the stack after a push holds the new entry on top of the newest of the old
-- ones, 50 entries at most, and is within its bound again.
pub newest_first-push :
    (entry : UndoEntry) (s : UndoStack)
    → len s ≤ max_undo_entries
    → (newest_first (push entry s) ≡ take max_undo_entries (entry ∷ newest_first s))
      × (len (push entry s) ≤ max_undo_entries)
unfolding push len
newest_first-push entry s h = elim (dec_lt (length s.entries) 50) [
  | yes room ↦ (
    ground (arith, room_case s.entries room),
    ground (arith, length-append s.entries (entry ∷ [])),
  )
  | no full ↦ (
    ground (arith, full_case s.entries (omega arith)),
    ground (arith, length-append (pop_front s.entries) (entry ∷ []), length-pop_front s.entries),
  )
]
  where
    room_case :
        (es : List UndoEntry)
        → length es < 50
        → reverse (es ++ entry ∷ []) ≡ take max_undo_entries (entry ∷ reverse es)
    room_case es room =
        reverse-snoc es entry
        ∙ ap (◌∷◌ entry) (sym (take_all (reverse es) 49 (omega (arith, length-reverse es))))

    full_case :
        (es : List UndoEntry)
        → length es ≡ 50
        → reverse (pop_front es ++ entry ∷ []) ≡ take max_undo_entries (entry ∷ reverse es)
    full_case [] e = absurd (omega arith)
    full_case (x ∷ xs) e =
        reverse-snoc xs entry
        ∙ ap (◌∷◌ entry) (sym (take_prefix (reverse xs) x 49 (omega (arith, length-reverse xs))))

-- The top of the stack, and what is under it.
abbrev top : List UndoEntry → Option UndoEntry
top [] = none
top (x ∷ _) = some x

top-append :
    (xs ys : List UndoEntry) (y : UndoEntry) → top ((xs ++ y ∷ []) ++ ys) ≡ top (xs ++ y ∷ [])
top-append [] ys y = refl
top-append (x ∷ xs) ys y = refl

pop_front-append :
    (xs ys : List UndoEntry) (y : UndoEntry)
    → pop_front ((xs ++ y ∷ []) ++ ys) ≡ pop_front (xs ++ y ∷ []) ++ ys
pop_front-append [] ys y = refl
pop_front-append (x ∷ xs) ys y = refl

back-top : (es : List UndoEntry) → back es ≡ top (reverse es)
unfolding back
back-top [] = refl
back-top (x ∷ []) = refl
back-top (x ∷ y ∷ xs) = back-top (y ∷ xs) ∙ sym (top-append (reverse xs) (x ∷ []) y)

but_last-pop_front : (es : List UndoEntry) → reverse (but_last es) ≡ pop_front (reverse es)
unfolding but_last
but_last-pop_front [] = refl
but_last-pop_front (x ∷ []) = refl
but_last-pop_front (x ∷ y ∷ xs) =
    ap (λ l. l ++ x ∷ []) (but_last-pop_front (y ∷ xs))
    ∙ sym (pop_front-append (reverse xs) (x ∷ []) y)

-- A pop gives the newest entry, if any, and leaves the entries under it; a peek gives what a pop
-- would.
pub pop-newest_first :
    (s : UndoStack)
    → ((pop s).0 ≡ top (newest_first s))
      × (newest_first (pop s).1 ≡ pop_front (newest_first s))
      × (peek s ≡ (pop s).0)
unfolding pop peek
pop-newest_first s = (back-top s.entries, but_last-pop_front s.entries, refl)
