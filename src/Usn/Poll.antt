-- ===== src/Usn/Poll.antt =====
-- What consecutive polls of crates/fs-indexer/src/platform/windows/usn.rs deliver.
use hypr_drive.Prelude.{
  ℕ, ◌≡◌, refl, sym, ap, ◌∙◌, true, List, [], ◌∷◌, ◌++◌, map, ◌==◌, arith, Bool-cases, inl, inr,
  if◌then◌else◌,
}
use hypr_drive.Prelude.Int.{ℤ, pos, ltb_ℤ, ◌≤ℤ◌, ◌+ℤ◌, +ℤ_parts}
use hypr_drive.Prelude.HashMap.{All}
use hypr_drive.Prelude.Results.{Result, ok}
use hypr_drive.Changes.{FsChange, UsnCursor, FsIndexerError}
use hypr_drive.Usn.{
  UsnRecord, Journal, change_of, max_usn, poll_records, same_journal, poll_changes,
}

-- The records from a USN on.
unfoldable pub since : ℤ → List UsnRecord → List UsnRecord
since s [] = []
since s (r ∷ rs) = if ltb_ℤ r.usn s then since s rs else r ∷ since s rs

-- The documented behaviour of the journal: it is there, with the identity and the records given.
pub record Holds (j : Journal) (id : ℕ) (log : List UsnRecord) : Type 0 where
  pub letter : (n : ℕ) × (j.letter ≡ ok n)
  pub opened : j.opened ≡ ok tt
  pub query : (n : ℤ) × (j.query ≡ ok (record { journal_id = id; next_usn = n }))
  pub iter : (s : ℤ) → j.iter s ≡ ok (map ok (since s log))

-- What the records stand for.
unfoldable pub changes_in : Journal → List UsnRecord → List FsChange
changes_in j [] = []
changes_in j (r ∷ rs) = change_of j.lossy j.now r ++ changes_in j rs

abbrev pub last_usn : ℤ → List UsnRecord → ℤ
last_usn m [] = m
last_usn m (r ∷ rs) = last_usn (max_usn m r) rs

poll_records_lem :
    (j : Journal) (m : ℤ) (rs : List UsnRecord)
    → poll_records j m (map ok rs) ≡ (changes_in j rs, last_usn m rs)
unfolding poll_records changes_in
poll_records_lem j m [] = refl
poll_records_lem j m (r ∷ rs) = rw (poll_records_lem j (max_usn m r) rs)

same_id : (id : ℕ) → (id == id) ≡ true
same_id id = ground arith

-- The outcome of a poll that reads the given records.
abbrev outcome :
    Journal → UsnCursor → List UsnRecord → Result FsIndexerError (List FsChange × UsnCursor)
outcome j c rs = ok (
  changes_in j rs,
  record { journal_id = c.journal_id; next_usn = last_usn c.next_usn rs +ℤ pos 1 },
)

poll_changes_lem :
    (j : Journal) (c : UsnCursor) (log : List UsnRecord)
    → Holds j c.journal_id log
    → poll_changes j c ≡ outcome j c (since c.next_usn log)
unfolding poll_changes same_journal
poll_changes_lem j c log h =
    let (n, el) = h.letter in
    let (m, eq) = h.query in
    simp (
      el,
      same_id c.journal_id,
      h.opened,
      eq,
      h.iter c.next_usn,
      poll_records_lem j c.next_usn (since c.next_usn log),
    )

last_usn-start : (m : ℤ) (rs : List UsnRecord) → m ≤ℤ last_usn m rs
unfolding max_usn
last_usn-start m [] = omega arith
last_usn-start m (r ∷ rs) = ground (arith, last_usn-start (max_usn m r) rs)

last_usn-max_usn : (m : ℤ) (r : UsnRecord) (rs : List UsnRecord) → r.usn ≤ℤ last_usn m (r ∷ rs)
unfolding max_usn
last_usn-max_usn m r rs = ground (arith, last_usn-start (max_usn m r) rs)

-- No record of the journal is above the last USN of the poll.
below_last :
    (s m top : ℤ) (log : List UsnRecord)
    → s ≤ℤ top
    → last_usn m (since s log) ≤ℤ top
    → All (λ r. r.usn ≤ℤ top) log
unfolding since
below_last s m top [] h k = tt
below_last s m top (r ∷ log) h k = elim (Bool-cases (ltb_ℤ r.usn s)) [
  | inl p ↦ (ground (arith, h), below_last s m top log h (rw p at k))
  | inr p ↦
      let k' : last_usn (max_usn m r) (since s log) ≤ℤ top = rw p at k in
      (omega (arith, last_usn-max_usn m r (since s log)), below_last s (max_usn m r) top log h k')
]

since-append : (s : ℤ) (xs ys : List UsnRecord) → since s (xs ++ ys) ≡ since s xs ++ since s ys
unfolding since
since-append s [] ys = refl
since-append s (r ∷ xs) ys = ground (arith, since-append s xs ys)

since-past : (m : ℤ) (xs : List UsnRecord) → All (λ r. r.usn ≤ℤ m) xs → since (m +ℤ pos 1) xs ≡ []
unfolding since
since-past m [] a = refl
since-past m (r ∷ xs) a = ground (arith, +ℤ_parts m (pos 1), since-past m xs a.1, a.0)

since-fresh : (s : ℤ) (xs : List UsnRecord) → All (λ r. s ≤ℤ r.usn) xs → since s xs ≡ xs
unfolding since
since-fresh s [] a = refl
since-fresh s (r ∷ xs) a = ground (arith, since-fresh s xs a.1, a.0)

All-weaken :
    (s m : ℤ) (rs : List UsnRecord)
    → All (λ r. m +ℤ pos 1 ≤ℤ r.usn) rs
    → s ≤ℤ m
    → All (λ r. s ≤ℤ r.usn) rs
All-weaken s m [] a h = tt
All-weaken s m (r ∷ rs) a h = (omega (arith, a.0, +ℤ_parts m (pos 1)), All-weaken s m rs a.1 h)

-- After a poll the records that were there are not read again.
since-polled :
    (c : UsnCursor) (log : List UsnRecord)
    → since (last_usn c.next_usn (since c.next_usn log) +ℤ pos 1) log ≡ []
since-polled c log =
    let last = last_usn c.next_usn (since c.next_usn log) in
    since-past last log (
      below_last c.next_usn c.next_usn last log (last_usn-start c.next_usn (since c.next_usn log))
        (omega arith))

last_usn-below :
    (m top : ℤ) (rs : List UsnRecord)
    → ltb_ℤ m top ≡ true
    → All (λ r. ltb_ℤ r.usn top ≡ true) rs
    → ltb_ℤ (last_usn m rs) top ≡ true
unfolding max_usn
last_usn-below m top [] h a = h
last_usn-below m top (r ∷ rs) h a = last_usn-below (max_usn m r) top rs (ground (arith, h, a.0)) a.1

All-since :
    (P : UsnRecord → Type 0) (s : ℤ) (log : List UsnRecord) → All P log → All P (since s log)
unfolding since
All-since P s [] a = tt
All-since P s (r ∷ log) a = elim (Bool-cases (ltb_ℤ r.usn s)) [
  | inl p ↦ rw p (All-since P s log a.1)
  | inr p ↦ rw p (a.0, All-since P s log a.1)
]

-- The cursor is below what is above every record, where a record is at or after the cursor.
since-start :
    (s top : ℤ) (log : List UsnRecord) (x : UsnRecord) (xs : List UsnRecord)
    → since s log ≡ x ∷ xs
    → All (λ r. ltb_ℤ r.usn top ≡ true) log
    → ltb_ℤ s top ≡ true
unfolding since
since-start s top [] x xs e a = cc
since-start s top (r ∷ log) x xs e a = elim (Bool-cases (ltb_ℤ r.usn s)) [
  | inl p ↦ since-start s top log x xs (rw p at e) a.1
  | inr p ↦ ground (arith, p, a.0)
]

-- New records have greater USNs than those that were there before.
abbrev pub Appended : List UsnRecord → List UsnRecord → Type 0
Appended log more = All (λ n. All (λ r. ltb_ℤ r.usn n.usn ≡ true) log) more

-- The cursor of a poll that read a record is not past any record that is appended.
Appended-polled :
    (s : ℤ) (log more : List UsnRecord) (x : UsnRecord) (xs : List UsnRecord)
    → since s log ≡ x ∷ xs
    → Appended log more
    → All (λ n. last_usn s (since s log) +ℤ pos 1 ≤ℤ n.usn) more
Appended-polled s log [] x xs e a = tt
Appended-polled s log (n ∷ more) x xs e a = (
  let below =
        last_usn-below s n.usn (since s log) (since-start s n.usn log x xs e a.0)
          (All-since (λ r. ltb_ℤ r.usn n.usn ≡ true) s log a.0) in
      ground (arith, below, +ℤ_parts (last_usn s (since s log)) (pos 1)),
  Appended-polled s log more x xs e a.1,
)

-- Two polls in a row, the second from the cursor of the first, with more records in the journal by
-- then, whose USNs are greater than those of all records before them. If the first poll reads a
-- record, it gives the changes of the records since its cursor, and the second those of the new
-- records, so together they read each record since the first cursor once, in order.
pub poll_changes-resumed :
    (j k : Journal) (c : UsnCursor) (log more : List UsnRecord) (x : UsnRecord)
    (xs : List UsnRecord)
    → Holds j c.journal_id log
    → Holds k c.journal_id (log ++ more)
    → since c.next_usn log ≡ x ∷ xs
    → Appended log more
    → (c' c'' : UsnCursor) × (poll_changes j c ≡ ok (changes_in j (since c.next_usn log), c'))
      × (poll_changes k c' ≡ ok (changes_in k more, c''))
      × (since c.next_usn (log ++ more) ≡ since c.next_usn log ++ more)
poll_changes-resumed j k c log more x xs h h' found appended =
    let last = last_usn c.next_usn (since c.next_usn log) in
    let c' : UsnCursor = record { journal_id = c.journal_id; next_usn = last +ℤ pos 1 } in
    let after = Appended-polled c.next_usn log more x xs found appended in
    let new : since c'.next_usn (log ++ more) ≡ more =
      since-append c'.next_usn log more
      ∙ ap (λ rs. rs ++ since c'.next_usn more) (since-polled c log)
      ∙ since-fresh c'.next_usn more after in
    (
      c',
      record { journal_id = c.journal_id; next_usn = last_usn c'.next_usn more +ℤ pos 1 },
      poll_changes_lem j c log h,
      poll_changes_lem k c' (log ++ more) h' ∙ ap (outcome k c') new,
      since-append c.next_usn log more
          ∙ ap (λ rs. since c.next_usn log ++ rs)
              (since-fresh c.next_usn more (
                All-weaken c.next_usn last more after
                  (last_usn-start c.next_usn (since c.next_usn log)))),
    )

-- A poll that finds no record at or after its cursor moves the cursor on by one all the same. A
-- record that the journal then writes at the USN of the first cursor is not read by the next poll.
pub poll_changes-idle :
    (j k : Journal) (c : UsnCursor) (log more : List UsnRecord) (r : UsnRecord)
    → Holds j c.journal_id log
    → Holds k c.journal_id (log ++ r ∷ more)
    → since c.next_usn log ≡ []
    → r.usn ≡ c.next_usn
    → All (λ s. c.next_usn +ℤ pos 1 ≤ℤ s.usn) more
    → (c' c'' : UsnCursor) × (poll_changes j c ≡ ok ([], c'))
      × (poll_changes k c' ≡ ok (changes_in k more, c''))
unfolding changes_in since
poll_changes-idle j k c log more r h h' idle same later =
    let c' : UsnCursor = record { journal_id = c.journal_id; next_usn = c.next_usn +ℤ pos 1 } in
    let past : since c'.next_usn log ≡ [] =
      ap (λ rs. since (last_usn c.next_usn rs +ℤ pos 1) log) (sym idle) ∙ since-polled c log in
    let new : since c'.next_usn (log ++ r ∷ more) ≡ more =
      since-append c'.next_usn log (r ∷ more)
      ∙ ap (λ rs. rs ++ since c'.next_usn (r ∷ more)) past
      ∙ below r same
      ∙ since-fresh c'.next_usn more later in
    (
      c',
      record { journal_id = c.journal_id; next_usn = last_usn c'.next_usn more +ℤ pos 1 },
      poll_changes_lem j c log h ∙ ap (outcome j c) idle,
      poll_changes_lem k c' (log ++ r ∷ more) h' ∙ ap (outcome k c') new,
    )
  where
    below :
        (r : UsnRecord)
        → r.usn ≡ c.next_usn
        → since (c.next_usn +ℤ pos 1) (r ∷ more) ≡ since (c.next_usn +ℤ pos 1) more
    below r same = ground (arith, +ℤ_parts c.next_usn (pos 1))
