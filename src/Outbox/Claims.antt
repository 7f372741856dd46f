-- ===== src/Outbox/Claims.antt =====
-- What a claim takes.
use savemycontrollers.Outbox.{
  OutboxEvent, insert_by_time, order_by_time, select_due, is_due, claim_outbox_batch_atomic,
  claimed, ids_of, pending, processing, processed, failed,
}
use savemycontrollers.Prelude.{
  ℕ, zero, suc, min, count_where, Bool-cases, inl, inr, ap, false, ◌+◌, ◌<◌, if◌then◌else◌, Uuid,
  Instant, Bool, true, List, [], ◌∷◌, ◌≡◌, ◌≤◌, refl, arith, ◌∙◌, map, ◌&&◌, not, leb, all, filter,
  take, length, length-take-le, update_where, contains,
}

all-insert :
    (p : OutboxEvent → Bool) (e : OutboxEvent) (rows : List OutboxEvent)
    → all p (insert_by_time e rows) ≡ (p e && all p rows)
unfolding insert_by_time
all-insert p e [] = refl
all-insert p e (r ∷ rows) = ground (arith, all-insert p e rows)

all-order :
    (p : OutboxEvent → Bool) (rows : List OutboxEvent) → all p (order_by_time rows) ≡ all p rows
unfolding order_by_time
all-order p [] = refl
all-order p (r ∷ rows) = ground (arith, all-insert p r (order_by_time rows), all-order p rows)

all-take :
    {A : Type 0} (p : A → Bool) (n : ℕ) (xs : List A) → all p xs ≡ true → all p (take n xs) ≡ true
all-take p zero xs h = refl
all-take p (suc n) [] h = refl
all-take p (suc n) (x ∷ xs) h = ground (arith, all-take p n xs)

-- A test that every due row passes holds for all that is selected.
pub all-select :
    (p : OutboxEvent → Bool) (limit : ℕ) (now : Instant) (skip : List Uuid)
    (rows : List OutboxEvent)
    → all p (filter (is_due now skip) rows) ≡ true
    → all p (select_due limit now skip rows) ≡ true
unfolding select_due
all-select p limit now skip rows h = all-take p limit _ (all-order p _ ∙ h)

-- Oldest first.
abbrev pub is_sorted : List OutboxEvent → Bool
is_sorted [] = true
is_sorted (r ∷ rows) = all (λ e. leb r.occurred_at e.occurred_at) rows && is_sorted rows

all-later :
    (t u : ℕ) (rows : List OutboxEvent)
    → t ≤ u
    → all (λ e. leb u e.occurred_at) rows ≡ true
    → all (λ e. leb t e.occurred_at) rows ≡ true
all-later t u [] h a = refl
all-later t u (r ∷ rows) h a = ground (arith, all-later t u rows h)

insert-is_sorted :
    (e : OutboxEvent) (rows : List OutboxEvent)
    → is_sorted rows ≡ true
    → is_sorted (insert_by_time e rows) ≡ true
unfolding insert_by_time
insert-is_sorted e [] h = refl
insert-is_sorted e (r ∷ rows) h = ground (
  arith,
  insert-is_sorted e rows,
  all-insert (λ x. leb r.occurred_at x.occurred_at) e rows,
  all-later e.occurred_at r.occurred_at rows,
)

order-is_sorted : (rows : List OutboxEvent) → is_sorted (order_by_time rows) ≡ true
unfolding order_by_time
order-is_sorted [] = refl
order-is_sorted (r ∷ rows) = insert-is_sorted r (order_by_time rows) (order-is_sorted rows)

take-is_sorted :
    (n : ℕ) (rows : List OutboxEvent) → is_sorted rows ≡ true → is_sorted (take n rows) ≡ true
take-is_sorted zero rows h = refl
take-is_sorted (suc n) [] h = refl
take-is_sorted (suc n) (r ∷ rows) h = ground (
  arith,
  take-is_sorted n rows,
  all-take (λ (e : OutboxEvent). leb r.occurred_at e.occurred_at) n rows,
)

-- Not yet handled, due, and not locked by another transaction.
abbrev pub is_claimable : Instant → List Uuid → OutboxEvent → Bool
is_claimable now skip r = elim r.status [
  | pending ↦ leb r.next_attempt_at now && not (contains r.id skip)
  | _ ↦ false
]

count_where-insert :
    (p : OutboxEvent → Bool) (e : OutboxEvent) (rows : List OutboxEvent)
    → count_where p (insert_by_time e rows) ≡ (if p e then 1 else 0) + count_where p rows
unfolding insert_by_time
count_where-insert p e [] = refl
count_where-insert p e (r ∷ rows) = ground (arith, count_where-insert p e rows)

count_where-order :
    (p : OutboxEvent → Bool) (rows : List OutboxEvent)
    → count_where p (order_by_time rows) ≡ count_where p rows
unfolding order_by_time
count_where-order p [] = refl
count_where-order p (r ∷ rows) =
    omega (arith, count_where-insert p r (order_by_time rows), count_where-order p rows)

count_where-due :
    (p : OutboxEvent → Bool) (now : Instant) (skip : List Uuid) (rows : List OutboxEvent)
    → count_where p (filter (is_due now skip) rows)
      ≡ count_where (λ r. is_claimable now skip r && p r) rows
count_where-due p now skip [] = refl
count_where-due p now skip (r ∷ rows) = elim r.status [
  | pending ↦ ground (arith, count_where-due p now skip rows)
  | processing ↦ ground (arith, count_where-due p now skip rows)
  | processed ↦ ground (arith, count_where-due p now skip rows)
  | failed ↦ ground (arith, count_where-due p now skip rows)
]

count_where-take-le :
    (p : OutboxEvent → Bool) (n : ℕ) (rows : List OutboxEvent)
    → count_where p (take n rows) ≤ count_where p rows
count_where-take-le p zero rows = omega arith
count_where-take-le p (suc n) [] = omega arith
count_where-take-le p (suc n) (r ∷ rows) = omega (arith, count_where-take-le p n rows)

-- The rows that occurred by an instant.
abbrev pub until : Instant → OutboxEvent → Bool
until t r = leb r.occurred_at t

none-until :
    (t u : Instant) (rows : List OutboxEvent)
    → t < u
    → all (λ e. leb u e.occurred_at) rows ≡ true
    → count_where (until t) rows ≡ 0
none-until t u [] lt h = refl
none-until t u (r ∷ rows) lt h = ground (arith, none-until t u rows)

-- The first rows of a sorted list are its oldest.
take-oldest :
    (t : Instant) (n : ℕ) (rows : List OutboxEvent)
    → is_sorted rows ≡ true
    → count_where (until t) (take n rows) ≡ min n (count_where (until t) rows)
take-oldest t zero rows h = omega arith
take-oldest t (suc n) [] h = omega arith
take-oldest t (suc n) (r ∷ rows) h = elim (Bool-cases (leb r.occurred_at t)) [
  | inl old ↦ ground (arith, take-oldest t n rows)
  | inr new ↦
      let later : count_where (until t) rows ≡ 0 =
        none-until t r.occurred_at rows (ground arith) (ground arith) in
      ground (arith, count_where-take-le (until t) n rows)
]

-- A batch holds the oldest claimable rows, those that are pending, due and not locked by another
-- transaction: of the rows that occurred by any instant it has as many as are claimable, up to the
-- limit; whatever test they are counted by, it has no more rows than are claimable; and the oldest
-- come first.
pub claim-batch :
    (limit : ℕ) (worker : Uuid) (now : Instant) (skip : List Uuid) (rows : List OutboxEvent)
    (t : Instant) (p : OutboxEvent → Bool)
    → let batch = (claim_outbox_batch_atomic limit worker now skip rows).0 in
      (count_where (until t) batch
        ≡ min limit (count_where (λ r. is_claimable now skip r && until t r) rows))
      × (count_where p batch ≤ count_where (λ r. is_claimable now skip r && p r) rows)
      × (length batch ≤ limit)
      × (is_sorted batch ≡ true)
unfolding claim_outbox_batch_atomic select_due
claim-batch limit worker now skip rows t p =
    let due = order_by_time (filter (is_due now skip) rows) in
    let sorted = order-is_sorted (filter (is_due now skip) rows) in
    (
      take-oldest t limit due sorted
          ∙ ap (min limit)
              (count_where-order (until t) _ ∙ count_where-due (until t) now skip rows),
      omega (
        arith,
        count_where-take-le p limit due,
        count_where-order p (filter (is_due now skip) rows),
        count_where-due p now skip rows,
      ),
      length-take-le limit _,
      take-is_sorted limit due sorted,
    )

not_due_again :
    (ids : List Uuid) (worker : Uuid) (t now : Instant) (skip : List Uuid) (rows : List OutboxEvent)
    → all
        (λ r. not (contains r.id ids))
        (filter (is_due now skip) (update_where (λ r. contains r.id ids) (claimed t worker) rows))
      ≡ true
not_due_again ids worker t now skip [] = refl
not_due_again ids worker t now skip (r ∷ rows) =
    ground (arith, not_due_again ids worker t now skip rows)

-- Two claims one after the other, by any workers at any times, never take the same event.
pub claims_disjoint :
    (limit limit' : ℕ) (worker worker' : Uuid) (now later : Instant) (skip skip' : List Uuid)
    (rows : List OutboxEvent)
    → let (batch, claimed_rows) = claim_outbox_batch_atomic limit worker now skip rows in
      all
        (λ r. not (contains r.id (ids_of batch)))
        (claim_outbox_batch_atomic limit' worker' later skip' claimed_rows).0
      ≡ true
unfolding claim_outbox_batch_atomic
claims_disjoint limit limit' worker worker' now later skip skip' rows =
    all-select _ limit' later skip' _
      (not_due_again (ids_of (select_due limit now skip rows)) worker now later skip' rows)

-- The claim changes exactly the rows of the batch: they are locked by the worker with one attempt
-- more, and every other row of the table stays as it was.
pub claim_changes_batch :
    (limit : ℕ) (worker : Uuid) (now : Instant) (skip : List Uuid) (rows : List OutboxEvent)
    → let (batch, claimed_rows) = claim_outbox_batch_atomic limit worker now skip rows in
      (filter (λ r. contains r.id (ids_of batch)) claimed_rows
        ≡ map (claimed now worker) (filter (λ r. contains r.id (ids_of batch)) rows))
      × (filter (λ r. not (contains r.id (ids_of batch))) claimed_rows
          ≡ filter (λ r. not (contains r.id (ids_of batch))) rows)
unfolding claim_outbox_batch_atomic
claim_changes_batch limit worker now skip rows = (
  changed (ids_of (select_due limit now skip rows)) rows,
  kept (ids_of (select_due limit now skip rows)) rows,
)
  where
    changed :
        (ids : List Uuid) (rs : List OutboxEvent)
        → filter
            (λ r. contains r.id ids)
            (update_where (λ r. contains r.id ids) (claimed now worker) rs)
          ≡ map (claimed now worker) (filter (λ r. contains r.id ids) rs)
    changed ids [] = refl
    changed ids (r ∷ rs) = ground (arith, changed ids rs)

    kept :
        (ids : List Uuid) (rs : List OutboxEvent)
        → filter
            (λ r. not (contains r.id ids))
            (update_where (λ r. contains r.id ids) (claimed now worker) rs)
          ≡ filter (λ r. not (contains r.id ids)) rs
    kept ids [] = refl
    kept ids (r ∷ rs) = ground (arith, kept ids rs)
