-- ===== src/Worker/Terminal.antt =====
-- An event that is processed, or in the dead letters, stays as it is.
use savemycontrollers.Outbox.{
  OutboxEvent, is_due, select_due, order_by_time, insert_by_time, claim_outbox_batch_atomic,
  claimed, ids_of, release_stale_outbox_locks, released, is_stale, append_event, new_event,
}
use savemycontrollers.Worker.{
  after_success, after_failure, holds_lock, is_locked_by, mark_processed, mark_failed, mark_retry,
}
use savemycontrollers.Worker.Locks.{
  Step, append, claim, succeed, fail, release, Reach, here, next, IsTable, Reach-IsTable,
  is_consistent, is_terminal,
}
use savemycontrollers.Prelude.{
  ℕ, zero, suc, Uuid, Instant, Bool, true, false, List, [], ◌∷◌, ◌++◌, ◌≡◌, refl, sym, ◌∙◌, arith,
  ◌&&◌, ◌||◌, ◌==◌, not, all, any, filter, take, update_where, contains, is_distinct, leb,
  Bool-cases, inl, inr,
}

-- Some terminal row of the table passes the test `q`.
abbrev pub has_terminal : (OutboxEvent → Bool) → List OutboxEvent → Bool
has_terminal q rows = any (λ r. is_terminal r && q r) rows

update_where-has_terminal :
    (q p : OutboxEvent → Bool) (f : OutboxEvent → OutboxEvent) (rows : List OutboxEvent)
    → all (λ r. not (p r) || not (is_terminal r)) rows ≡ true
    → has_terminal q rows ≡ true
    → has_terminal q (update_where p f rows) ≡ true
update_where-has_terminal q p f [] a h = h
update_where-has_terminal q p f (r ∷ rows) a h =
    ground (arith, update_where-has_terminal q p f rows)

append-has_terminal :
    (q : OutboxEvent → Bool) (e : OutboxEvent) (rows : List OutboxEvent)
    → has_terminal q rows ≡ true
    → has_terminal q (rows ++ e ∷ []) ≡ true
append-has_terminal q e [] h = cc
append-has_terminal q e (r ∷ rows) h = ground (arith, append-has_terminal q e rows)

all_implied :
    (p q : OutboxEvent → Bool) (rows : List OutboxEvent)
    → ((r : OutboxEvent) → p r ≡ true → q r ≡ true)
    → all p rows ≡ true
    → all q rows ≡ true
all_implied p q [] imp h = refl
all_implied p q (r ∷ rows) imp h = ground (arith, imp r, all_implied p q rows imp)

all_always :
    (p : OutboxEvent → Bool) (rows : List OutboxEvent)
    → ((r : OutboxEvent) → p r ≡ true)
    → all p rows ≡ true
all_always p [] imp = refl
all_always p (r ∷ rows) imp = ground (arith, imp r, all_always p rows imp)

-- The ids of a batch are ids of due rows.
contains-insert :
    (i : Uuid) (e : OutboxEvent) (rows : List OutboxEvent)
    → contains i (ids_of (insert_by_time e rows)) ≡ ((e.id == i) || contains i (ids_of rows))
unfolding insert_by_time
contains-insert i e [] = refl
contains-insert i e (r ∷ rows) = ground (arith, contains-insert i e rows)

contains-order :
    (i : Uuid) (rows : List OutboxEvent)
    → contains i (ids_of (order_by_time rows)) ≡ contains i (ids_of rows)
unfolding order_by_time
contains-order i [] = refl
contains-order i (r ∷ rows) =
    ground (arith, contains-insert i r (order_by_time rows), contains-order i rows)

contains-take :
    (i : Uuid) (n : ℕ) (rows : List OutboxEvent)
    → contains i (ids_of (take n rows)) ≡ true
    → contains i (ids_of rows) ≡ true
contains-take i zero rows h = cc
contains-take i (suc n) [] h = cc
contains-take i (suc n) (r ∷ rows) h = ground (arith, contains-take i n rows)

contains-select :
    (i : Uuid) (limit : ℕ) (now : Instant) (skip : List Uuid) (rows : List OutboxEvent)
    → contains i (ids_of (select_due limit now skip rows)) ≡ true
    → contains i (ids_of (filter (is_due now skip) rows)) ≡ true
unfolding select_due
contains-select i limit now skip rows h =
    sym (contains-order i (filter (is_due now skip) rows))
    ∙ contains-take i limit (order_by_time (filter (is_due now skip) rows)) h

contains-filter :
    (i : Uuid) (p : OutboxEvent → Bool) (rows : List OutboxEvent)
    → contains i (ids_of (filter p rows)) ≡ true
    → contains i (ids_of rows) ≡ true
contains-filter i p [] h = h
contains-filter i p (r ∷ rows) h = ground (arith, contains-filter i p rows)

-- With distinct ids, a row whose id stands among those of the rows that pass a test passes it.
abbrev passes_by_id : (OutboxEvent → Bool) → List Uuid → OutboxEvent → Bool
passes_by_id p ids r = not (contains r.id ids) || p r

passes_with :
    (p : OutboxEvent → Bool) (i : Uuid) (ids : List Uuid) (rows : List OutboxEvent)
    → contains i (ids_of rows) ≡ false
    → all (passes_by_id p ids) rows ≡ true
    → all (passes_by_id p (i ∷ ids)) rows ≡ true
passes_with p i ids [] fresh h = refl
passes_with p i ids (r ∷ rows) fresh h = ground (arith, passes_with p i ids rows)

keyed-passes :
    (p : OutboxEvent → Bool) (rows : List OutboxEvent)
    → is_distinct (ids_of rows) ≡ true
    → all (passes_by_id p (ids_of (filter p rows))) rows ≡ true
keyed-passes p [] h = refl
keyed-passes p (r ∷ rows) h = ground (
  arith,
  keyed-passes p rows,
  contains-filter r.id p rows,
  passes_with p r.id (ids_of (filter p rows)) rows,
)

claim-spares-terminal :
    (limit : ℕ) (now : Instant) (skip : List Uuid) (rows : List OutboxEvent)
    → is_distinct (ids_of rows) ≡ true
    → all
        (λ r. not (contains r.id (ids_of (select_due limit now skip rows))) || not (is_terminal r))
        rows
      ≡ true
claim-spares-terminal limit now skip rows h =
    all_implied (passes_by_id (is_due now skip) (ids_of (filter (is_due now skip) rows))) _ rows
      (λ r k. ground (arith, contains-select r.id limit now skip rows))
      (keyed-passes (is_due now skip) rows h)

Step-has_terminal :
    (q : OutboxEvent → Bool) {rows rows' : List OutboxEvent}
    → Step rows rows'
    → IsTable rows
    → has_terminal q rows ≡ true
    → has_terminal q rows' ≡ true
unfolding append_event claim_outbox_batch_atomic after_success after_failure
    release_stale_outbox_locks
Step-has_terminal q {rows} (append i now e encrypted fresh) t h =
    append-has_terminal q (new_event i now e encrypted) rows h
Step-has_terminal q {rows} (claim limit worker now skip) t h =
    update_where-has_terminal q _ (claimed now worker) rows
      (claim-spares-terminal limit now skip rows t.keyed) h
Step-has_terminal q {rows} (succeed worker now row) t h =
    update_where-has_terminal q (holds_lock row.id worker) (mark_processed now) rows
      (all_always _ rows (λ r. ground arith)) h
Step-has_terminal q {rows} (fail cfg worker now row text) t h =
    elim (Bool-cases (leb cfg.max_attempts row.attempts)) [
      | inl last ↦ rw last (update_where-has_terminal q _ (mark_failed text) rows spared h)
      | inr more ↦ rw more (update_where-has_terminal q _ (mark_retry text _) rows spared h)
    ]
  where
    spared : all (λ r. not (is_locked_by row.id worker r) || not (is_terminal r)) rows ≡ true
    spared = all_implied is_consistent _ rows (λ r k. ground arith) t.consistent
Step-has_terminal q {rows} (release now stale_after_ms) t h =
    update_where-has_terminal q (is_stale now stale_after_ms) released rows
      (all_always _ rows (λ r. ground arith)) h

-- In a well-formed table, a row that is processed or in the dead letters stays in the table, with
-- every field as it is, whatever the workers and the services do afterwards.
pub Reach-has_terminal :
    (q : OutboxEvent → Bool) {rows rows' : List OutboxEvent}
    → IsTable rows
    → Reach rows rows'
    → has_terminal q rows ≡ true
    → has_terminal q rows' ≡ true
Reach-has_terminal q t here h = h
Reach-has_terminal q t (next r s) h =
    Step-has_terminal q s (Reach-IsTable t r) (Reach-has_terminal q t r h)
