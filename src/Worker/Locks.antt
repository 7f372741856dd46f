-- ===== src/Worker/Locks.antt =====
-- The life of the rows of the outbox under any number of workers.
use savemycontrollers.Outbox.{
  OutboxEvent, processed, failed, BusinessEvent, is_processing, claim_outbox_batch_atomic, claimed,
  ids_of, release_stale_outbox_locks, released, append_event, new_event,
}
use savemycontrollers.Worker.{
  WorkerConfig, after_success, after_failure, mark_processed, mark_failed, mark_retry,
}
use savemycontrollers.Prelude.{
  ℕ, String, Uuid, Instant, Bool, true, false, List, [], ◌∷◌, ◌++◌, ◌≡◌, refl, arith, ◌&&◌, ◌||◌,
  ◌==◌, not, all, update_where, contains, is_distinct, is_some, leb, Bool-cases, inl, inr,
  if◌then◌else◌,
}

-- A row is locked, by a worker and since an instant, exactly while it is being processed.
abbrev pub is_consistent : OutboxEvent → Bool
is_consistent r =
    if is_processing r.status
    then is_some r.locked_by && is_some r.locked_at
    else not (is_some r.locked_by) && not (is_some r.locked_at)

abbrev pub is_terminal : OutboxEvent → Bool
is_terminal r = elim r.status [ processed ↦ true | failed ↦ true | _ ↦ false ]

-- The table is well formed: every row is consistent, and no id stands twice.
pub record IsTable (rows : List OutboxEvent) : Type 0 where
  pub consistent : all is_consistent rows ≡ true
  pub keyed : is_distinct (ids_of rows) ≡ true

-- What the workers and the services do to the table, in any order.
pub data Step (rows : List OutboxEvent) : List OutboxEvent → Type 0 where
  append :
      (i : Uuid) (now : Instant) (e : BusinessEvent) (encrypted : Bool)
      → contains i (ids_of rows) ≡ false
      → Step rows (append_event i now e encrypted rows)
  claim :
      (limit : ℕ) (worker : Uuid) (now : Instant) (skip : List Uuid)
      → Step rows (claim_outbox_batch_atomic limit worker now skip rows).1
  succeed :
      (worker : Uuid) (now : Instant) (row : OutboxEvent)
      → Step rows (after_success worker now row rows)
  fail :
      (cfg : WorkerConfig) (worker : Uuid) (now : Instant) (row : OutboxEvent) (text : String)
      → Step rows (after_failure cfg worker now row text rows)
  release :
      (now : Instant) (stale_after_ms : ℕ)
      → Step rows (release_stale_outbox_locks now stale_after_ms rows).1

update_where-consistent :
    (p : OutboxEvent → Bool) (f : OutboxEvent → OutboxEvent) (rows : List OutboxEvent)
    → ((r : OutboxEvent) → is_consistent r ≡ true → is_consistent (f r) ≡ true)
    → all is_consistent rows ≡ true
    → all is_consistent (update_where p f rows) ≡ true
update_where-consistent p f [] keep h = refl
update_where-consistent p f (r ∷ rows) keep h =
    ground (arith, keep r, update_where-consistent p f rows keep)

ids_of-update_where :
    (p : OutboxEvent → Bool) (f : OutboxEvent → OutboxEvent) (rows : List OutboxEvent)
    → ((r : OutboxEvent) → (f r).id ≡ r.id)
    → ids_of (update_where p f rows) ≡ ids_of rows
ids_of-update_where p f [] keep = refl
ids_of-update_where p f (r ∷ rows) keep = ground (arith, keep r, ids_of-update_where p f rows keep)

update_where-IsTable :
    (p : OutboxEvent → Bool) (f : OutboxEvent → OutboxEvent) (rows : List OutboxEvent)
    → ((r : OutboxEvent) → is_consistent r ≡ true → is_consistent (f r) ≡ true)
    → ((r : OutboxEvent) → (f r).id ≡ r.id)
    → IsTable rows
    → IsTable (update_where p f rows)
update_where-IsTable p f rows keep same t = record {
  consistent = update_where-consistent p f rows keep t.consistent;
  keyed = rw (ids_of-update_where p f rows same) t.keyed;
}

append-consistent :
    (e : OutboxEvent) (rows : List OutboxEvent)
    → is_consistent e ≡ true
    → all is_consistent rows ≡ true
    → all is_consistent (rows ++ e ∷ []) ≡ true
append-consistent e [] c h = ground arith
append-consistent e (r ∷ rows) c h = ground (arith, append-consistent e rows)

contains-append :
    (i : Uuid) (e : OutboxEvent) (rows : List OutboxEvent)
    → contains i (ids_of (rows ++ e ∷ [])) ≡ (contains i (ids_of rows) || (e.id == i))
contains-append i e [] = ground arith
contains-append i e (r ∷ rows) = ground (arith, contains-append i e rows)

append-keyed :
    (e : OutboxEvent) (rows : List OutboxEvent)
    → contains e.id (ids_of rows) ≡ false
    → is_distinct (ids_of rows) ≡ true
    → is_distinct (ids_of (rows ++ e ∷ [])) ≡ true
append-keyed e [] fresh h = ground arith
append-keyed e (r ∷ rows) fresh h = ground (arith, append-keyed e rows, contains-append r.id e rows)

-- Every step keeps the table well formed.
pub Step-IsTable : {rows rows' : List OutboxEvent} → Step rows rows' → IsTable rows → IsTable rows'
unfolding append_event claim_outbox_batch_atomic after_success after_failure
    release_stale_outbox_locks
Step-IsTable {rows} (append i now e encrypted fresh) t = record {
  consistent = append-consistent (new_event i now e encrypted) rows refl t.consistent;
  keyed = append-keyed (new_event i now e encrypted) rows fresh t.keyed;
}
Step-IsTable {rows} (claim limit worker now skip) t =
    update_where-IsTable _ (claimed now worker) rows (λ r h. refl) (λ r. refl) t
Step-IsTable {rows} (succeed worker now row) t =
    update_where-IsTable _ (mark_processed now) rows (λ r h. refl) (λ r. refl) t
Step-IsTable {rows} (fail cfg worker now row text) t =
    elim (Bool-cases (leb cfg.max_attempts row.attempts)) [
      | inl last ↦
          rw last (update_where-IsTable _ (mark_failed text) rows (λ r h. refl) (λ r. refl) t)
      | inr more ↦
          rw more (update_where-IsTable _ (mark_retry text _) rows (λ r h. refl) (λ r. refl) t)
    ]
Step-IsTable {rows} (release now stale_after_ms) t =
    update_where-IsTable _ released rows (λ r h. refl) (λ r. refl) t

pub data Reach (rows : List OutboxEvent) : List OutboxEvent → Type 0 where
  here : Reach rows rows
  next :
      {rows' rows'' : List OutboxEvent} → Reach rows rows' → Step rows' rows'' → Reach rows rows''

-- From a table in which a row is locked exactly while it is being processed and no id stands twice,
-- whatever the workers and the services do, and in whatever order, leads to such a table.
pub Reach-IsTable :
    {rows rows' : List OutboxEvent} → IsTable rows → Reach rows rows' → IsTable rows'
Reach-IsTable t here = t
Reach-IsTable t (next r s) = Step-IsTable s (Reach-IsTable t r)
