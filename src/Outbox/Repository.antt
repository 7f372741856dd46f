-- ===== src/Outbox/Repository.antt =====
-- The other operations of apps/api/src/modules/outbox/repositories/outbox.repository.ts, which the
-- API has beside the worker's. An update of one row throws where the row is missing.
use savemycontrollers.Errors.{internal}
use savemycontrollers.Outbox.{
  OutboxEvent, pending, processing, processed, failed, is_pending, order_by_time,
  claim_outbox_batch_atomic, release_stale_outbox_locks, backoff_seconds,
}
use savemycontrollers.Prelude.{
  ℕ, String, Uuid, Instant, none, some, List, ◌+◌, ◌*◌, ◌==◌, not, any, filter, take, update_where,
  Action, modify, gets, throw_if, ◌>>=◌, ◌>>◌,
}

-- `findMany` of the pending rows, whatever their next attempt, without a lock.
unfoldable pub claim_pending_batch : ℕ → List OutboxEvent → List OutboxEvent
claim_pending_batch limit rows =
    take limit (order_by_time (filter (λ (r : OutboxEvent). is_pending r.status) rows))

-- `claimBatchAtomic`
abbrev pub claim_batch_atomic :
    ℕ → Uuid → Instant → List Uuid → List OutboxEvent → List OutboxEvent × List OutboxEvent
claim_batch_atomic limit worker now skip_locked rows =
    claim_outbox_batch_atomic limit worker now skip_locked rows

-- `releaseStaleLocks`
abbrev pub release_stale_locks : Instant → ℕ → List OutboxEvent → ℕ × List OutboxEvent
release_stale_locks now stale_after_ms rows = release_stale_outbox_locks now stale_after_ms rows

-- `update({ where: { id }, data })`
abbrev update_row : Uuid → (OutboxEvent → OutboxEvent) → Action (List OutboxEvent) (Unit {0})
update_row i change = do
  found ← gets (λ rows. any (λ (r : OutboxEvent). r.id == i) rows)
  throw_if (not found) (internal "Record to update not found.")
  modify (update_where (λ (r : OutboxEvent). r.id == i) change)

unfoldable pub mark_pending_with_backoff :
    Instant → Uuid → String → ℕ → Action (List OutboxEvent) (Unit {0})
mark_pending_with_backoff now i error attempts = update_row i λ r. record r {
  status = pending;
  last_error = some error;
  locked_at = none;
  locked_by = none;
  next_attempt_at = now + backoff_seconds attempts * 1000;
}

unfoldable pub mark_processing : Uuid → Action (List OutboxEvent) (Unit {0})
mark_processing i = update_row i λ r. record r { status = processing; attempts = r.attempts + 1 }

unfoldable pub mark_row_processed : Instant → Uuid → Action (List OutboxEvent) (Unit {0})
mark_row_processed now i = update_row i λ r. record r {
  status = processed;
  processed_at = some now;
  locked_at = none;
  locked_by = none;
}

unfoldable pub mark_dead_letter : Uuid → String → Action (List OutboxEvent) (Unit {0})
mark_dead_letter i error =
    update_row i
      λ r. record r { status = failed; last_error = some error; locked_at = none; locked_by = none }

unfoldable pub mark_row_failed : Uuid → String → Action (List OutboxEvent) (Unit {0})
mark_row_failed i error = update_row i λ r. record r { status = failed; last_error = some error }
