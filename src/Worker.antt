-- ===== src/Worker.antt =====
-- The outbox worker: apps/worker/src/main.ts and
-- apps/worker/src/handlers/outbox-event-handler.ts.
use savemycontrollers.Errors.{message}
pub mod Idempotence
pub mod Interleaving
pub mod Locks
pub mod Retries
pub mod Terminal
mod Tests
use savemycontrollers.Outbox.{
  EventType, email_verification_requested, Payload, verification_payload, EncryptedPayload,
  BusinessEvent, OutboxEvent, OutboxStatus, pending, processing, processed, failed, is_processing,
  backoff_seconds, claim_outbox_batch_atomic, release_stale_outbox_locks,
}
use savemycontrollers.Prelude.{
  ℕ, zero, suc, String, Uuid, Instant, Bool, true, false, Option, none, some, List, [], ◌∷◌, ◌+◌,
  ◌*◌, Result, ok, err, Action, pure, lift, modify, ◌>>=◌, ◌>>◌, ◌&&◌, ◌==◌, leb, any, update_where,
  is_id, if◌then◌else◌,
}

-- A row of the audit log that the worker writes: the outbox event that it has handled.
pub record HandledEntry : Type 0 where
  pub resource_id : Uuid
  pub correlation_id : Uuid

-- What the worker changes: the outbox, its rows of the audit log, and the mails that it prepared
-- (the event of each), newest first.
pub record WorkerStore : Type 0 where
  pub outbox : List OutboxEvent
  pub audit_log : List HandledEntry
  pub mails : List Uuid

-- `OUTBOX_BATCH_SIZE`, `OUTBOX_MAX_ATTEMPTS` and `OUTBOX_STALE_LOCK_MS`.
pub record WorkerConfig : Type 0 where
  pub batch_size : ℕ
  pub max_attempts : ℕ
  pub stale_lock_ms : ℕ

abbrev pub already_processed : Uuid → List HandledEntry → Bool
already_processed event_id log = any (λ (e : HandledEntry). e.resource_id == event_id) log

-- `decryptSensitiveValue` of packages/crypto, which throws on a bad ciphertext.
abbrev pub Decrypt : Type 0
Decrypt = EncryptedPayload → Result String

-- `{ id, status: "PROCESSING", lockedBy: WORKER_ID }`
abbrev pub holds_lock : Uuid → Uuid → OutboxEvent → Bool
holds_lock event_id worker r =
    r.id == event_id && (is_processing r.status && is_id r.locked_by worker)

-- `{ id, lockedBy: WORKER_ID }`
abbrev pub is_locked_by : Uuid → Uuid → OutboxEvent → Bool
is_locked_by event_id worker r = r.id == event_id && is_id r.locked_by worker

abbrev pub mark_processed : Instant → OutboxEvent → OutboxEvent
mark_processed now r = record r {
  processed_at = some now;
  status = processed;
  locked_at = none;
  locked_by = none;
}

abbrev pub mark_failed : String → OutboxEvent → OutboxEvent
mark_failed message r = record r {
  status = failed;
  last_error = some message;
  locked_at = none;
  locked_by = none;
}

abbrev pub mark_retry : String → Instant → OutboxEvent → OutboxEvent
mark_retry message next r = record r {
  status = pending;
  last_error = some message;
  locked_at = none;
  locked_by = none;
  next_attempt_at = next;
}

-- The catch branch: dead letter, or a new try later. `row` is as the claim read it.
unfoldable pub after_failure :
    WorkerConfig → Uuid → Instant → OutboxEvent → String → List OutboxEvent → List OutboxEvent
after_failure cfg worker now row text rows =
    if leb cfg.max_attempts row.attempts
    then update_where (is_locked_by row.id worker) (mark_failed text) rows
    else update_where (is_locked_by row.id worker)
        (mark_retry text (now + backoff_seconds row.attempts * 1000)) rows

unfoldable pub after_success : Uuid → Instant → OutboxEvent → List OutboxEvent → List OutboxEvent
after_success worker now row rows =
    update_where (holds_lock row.id worker) (mark_processed now) rows

module _ (decrypt : Decrypt) where
  -- The mail is prepared only where the payload is marked encrypted and holds a token.
  abbrev pub prepare_mail : Uuid → Bool → Payload → Action WorkerStore (Unit {0})
  prepare_mail event_id true (verification_payload email (some c)) = do
    token ← lift (decrypt c)
    modify (λ s. record s { mails = event_id ∷ s.mails })
  prepare_mail event_id encrypted payload = pure tt

  abbrev pub record_processed : Uuid → Uuid → Action WorkerStore (Unit {0})
  record_processed event_id correlation_id = modify λ s. record s {
    audit_log = record { resource_id = event_id; correlation_id = correlation_id } ∷ s.audit_log;
  }

  abbrev pub send_verification : OutboxEvent → Action WorkerStore (Unit {0})
  send_verification e s =
      if already_processed e.id s.audit_log
      then (ok tt, s)
      else (do
        prepare_mail e.id e.payload_encrypted e.event.payload
        record_processed e.id e.event.correlation_id)
          s

  -- Every other type, known or not, is only logged.
  unfoldable pub handle_outbox_event : OutboxEvent → Action WorkerStore (Unit {0})
  handle_outbox_event e = elim e.event.event_type [
    | email_verification_requested ↦ send_verification e
    | _ ↦ pure tt
  ]

  -- The body of the `for` loop for one claimed row.
  unfoldable pub process_row :
      WorkerConfig → Uuid → Instant → OutboxEvent → WorkerStore → WorkerStore
  process_row cfg worker now row s =
      let (r, s') = handle_outbox_event row s in
      elim r [
        | ok _ ↦ record s' { outbox = after_success worker now row s'.outbox }
        | err e ↦ record s' { outbox = after_failure cfg worker now row (message e) s'.outbox }
      ]

  unfoldable pub process_rows :
      WorkerConfig → Uuid → Instant → List OutboxEvent → WorkerStore → WorkerStore
  process_rows cfg worker now [] s = s
  process_rows cfg worker now (row ∷ rows) s =
      process_rows cfg worker now rows (process_row cfg worker now row s)

  -- `claimAndProcessBatch`
  unfoldable pub claim_and_process_batch :
      WorkerConfig → Uuid → Instant → List Uuid → WorkerStore → WorkerStore
  claim_and_process_batch cfg worker now skip_locked s =
      let (batch, rows) =
        claim_outbox_batch_atomic cfg.batch_size worker now skip_locked s.outbox in
      process_rows cfg worker now batch (record s { outbox = rows })

  -- One round of `loop`: stale locks are released, then a batch is claimed and processed.
  unfoldable pub round : WorkerConfig → Uuid → Instant → List Uuid → WorkerStore → WorkerStore
  unfolding release_stale_outbox_locks
  round cfg worker now skip_locked s =
      claim_and_process_batch cfg worker now skip_locked
        (record s { outbox = (release_stale_outbox_locks now cfg.stale_lock_ms s.outbox).1 })
