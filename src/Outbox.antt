-- ===== src/Outbox.antt =====
-- The outbox table: apps/api/src/modules/core/events/business-event.ts,
-- apps/api/src/modules/outbox/repositories/outbox.repository.ts and
-- packages/database/src/outbox-claim.ts. The table is the list of its rows.
pub mod Claims
pub mod Backoff
pub mod Repository
use savemycontrollers.Prelude.{
  ℕ, String, Uuid, Instant, Bool, true, false, Option, none, some, List, [], ◌∷◌, ◌++◌, ◌+◌, ◌-◌,
  ◌*◌, ◌^◌, min, map, ◌&&◌, ◌==◌, not, leb, ltb, filter, contains, length, take, update_where,
  count_where, if◌then◌else◌,
}

-- `BUSINESS_EVENT_TYPES`; the column is a text, so the worker may meet another one.
pub data EventType : Type 0 where
  user_registered email_verification_requested order_created order_confirmed : EventType
  repair_case_created repair_status_changed file_uploaded company_application_submitted : EventType
  unknown_type : String → EventType

pub data AggregateType : Type 0 where
  user order repair_case company : AggregateType

-- A ciphertext of packages/crypto, which is opaque here.
abbrev pub EncryptedPayload : Type 0
EncryptedPayload = ℕ

-- The JSON payloads that the services write. A commercial reference is written (scope, year, value).
pub data Payload : Type 0 where
  user_payload : String → String → Payload
  verification_payload : String → Option EncryptedPayload → Payload
  order_payload : ℕ × ℕ → ℕ → Payload
  case_payload : ℕ × ℕ → Uuid → Payload
  status_payload : String → String → Payload
  company_payload : String → Payload

pub record BusinessEvent : Type 0 where
  pub event_type : EventType
  pub aggregate_type : AggregateType
  pub aggregate_id : Uuid
  pub payload : Payload
  pub correlation_id : Uuid

pub data OutboxStatus : Type 0 where
  pending processing processed failed : OutboxStatus

abbrev pub is_pending : OutboxStatus → Bool
is_pending pending = true
is_pending processing = false
is_pending processed = false
is_pending failed = false

abbrev pub is_processing : OutboxStatus → Bool
is_processing processing = true
is_processing pending = false
is_processing processed = false
is_processing failed = false

pub record OutboxEvent : Type 0 where
  pub id : Uuid
  pub event : BusinessEvent
  pub payload_encrypted : Bool
  pub occurred_at : Instant
  pub processed_at : Option Instant
  pub status : OutboxStatus
  pub attempts : ℕ
  pub last_error : Option String
  pub locked_at : Option Instant
  pub locked_by : Option Uuid
  pub next_attempt_at : Instant

-- The row that `appendInTransaction` creates, with the defaults of the schema.
abbrev pub new_event : Uuid → Instant → BusinessEvent → Bool → OutboxEvent
new_event i now event encrypted = record {
  id = i;
  event = event;
  payload_encrypted = encrypted;
  occurred_at = now;
  processed_at = none;
  status = pending;
  attempts = 0;
  last_error = none;
  locked_at = none;
  locked_by = none;
  next_attempt_at = now;
}

unfoldable pub append_event :
    Uuid → Instant → BusinessEvent → Bool → List OutboxEvent → List OutboxEvent
append_event i now event encrypted rows = rows ++ new_event i now event encrypted ∷ []

-- `ORDER BY occurred_at ASC`, where rows of one instant stay in the order of the table.
unfoldable pub insert_by_time : OutboxEvent → List OutboxEvent → List OutboxEvent
insert_by_time e [] = e ∷ []
insert_by_time e (r ∷ rows) =
    if leb e.occurred_at r.occurred_at then e ∷ r ∷ rows else r ∷ insert_by_time e rows

unfoldable pub order_by_time : List OutboxEvent → List OutboxEvent
unfolding insert_by_time
order_by_time [] = []
order_by_time (r ∷ rows) = insert_by_time r (order_by_time rows)

-- `status = 'PENDING' AND next_attempt_at <= NOW()`, less the rows that another transaction locks.
abbrev pub is_due : Instant → List Uuid → OutboxEvent → Bool
is_due now skip_locked r =
    is_pending r.status && (leb r.next_attempt_at now && not (contains r.id skip_locked))

abbrev pub claimed : Instant → Uuid → OutboxEvent → OutboxEvent
claimed now worker r = record r {
  status = processing;
  locked_at = some now;
  locked_by = some worker;
  attempts = r.attempts + 1;
}

-- The rows of `SELECT … FOR UPDATE SKIP LOCKED`.
unfoldable pub select_due : ℕ → Instant → List Uuid → List OutboxEvent → List OutboxEvent
unfolding order_by_time
select_due limit now skip_locked rows =
    take limit (order_by_time (filter (is_due now skip_locked) rows))

abbrev pub ids_of : List OutboxEvent → List Uuid
ids_of = map (λ r. r.id)

-- `claimOutboxBatchAtomic`: the rows as the SELECT read them, and the table after the update.
unfoldable pub claim_outbox_batch_atomic :
    ℕ → Uuid → Instant → List Uuid → List OutboxEvent → List OutboxEvent × List OutboxEvent
claim_outbox_batch_atomic limit worker now skip_locked rows =
    let batch = select_due limit now skip_locked rows in
    (batch, update_where (λ r. contains r.id (ids_of batch)) (claimed now worker) rows)

abbrev pub locked_before : Instant → OutboxEvent → Bool
locked_before t r = elim r.locked_at [ none ↦ false | some l ↦ ltb l t ]

abbrev pub is_stale : Instant → ℕ → OutboxEvent → Bool
is_stale now stale_after_ms r = is_processing r.status && locked_before (now - stale_after_ms) r

abbrev pub released : OutboxEvent → OutboxEvent
released r = record r { status = pending; locked_at = none; locked_by = none }

-- `releaseStaleOutboxLocks`: the count and the table.
unfoldable pub release_stale_outbox_locks : Instant → ℕ → List OutboxEvent → ℕ × List OutboxEvent
release_stale_outbox_locks now stale_after_ms rows = (
  count_where (is_stale now stale_after_ms) rows,
  update_where (is_stale now stale_after_ms) released rows,
)

-- `Math.min(2 ** attempts * 2, 3600)`
unfoldable pub backoff_seconds : ℕ → ℕ
backoff_seconds attempts = min (2 ^ attempts * 2) 3600
