-- ===== src/Worker/Retries.antt =====
-- How often the worker tries an event that keeps failing.
use savemycontrollers.Errors.{DomainError, message}
use savemycontrollers.Outbox.{
  OutboxEvent, email_verification_requested, verification_payload, pending, failed,
  EncryptedPayload, backoff_seconds, claim_outbox_batch_atomic, select_due, AggregateType, claimed,
}
use savemycontrollers.Outbox.Backoff.{backoff_seconds_bounds}
use savemycontrollers.Worker.{
  WorkerStore, WorkerConfig, Decrypt, handle_outbox_event, process_row, process_rows,
  claim_and_process_batch, round, after_failure,
}
use savemycontrollers.Worker.Idempotence.{rounds}
use savemycontrollers.Prelude.{
  ℕ, zero, suc, String, Uuid, Instant, true, Option, none, some, List, [], ◌∷◌, err, ◌≡◌, ◌≤◌, ◌<◌,
  ap, inl, inr, Bool-cases, leb→le, ◌+◌, ◌*◌, ◌∙◌, refl, arith, take, leb, if◌then◌else◌, ==_refl,
  le→leb,
}

-- A verification event whose ciphertext does not decrypt, and the only row of the table.
pub record Poison : Type 0 where
  pub id : Uuid
  pub aggregate_type : AggregateType
  pub aggregate_id : Uuid
  pub correlation_id : Uuid
  pub email : String
  pub ciphertext : EncryptedPayload
  pub occurred_at : Instant

-- The row while it waits for its next try, after `tries` tries.
abbrev pub waiting : Poison → ℕ → Option String → Instant → OutboxEvent
waiting p tries error due = record {
  id = p.id;
  event = record {
    event_type = email_verification_requested;
    aggregate_type = p.aggregate_type;
    aggregate_id = p.aggregate_id;
    payload = verification_payload p.email (some p.ciphertext);
    correlation_id = p.correlation_id;
  };
  payload_encrypted = true;
  occurred_at = p.occurred_at;
  processed_at = none;
  status = pending;
  attempts = tries;
  last_error = error;
  locked_at = none;
  locked_by = none;
  next_attempt_at = due;
}

-- The row in the dead letters.
abbrev pub dead : Poison → ℕ → String → Instant → OutboxEvent
dead p tries error due = record (waiting p tries (some error) due) { status = failed }

abbrev pub store_with : OutboxEvent → List Uuid → WorkerStore
store_with r mails = record { outbox = r ∷ []; audit_log = []; mails = mails }

take-nil : (b : ℕ) → take {A = OutboxEvent} b [] ≡ []
take-nil zero = refl
take-nil (suc b) = refl

claim_one :
    (p : Poison) (worker : Uuid) (limit b tries : ℕ) (error : Option String) (due now : Instant)
    → limit ≡ suc b
    → due ≤ now
    → claim_outbox_batch_atomic limit worker now [] (waiting p tries error due ∷ [])
      ≡ (waiting p tries error due ∷ [], claimed now worker (waiting p tries error due) ∷ [])
unfolding claim_outbox_batch_atomic select_due
claim_one p worker limit b tries error due now size late =
    rw (size, le→leb due now late, ==_refl p.id, take-nil b)

module _ (decrypt : Decrypt) (p : Poison) (d : DomainError)
    (bad : decrypt p.ciphertext ≡ err d) where
  -- What a failed try leaves: the dead letter once the limit is reached, else a later try.
  after_try : WorkerConfig → ℕ → Instant → Instant → OutboxEvent
  after_try cfg tries due now =
      if leb cfg.max_attempts tries
      then dead p (tries + 1) (message d) due
      else waiting p (tries + 1) (some (message d)) (now + backoff_seconds tries * 1000)

  process_one :
      (cfg : WorkerConfig) (worker : Uuid) (tries : ℕ) (error : Option String) (due now : Instant)
      (mails : List Uuid)
      → process_row decrypt cfg worker now
          (waiting p tries error due)
          (store_with (claimed now worker (waiting p tries error due)) mails)
        ≡ store_with (after_try cfg tries due now) mails
  unfolding process_row handle_outbox_event after_failure after_try
  process_one cfg worker tries error due now mails = rw bad (ground arith)

  -- One round of a worker on the row, once it is due.
  failing_round :
      (cfg : WorkerConfig) (worker : Uuid) (b tries : ℕ) (error : Option String) (due now : Instant)
      (mails : List Uuid)
      → cfg.batch_size ≡ suc b
      → due ≤ now
      → round decrypt cfg worker now [] (store_with (waiting p tries error due) mails)
        ≡ store_with (after_try cfg tries due now) mails
  unfolding round claim_and_process_batch process_rows
  failing_round cfg worker b tries error due now mails size late =
      rw (claim_one p worker cfg.batch_size b tries error due now size late)
        (process_one cfg worker tries error due now mails)

  -- A round every hour from `now`, by one worker.
  abbrev pub hourly : Uuid → ℕ → Instant → List (Uuid × Instant)
  hourly worker zero now = []
  hourly worker (suc n) now = (worker, now) ∷ hourly worker n (now + 3600000)

  try_again :
      (cfg : WorkerConfig) (tries : ℕ) (due now : Instant)
      → tries < cfg.max_attempts
      → after_try cfg tries due now
        ≡ waiting p (tries + 1) (some (message d)) (now + backoff_seconds tries * 1000)
  unfolding after_try
  try_again cfg tries due now h = elim (Bool-cases (leb cfg.max_attempts tries)) [
    | inl e ↦ absurd (omega (arith, leb→le cfg.max_attempts tries e))
    | inr e ↦ rw e refl
  ]

  give_up :
      (cfg : WorkerConfig) (tries : ℕ) (due now : Instant)
      → tries ≡ cfg.max_attempts
      → after_try cfg tries due now ≡ dead p (tries + 1) (message d) due
  unfolding after_try
  give_up cfg tries due now h = rw (le→leb cfg.max_attempts tries (omega arith))

  rounds-cons :
      (cfg : WorkerConfig) (worker : Uuid) (now : Instant) (later : List (Uuid × Instant))
      (s : WorkerStore)
      → rounds decrypt cfg ((worker, now) ∷ later) s
        ≡ rounds decrypt cfg later (round decrypt cfg worker now [] s)
  unfolding rounds
  rounds-cons cfg worker now later s = refl

  rounds-nil : (cfg : WorkerConfig) (s : WorkerStore) → rounds decrypt cfg [] s ≡ s
  unfolding rounds
  rounds-nil cfg s = refl

  -- As long as the tries do not exceed the limit, each hourly round ends with a later try.
  still_waiting :
      (cfg : WorkerConfig) (worker : Uuid) (b n tries : ℕ) (error : Option String)
      (due now : Instant) (mails : List Uuid)
      → cfg.batch_size ≡ suc b
      → due ≤ now
      → n + tries ≤ cfg.max_attempts
      → (error' : Option String) × (due' : Instant) × (rounds decrypt cfg
            (hourly worker n now)
            (store_with (waiting p tries error due) mails)
          ≡ store_with (waiting p (n + tries) error' due') mails)
  still_waiting cfg worker b zero tries error due now mails size late left = (
    error,
    due,
    rounds-nil cfg _ ∙ ap (λ t. store_with (waiting p t error due) mails) (omega arith),
  )
  still_waiting cfg worker b (suc n) tries error due now mails size late left =
      let (error', due', e) =
        still_waiting cfg worker b n (tries + 1) (some (message d))
          (now + backoff_seconds tries * 1000) (now + 3600000) mails size
          (omega (arith, backoff_seconds_bounds tries)) (omega arith) in
      (
        error',
        due',
        rw
            (
              rounds-cons cfg worker now,
              failing_round cfg worker b tries error due now mails size late,
              try_again cfg tries due now (omega arith),
            )
            (e ∙ ap (λ t. store_with (waiting p t error' due') mails) (omega arith)),
      )

  -- The try after the last one allowed puts it in the dead letters.
  dead_after :
      (cfg : WorkerConfig) (worker : Uuid) (b n tries : ℕ) (error : Option String)
      (due now : Instant) (mails : List Uuid)
      → cfg.batch_size ≡ suc b
      → due ≤ now
      → n + tries ≡ cfg.max_attempts
      → (due' : Instant) × (rounds decrypt cfg
            (hourly worker (suc n) now)
            (store_with (waiting p tries error due) mails)
          ≡ store_with (dead p (cfg.max_attempts + 1) (message d) due') mails)
  dead_after cfg worker b zero tries error due now mails size late left = (
    due,
    rw
        (
          rounds-cons cfg worker now,
          failing_round cfg worker b tries error due now mails size late,
          give_up cfg tries due now (omega arith),
        )
        (rounds-nil cfg _ ∙ ap (λ t. store_with (dead p t (message d) due) mails) (omega arith)),
  )
  dead_after cfg worker b (suc n) tries error due now mails size late left =
      let (due', e) =
        dead_after cfg worker b n (tries + 1) (some (message d))
          (now + backoff_seconds tries * 1000) (now + 3600000) mails size
          (omega (arith, backoff_seconds_bounds tries)) (omega arith) in
      (
        due',
        rw
            (
              rounds-cons cfg worker now,
              failing_round cfg worker b tries error due now mails size late,
              try_again cfg tries due now (omega arith),
            )
            e,
      )

  -- A verification event without a try whose ciphertext does not decrypt, the only row of the table,
  -- with no row in the audit log and batches of at least one row, in hourly rounds of one worker from an
  -- instant at which it is due: after `max_attempts` rounds it is still pending, with `attempts` equal
  -- to `max_attempts`, and the round after them puts it in the dead letters with `attempts` equal to
  -- `max_attempts + 1`.
  pub tries_until_dead_letter :
      (cfg : WorkerConfig) (worker : Uuid) (b : ℕ) (due now : Instant) (mails : List Uuid)
      → cfg.batch_size ≡ suc b
      → due ≤ now
      → let start = store_with (waiting p 0 none due) mails in
        let limit = cfg.max_attempts in
        ((error' : Option String) × (due' : Instant) × (rounds decrypt cfg
              (hourly worker limit now)
              start
            ≡ store_with (waiting p limit error' due') mails))
        × ((due' : Instant) × (rounds decrypt cfg (hourly worker (suc limit) now) start
              ≡ store_with (dead p (limit + 1) (message d) due') mails))
  tries_until_dead_letter cfg worker b due now mails size late =
      let (error', due', e) =
        still_waiting cfg worker b cfg.max_attempts 0 none due now mails size late (omega arith) in
      (
        (error', due', e ∙ ap (λ t. store_with (waiting p t error' due') mails) (omega arith)),
        dead_after cfg worker b cfg.max_attempts 0 none due now mails size late (omega arith),
      )
