-- ===== src/Worker/Interleaving.antt =====
-- The statements of several workers in any order: apps/worker/src/main.ts and
-- apps/worker/src/handlers/outbox-event-handler.ts, where a worker whose lock expired still runs, or
-- stops between the mail and the row of the audit log.
use savemycontrollers.Errors.{message}
use savemycontrollers.Outbox.{OutboxEvent, claim_outbox_batch_atomic, release_stale_outbox_locks}
use savemycontrollers.Worker.{
  WorkerStore, WorkerConfig, Decrypt, handle_outbox_event, already_processed, prepare_mail,
  record_processed, after_success, after_failure, process_row, process_rows, round,
  claim_and_process_batch,
}
use savemycontrollers.Worker.Idempotence.{mails_for, IsMailedOnce}
use savemycontrollers.Prelude.{
  ℕ, String, Uuid, Instant, List, [], ◌∷◌, ◌≡◌, ◌≤◌, ◌+◌, arith, ◌==◌, if◌then◌else◌, Result-cases,
  refl, inl, inr,
}

-- What the database and the mail see of a worker, one after the other. `handle` is the handler
-- without an interruption; `mail` and `record` are its two effects where something else comes between
-- its check, its mail and its row of the audit log.
pub data Turn : Type 0 where
  release : Instant → Turn
  claim : Uuid → Instant → List Uuid → Turn
  handle mail log : OutboxEvent → Turn
  succeed : Uuid → Instant → OutboxEvent → Turn
  fail : Uuid → Instant → OutboxEvent → String → Turn

-- The mails of an event that were prepared apart from the rest of the handler.
abbrev pub lone_mails : Uuid → List Turn → ℕ
lone_mails i [] = 0
lone_mails i (mail e ∷ turns) = (if e.id == i then 1 else 0) + lone_mails i turns
lone_mails i (release now ∷ turns) = lone_mails i turns
lone_mails i (claim worker now skip ∷ turns) = lone_mails i turns
lone_mails i (handle e ∷ turns) = lone_mails i turns
lone_mails i (log e ∷ turns) = lone_mails i turns
lone_mails i (succeed worker now e ∷ turns) = lone_mails i turns
lone_mails i (fail worker now e text ∷ turns) = lone_mails i turns

module _ (decrypt : Decrypt) (cfg : WorkerConfig) where
  unfoldable pub turn : Turn → WorkerStore → WorkerStore
  turn (release now) s = record s {
    outbox = (release_stale_outbox_locks now cfg.stale_lock_ms s.outbox).1;
  }
  turn (claim worker now skip) s = record s {
    outbox = (claim_outbox_batch_atomic cfg.batch_size worker now skip s.outbox).1;
  }
  turn (handle e) s = (handle_outbox_event decrypt e s).1
  turn (mail e) s = (prepare_mail decrypt e.id e.payload_encrypted e.event.payload s).1
  turn (log e) s = (record_processed decrypt e.id e.event.correlation_id s).1
  turn (succeed worker now row) s = record s { outbox = after_success worker now row s.outbox }
  turn (fail worker now row text) s = record s {
    outbox = after_failure cfg worker now row text s.outbox;
  }

  unfoldable pub run : List Turn → WorkerStore → WorkerStore
  run [] s = s
  run (t ∷ turns) s = run turns (turn t s)

  -- A round without interruption is a list of turns in which no mail stands alone.
  abbrev Uninterrupted : WorkerStore → WorkerStore → Type 0
  Uninterrupted s s' =
      (turns : List Turn) × (run turns s ≡ s') × ((i : Uuid) → lone_mails i turns ≡ 0)

  process_row-Uninterrupted :
      (worker : Uuid) (now : Instant) (e : OutboxEvent) (s s' : WorkerStore)
      → Uninterrupted (process_row decrypt cfg worker now e s) s'
      → Uninterrupted s s'
  unfolding run turn process_row
  process_row-Uninterrupted worker now e s s' (turns, same, none_alone) =
      elim (Result-cases (handle_outbox_event decrypt e s).0) [
        | inl (a, done) ↦
            (handle e ∷ succeed worker now e ∷ turns, rw (done, process_row) at same, none_alone)
        | inr (d, failed) ↦ (
          handle e ∷ fail worker now e (message d) ∷ turns,
          rw (failed, process_row) at same,
          none_alone,
        )
      ]

  process_rows-Uninterrupted :
      (worker : Uuid) (now : Instant) (rows : List OutboxEvent) (s : WorkerStore)
      → Uninterrupted s (process_rows decrypt cfg worker now rows s)
  unfolding run process_rows
  process_rows-Uninterrupted worker now [] s = ([], refl, λ i. refl)
  process_rows-Uninterrupted worker now (row ∷ rows) s =
      process_row-Uninterrupted worker now row s _
        (process_rows-Uninterrupted worker now rows (process_row decrypt cfg worker now row s))

  round-Uninterrupted :
      (worker : Uuid) (now : Instant) (skip : List Uuid) (s : WorkerStore)
      → Uninterrupted s (round decrypt cfg worker now skip s)
  unfolding run turn round claim_and_process_batch
  round-Uninterrupted worker now skip s =
      let (turns, same, none_alone) = process_rows-Uninterrupted worker now _ _ in
      (release now ∷ claim worker now skip ∷ turns, same, none_alone)

  -- The mails of an event are at most one, where it is in the audit log, and `n` more.
  abbrev MailedAtMost : ℕ → Uuid → WorkerStore → Type 0
  MailedAtMost n i s = mails_for i s.mails ≤ n + (if already_processed i s.audit_log then 1 else 0)

  turn-MailedAtMost :
      (n : ℕ) (i : Uuid) (t : Turn) (s : WorkerStore)
      → MailedAtMost n i s
      → MailedAtMost (n + lone_mails i (t ∷ [])) i (turn t s)
  unfolding turn handle_outbox_event
  turn-MailedAtMost n i (release now) s h = omega (arith, h)
  turn-MailedAtMost n i (claim worker now skip) s h = omega (arith, h)
  turn-MailedAtMost n i (handle e) s h = ground (arith, h)
  turn-MailedAtMost n i (mail e) s h = ground (arith, h)
  turn-MailedAtMost n i (log e) s h = ground (arith, h)
  turn-MailedAtMost n i (succeed worker now row) s h = omega (arith, h)
  turn-MailedAtMost n i (fail worker now row text) s h = omega (arith, h)

  lone_mails-cons :
      (i : Uuid) (t : Turn) (turns : List Turn)
      → lone_mails i (t ∷ turns) ≡ lone_mails i (t ∷ []) + lone_mails i turns
  lone_mails-cons i (release now) turns = omega arith
  lone_mails-cons i (claim worker now skip) turns = omega arith
  lone_mails-cons i (handle e) turns = omega arith
  lone_mails-cons i (mail e) turns = omega arith
  lone_mails-cons i (log e) turns = omega arith
  lone_mails-cons i (succeed worker now row) turns = omega arith
  lone_mails-cons i (fail worker now row text) turns = omega arith

  run-MailedAtMost :
      (n : ℕ) (i : Uuid) (turns : List Turn) (s : WorkerStore)
      → MailedAtMost n i s
      → MailedAtMost (n + lone_mails i turns) i (run turns s)
  unfolding run
  run-MailedAtMost n i [] s h = omega (arith, h)
  run-MailedAtMost n i (t ∷ turns) s h = omega (
    arith,
    run-MailedAtMost (n + lone_mails i (t ∷ [])) i turns (turn t s) (turn-MailedAtMost n i t s h),
    lone_mails-cons i t turns,
  )

  -- Whatever the order in which the statements of any workers run, and wherever they stop, the mails
  -- prepared for an event are at most one more than those that a handler prepared apart from its check
  -- and its row of the audit log, where at first there is at most one and only with its row.
  pub run-mails_for :
      (i : Uuid) (turns : List Turn) (s : WorkerStore)
      → IsMailedOnce decrypt i s
      → mails_for i (run turns s).mails ≤ 1 + lone_mails i turns
  run-mails_for i turns s h =
      let bound = run-MailedAtMost 0 i turns s (omega (arith, h)) in ground (arith, bound)
