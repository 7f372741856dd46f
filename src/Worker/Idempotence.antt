-- ===== src/Worker/Idempotence.antt =====
-- What handling an event twice does: apps/worker/src/handlers/outbox-event-handler.ts.
use savemycontrollers.Outbox.{OutboxEvent}
use savemycontrollers.Worker.{
  WorkerStore, WorkerConfig, Decrypt, handle_outbox_event, already_processed, process_row,
  process_rows, claim_and_process_batch, round,
}
use savemycontrollers.Prelude.{
  ℕ, Uuid, Instant, List, [], ◌∷◌, ok, ◌≡◌, ◌≤◌, ◌+◌, arith, ◌==◌, if◌then◌else◌,
}

-- The mails prepared for an event.
abbrev pub mails_for : Uuid → List Uuid → ℕ
mails_for i [] = 0
mails_for i (j ∷ js) = (if j == i then 1 else 0) + mails_for i js

module _ (decrypt : Decrypt) where
  -- An event that was handled once with success changes nothing when it is handled again.
  pub handle_again :
      (e : OutboxEvent) (s : WorkerStore)
      → (handle_outbox_event decrypt e s).0 ≡ ok tt
      → let s' = (handle_outbox_event decrypt e s).1 in
        handle_outbox_event decrypt e s' ≡ (ok tt, s')
  unfolding handle_outbox_event
  handle_again e s h = ground arith

  -- At most one mail is prepared for the event, and it is in the audit log when there is one.
  abbrev pub IsMailedOnce : Uuid → WorkerStore → Type 0
  IsMailedOnce i s = mails_for i s.mails ≤ (if already_processed i s.audit_log then 1 else 0)

  handle-IsMailedOnce :
      (i : Uuid) (e : OutboxEvent) (s : WorkerStore)
      → IsMailedOnce i s
      → IsMailedOnce i (handle_outbox_event decrypt e s).1
  unfolding handle_outbox_event
  handle-IsMailedOnce i e s h = ground arith

  process_row-IsMailedOnce :
      (cfg : WorkerConfig) (worker : Uuid) (now : Instant) (i : Uuid) (e : OutboxEvent)
      (s : WorkerStore)
      → IsMailedOnce i s
      → IsMailedOnce i (process_row decrypt cfg worker now e s)
  unfolding process_row
  process_row-IsMailedOnce cfg worker now i e s h = ground (arith, handle-IsMailedOnce i e s)

  process_rows-IsMailedOnce :
      (cfg : WorkerConfig) (worker : Uuid) (now : Instant) (i : Uuid) (rows : List OutboxEvent)
      (s : WorkerStore)
      → IsMailedOnce i s
      → IsMailedOnce i (process_rows decrypt cfg worker now rows s)
  unfolding process_rows
  process_rows-IsMailedOnce cfg worker now i [] s h = h
  process_rows-IsMailedOnce cfg worker now i (row ∷ rows) s h =
      process_rows-IsMailedOnce cfg worker now i rows (process_row decrypt cfg worker now row s)
        (process_row-IsMailedOnce cfg worker now i row s h)

  -- Rounds of any workers, one after the other, each to its end.
  unfoldable pub rounds : WorkerConfig → List (Uuid × Instant) → WorkerStore → WorkerStore
  rounds cfg [] s = s
  rounds cfg ((worker, now) ∷ later) s = rounds cfg later (round decrypt cfg worker now [] s)

  -- Where at first at most one verification mail is prepared for an event, and only with its row in the
  -- audit log, this holds after any rounds of any workers, however often the event is claimed again
  -- after an expired lock, if each round runs to its end before the next begins. Nothing is said of
  -- rounds that overlap or that stop between the mail and the row.
  pub rounds-IsMailedOnce :
      (cfg : WorkerConfig) (i : Uuid) (schedule : List (Uuid × Instant)) (s : WorkerStore)
      → IsMailedOnce i s
      → IsMailedOnce i (rounds cfg schedule s)
  unfolding rounds round claim_and_process_batch
  rounds-IsMailedOnce cfg i [] s h = h
  rounds-IsMailedOnce cfg i ((worker, now) ∷ later) s h =
      rounds-IsMailedOnce cfg i later (round decrypt cfg worker now [] s)
        (process_rows-IsMailedOnce cfg worker now i _ _ h)
