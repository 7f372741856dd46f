-- ===== src/Worker/Tests.antt =====
-- The worker run on small tables, and the theorems of the outbox and of the worker at concrete inputs.
use savemycontrollers.Errors.{internal, message}
use savemycontrollers.Outbox.{
  OutboxEvent, email_verification_requested, verification_payload, user, processed, new_event,
  claimed, ids_of, claim_outbox_batch_atomic, backoff_seconds,
}
use savemycontrollers.Outbox.Backoff.{backoff_seconds_bounds}
use savemycontrollers.Outbox.Claims.{
  is_sorted, until, is_claimable, claim-batch, claims_disjoint, claim_changes_batch,
}
use savemycontrollers.Worker.{WorkerStore, WorkerConfig, Decrypt, handle_outbox_event}
use savemycontrollers.Worker.Idempotence.{
  mails_for, handle_again, rounds, IsMailedOnce, rounds-IsMailedOnce,
}
use savemycontrollers.Worker.Interleaving.{
  Turn, handle, mail, log, turn, run, lone_mails, run-mails_for,
}
use savemycontrollers.Worker.Locks.{IsTable, here, next, claim, Reach-IsTable}
use savemycontrollers.Worker.Terminal.{has_terminal, Reach-has_terminal}
use savemycontrollers.Worker.Retries.{
  Poison, waiting, dead, store_with, hourly, tries_until_dead_letter,
}
use savemycontrollers.Prelude.{
  Uuid, Instant, String, true, not, Option, none, some, List, [], ◌∷◌, ok, err, ◌≡◌, ◌≤◌, ◌*◌, ◌+◌,
  refl, arith, min, ◌&&◌, count_where, map, all, filter, contains, length, ◌==◌, if◌then◌else◌,
}

-- Every ciphertext but 13 decrypts.
abbrev decrypt_small : Decrypt
decrypt_small n = if n == 13 then err (internal "Bad ciphertext") else ok "token"

abbrev config : WorkerConfig
config = record { batch_size = 10; max_attempts = 3; stale_lock_ms = 300000 }

abbrev mail_event : Uuid → Instant → OutboxEvent
mail_event i now =
    new_event i now
      (record {
        event_type = email_verification_requested;
        aggregate_type = user;
        aggregate_id = 7;
        payload = verification_payload "a@b.fr" (some 12);
        correlation_id = 9;
      })
      true

abbrev two_events : List OutboxEvent
two_events = mail_event 2 50 ∷ mail_event 1 40 ∷ []

abbrev two_events_store : WorkerStore
two_events_store = record { outbox = two_events; audit_log = []; mails = [] }

abbrev poison : Poison
poison = record {
  id = 1;
  aggregate_type = user;
  aggregate_id = 7;
  correlation_id = 9;
  email = "a@b.fr";
  ciphertext = 13;
  occurred_at = 40;
}

-- The table after the claim of worker 8, and after the success of event 1.
abbrev claimed_rows : List OutboxEvent
claimed_rows = (claim_outbox_batch_atomic 1 8 100 [] two_events).1

two_events-IsTable : IsTable two_events
two_events-IsTable = record { consistent = refl; keyed = refl }

claim-batch_example :
    let batch = (claim_outbox_batch_atomic 1 8 100 [] two_events).0 in
    (count_where (until 45) batch
      ≡ min 1 (count_where (λ r. is_claimable 100 [] r && until 45 r) two_events))
    × (count_where (λ r. r.id == 1) batch
        ≤ count_where (λ r. is_claimable 100 [] r && r.id == 1) two_events)
    × (length batch ≤ 1)
    × (is_sorted batch ≡ true)
claim-batch_example = claim-batch 1 8 100 [] two_events 45 (λ r. r.id == 1)

claims_disjoint_example :
    let (batch, rows) = claim_outbox_batch_atomic 1 8 100 [] two_events in
    all (λ r. not (contains r.id (ids_of batch))) (claim_outbox_batch_atomic 5 9 200 [] rows).0
    ≡ true
claims_disjoint_example = claims_disjoint 1 5 8 9 100 200 [] [] two_events

claim_changes_batch_run :
    let (batch, rows) = claim_outbox_batch_atomic 1 8 100 [] two_events in
    (filter (λ r. contains r.id (ids_of batch)) rows
      ≡ map (claimed 100 8) (filter (λ r. contains r.id (ids_of batch)) two_events))
    × (filter (λ r. not (contains r.id (ids_of batch))) rows
        ≡ filter (λ r. not (contains r.id (ids_of batch))) two_events)
claim_changes_batch_run = claim_changes_batch 1 8 100 [] two_events

backoff_seconds_bounds_run :
    (2 ≤ backoff_seconds 4)
    × (backoff_seconds 4 ≤ 3600)
    × (backoff_seconds 4 ≤ backoff_seconds 5)
    × (backoff_seconds 5 ≡ min (2 * backoff_seconds 4) 3600)
backoff_seconds_bounds_run = backoff_seconds_bounds 4

handle_again_run :
    let s' = (handle_outbox_event decrypt_small (mail_event 1 40) two_events_store).1 in
    handle_outbox_event decrypt_small (mail_event 1 40) s' ≡ (ok tt, s')
unfolding handle_outbox_event
handle_again_run = handle_again decrypt_small (mail_event 1 40) two_events_store refl

rounds-IsMailedOnce_example :
    IsMailedOnce decrypt_small 1
      (rounds decrypt_small config ((8, 100) ∷ (9, 500000) ∷ []) two_events_store)
rounds-IsMailedOnce_example =
    rounds-IsMailedOnce decrypt_small config 1 ((8, 100) ∷ (9, 500000) ∷ []) two_events_store
      (omega arith)

-- The first worker mails after its lock expired, the second handles the event as a whole, and the
-- first writes its row.
abbrev overlapping : List Turn
overlapping = mail (mail_event 1 40) ∷ handle (mail_event 1 40) ∷ log (mail_event 1 40) ∷ []

mailed_twice : mails_for 1 (run decrypt_small config overlapping two_events_store).mails ≡ 2
unfolding run turn handle_outbox_event
mailed_twice = refl

run-mails_for_example :
    mails_for 1 (run decrypt_small config overlapping two_events_store).mails
    ≤ 1 + lone_mails 1 overlapping
run-mails_for_example =
    run-mails_for decrypt_small config 1 overlapping two_events_store (omega arith)

Reach-IsTable_example : IsTable claimed_rows
Reach-IsTable_example = Reach-IsTable two_events-IsTable (next here (claim 1 8 100 []))

-- A processed row, and another that is claimed after it.
abbrev done_row : OutboxEvent
done_row = record (mail_event 3 30) { status = processed; processed_at = some 90 }

abbrev with_done : List OutboxEvent
with_done = done_row ∷ two_events

with_done-IsTable : IsTable with_done
with_done-IsTable = record { consistent = refl; keyed = refl }

Reach-has_terminal_example :
    has_terminal (λ r. r.id == 3) (claim_outbox_batch_atomic 5 8 100 [] with_done).1 ≡ true
Reach-has_terminal_example =
    Reach-has_terminal (λ r. r.id == 3) with_done-IsTable (next here (claim 5 8 100 [])) refl

tries_until_dead_letter_example :
    ((error' : Option String) × (due' : Instant) × (rounds decrypt_small config
          (hourly decrypt_small poison (internal "Bad ciphertext") refl 8 3 40)
          (store_with (waiting poison 0 none 40) [])
        ≡ store_with (waiting poison 3 error' due') []))
    × ((due' : Instant) × (rounds decrypt_small config
            (hourly decrypt_small poison (internal "Bad ciphertext") refl 8 4 40)
            (store_with (waiting poison 0 none 40) [])
          ≡ store_with (dead poison 4 (message (internal "Bad ciphertext")) due') []))
tries_until_dead_letter_example =
    tries_until_dead_letter decrypt_small poison (internal "Bad ciphertext") refl config 8 9 40 40
      [] refl (omega arith)
