-- ===== src/Repairs/Status.antt =====
-- `changeStatus` of apps/api/src/modules/repairs/services/repair-case.service.ts, in the two parts
-- between which other requests may run: the checks on a case that was read, and the transaction.
use savemycontrollers.Errors.{conflict, not_found, optimistic_lock, validation}
use savemycontrollers.Outbox.{repair_status_changed, repair_case, status_payload, append_event}
use savemycontrollers.Repairs.Data.{
  RepairCase, RepairStore, find_case, is_status, is_transition_allowed,
}
use savemycontrollers.Repairs.Cases.{StaffActor, audit_case}
use savemycontrollers.Prelude.{
  ℕ, String, Uuid, Instant, Bool, false, Option, some, List, [], ◌∷◌, ◌++◌, ◌+◌, ◌&&◌, ◌==◌, not,
  update_where, count_where, Action, pure, gets, modify, or_throw, throw_if, transaction, ◌>>=◌,
  ◌>>◌,
}

-- The case as it was read, once the target and the transition are known to be allowed.
unfoldable pub check_status_change : Uuid → String → Action RepairStore RepairCase
check_status_change i to = do
  found ← gets (λ s. find_case i s.cases)
  c ← or_throw found (not_found "Dossier introuvable.")
  known ← gets (λ s. is_status s.status_keys to)
  throw_if (not known) (validation "Statut cible inconnu.")
  allowed ← gets (λ s. is_transition_allowed s.transitions c.status_key to)
  throw_if (not allowed) (conflict "Transition non autorisee.")
  pure c

-- `{ id, lockVersion: expectedLockVersion }`
abbrev pub is_at_version : Uuid → ℕ → RepairCase → Bool
is_at_version i version c = c.id == i && c.lock_version == version

abbrev pub moved : String → RepairCase → RepairCase
moved to c = record c { status_key = to; lock_version = c.lock_version + 1 }

abbrev pub set_status : Uuid → ℕ → String → List RepairCase → List RepairCase
set_status i version to cases = update_where (is_at_version i version) (moved to) cases

abbrev pub status_written :
    Uuid → Instant → RepairCase → String → StaffActor → Option String → RepairStore → RepairStore
status_written event_id now c to actor comment s = record s {
  cases = set_status c.id c.lock_version to s.cases;
  history =
      s.history
      ++ record {
        repair_case_id = c.id;
        status_key = to;
        changed_at = now;
        changed_by_user_id = some actor.user_id;
        comment = comment;
      }
        ∷ [];
  outbox =
      append_event event_id now
        (record {
          event_type = repair_status_changed;
          aggregate_type = repair_case;
          aggregate_id = c.id;
          payload = status_payload c.status_key to;
          correlation_id = actor.correlation_id;
        })
        false s.outbox;
}

-- The body of the transaction: the update counts the rows that are still at the version read, and
-- a count of zero throws.
abbrev write_status :
    Uuid
    → Instant
    → RepairCase
    → String
    → StaffActor
    → Option String
    → Action RepairStore (Unit {0})
write_status event_id now c to actor comment = do
  matched ← gets (λ s. count_where (is_at_version c.id c.lock_version) s.cases)
  throw_if (matched == 0)
      (optimistic_lock "Le dossier a ete modifie entre-temps, veuillez recharger.")
  modify (status_written event_id now c to actor comment)

-- The transaction, on the case `c` as it was read, and then the journal.
unfoldable pub commit_status :
    Uuid
    → Instant
    → RepairCase
    → String
    → StaffActor
    → Option String
    → Action RepairStore (Unit {0})
commit_status event_id now c to actor comment = do
  transaction (write_status event_id now c to actor comment)
  audit_case actor "repair_case.status_changed" c.id

-- `changeStatus` with no other request between its two parts.
unfoldable pub change_status :
    Uuid
    → Instant
    → Uuid
    → String
    → StaffActor
    → Option String
    → Action RepairStore (Option RepairCase)
change_status event_id now i to actor comment = do
  c ← check_status_change i to
  commit_status event_id now c to actor comment
  gets (λ s. find_case i s.cases)
