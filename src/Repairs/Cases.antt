-- ===== src/Repairs/Cases.antt =====
-- The operations of apps/api/src/modules/repairs/services/repair-case.service.ts other than the change
-- of status, with qr-token.service.ts and the repositories that they call.
use savemycontrollers.Errors.{forbidden, not_found, validation}
use savemycontrollers.Audit.{staff_actor, success, record_entry}
use savemycontrollers.Authorization.{PermissionKey, has_any_permission, is_staff}
use savemycontrollers.Identity.Sessions.{Hash}
use savemycontrollers.Identity.Users.{find_user}
use savemycontrollers.Outbox.{repair_case_created, repair_case, case_payload, append_event}
use savemycontrollers.References.{repair_scope, next_reference_sequence}
use savemycontrollers.Repairs.Data.{
  RepairCase, RepairNote, NoteVisibility, internal, client, RepairStore, find_case,
  find_by_qr_token_hash,
}
use savemycontrollers.Prelude.{
  ℕ, suc, String, Uuid, Instant, Bool, true, false, Option, none, some, List, [], ◌∷◌, ◌++◌, ◌&&◌,
  ◌==◌, not, filter, update_where, is_id, Action, pure, gets, modify, or_throw, throw_if, ◌>>=◌,
  ◌>>◌,
}

abbrev pub order_created : String
order_created = "ORDER_CREATED"

pub record CreateCaseInput : Type 0 where
  pub order_id : Uuid
  pub order_item_id : Uuid
  pub client_id : Option Uuid
  pub company_id : Option Uuid
  pub device_model_id : Uuid
  pub device_variant_id : Uuid
  pub hardware_revision_id : Option Uuid
  pub reported_issue : Option String

-- What the creation of the cases draws, for the case at each position: its id, its event's, and its
-- QR token.
pub record CaseDraws : Type 0 where
  pub case_id : ℕ → Uuid
  pub event_id : ℕ → Uuid
  pub qr_token : ℕ → ℕ

pub record CreatedCase : Type 0 where
  pub id : Uuid
  pub reference : ℕ × ℕ
  pub raw_qr_token : ℕ

-- The actor of a change, from the request.
pub record StaffActor : Type 0 where
  pub user_id : Uuid
  pub correlation_id : Uuid
  pub ip_address : Option String
  pub user_agent : Option String

abbrev pub audit_case : StaffActor → String → Uuid → Action RepairStore (Unit {0})
audit_case actor action i = modify λ s. record s {
  audit_log =
      record_entry
        (record {
          actor_user_id = some actor.user_id;
          actor_type = staff_actor;
          ip_address = actor.ip_address;
          user_agent = actor.user_agent;
          correlation_id = actor.correlation_id;
        })
        action "RepairCase" (some i) success s.audit_log;
}

abbrev pub case_row : Uuid → ℕ × ℕ → Hash → CreateCaseInput → RepairCase
case_row i reference h item = record {
  id = i;
  reference = reference;
  qr_token_hash = h;
  qr_token_revoked_at = none;
  client_id = item.client_id;
  company_id = item.company_id;
  order_id = item.order_id;
  order_item_id = item.order_item_id;
  device_model_id = item.device_model_id;
  device_variant_id = item.device_variant_id;
  hardware_revision_id = item.hardware_revision_id;
  reported_issue = item.reported_issue;
  assigned_technician_id = none;
  status_key = order_created;
  lock_version = 0;
}

-- The three rows of a new case: the case, its first line of history, and its event.
abbrev pub insert_case : Uuid → Instant → Uuid → RepairCase → RepairStore → RepairStore
insert_case event_id now correlation c s = record s {
  cases = s.cases ++ c ∷ [];
  history =
      s.history
      ++ record {
        repair_case_id = c.id;
        status_key = order_created;
        changed_at = now;
        changed_by_user_id = none;
        comment = none;
      }
        ∷ [];
  outbox =
      append_event event_id now
        (record {
          event_type = repair_case_created;
          aggregate_type = repair_case;
          aggregate_id = c.id;
          payload = case_payload c.reference c.order_id;
          correlation_id = correlation;
        })
        false s.outbox;
}

-- `generateRepairCaseReference`: the counter is not part of the transaction.
abbrev draw_reference : ℕ → Action RepairStore (ℕ × ℕ)
draw_reference year s =
    let (r, counters) = next_reference_sequence repair_scope year s.counters in
    (r, record s { counters = counters })

abbrev prepend : {A S : Type 0} → A → List A → Action S (List A)
prepend a rest = pure (a ∷ rest)

module _ (hash_token : ℕ → Hash) where
  -- `createCasesForOrderInTransaction`, from position `n` of the draws on.
  unfoldable pub create_cases :
      CaseDraws
      → ℕ
      → ℕ
      → Instant
      → Uuid
      → List CreateCaseInput
      → Action RepairStore (List CreatedCase)
  create_cases d n year now correlation [] = pure []
  create_cases d n year now correlation (item ∷ items) = do
    reference ← draw_reference year
    modify (
        insert_case (d.event_id n) now correlation
          (case_row (d.case_id n) reference (hash_token (d.qr_token n)) item))
    rest ← create_cases d (suc n) year now correlation items
    prepend (record { id = d.case_id n; reference = reference; raw_qr_token = d.qr_token n }) rest

  unfoldable pub get_by_qr_token : ℕ → Action RepairStore RepairCase
  get_by_qr_token raw = do
    found ← gets (λ s. find_by_qr_token_hash (hash_token raw) s.cases)
    or_throw found (not_found "Dossier introuvable ou QR revoque.")

  abbrev pub set_qr : Uuid → Hash → List RepairCase → List RepairCase
  set_qr i h cases =
      update_where (λ (c : RepairCase). c.id == i)
        (λ c. record c { qr_token_hash = h; qr_token_revoked_at = none }) cases

  -- The raw token comes back, to be printed once.
  unfoldable pub regenerate_qr_token : ℕ → Uuid → StaffActor → Action RepairStore ℕ
  regenerate_qr_token new_raw i actor = do
    found ← gets (λ s. find_case i s.cases)
    c ← or_throw found (not_found "Dossier introuvable.")
    modify λ s. record s { cases = set_qr i (hash_token new_raw) s.cases }
    audit_case actor "repair_case.qr_regenerated" i
    pure new_raw

unfoldable pub revoke_qr_token : Instant → Uuid → StaffActor → Action RepairStore (Unit {0})
revoke_qr_token now i actor = do
  found ← gets (λ s. find_case i s.cases)
  c ← or_throw found (not_found "Dossier introuvable.")
  modify λ s. record s {
    cases =
        update_where (λ (c : RepairCase). c.id == i)
          (λ c. record c { qr_token_revoked_at = some now }) s.cases;
  }
  audit_case actor "repair_case.qr_revoked" i

unfoldable pub get_for_client : Uuid → Uuid → Action RepairStore RepairCase
get_for_client i client_id = do
  found ← gets (λ s. find_case i s.cases)
  c ← or_throw found (not_found "Dossier introuvable.")
  throw_if (not (is_id c.client_id client_id)) (forbidden "Acces refuse a ce dossier.")
  pure c

unfoldable pub get_for_staff : Uuid → Action RepairStore RepairCase
get_for_staff i = do
  found ← gets (λ s. find_case i s.cases)
  or_throw found (not_found "Dossier introuvable.")

-- `PERMISSIONS.REPAIR_DIAGNOSE` and `PERMISSIONS.REPAIR_CHANGE_STATUS`: two keys that differ.
abbrev pub repair_diagnose : PermissionKey
repair_diagnose = 1

abbrev pub repair_change_status : PermissionKey
repair_change_status = 2

unfoldable pub assign_technician : Uuid → Uuid → StaffActor → Action RepairStore (Unit {0})
assign_technician i technician actor = do
  found ← gets (λ s. find_case i s.cases)
  c ← or_throw found (not_found "Dossier introuvable.")
  profile ← gets (λ s. find_user technician s.users)
  u ← or_throw profile (not_found "Technicien introuvable.")
  throw_if (not u.is_active) (validation "Ce compte est desactive.")
  throw_if (not (is_staff u.account_type))
      (forbidden "Seul un membre du personnel SaveMyControllers peut etre affecte a un dossier.")
  allowed ←
      gets
        (λ s. has_any_permission s.access technician (repair_diagnose ∷ repair_change_status ∷ []))
  throw_if (not allowed)
      (forbidden "Ce membre du personnel ne possede pas de role autorise pour les reparations.")
  modify λ s. record s {
    cases =
        update_where (λ (r : RepairCase). r.id == i)
          (λ r. record r { assigned_technician_id = some technician }) s.cases;
  }
  audit_case actor "repair_case.technician_assigned" i

abbrev note : Instant → Uuid → Option Uuid → NoteVisibility → String → RepairStore → RepairStore
note now i author visibility body s = record s {
  notes =
      s.notes
      ++ record {
        repair_case_id = i;
        author_user_id = author;
        visibility = visibility;
        body = body;
        created_at = now;
      }
        ∷ [];
}

unfoldable pub add_internal_note : Instant → Uuid → Uuid → String → RepairStore → RepairStore
add_internal_note now i author body = note now i (some author) internal body

unfoldable pub add_client_message :
    Instant → Uuid → Option Uuid → String → RepairStore → RepairStore
add_client_message now i author body = note now i author client body

abbrev pub is_for_client : NoteVisibility → Bool
is_for_client client = true
is_for_client internal = false

-- The notes of a case are appended in the order of their creation.
unfoldable pub list_notes_for_client : Uuid → RepairStore → List RepairNote
list_notes_for_client i s =
    filter (λ (n : RepairNote). n.repair_case_id == i && is_for_client n.visibility) s.notes

unfoldable pub list_notes_for_staff : Uuid → RepairStore → List RepairNote
list_notes_for_staff i s = filter (λ (n : RepairNote). n.repair_case_id == i) s.notes
