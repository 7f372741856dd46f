-- ===== src/Repairs/Tests.antt =====
-- Two repair cases, and the theorems of the cases, of their references and of the permissions at
-- concrete inputs.
use savemycontrollers.Errors.{not_found, optimistic_lock}
use savemycontrollers.Authorization.{AccessTables, can_activate}
use savemycontrollers.Authorization.Guard.{is_working, can_activate-granted, is_granted, is_ok}
use savemycontrollers.Identity.Users.{User, staff, find_user}
use savemycontrollers.References.{order_scope, repair_scope, increment, next_reference_sequence}
use savemycontrollers.References.Sequence.{draws, references_increase}
use savemycontrollers.Repairs.Cases.{
  CaseDraws, CreateCaseInput, CreatedCase, StaffActor, get_by_qr_token, regenerate_qr_token,
  revoke_qr_token,
}
use savemycontrollers.Repairs.Data.{RepairCase, RepairStore, StatusHistory}
use savemycontrollers.Repairs.Locking.{Pending, commit, commits, stale_commit}
use savemycontrollers.Repairs.Status.{change_status, commit_status}
use savemycontrollers.Repairs.Qr.{qr_token_replaced}
use savemycontrollers.Repairs.Trail.{IsTraced, change_status-IsTraced}
use savemycontrollers.Prelude.{
  List, ◌+◌, ok, ℕ, true, none, some, [], ◌∷◌, err, ◌≡◌, ◌≤◌, ◌<◌, refl, arith, all, any, ◌&&◌,
  ◌||◌, not,
}

abbrev case : RepairCase
case = record {
  id = 20;
  reference = (2026, 1);
  qr_token_hash = 900;
  qr_token_revoked_at = none;
  client_id = some 7;
  company_id = none;
  order_id = 30;
  order_item_id = 31;
  device_model_id = 1;
  device_variant_id = 11;
  hardware_revision_id = none;
  reported_issue = none;
  assigned_technician_id = none;
  status_key = "ORDER_CREATED";
  lock_version = 0;
}

abbrev created : StatusHistory
created = record {
  repair_case_id = 20;
  status_key = "ORDER_CREATED";
  changed_at = 5;
  changed_by_user_id = none;
  comment = none;
}

abbrev technician : User
technician = record {
  id = 9;
  email = "t@b.fr";
  password_hash = "";
  first_name = "T";
  last_name = "B";
  account_type = staff;
  is_active = true;
  email_verified_at = none;
  failed_login_attempts = 0;
  locked_until = none;
}

abbrev access : AccessTables
access = record {
  user_roles = record { user_id = 9; role_id = 3 } ∷ [];
  role_permissions =
      record { role_id = 3; permission = 1 } ∷ record { role_id = 4; permission = 2 } ∷ [];
}

abbrev store : RepairStore
store = record {
  cases =
      case
      ∷ record case { id = 21; order_item_id = 32; reference = (2026, 2); qr_token_hash = 901 }
      ∷ [];
  history = created ∷ [];
  notes = [];
  status_keys = "ORDER_CREATED" ∷ "AWAITING_SHIPMENT" ∷ "CANCELLED" ∷ [];
  transitions =
      record { from_status_key = "ORDER_CREATED"; to_status_key = "AWAITING_SHIPMENT" }
      ∷ record { from_status_key = "ORDER_CREATED"; to_status_key = "CANCELLED" }
      ∷ [];
  counters = [];
  outbox = [];
  audit_log = [];
  users = technician ∷ [];
  access = access;
}

abbrev actor : StaffActor
actor = record { user_id = 9; correlation_id = 1; ip_address = none; user_agent = none }

abbrev ships : Pending
ships = record {
  event_id = 80;
  now = 100;
  read = case;
  to = "AWAITING_SHIPMENT";
  actor = actor;
  comment = none;
}

abbrev cancels : Pending
cancels = record ships { event_id = 81; to = "CANCELLED" }

stale_commit_example :
    let s' = commits [] (commit ships store) in
    commit_status 81 100 case "CANCELLED" actor none s'
    ≡ (err (optimistic_lock "Le dossier a ete modifie entre-temps, veuillez recharger."), s')
unfolding commit_status
stale_commit_example = stale_commit ships cancels [] store (omega arith) refl refl refl

store-IsTraced : IsTraced 20 store
store-IsTraced = record { trail = refl; current = λ c f. ground arith }

change_status-IsTraced_example :
    IsTraced 20 (change_status 80 100 20 "AWAITING_SHIPMENT" actor none store).1
change_status-IsTraced_example =
    change_status-IsTraced 80 100 20 20 "AWAITING_SHIPMENT" actor none store store-IsTraced

-- The second order reference of a year, with a reference of a case drawn between them.
references_increase_example :
    (◌≡◌ {A = ℕ} 2026 2026) × (◌≡◌ {A = ℕ} 2026 2026) × (1 ≤ 1) × (1 < 2) × (2 ≤ 999999)
unfolding next_reference_sequence increment draws
references_increase_example =
    references_increase order_scope 2026 2026 2026 1 2 ((repair_scope, 2026) ∷ []) [] refl refl

can_activate-granted_example :
    is_ok (can_activate access (technician ∷ []) (1 ∷ 2 ∷ []) [] (some 9)) ≡ (
      is_working (find_user 9 (technician ∷ []))
      && (all (is_granted access 9) [] && (not true || any (is_granted access 9) (1 ∷ 2 ∷ []))))
can_activate-granted_example = can_activate-granted access (technician ∷ []) (1 ∷ 2 ∷ []) [] 9 refl

abbrev hash : ℕ → ℕ
hash t = t + 895

qr_token_replaced_example :
    let renewed = (regenerate_qr_token hash 7 20 actor store).1 in
    let revoked = (revoke_qr_token 100 20 actor store).1 in
    let refused = err (not_found "Dossier introuvable ou QR revoque.") in
    ((get_by_qr_token hash 7 renewed).0
      ≡ ok (record case { qr_token_hash = hash 7; qr_token_revoked_at = none }))
    × ((get_by_qr_token hash 5 renewed).0 ≡ refused)
    × ((get_by_qr_token hash 5 revoked).0 ≡ refused)
qr_token_replaced_example =
    qr_token_replaced hash 100 20 5 7 actor store case refl refl (omega arith) refl refl

abbrev case_draws : CaseDraws
case_draws = record { case_id = λ n. n + 40; event_id = λ n. n + 50; qr_token = λ n. n + 60 }

abbrev input : CreateCaseInput
input = record {
  order_id = 30;
  order_item_id = 33;
  client_id = some 7;
  company_id = none;
  device_model_id = 1;
  device_variant_id = 11;
  hardware_revision_id = none;
  reported_issue = none;
}

abbrev made : List CreatedCase
made = record { id = 40; reference = (2026, 1); raw_qr_token = 60 } ∷ []
