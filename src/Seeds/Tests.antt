-- ===== src/Seeds/Tests.antt =====
-- A case under the seeded transitions of prisma/seed, and what the seeds are.
use text.Mathlib.Text.{◌==◌ as str_eq}
use savemycontrollers.Repairs.Data.{RepairCase, RepairStore, find_case}
use savemycontrollers.Repairs.Cases.{StaffActor}
use savemycontrollers.Seeds.{
  SeedStatus, SeedTransition, seed_repair_statuses, seed_repair_transitions, seed_statuses,
  upsert_status, upsert_transition,
}
use savemycontrollers.Seeds.Closing.{
  status_keys_of, transitions_of, change_through, way_to_closed, case-closed,
}
use savemycontrollers.Seeds.Roles.{SeedRole, seed_permissions, seed_roles, has_permission}
use savemycontrollers.Prelude.{true, false, none, some, ok, [], ◌∷◌, ◌≡◌, refl, any, all}

abbrev waiting : RepairCase
waiting = record {
  id = 20;
  reference = (2026, 1);
  qr_token_hash = 900;
  qr_token_revoked_at = none;
  client_id = some 7;
  company_id = none;
  order_id = 30;
  order_item_id = 31;
  device_model_id = 1;
  device_variant_id = 11;
  hardware_revision_id = none;
  reported_issue = none;
  assigned_technician_id = none;
  status_key = "AWAITING_PART";
  lock_version = 5;
}

abbrev seeded : RepairStore
seeded = record {
  cases = waiting ∷ [];
  history = [];
  notes = [];
  status_keys = status_keys_of seed_repair_statuses;
  transitions = transitions_of seed_repair_transitions;
  counters = [];
  outbox = [];
  audit_log = [];
  users = [];
  access = record { user_roles = []; role_permissions = [] };
}

abbrev actor : StaffActor
actor = record { user_id = 9; correlation_id = 1; ip_address = none; user_agent = none }

abbrev awaiting_part : SeedStatus
awaiting_part = record {
  key = "AWAITING_PART";
  label = "Attente de piece";
  color = "#f59e0b";
  display_order = 5;
  is_system = false;
  is_terminal = false;
}

case-closed_example :
    (closed : RepairCase) × ((change_through 80 100 20
        (way_to_closed "AWAITING_PART")
        actor
        seeded).0
      ≡ ok tt)
    × (find_case 20 (change_through 80 100 20 (way_to_closed "AWAITING_PART") actor seeded).1.cases
        ≡ some closed)
    × (closed.status_key ≡ "CLOSED")
case-closed_example =
    case-closed 80 100 20 actor seeded waiting awaiting_part refl refl refl refl refl

-- No transition leaves CLIENT_UNREACHABLE, which is not terminal.
no_way_out :
    any (λ (t : SeedTransition). str_eq t.from "CLIENT_UNREACHABLE") seed_repair_transitions ≡ false
no_way_out = refl

-- The seed on an empty database writes its tables.
seeds_written : seed_statuses [] [] ≡ (seed_repair_statuses, seed_repair_transitions)
unfolding seed_statuses upsert_status upsert_transition
seeds_written = refl

-- Each right of each role is one of the permissions.
rights_known :
    all
      (λ (r : SeedRole). all (λ key. has_permission key seed_permissions) r.permission_keys)
      seed_roles
    ≡ true
rights_known = refl
