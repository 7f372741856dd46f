-- ===== src/Seeds.antt =====
-- The statuses of the repairs and their transitions that the database starts with:
-- prisma/seed/repair-statuses.ts and `seedRepairStatuses` of prisma/seed/index.ts.
pub mod Closing
pub mod Roles
mod Tests
use text.Mathlib.Text.{◌==◌ as str_eq}
use savemycontrollers.Prelude.{
  ℕ, String, Bool, true, false, List, [], ◌∷◌, ◌++◌, ◌&&◌, map, any, update_where, if◌then◌else◌,
}

pub record SeedStatus : Type 0 where
  pub key : String
  pub label : String
  pub color : String
  pub display_order : ℕ
  pub is_system : Bool
  pub is_terminal : Bool

pub record SeedTransition : Type 0 where
  pub from : String
  pub to : String
  pub is_system_protected : Bool

abbrev status : String → String → String → ℕ → Bool → Bool → SeedStatus
status key label color display_order is_system is_terminal = record {
  key = key;
  label = label;
  color = color;
  display_order = display_order;
  is_system = is_system;
  is_terminal = is_terminal;
}

abbrev transition : String → String → Bool → SeedTransition
transition from to is_system_protected = record {
  from = from;
  to = to;
  is_system_protected = is_system_protected;
}

abbrev pub seed_repair_statuses : List SeedStatus
seed_repair_statuses =
    status "ORDER_CREATED" "Commande creee" "#64748b" 0 true false
    ∷ status "AWAITING_SHIPMENT" "En attente d'envoi" "#f59e0b" 1 true false
    ∷ status "RECEIVED" "Colis recu" "#3b82f6" 2 true false
    ∷ status "DIAGNOSING" "Diagnostic en cours" "#3b82f6" 3 false false
    ∷ status "AWAITING_CLIENT_VALIDATION" "Attente de validation du client" "#f59e0b" 4 true false
    ∷ status "AWAITING_PART" "Attente de piece" "#f59e0b" 5 false false
    ∷ status "IN_REPAIR" "Reparation en cours" "#3b82f6" 6 false false
    ∷ status "QUALITY_CHECK" "Tests qualite" "#3b82f6" 7 false false
    ∷ status "REPAIR_DONE" "Reparation terminee" "#22c55e" 8 false false
    ∷ status "PREPARING_RETURN" "Preparation du retour" "#22c55e" 9 false false
    ∷ status "SHIPPED" "Expediee" "#22c55e" 10 true false
    ∷ status "DELIVERED" "Livree" "#22c55e" 11 true false
    ∷ status "CLOSED" "Cloturee" "#16a34a" 12 true true
    ∷ status "UNREPAIRABLE" "Irreparable" "#ef4444" 13 true true
    ∷ status "QUOTE_REFUSED" "Devis refuse" "#ef4444" 14 true true
    ∷ status "CLIENT_UNREACHABLE" "Client injoignable" "#ef4444" 15 false false
    ∷ status "CANCELLED" "Annulee" "#ef4444" 16 true true
    ∷ status "WARRANTY_RETURN" "Retour sous garantie" "#a855f7" 17 false false
    ∷ []

abbrev pub seed_repair_transitions : List SeedTransition
seed_repair_transitions =
    transition "ORDER_CREATED" "AWAITING_SHIPMENT" true
    ∷ transition "ORDER_CREATED" "CANCELLED" true
    ∷ transition "AWAITING_SHIPMENT" "RECEIVED" true
    ∷ transition "AWAITING_SHIPMENT" "CLIENT_UNREACHABLE" false
    ∷ transition "AWAITING_SHIPMENT" "CANCELLED" true
    ∷ transition "RECEIVED" "DIAGNOSING" false
    ∷ transition "DIAGNOSING" "AWAITING_CLIENT_VALIDATION" false
    ∷ transition "DIAGNOSING" "IN_REPAIR" false
    ∷ transition "DIAGNOSING" "UNREPAIRABLE" true
    ∷ transition "AWAITING_CLIENT_VALIDATION" "IN_REPAIR" false
    ∷ transition "AWAITING_CLIENT_VALIDATION" "QUOTE_REFUSED" true
    ∷ transition "AWAITING_CLIENT_VALIDATION" "CLIENT_UNREACHABLE" false
    ∷ transition "IN_REPAIR" "AWAITING_PART" false
    ∷ transition "AWAITING_PART" "IN_REPAIR" false
    ∷ transition "IN_REPAIR" "QUALITY_CHECK" false
    ∷ transition "QUALITY_CHECK" "IN_REPAIR" false
    ∷ transition "QUALITY_CHECK" "REPAIR_DONE" false
    ∷ transition "REPAIR_DONE" "PREPARING_RETURN" false
    ∷ transition "PREPARING_RETURN" "SHIPPED" true
    ∷ transition "SHIPPED" "DELIVERED" true
    ∷ transition "DELIVERED" "CLOSED" true
    ∷ transition "CLOSED" "WARRANTY_RETURN" false
    ∷ transition "WARRANTY_RETURN" "DIAGNOSING" false
    ∷ []

-- `upsert` on the key: a status that is there keeps its two marks.
abbrev refreshed : SeedStatus → SeedStatus → SeedStatus
refreshed d r = record r { label = d.label; color = d.color; display_order = d.display_order }

unfoldable pub upsert_status : SeedStatus → List SeedStatus → List SeedStatus
upsert_status d rows =
    if any (λ (r : SeedStatus). str_eq r.key d.key) rows
    then update_where (λ (r : SeedStatus). str_eq r.key d.key) (refreshed d) rows
    else rows ++ d ∷ []

abbrev is_between : SeedTransition → SeedTransition → Bool
is_between t r = str_eq r.from t.from && str_eq r.to t.to

unfoldable pub upsert_transition : SeedTransition → List SeedTransition → List SeedTransition
upsert_transition t rows =
    if any (is_between t) rows
    then update_where (is_between t) (λ r. record r { is_system_protected = t.is_system_protected })
        rows
    else rows ++ t ∷ []

abbrev pub upsert_statuses : List SeedStatus → List SeedStatus → List SeedStatus
upsert_statuses [] rows = rows
upsert_statuses (d ∷ ds) rows = upsert_statuses ds (upsert_status d rows)

abbrev pub upsert_transitions : List SeedTransition → List SeedTransition → List SeedTransition
upsert_transitions [] rows = rows
upsert_transitions (t ∷ ts) rows = upsert_transitions ts (upsert_transition t rows)

-- `seedRepairStatuses`: the two tables after it.
unfoldable pub seed_statuses :
    List SeedStatus → List SeedTransition → List SeedStatus × List SeedTransition
seed_statuses statuses transitions = (
  upsert_statuses seed_repair_statuses statuses,
  upsert_transitions seed_repair_transitions transitions,
)
