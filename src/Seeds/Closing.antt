-- ===== src/Seeds/Closing.antt =====
-- The way of a case to its end over the transitions of prisma/seed/repair-statuses.ts, by the
-- operation `changeStatus` of apps/api/src/modules/repairs/services/repair-case.service.ts.
use text.Mathlib.Text.{◌==◌ as str_eq}
use text.Mathlib.TextEquality.{eq_iff}
use savemycontrollers.Repairs.Data.{
  RepairCase, StatusTransition, RepairStore, find_case, is_status, is_transition_allowed,
}
use savemycontrollers.Repairs.Cases.{StaffActor}
use savemycontrollers.Repairs.Status.{moved, change_status, check_status_change, commit_status}
use savemycontrollers.Repairs.Trail.{found-moved}
use savemycontrollers.Seeds.{
  SeedStatus, SeedTransition, seed_repair_statuses, seed_repair_transitions,
}
use savemycontrollers.Prelude.{
  suc, String, Uuid, Instant, Bool, true, none, some, List, [], ◌∷◌, ◌&&◌, ◌||◌, ◌≡◌, ◌∙◌, not,
  find?, if◌then◌else◌, sym, refl, arith, map, all, ok, Action, pure, ◌>>=◌,
}

-- The columns that the service reads.
abbrev pub status_keys_of : List SeedStatus → List String
status_keys_of = map (λ (d : SeedStatus). d.key)

abbrev pub transitions_of : List SeedTransition → List StatusTransition
transitions_of =
    map (λ (t : SeedTransition). record { from_status_key = t.from; to_status_key = t.to })

-- The case is changed to each of the statuses in turn; each event has an identifier of its own.
unfoldable pub change_through :
    Uuid → Instant → Uuid → List String → StaffActor → Action RepairStore (Unit {0})
change_through event_id now i [] actor = pure tt
change_through event_id now i (to ∷ tos) actor = do
  _ ← change_status event_id now i to actor none
  change_through (suc event_id) now i tos actor

-- The status after the last change.
abbrev pub last_of : String → List String → String
last_of from [] = from
last_of from (to ∷ tos) = last_of to tos

abbrev pub is_path : List String → List StatusTransition → String → List String → Bool
is_path keys transitions from [] = true
is_path keys transitions from (to ∷ tos) =
    is_status keys to
    && (is_transition_allowed transitions from to && is_path keys transitions to tos)

change_allowed :
    (event_id : Uuid) (now : Instant) (i : Uuid) (to : String) (actor : StaffActor)
    (s : RepairStore) (c : RepairCase)
    → find_case i s.cases ≡ some c
    → is_status s.status_keys to ≡ true
    → is_transition_allowed s.transitions c.status_key to ≡ true
    → let s' = (change_status event_id now i to actor none s).1 in
      ((change_status event_id now i to actor none s).0 ≡ ok (some (moved to c)))
      × (find_case i s'.cases ≡ some (moved to c))
      × (s'.status_keys ≡ s.status_keys)
      × (s'.transitions ≡ s.transitions)
unfolding change_status check_status_change commit_status
change_allowed event_id now i to actor s c found known allowed =
    ground (arith, found-moved i to s.cases c found)

-- A path of allowed transitions is gone to its end.
change_through-path :
    (event_id : Uuid) (now : Instant) (i : Uuid) (tos : List String) (actor : StaffActor)
    (s : RepairStore) (c : RepairCase)
    → find_case i s.cases ≡ some c
    → is_path s.status_keys s.transitions c.status_key tos ≡ true
    → (d : RepairCase) × ((change_through event_id now i tos actor s).0 ≡ ok tt)
      × (find_case i (change_through event_id now i tos actor s).1.cases ≡ some d)
      × (d.status_key ≡ last_of c.status_key tos)
unfolding change_through
change_through-path event_id now i [] actor s c found path = (c, refl, found, refl)
change_through-path event_id now i (to ∷ tos) actor s c found path =
    let (done, moved_case, keys, transitions) =
      change_allowed event_id now i to actor s c found (ground arith) (ground arith) in
    let (d, ended, at, last) =
      change_through-path (suc event_id) now i tos actor
        (change_status event_id now i to actor none s).1 (moved to c) moved_case
        (rw (keys, transitions) (ground arith)) in
    (d, ground arith, ground arith, last)

-- The usual course of a repair, in its order.
abbrev usual_course : List String
usual_course =
    "ORDER_CREATED" ∷ "AWAITING_SHIPMENT" ∷ "RECEIVED" ∷ "DIAGNOSING" ∷ "IN_REPAIR"
    ∷ "QUALITY_CHECK" ∷ "REPAIR_DONE" ∷ "PREPARING_RETURN" ∷ "SHIPPED" ∷ "DELIVERED" ∷ "CLOSED" ∷ []

-- What follows a status in a list of them.
abbrev what_follows : String → List String → List String
what_follows key [] = []
what_follows key (k ∷ ks) = let rest = what_follows key ks in if str_eq k key then ks else rest

-- The statuses outside the usual course come back to it.
abbrev pub way_to_closed : String → List String
way_to_closed key =
    if str_eq key "AWAITING_CLIENT_VALIDATION"
    then "IN_REPAIR" ∷ what_follows "IN_REPAIR" usual_course
    else if str_eq key "AWAITING_PART"
    then "IN_REPAIR" ∷ what_follows "IN_REPAIR" usual_course
    else if str_eq key "WARRANTY_RETURN"
    then "DIAGNOSING" ∷ what_follows "DIAGNOSING" usual_course
    else what_follows key usual_course

-- The seeded statuses that can still lead to a repaired device.
abbrev pub is_under_way : SeedStatus → Bool
is_under_way d = not (
    str_eq d.key "UNREPAIRABLE"
    || (str_eq d.key "QUOTE_REFUSED"
        || (str_eq d.key "CANCELLED" || str_eq d.key "CLIENT_UNREACHABLE")))

abbrev leads_to_closed : SeedStatus → Bool
leads_to_closed d =
    not (is_under_way d)
    || (is_path (status_keys_of seed_repair_statuses) (transitions_of seed_repair_transitions) d.key
          (way_to_closed d.key)
        && str_eq (last_of d.key (way_to_closed d.key)) "CLOSED")

split_lead :
    (under_way path last : Bool)
    → (not under_way || (path && last)) ≡ true
    → under_way ≡ true
    → (path ≡ true) × (last ≡ true)
split_lead under_way path last h u = (ground arith, ground arith)

all_lead : all leads_to_closed seed_repair_statuses ≡ true
all_lead = refl

-- A test that holds of all holds of each that is found by its key.
all-at :
    (p : SeedStatus → Bool) (key : String) (ds : List SeedStatus)
    → all p ds ≡ true
    → (d : SeedStatus) → find? (λ (e : SeedStatus). str_eq e.key key) ds ≡ some d
    → (p d ≡ true) × (str_eq d.key key ≡ true)
all-at p key [] h d e = absurd (ground arith)
all-at p key (x ∷ ds) h d e = ground (arith, all-at p key ds (ground arith) d)

-- With the seeded statuses and transitions, a case in any seeded status but the four exits
-- (unrepairable, quote refused, cancelled, client unreachable) can be brought to CLOSED: each of the
-- changes of `way_to_closed` is allowed in its turn, and the last one leaves the case there.
pub case-closed :
    (event_id : Uuid) (now : Instant) (i : Uuid) (actor : StaffActor) (s : RepairStore)
    (c : RepairCase) (d : SeedStatus)
    → s.status_keys ≡ status_keys_of seed_repair_statuses
    → s.transitions ≡ transitions_of seed_repair_transitions
    → find_case i s.cases ≡ some c
    → find? (λ (e : SeedStatus). str_eq e.key c.status_key) seed_repair_statuses ≡ some d
    → is_under_way d ≡ true
    → (closed : RepairCase) × ((change_through event_id now i (way_to_closed d.key) actor s).0
        ≡ ok tt)
      × (find_case i (change_through event_id now i (way_to_closed d.key) actor s).1.cases
          ≡ some closed)
      × (closed.status_key ≡ "CLOSED")
case-closed event_id now i actor s c d keys transitions found seeded under_way =
    let (leads, named) =
      all-at leads_to_closed c.status_key seed_repair_statuses all_lead d seeded in
    let same = sym ((eq_iff d.key c.status_key).0 named) in
    let (path, ends) =
      split_lead (is_under_way d)
        (is_path (status_keys_of seed_repair_statuses) (transitions_of seed_repair_transitions)
          d.key (way_to_closed d.key))
        (str_eq (last_of d.key (way_to_closed d.key)) "CLOSED") leads under_way in
    let (closed, done, at, last) =
      change_through-path event_id now i (way_to_closed d.key) actor s c found
        (rw (keys, transitions, same) path) in
    (
      closed,
      done,
      at,
      last ∙ rw same ((eq_iff (last_of d.key (way_to_closed d.key)) "CLOSED").0 ends),
    )
