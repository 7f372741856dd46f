-- ===== src/Repairs/Trail.antt =====
-- The history of a case against the allowed transitions.
use text.Mathlib.Text.{◌==◌ as str_eq}
use savemycontrollers.Repairs.Data.{
  RepairCase, StatusHistory, StatusTransition, RepairStore, find_case, is_status,
  is_transition_allowed,
}
use savemycontrollers.Repairs.Cases.{StaffActor, order_created}
use savemycontrollers.Repairs.Status.{
  is_at_version, moved, set_status, check_status_change, commit_status, change_status,
}
use savemycontrollers.Prelude.{
  ℕ, String, Uuid, Instant, Bool, true, false, Option, some, none, List, [], ◌∷◌, ◌++◌, ◌≡◌, ◌≢◌,
  refl, sym, ap, ◌∙◌, arith, ◌&&◌, ◌==◌, count_where, if◌then◌else◌, inl, inr, Bool-cases,
  Option-cases,
}

-- The status of the last line of a case, after `before`.
abbrev pub last_status : Uuid → Option String → List StatusHistory → Option String
last_status i before [] = before
last_status i before (h ∷ hs) =
    last_status i (if h.repair_case_id == i then some h.status_key else before) hs

-- The first line of a case is its creation, and every other an allowed transition.
abbrev pub follows : List StatusTransition → Option String → String → Bool
follows transitions none to = str_eq to order_created
follows transitions (some from) to = is_transition_allowed transitions from to

abbrev pub is_trail : List StatusTransition → Uuid → Option String → List StatusHistory → Bool
is_trail transitions i before [] = true
is_trail transitions i before (h ∷ hs) =
    if h.repair_case_id == i
    then follows transitions before h.status_key && is_trail transitions i (some h.status_key) hs
    else is_trail transitions i before hs

-- The history of the case is a trail that ends in its status.
pub record IsTraced (i : Uuid) (s : RepairStore) : Type 0 where
  pub trail : is_trail s.transitions i none s.history ≡ true
  pub current :
      (c : RepairCase)
      → find_case i s.cases ≡ some c
      → last_status i none s.history ≡ some c.status_key

last_status-append :
    (i : Uuid) (before : Option String) (hs : List StatusHistory) (h : StatusHistory)
    → last_status i before (hs ++ h ∷ [])
      ≡ (if h.repair_case_id == i then some h.status_key else last_status i before hs)
last_status-append i before [] h = refl
last_status-append i before (g ∷ hs) h =
    last_status-append i (if g.repair_case_id == i then some g.status_key else before) hs h

is_trail-append :
    (ts : List StatusTransition) (i : Uuid) (before : Option String) (hs : List StatusHistory)
    (h : StatusHistory)
    → is_trail ts i before (hs ++ h ∷ []) ≡ (
        is_trail ts i before hs
        && (if h.repair_case_id == i
            then follows ts (last_status i before hs) h.status_key
            else true))
is_trail-append ts i before [] h = ground arith
is_trail-append ts i before (g ∷ hs) h =
    ground (arith, is_trail-append ts i (some g.status_key) hs h, is_trail-append ts i before hs h)

pub found-moved :
    (i : Uuid) (to : String) (cases : List RepairCase) (c : RepairCase)
    → find_case i cases ≡ some c
    → (c.id ≡ i)
      × (count_where (is_at_version i c.lock_version) cases ≢ 0)
      × (find_case i (set_status i c.lock_version to cases) ≡ some (moved to c))
found-moved i to [] c f = cc
found-moved i to (d ∷ cases) c f = ground (arith, found-moved i to cases c)

other_found :
    (i j : Uuid) (v : ℕ) (to : String) (cases : List RepairCase)
    → (i == j) ≡ false
    → find_case j (set_status i v to cases) ≡ find_case j cases
other_found i j v to [] h = refl
other_found i j v to (d ∷ cases) h = ground (arith, other_found i j v to cases h)

-- What a change writes, where the case is there and the change allowed; else nothing.
change_written :
    (event_id : Uuid) (now : Instant) (i : Uuid) (to : String) (actor : StaffActor)
    (comment : Option String) (s : RepairStore) (c : RepairCase)
    → find_case i s.cases ≡ some c
    → is_status s.status_keys to ≡ true
    → is_transition_allowed s.transitions c.status_key to ≡ true
    → let s' = (change_status event_id now i to actor comment s).1 in
      (s'.transitions ≡ s.transitions)
      × (s'.cases ≡ set_status i c.lock_version to s.cases)
      × (s'.history
          ≡ s.history
            ++ record {
              repair_case_id = i;
              status_key = to;
              changed_at = now;
              changed_by_user_id = some actor.user_id;
              comment = comment;
            }
              ∷ [])
unfolding change_status check_status_change commit_status
change_written event_id now i to actor comment s c found known allowed =
    ground (arith, found-moved i to s.cases c found)

change_refused :
    (event_id : Uuid) (now : Instant) (i : Uuid) (to : String) (actor : StaffActor)
    (comment : Option String) (s : RepairStore)
    → ((c : RepairCase)
        → find_case i s.cases ≡ some c
        → (is_status s.status_keys to && is_transition_allowed s.transitions c.status_key to)
          ≡ false)
    → (change_status event_id now i to actor comment s).1 ≡ s
unfolding change_status check_status_change
change_refused event_id now i to actor comment s h = elim (Option-cases (find_case i s.cases)) [
  | inl missing ↦ ground arith
  | inr (c, found) ↦ ground (arith, h c found)
]

current_after :
    (i j : Uuid) (to : String) (cases : List RepairCase) (c d : RepairCase) (last : Option String)
    → find_case i cases ≡ some c
    → ((e : RepairCase) → find_case j cases ≡ some e → last ≡ some e.status_key)
    → find_case j (set_status i c.lock_version to cases) ≡ some d
    → (if i == j then some to else last) ≡ some d.status_key
current_after i j to cases c d last found before at = elim (Bool-cases (i == j)) [
  | inl here ↦ ground (arith, found-moved i to cases c found)
  | inr other ↦ ground (arith, other_found i j c.lock_version to cases other, before d)
]

change-IsTraced :
    (event_id : Uuid) (now : Instant) (i j : Uuid) (to : String) (actor : StaffActor)
    (comment : Option String) (s : RepairStore) (c : RepairCase)
    → find_case i s.cases ≡ some c
    → is_status s.status_keys to ≡ true
    → is_transition_allowed s.transitions c.status_key to ≡ true
    → IsTraced j s
    → IsTraced j (change_status event_id now i to actor comment s).1
change-IsTraced event_id now i j to actor comment s c found known allowed t =
    let (same, cases, history) =
      change_written event_id now i to actor comment s c found known allowed in
    record {
      trail =
          rw (same, history, is_trail-append s.transitions j none s.history)
            (elim (Bool-cases (i == j)) [
              | inl here ↦ ground (arith, t.trail, t.current c)
              | inr other ↦ ground (arith, t.trail)
            ]);
      current = λ d at.
          rw (history, last_status-append j none s.history)
            (current_after i j to s.cases c d (last_status j none s.history) found t.current
              (ap (find_case j) (sym cases) ∙ at));
    }

-- A change of status, whether it is made or refused, keeps of every case that its history starts with
-- the creation, goes on by allowed transitions only, and ends in the status of the case.
pub change_status-IsTraced :
    (event_id : Uuid) (now : Instant) (i j : Uuid) (to : String) (actor : StaffActor)
    (comment : Option String) (s : RepairStore)
    → IsTraced j s
    → IsTraced j (change_status event_id now i to actor comment s).1
change_status-IsTraced event_id now i j to actor comment s t =
    elim (Option-cases (find_case i s.cases)) [
      | inl missing ↦ rw (change_refused event_id now i to actor comment s (λ c f. ground arith)) t
      | inr (c, found) ↦
          elim (Bool-cases
            (is_status s.status_keys to && is_transition_allowed s.transitions c.status_key to)) [
              | inl ready ↦
                  change-IsTraced event_id now i j to actor comment s c found (ground arith)
                    (ground arith) t
              | inr barred ↦
                  rw
                    (change_refused event_id now i to actor comment s
                      (λ d f. ground (arith, barred)))
                    t
            ]
    ]
