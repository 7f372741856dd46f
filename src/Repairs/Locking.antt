-- ===== src/Repairs/Locking.antt =====
-- The optimistic lock of the repair cases.
use savemycontrollers.Errors.{optimistic_lock}
use savemycontrollers.Repairs.Data.{RepairCase, RepairStore}
use savemycontrollers.Repairs.Cases.{StaffActor}
use savemycontrollers.Repairs.Status.{is_at_version, set_status, commit_status}
use savemycontrollers.Prelude.{
  ℕ, String, Uuid, Instant, Option, List, [], ◌∷◌, ◌≡◌, ◌≢◌, ◌≤◌, refl, ap, arith, ◌&&◌, ◌==◌, leb,
  count_where, ok, err, inl, inr, Bool-cases,
}

-- A request that has read a case and is about to write.
pub record Pending : Type 0 where
  pub event_id : Uuid
  pub now : Instant
  pub read : RepairCase
  pub to : String
  pub actor : StaffActor
  pub comment : Option String

unfoldable pub commit : Pending → RepairStore → RepairStore
commit p s = (commit_status p.event_id p.now p.read p.to p.actor p.comment s).1

-- The stores that a list of requests passes through, one commit after the other.
unfoldable pub commits : List Pending → RepairStore → RepairStore
commits [] s = s
commits (p ∷ ps) s = commits ps (commit p s)

-- The rows of a case that are still at the version read, or below it.
abbrev stale : Uuid → ℕ → List RepairCase → ℕ
stale i version cases =
    count_where (λ (c : RepairCase). c.id == i && leb c.lock_version version) cases

-- The rows with an id.
abbrev pub with_id : Uuid → List RepairCase → ℕ
with_id i cases = count_where (λ (c : RepairCase). c.id == i) cases

commit_refused :
    (p : Pending) (s : RepairStore)
    → count_where (is_at_version p.read.id p.read.lock_version) s.cases ≡ 0
    → commit_status p.event_id p.now p.read p.to p.actor p.comment s
      ≡ (err (optimistic_lock "Le dossier a ete modifie entre-temps, veuillez recharger."), s)
unfolding commit_status
commit_refused p s h = ground arith

commit_kept :
    (p : Pending) (s : RepairStore)
    → count_where (is_at_version p.read.id p.read.lock_version) s.cases ≡ 0
    → commit p s ≡ s
unfolding commit
commit_kept p s h = ap (λ r. r.1) (commit_refused p s h)

commit_done :
    (p : Pending) (s : RepairStore)
    → count_where (is_at_version p.read.id p.read.lock_version) s.cases ≢ 0
    → ((commit_status p.event_id p.now p.read p.to p.actor p.comment s).0 ≡ ok tt)
      × ((commit p s).cases ≡ set_status p.read.id p.read.lock_version p.to s.cases)
unfolding commit commit_status
commit_done p s h = ground arith

set_status-stale :
    (i j : Uuid) (v w : ℕ) (to : String) (cases : List RepairCase)
    → stale i v (set_status j w to cases) ≤ stale i v cases
set_status-stale i j v w to [] = omega arith
set_status-stale i j v w to (c ∷ cases) = ground (arith, set_status-stale i j v w to cases)

commit-stale :
    (i : Uuid) (v : ℕ) (p : Pending) (s : RepairStore)
    → stale i v (commit p s).cases ≤ stale i v s.cases
commit-stale i v p s =
    elim (Bool-cases (count_where (is_at_version p.read.id p.read.lock_version) s.cases == 0)) [
      | inl gone ↦ rw (commit_kept p s (ground arith)) (omega arith)
      | inr here ↦
          rw ((commit_done p s (ground arith)).1)
            (set_status-stale i p.read.id v p.read.lock_version p.to s.cases)
    ]

commits-stale :
    (i : Uuid) (v : ℕ) (ps : List Pending) (s : RepairStore)
    → stale i v (commits ps s).cases ≤ stale i v s.cases
unfolding commits
commits-stale i v [] s = omega arith
commits-stale i v (p ∷ ps) s =
    omega (arith, commits-stale i v ps (commit p s), commit-stale i v p s)

none_stale :
    (i : Uuid) (v : ℕ) (cases : List RepairCase)
    → stale i v cases ≡ 0
    → count_where (is_at_version i v) cases ≡ 0
none_stale i v [] h = refl
none_stale i v (c ∷ cases) h = ground (arith, none_stale i v cases)

absent-stale :
    (i : Uuid) (v w : ℕ) (to : String) (cases : List RepairCase)
    → with_id i cases ≡ 0
    → stale i v (set_status i w to cases) ≡ 0
absent-stale i v w to [] h = refl
absent-stale i v w to (c ∷ cases) h = ground (arith, absent-stale i v w to cases)

at_version-with_id :
    (i : Uuid) (v : ℕ) (cases : List RepairCase)
    → count_where (is_at_version i v) cases ≤ with_id i cases
at_version-with_id i v [] = omega arith
at_version-with_id i v (c ∷ cases) = ground (arith, at_version-with_id i v cases)

moved_on :
    (i : Uuid) (v : ℕ) (to : String) (cases : List RepairCase)
    → with_id i cases ≤ 1
    → count_where (is_at_version i v) cases ≢ 0
    → stale i v (set_status i v to cases) ≡ 0
moved_on i v to [] keyed here = refl
moved_on i v to (c ∷ cases) keyed here =
    ground (arith, moved_on i v to cases, absent-stale i v v to cases, at_version-with_id i v cases)

-- Two requests that read the same version of a case never both change it: once one has been
-- committed, and whatever commits follow, the other fails and leaves every table as it was.
pub stale_commit :
    (p q : Pending) (between : List Pending) (s : RepairStore)
    → with_id p.read.id s.cases ≤ 1
    → q.read.id ≡ p.read.id
    → q.read.lock_version ≡ p.read.lock_version
    → (commit_status p.event_id p.now p.read p.to p.actor p.comment s).0 ≡ ok tt
    → let s' = commits between (commit p s) in
      commit_status q.event_id q.now q.read q.to q.actor q.comment s'
      ≡ (err (optimistic_lock "Le dossier a ete modifie entre-temps, veuillez recharger."), s')
stale_commit p q between s keyed same_case same_version done =
    commit_refused q (commits between (commit p s)) (
      rw (same_case, same_version)
        (none_stale p.read.id p.read.lock_version _
          (omega (arith, commits-stale p.read.id p.read.lock_version between (commit p s), first))))
  where
    here : count_where (is_at_version p.read.id p.read.lock_version) s.cases ≢ 0
    here none_left = ground (arith, commit_refused p s none_left)

    first : stale p.read.id p.read.lock_version (commit p s).cases ≡ 0
    first =
        rw ((commit_done p s here).1)
          (moved_on p.read.id p.read.lock_version p.to s.cases keyed here)
