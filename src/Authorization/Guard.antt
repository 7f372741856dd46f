-- ===== src/Authorization/Guard.antt =====
-- Who passes the guard.
use savemycontrollers.Identity.Users.{User, staff, find_user}
use savemycontrollers.Authorization.{
  AccessTables, PermissionKey, UserRole, RolePermission, keys_of_role, keys_from,
  get_permission_keys_for_user, has_any_permission, has_all_permissions, is_active_staff,
  has_requirement, can_activate,
}
use savemycontrollers.Prelude.{
  ℕ, Uuid, Bool, true, false, Option, none, some, List, [], ◌∷◌, ◌++◌, ◌≡◌, refl, arith, ◌&&◌, ◌||◌,
  ◌==◌, any, all, contains, ok, not, Result,
}

-- Some role of the user has the permission.
abbrev pub is_granted : AccessTables → Uuid → PermissionKey → Bool
is_granted t user p =
    any
      (λ (r : UserRole).
        r.user_id == user
        && any (λ (q : RolePermission). q.role_id == r.role_id && (q.permission == p))
            t.role_permissions)
      t.user_roles

contains-append :
    (p : ℕ) (ps qs : List ℕ) → contains p (ps ++ qs) ≡ (contains p ps || contains p qs)
contains-append p [] qs = refl
contains-append p (q ∷ ps) qs = ground (arith, contains-append p ps qs)

contains-keys_of_role :
    (p role : ℕ) (ps : List RolePermission)
    → contains p (keys_of_role role ps)
      ≡ any (λ (q : RolePermission). q.role_id == role && (q.permission == p)) ps
contains-keys_of_role p role [] = refl
contains-keys_of_role p role (q ∷ ps) = ground (arith, contains-keys_of_role p role ps)

contains-keys_from :
    (p user : ℕ) (rs : List UserRole) (ps : List RolePermission)
    → contains p (keys_from user rs ps)
      ≡ any
          (λ (r : UserRole).
            r.user_id == user
            && any (λ (q : RolePermission). q.role_id == r.role_id && (q.permission == p)) ps)
          rs
unfolding keys_from
contains-keys_from p user [] ps = refl
contains-keys_from p user (r ∷ rs) ps = ground (
  arith,
  contains-keys_from p user rs ps,
  contains-append p (keys_of_role r.role_id ps) (keys_from user rs ps),
  contains-keys_of_role p r.role_id ps,
)

all_granted :
    (t : AccessTables) (user : Uuid) (ps : List PermissionKey)
    → has_all_permissions t user ps ≡ all (is_granted t user) ps
unfolding has_all_permissions get_permission_keys_for_user
all_granted t user [] = refl
all_granted t user (p ∷ ps) =
    ground (arith, all_granted t user ps, contains-keys_from p user t.user_roles t.role_permissions)

any_granted :
    (t : AccessTables) (user : Uuid) (ps : List PermissionKey)
    → has_any_permission t user ps ≡ any (is_granted t user) ps
unfolding has_any_permission get_permission_keys_for_user
any_granted t user [] = refl
any_granted t user (p ∷ ps) =
    ground (arith, any_granted t user ps, contains-keys_from p user t.user_roles t.role_permissions)

abbrev pub is_ok {ℓ} : {A : Type ℓ} → Result A → Bool
is_ok (ok a) = true
is_ok (Result.err e) = false

-- The account exists, is active and is one of the staff.
abbrev pub is_working : Option User → Bool
is_working none = false
is_working (some u) = elim u.account_type [ staff ↦ u.is_active | _ ↦ false ]

is_active_staff-is_working : (u : Option User) → is_active_staff u ≡ is_working u
is_active_staff-is_working none = refl
is_active_staff-is_working (some u) = ground arith

-- A route that requires permissions opens exactly for an account that still exists, is active and of
-- the staff, whose roles grant all of the first list, and, where the second is not empty, one of it.
pub can_activate-granted :
    (t : AccessTables) (users : List User) (any_of all_of : List PermissionKey) (user : Uuid)
    → (has_requirement any_of || has_requirement all_of) ≡ true
    → is_ok (can_activate t users any_of all_of (some user)) ≡ (
        is_working (find_user user users)
        && (all (is_granted t user) all_of
            && (not (has_requirement any_of) || any (is_granted t user) any_of)))
unfolding can_activate
can_activate-granted t users any_of [] user h =
    ground (arith, any_granted t user any_of, is_active_staff-is_working (find_user user users))
can_activate-granted t users any_of (p ∷ ps) user h = ground (
  arith,
  any_granted t user any_of,
  all_granted t user (p ∷ ps),
  is_active_staff-is_working (find_user user users),
)
