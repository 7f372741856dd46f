-- ===== src/Authorization.antt =====
-- apps/api/src/modules/authorization: the permissions of the staff, and the guard of their routes.
pub mod Guard
use savemycontrollers.Errors.{DomainError, forbidden}
use savemycontrollers.Identity.Users.{
  User, AccountType, individual, company_member, staff, find_user,
}
use savemycontrollers.Prelude.{
  ℕ, String, Uuid, Bool, true, false, Option, none, some, List, [], ◌∷◌, ◌++◌, ◌&&◌, ◌||◌, ◌==◌,
  not, any, all, contains, Result, ok, err, if◌then◌else◌,
}

-- A permission's key, which is compared by equality only.
abbrev pub PermissionKey : Type 0
PermissionKey = Uuid

pub record UserRole : Type 0 where
  pub user_id : Uuid
  pub role_id : Uuid

pub record RolePermission : Type 0 where
  pub role_id : Uuid
  pub permission : PermissionKey

pub record AccessTables : Type 0 where
  pub user_roles : List UserRole
  pub role_permissions : List RolePermission

abbrev keys_of_role : Uuid → List RolePermission → List PermissionKey
keys_of_role role [] = []
keys_of_role role (p ∷ ps) =
    let rest = keys_of_role role ps in if p.role_id == role then p.permission ∷ rest else rest

-- The keys of every role of the user; the set is the list, read by `contains`.
unfoldable keys_from : Uuid → List UserRole → List RolePermission → List PermissionKey
keys_from user [] ps = []
keys_from user (r ∷ rs) ps =
    let rest = keys_from user rs ps in
    if r.user_id == user then keys_of_role r.role_id ps ++ rest else rest

unfoldable pub get_permission_keys_for_user : AccessTables → Uuid → List PermissionKey
unfolding keys_from
get_permission_keys_for_user t user = keys_from user t.user_roles t.role_permissions

unfoldable pub has_any_permission : AccessTables → Uuid → List PermissionKey → Bool
has_any_permission t user permissions =
    any (λ p. contains p (get_permission_keys_for_user t user)) permissions

unfoldable pub has_all_permissions : AccessTables → Uuid → List PermissionKey → Bool
has_all_permissions t user permissions =
    all (λ p. contains p (get_permission_keys_for_user t user)) permissions

abbrev pub is_staff : AccountType → Bool
is_staff staff = true
is_staff individual = false
is_staff company_member = false

abbrev pub is_active_staff : Option User → Bool
is_active_staff none = false
is_active_staff (some u) = u.is_active && is_staff u.account_type

abbrev has_requirement : List PermissionKey → Bool
has_requirement [] = false
has_requirement (p ∷ ps) = true

-- The checks on a user who is signed in.
abbrev check_staff :
    AccessTables → List User → List PermissionKey → List PermissionKey → Uuid → Result Bool
check_staff t users any_of all_of user =
    if not (is_active_staff (find_user user users))
    then err (forbidden "Acces reserve au personnel SaveMyControllers actif.")
    else if has_requirement all_of && not (has_all_permissions t user all_of)
    then err (forbidden "Permissions insuffisantes.")
    else if has_requirement any_of && not (has_any_permission t user any_of)
    then err (forbidden "Permission insuffisante.")
    else ok true

-- `canActivate`, with the requirements that the route declares, empty where it declares none.
unfoldable pub can_activate :
    AccessTables → List User → List PermissionKey → List PermissionKey → Option Uuid → Result Bool
can_activate t users any_of all_of current =
    if not (has_requirement any_of) && not (has_requirement all_of) then ok true else elim current [
      | none ↦ err (forbidden "Authentification requise.")
      | some user ↦ check_staff t users any_of all_of user
    ]
