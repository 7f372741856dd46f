-- ===== src/Seeds/Roles.antt =====
-- The permissions and the roles that the database starts with: prisma/seed/permissions.ts and
-- `seedPermissionsAndRoles` of prisma/seed/index.ts.
use text.Mathlib.Text.{◌==◌ as str_eq}
use savemycontrollers.Errors.{internal}
use savemycontrollers.Prelude.{
  String, Bool, List, [], ◌∷◌, ◌++◌, ◌&&◌, map, any, not, update_where, Action, pure, gets, modify,
  throw_if, ◌>>=◌, ◌>>◌, if◌then◌else◌,
}

pub record SeedPermission : Type 0 where
  pub key : String
  pub description : String

pub record SeedRole : Type 0 where
  pub key : String
  pub label : String
  pub permission_keys : List String

abbrev permission : String → String → SeedPermission
permission key description = record { key = key; description = description }

abbrev role : String → String → List String → SeedRole
role key label permission_keys = record {
  key = key;
  label = label;
  permission_keys = permission_keys;
}

abbrev pub seed_permissions : List SeedPermission
seed_permissions =
    permission "catalog.read" "Consulter le catalogue (y compris brouillons)"
    ∷ permission "catalog.create" "Creer des elements de catalogue"
    ∷ permission "catalog.update" "Modifier des elements de catalogue"
    ∷ permission "catalog.delete" "Supprimer des elements de catalogue"
    ∷ permission "order.read" "Consulter les commandes"
    ∷ permission "order.update" "Modifier une commande"
    ∷ permission "repair.assign" "Attribuer un dossier a un technicien"
    ∷ permission "repair.diagnose" "Saisir un diagnostic"
    ∷ permission "repair.change_status" "Changer le statut d'un dossier"
    ∷ permission "repair.view_internal_notes" "Consulter les notes internes"
    ∷ permission "repair.write_internal_notes" "Ajouter une note interne"
    ∷ permission "refund.create" "Emettre un remboursement"
    ∷ permission "margin.read" "Consulter les marges"
    ∷ permission "audit.read" "Consulter le journal d'audit"
    ∷ permission "role.manage" "Gerer les roles et permissions"
    ∷ permission "extension.manage" "Installer/desinstaller une extension"
    ∷ permission "settings.manage" "Modifier les parametres systeme"
    ∷ []

abbrev pub seed_roles : List SeedRole
seed_roles =
    role "SUPER_ADMIN" "Super-administrateur" (map (λ (p : SeedPermission). p.key) seed_permissions)
    ∷ role "ADMIN" "Administrateur" (
        "catalog.read" ∷ "catalog.create" ∷ "catalog.update" ∷ "catalog.delete" ∷ "order.read"
        ∷ "order.update" ∷ "repair.assign" ∷ "repair.diagnose" ∷ "repair.change_status"
        ∷ "repair.view_internal_notes" ∷ "repair.write_internal_notes" ∷ "refund.create"
        ∷ "margin.read" ∷ "audit.read" ∷ "settings.manage" ∷ [])
    ∷ role "WORKSHOP_MANAGER" "Responsable atelier" (
        "catalog.read" ∷ "order.read" ∷ "repair.assign" ∷ "repair.diagnose" ∷ "repair.change_status"
        ∷ "repair.view_internal_notes" ∷ "repair.write_internal_notes" ∷ "margin.read" ∷ [])
    ∷ role "TECHNICIAN" "Technicien" (
        "catalog.read" ∷ "order.read" ∷ "repair.diagnose" ∷ "repair.change_status"
        ∷ "repair.view_internal_notes" ∷ "repair.write_internal_notes" ∷ [])
    ∷ role "CUSTOMER_SUPPORT" "Support client" ("order.read" ∷ "repair.view_internal_notes" ∷ [])
    ∷ role "SALES" "Commercial" ("catalog.read" ∷ "order.read" ∷ "margin.read" ∷ [])
    ∷ role "ACCOUNTANT" "Comptable" ("order.read" ∷ "refund.create" ∷ "margin.read" ∷ [])
    ∷ role "ORDER_PREPARER" "Preparateur de commandes" ("order.read" ∷ "repair.change_status" ∷ [])
    ∷ []

-- A right of a role, by the two keys that the identifiers stand for.
pub record SeedRolePermission : Type 0 where
  pub role_key : String
  pub permission_key : String

pub record SeedRoleRow : Type 0 where
  pub key : String
  pub label : String

pub record SeedAccess : Type 0 where
  pub permissions : List SeedPermission
  pub roles : List SeedRoleRow
  pub role_permissions : List SeedRolePermission

abbrev pub has_permission : String → List SeedPermission → Bool
has_permission key permissions = any (λ (p : SeedPermission). str_eq p.key key) permissions

unfoldable pub upsert_permission : SeedPermission → List SeedPermission → List SeedPermission
upsert_permission d rows =
    if has_permission d.key rows
    then update_where (λ (p : SeedPermission). str_eq p.key d.key)
        (λ p. record p { description = d.description }) rows
    else rows ++ d ∷ []

unfoldable pub upsert_permissions : List SeedPermission → List SeedPermission → List SeedPermission
upsert_permissions [] rows = rows
upsert_permissions (d ∷ ds) rows = upsert_permissions ds (upsert_permission d rows)

unfoldable pub upsert_role : SeedRole → List SeedRoleRow → List SeedRoleRow
upsert_role d rows =
    if any (λ (r : SeedRoleRow). str_eq r.key d.key) rows
    then update_where (λ (r : SeedRoleRow). str_eq r.key d.key) (λ r. record r { label = d.label })
        rows
    else rows ++ record { key = d.key; label = d.label } ∷ []

abbrev is_right : String → String → SeedRolePermission → Bool
is_right role_key key r = str_eq r.role_key role_key && str_eq r.permission_key key

unfoldable pub grant : String → String → List SeedRolePermission → List SeedRolePermission
grant role_key key rows =
    if any (is_right role_key key) rows
    then rows
    else rows ++ record { role_key = role_key; permission_key = key } ∷ []

-- `findUniqueOrThrow` of each permission of a role, and then the upsert of the right.
unfoldable pub seed_rights : String → List String → Action SeedAccess (Unit {0})
seed_rights role_key [] = pure tt
seed_rights role_key (key ∷ keys) = do
  found ← gets (λ s. has_permission key s.permissions)
  throw_if (not found) (internal "No Permission found")
  modify λ s. record s { role_permissions = grant role_key key s.role_permissions }
  seed_rights role_key keys

unfoldable pub seed_role_rows : List SeedRole → Action SeedAccess (Unit {0})
seed_role_rows [] = pure tt
seed_role_rows (d ∷ ds) = do
  modify λ s. record s { roles = upsert_role d s.roles }
  seed_rights d.key d.permission_keys
  seed_role_rows ds

unfoldable pub seed_permissions_and_roles : Action SeedAccess (Unit {0})
seed_permissions_and_roles = do
  modify λ s. record s { permissions = upsert_permissions seed_permissions s.permissions }
  seed_role_rows seed_roles
