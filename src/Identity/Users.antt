-- ===== src/Identity/Users.antt =====
-- apps/api/src/modules/identity/repositories/user.repository.ts: the table of the accounts.
use text.Mathlib.Text.{◌==◌ as str_eq}
use savemycontrollers.Prelude.{
  ℕ, String, Uuid, Instant, Bool, Option, none, some, List, ◌+◌, ◌==◌, leb, find?, update_where,
  if◌then◌else◌,
}

pub data AccountType : Type 0 where
  individual company_member staff : AccountType

pub record User : Type 0 where
  pub id : Uuid
  pub email : String
  pub password_hash : String
  pub first_name : String
  pub last_name : String
  pub account_type : AccountType
  pub is_active : Bool
  pub email_verified_at : Option Instant
  pub failed_login_attempts : ℕ
  pub locked_until : Option Instant

-- `findUnique({ where: { email } })`, on the address in lower case.
abbrev pub find_by_email : String → List User → Option User
find_by_email lower_email users = find? (λ (u : User). str_eq u.email lower_email) users

abbrev pub find_user : Uuid → List User → Option User
find_user i users = find? (λ (u : User). u.id == i) users

abbrev pub update_user : Uuid → (User → User) → List User → List User
update_user i f users = update_where (λ (u : User). u.id == i) f users

unfoldable pub mark_email_verified : Instant → Uuid → List User → List User
mark_email_verified now i = update_user i λ u. record u { email_verified_at = some now }

unfoldable pub update_password_hash : Uuid → String → List User → List User
update_password_hash i h = update_user i λ u. record u { password_hash = h }

-- The attempts one higher, and the lock set where they reach the threshold.
abbrev pub with_failure : Instant → ℕ → ℕ → User → User
with_failure now threshold duration_ms u = record u {
  failed_login_attempts = u.failed_login_attempts + 1;
  locked_until =
      if leb threshold (u.failed_login_attempts + 1)
      then some (now + duration_ms)
      else u.locked_until;
}

unfoldable pub register_failed_login : Instant → Uuid → ℕ → ℕ → List User → List User
register_failed_login now i threshold duration_ms =
    update_user i (with_failure now threshold duration_ms)

unfoldable pub reset_failed_logins : Uuid → List User → List User
reset_failed_logins i =
    update_user i λ u. record u { failed_login_attempts = 0; locked_until = none }
