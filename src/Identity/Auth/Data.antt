-- ===== src/Identity/Auth/Data.antt =====
-- What the operations of apps/api/src/modules/identity/services/auth.service.ts read and write.
use savemycontrollers.Audit.{AuditRow, user_actor, AuditOutcome, record_entry}
use savemycontrollers.Outbox.{OutboxEvent, EncryptedPayload}
use savemycontrollers.Identity.Sessions.{Hash, Session, RequestContext}
use savemycontrollers.Identity.Tokens.{UseToken}
use savemycontrollers.Identity.Users.{User, AccountType}
use savemycontrollers.Prelude.{ℕ, String, Uuid, Bool, some, List, ◌*◌, Action, modify}

abbrev pub failed_login_lock_threshold : ℕ
failed_login_lock_threshold = 5

abbrev pub failed_login_lock_duration_ms : ℕ
failed_login_lock_duration_ms = 15 * 60 * 1000

abbrev pub email_verification_ttl_ms : ℕ
email_verification_ttl_ms = 24 * 60 * 60 * 1000

abbrev pub password_reset_ttl_ms : ℕ
password_reset_ttl_ms = 60 * 60 * 1000

abbrev pub Token : Type 0
Token = ℕ

-- What comes from outside: SHA-256 of a token, `toLowerCase`, argon2's check of a password against a
-- hash, `String.length`, AES encryption of a token, and the configured life of a refresh token.
pub record Env : Type 0 where
  pub hash_token : Token → Hash
  pub to_lower : String → String
  pub verify_password : String → String → Bool
  pub utf16_length : String → ℕ
  pub encrypt : Token → EncryptedPayload
  pub refresh_token_ttl_ms : ℕ

pub record IdentityStore : Type 0 where
  pub users : List User
  pub sessions : List Session
  pub email_tokens : List UseToken
  pub reset_tokens : List UseToken
  pub outbox : List OutboxEvent
  pub audit_log : List AuditRow

pub record RequestMetadata : Type 0 where
  pub context : RequestContext
  pub correlation_id : Uuid

-- The identifiers and tokens that a call draws.
pub record Drawn : Type 0 where
  pub row_id : Uuid
  pub token_row_id : Uuid
  pub family_id : Uuid
  pub first_event_id : Uuid
  pub second_event_id : Uuid
  pub raw_token : Token

-- The claims of the signed access token.
pub record AccessClaims : Type 0 where
  pub sub : Uuid
  pub account_type : AccountType

abbrev pub audit_user :
    Uuid → RequestMetadata → String → AuditOutcome → Action IdentityStore (Unit {0})
audit_user i meta action outcome = modify λ s. record s {
  audit_log =
      record_entry
        (record {
          actor_user_id = some i;
          actor_type = user_actor;
          ip_address = meta.context.ip_address;
          user_agent = meta.context.user_agent;
          correlation_id = meta.correlation_id;
        })
        action "User" (some i) outcome s.audit_log;
}
