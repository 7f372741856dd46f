-- ===== src/Repairs/Data.antt =====
-- The tables of the repair cases: prisma/schema.prisma and apps/api/src/modules/repairs/repositories.
use text.Mathlib.Text.{◌==◌ as str_eq}
use savemycontrollers.Audit.{AuditRow}
use savemycontrollers.Authorization.{AccessTables}
use savemycontrollers.Identity.Sessions.{Hash}
use savemycontrollers.Identity.Users.{User}
use savemycontrollers.Outbox.{OutboxEvent}
use savemycontrollers.References.{ReferenceCounter}
use savemycontrollers.Prelude.{
  ℕ, String, Uuid, Instant, Bool, Option, List, ◌&&◌, ◌==◌, not, is_some, any, find?,
}

pub record RepairCase : Type 0 where
  pub id : Uuid
  pub reference : ℕ × ℕ
  pub qr_token_hash : Hash
  pub qr_token_revoked_at : Option Instant
  pub client_id : Option Uuid
  pub company_id : Option Uuid
  pub order_id : Uuid
  pub order_item_id : Uuid
  pub device_model_id : Uuid
  pub device_variant_id : Uuid
  pub hardware_revision_id : Option Uuid
  pub reported_issue : Option String
  pub assigned_technician_id : Option Uuid
  pub status_key : String
  pub lock_version : ℕ

pub record StatusHistory : Type 0 where
  pub repair_case_id : Uuid
  pub status_key : String
  pub changed_at : Instant
  pub changed_by_user_id : Option Uuid
  pub comment : Option String

pub data NoteVisibility : Type 0 where
  internal client : NoteVisibility

pub record RepairNote : Type 0 where
  pub repair_case_id : Uuid
  pub author_user_id : Option Uuid
  pub visibility : NoteVisibility
  pub body : String
  pub created_at : Instant

-- A transition that is allowed, from one status to another.
pub record StatusTransition : Type 0 where
  pub from_status_key : String
  pub to_status_key : String

pub record RepairStore : Type 0 where
  pub cases : List RepairCase
  pub history : List StatusHistory
  pub notes : List RepairNote
  pub status_keys : List String
  pub transitions : List StatusTransition
  pub counters : List ReferenceCounter
  pub outbox : List OutboxEvent
  pub audit_log : List AuditRow
  pub users : List User
  pub access : AccessTables

abbrev pub find_case : Uuid → List RepairCase → Option RepairCase
find_case i cases = find? (λ (c : RepairCase). c.id == i) cases

-- `{ qrTokenHash, qrTokenRevokedAt: null }`
unfoldable pub find_by_qr_token_hash : Hash → List RepairCase → Option RepairCase
find_by_qr_token_hash h cases =
    find? (λ (c : RepairCase). c.qr_token_hash == h && not (is_some c.qr_token_revoked_at)) cases

abbrev pub is_status : List String → String → Bool
is_status keys key = any (λ k. str_eq k key) keys

abbrev pub is_transition_allowed : List StatusTransition → String → String → Bool
is_transition_allowed transitions from to =
    any (λ (t : StatusTransition). str_eq t.from_status_key from && str_eq t.to_status_key to)
      transitions
