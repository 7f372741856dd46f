-- ===== src/Identity/Sessions.antt =====
-- apps/api/src/modules/identity/repositories/session.repository.ts: the table of the refresh tokens.
use savemycontrollers.Prelude.{
  ℕ, String, Uuid, Instant, Bool, true, Option, none, some, List, [], ◌∷◌, ◌++◌, ◌&&◌, ◌==◌, not,
  ltb, filter, find?, update_where, count_where, is_some, or_else, if◌then◌else◌,
}

-- A hash stands for the hex digest of a token, and is compared by equality only.
abbrev pub Hash : Type 0
Hash = ℕ

pub record Session : Type 0 where
  pub id : Uuid
  pub user_id : Uuid
  pub family_id : Uuid
  pub refresh_token_hash : Hash
  pub created_at : Instant
  pub last_used_at : Instant
  pub expires_at : Instant
  pub revoked_at : Option Instant
  pub revoked_reason : Option String
  pub replaced_by_session_id : Option Uuid
  pub user_agent : Option String
  pub ip_address : Option String

-- The request's address and agent.
pub record RequestContext : Type 0 where
  pub user_agent : Option String
  pub ip_address : Option String

pub record NewSession : Type 0 where
  pub user_id : Uuid
  pub family_id : Option Uuid
  pub refresh_token_hash : Hash
  pub expires_at : Instant
  pub context : RequestContext

-- The row that the database creates; `random_family` is the `randomUUID()` of `create`.
abbrev pub session_row : Uuid → Uuid → Instant → NewSession → Session
session_row i random_family now d = record {
  id = i;
  user_id = d.user_id;
  family_id = or_else d.family_id random_family;
  refresh_token_hash = d.refresh_token_hash;
  created_at = now;
  last_used_at = now;
  expires_at = d.expires_at;
  revoked_at = none;
  revoked_reason = none;
  replaced_by_session_id = none;
  user_agent = d.context.user_agent;
  ip_address = d.context.ip_address;
}

-- `revokedAt: null`
abbrev pub is_live : Session → Bool
is_live s = not (is_some s.revoked_at)

-- `expiresAt: { gt: new Date() }`
abbrev pub is_unexpired : Instant → Session → Bool
is_unexpired now s = ltb now s.expires_at

abbrev pub revoked : Instant → String → Session → Session
revoked now reason s = record s { revoked_at = some now; revoked_reason = some reason }

unfoldable pub find_active_by_hash : Instant → Hash → List Session → Option Session
find_active_by_hash now h sessions =
    find? (λ (s : Session). s.refresh_token_hash == h && (is_live s && is_unexpired now s)) sessions

unfoldable pub find_any_by_hash : Hash → List Session → Option Session
find_any_by_hash h sessions = find? (λ (s : Session). s.refresh_token_hash == h) sessions

abbrev pub find_session : Uuid → List Session → Option Session
find_session i sessions = find? (λ (s : Session). s.id == i) sessions

pub data RotationResult : Type 0 where
  rotated : Session → RotationResult
  reuse_detected not_found : RotationResult

-- `{ id, revokedAt: null }`
abbrev pub is_live_session : Uuid → Session → Bool
is_live_session i s = s.id == i && is_live s

abbrev replaced_by : Uuid → Session → Session
replaced_by i s = record s { replaced_by_session_id = some i }

-- The new session of the rotation: the user and the family of the one that it replaces.
abbrev pub successor : Uuid → Instant → Hash → Instant → RequestContext → Session → Session
successor new_id now new_hash new_expires_at context current =
    session_row new_id current.family_id now (record {
      user_id = current.user_id;
      family_id = some current.family_id;
      refresh_token_hash = new_hash;
      expires_at = new_expires_at;
      context = context;
    })

-- One transaction: the session is revoked where it is still live, and its successor created.
unfoldable pub rotate_if_active :
    Uuid
    → Instant
    → Uuid
    → Hash
    → Instant
    → RequestContext
    → List Session
    → RotationResult × List Session
rotate_if_active new_id now session_id new_hash new_expires_at context sessions =
    elim (find_session session_id sessions) [
      | none ↦ (not_found, sessions)
      | some current ↦
          if count_where (is_live_session session_id) sessions == 0
          then (reuse_detected, sessions)
          else let created = successor new_id now new_hash new_expires_at context current in
            (
              rotated created,
              update_where (λ s. s.id == session_id) (replaced_by new_id)
                  (update_where (is_live_session session_id) (revoked now "ROTATED") sessions
                    ++ created ∷ []),
            )
    ]

unfoldable pub revoke_family : Instant → Uuid → String → List Session → List Session
revoke_family now family reason sessions =
    update_where (λ s. s.family_id == family && is_live s) (revoked now reason) sessions

-- `update({ where: { id } })`: also a session that is already revoked.
unfoldable pub revoke : Instant → Uuid → String → List Session → List Session
revoke now i reason sessions = update_where (λ s. s.id == i) (revoked now reason) sessions

abbrev spares : Option Uuid → Session → Bool
spares except s = elim except [ none ↦ true | some i ↦ not (s.id == i) ]

unfoldable pub revoke_all_for_user :
    Instant → Uuid → Option Uuid → String → List Session → List Session
revoke_all_for_user now user except reason sessions =
    update_where (λ s. s.user_id == user && (is_live s && spares except s)) (revoked now reason)
      sessions

unfoldable pub touch_last_used : Instant → Uuid → List Session → List Session
touch_last_used now i sessions =
    update_where (λ s. s.id == i) (λ s. record s { last_used_at = now }) sessions

-- `orderBy: { lastUsedAt: "desc" }`
unfoldable pub insert_by_use : Session → List Session → List Session
insert_by_use s [] = s ∷ []
insert_by_use s (r ∷ rs) =
    if ltb s.last_used_at r.last_used_at then r ∷ insert_by_use s rs else s ∷ r ∷ rs

unfoldable pub by_last_use : List Session → List Session
by_last_use [] = []
by_last_use (s ∷ ss) = insert_by_use s (by_last_use ss)

unfoldable pub list_active_for_user : Instant → Uuid → List Session → List Session
list_active_for_user now user sessions =
    by_last_use (filter (λ s. s.user_id == user && (is_live s && is_unexpired now s)) sessions)
