-- ===== src/Identity/Listings.antt =====
-- `listSessions` of apps/api/src/modules/identity/services/auth.service.ts.
use savemycontrollers.Identity.Sessions.{Session, Hash, list_active_for_user}
use savemycontrollers.Prelude.{
  String, Uuid, Instant, Bool, Option, none, some, false, List, ◌==◌, map,
}

-- A session as its owner sees it: never its hash nor its family.
pub record SessionDto : Type 0 where
  pub id : Uuid
  pub created_at : Instant
  pub last_used_at : Instant
  pub user_agent : Option String
  pub ip_address : Option String
  pub current : Bool

-- `s.refreshTokenHash === currentSessionHash`
abbrev is_current : Option Hash → Session → Bool
is_current none s = false
is_current (some h) s = s.refresh_token_hash == h

abbrev session_dto : Option Hash → Session → SessionDto
session_dto current_session_hash s = record {
  id = s.id;
  created_at = s.created_at;
  last_used_at = s.last_used_at;
  user_agent = s.user_agent;
  ip_address = s.ip_address;
  current = is_current current_session_hash s;
}

unfoldable pub list_sessions : Instant → Uuid → Option Hash → List Session → List SessionDto
list_sessions now user current_session_hash sessions =
    map (session_dto current_session_hash) (list_active_for_user now user sessions)
