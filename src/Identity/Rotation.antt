-- ===== src/Identity/Rotation.antt =====
-- The ways in which the rotation of a refresh token ends, and the live sessions of a family.
use savemycontrollers.Identity.Sessions.{
  Hash, Session, RequestContext, RotationResult, rotated, reuse_detected, not_found, find_session,
  rotate_if_active, is_live, is_live_session, successor, revoked,
}
use savemycontrollers.Prelude.{
  ℕ, Uuid, Instant, none, some, List, [], ◌∷◌, ◌++◌, ◌≡◌, ◌≢◌, arith, ◌&&◌, ◌==◌, filter, not,
  update_where, count_where,
}

-- The live sessions of a family.
abbrev pub live_in : Uuid → List Session → ℕ
live_in family sessions = count_where (λ (s : Session). s.family_id == family && is_live s) sessions

-- The sessions with an id.
abbrev pub with_id : Uuid → List Session → ℕ
with_id i sessions = count_where (λ (s : Session). s.id == i) sessions

-- What a rotation creates for a session.
pub record IsSuccessor (new_id : Uuid) (h : Hash) (expires : Instant) (current s : Session)
    : Type 0 where
  pub id : s.id ≡ new_id
  pub user : s.user_id ≡ current.user_id
  pub family : s.family_id ≡ current.family_id
  pub hash : s.refresh_token_hash ≡ h
  pub expiry : s.expires_at ≡ expires
  pub live : s.revoked_at ≡ none

-- The ways in which a rotation ends, with the table before and after it.
abbrev pub IsRotation :
    Uuid → Uuid → Hash → Instant → List Session → List Session → RotationResult → Type 0
IsRotation new_id i h expires sessions after not_found =
    (find_session i sessions ≡ none) × (after ≡ sessions)
IsRotation new_id i h expires sessions after reuse_detected =
    ((current : Session) × (find_session i sessions ≡ some current))
    × (count_where (is_live_session i) sessions ≡ 0)
    × (after ≡ sessions)
IsRotation new_id i h expires sessions after (rotated s) =
    (current : Session) × (find_session i sessions ≡ some current)
    × (count_where (is_live_session i) sessions ≢ 0)
    × IsSuccessor new_id h expires current s
    × (count_where (is_live_session i) after ≡ 0)
    × (filter (λ (r : Session). not (r.id == i)) after
        ≡ filter (λ (r : Session). not (r.id == i)) sessions ++ s ∷ [])
    × ((family : Uuid) → live_in family after ≡ live_in family sessions)

-- The table after a rotation that succeeds.
abbrev rotated_table :
    Uuid → Instant → Uuid → Hash → Instant → RequestContext → Session → List Session → List Session
rotated_table new_id now i h expires context current sessions =
    update_where (λ (s : Session). s.id == i)
      (λ s. record s { replaced_by_session_id = some new_id })
      (update_where (is_live_session i) (revoked now "ROTATED") sessions
        ++ successor new_id now h expires context current ∷ [])

module _ (new_id : Uuid) (now : Instant) (i : Uuid) (h : Hash) (expires : Instant)
    (context : RequestContext) (sessions : List Session) where
  pub rotate_reused :
      (current : Session)
      → find_session i sessions ≡ some current
      → count_where (is_live_session i) sessions ≡ 0
      → rotate_if_active new_id now i h expires context sessions ≡ (reuse_detected, sessions)
  unfolding rotate_if_active
  rotate_reused current found dead = ground arith
