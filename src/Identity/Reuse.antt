-- ===== src/Identity/Reuse.antt =====
-- A refresh token that is presented again: apps/api/src/modules/identity/services/auth.service.ts.
use savemycontrollers.Errors.{forbidden}
use savemycontrollers.Identity.Sessions.{
  Session, find_session, find_any_by_hash, revoke_family, is_live_session,
}
use savemycontrollers.Identity.Rotation.{live_in, rotate_reused}
use savemycontrollers.Identity.Auth.{Env, Drawn, Token, RequestMetadata, IdentityStore, refresh}
use savemycontrollers.Prelude.{
  ℕ, String, Uuid, Instant, none, some, List, [], ◌∷◌, ◌≡◌, ◌≢◌, ◌≤◌, ◌+◌, refl, arith, err, inl,
  inr, count_where, Option-cases,
}

revoke_family-live_in :
    (now : Instant) (family : Uuid) (reason : String) (sessions : List Session)
    → live_in family (revoke_family now family reason sessions) ≡ 0
unfolding revoke_family
revoke_family-live_in now family reason [] = refl
revoke_family-live_in now family reason (s ∷ sessions) =
    ground (arith, revoke_family-live_in now family reason sessions)

-- The session that a hash finds is found by its id too.
found_by_id :
    (h : ℕ) (sessions : List Session) (s : Session)
    → find_any_by_hash h sessions ≡ some s
    → find_session s.id sessions ≢ none
unfolding find_any_by_hash
found_by_id h [] s f = cc
found_by_id h (r ∷ sessions) s f = ground (arith, found_by_id h sessions s)

reuse_result :
    (env : Env) (drawn : Drawn) (now : Instant) (token : Token) (meta : RequestMetadata)
    (s : IdentityStore) (existing : Session)
    → find_any_by_hash (env.hash_token token) s.sessions ≡ some existing
    → now ≤ existing.expires_at
    → count_where (is_live_session existing.id) s.sessions ≡ 0
    → (current : Session) → find_session existing.id s.sessions ≡ some current
    → ((refresh env drawn now token meta s).0
        ≡ err (
            forbidden
              "Reutilisation d'un jeton de rafraichissement detectee : toutes les sessions ont ete revoquees."))
      × ((refresh env drawn now token meta s).1.sessions
          ≡ revoke_family now existing.family_id "REUSE_DETECTED" s.sessions)
unfolding refresh
reuse_result env drawn now token meta s existing found fresh dead current by_id = ground (
  arith,
  rotate_reused drawn.row_id now existing.id (env.hash_token drawn.raw_token)
      (now + env.refresh_token_ttl_ms) meta.context s.sessions current by_id dead,
)

-- A token whose session is already revoked but not yet expired: the call fails, and afterwards no
-- session of its family is live, the thief's as little as the owner's.
pub refresh-reuse :
    (env : Env) (drawn : Drawn) (now : Instant) (token : Token) (meta : RequestMetadata)
    (s : IdentityStore) (existing : Session)
    → find_any_by_hash (env.hash_token token) s.sessions ≡ some existing
    → now ≤ existing.expires_at
    → count_where (is_live_session existing.id) s.sessions ≡ 0
    → let (r, s') = refresh env drawn now token meta s in
      (r
        ≡ err (
            forbidden
              "Reutilisation d'un jeton de rafraichissement detectee : toutes les sessions ont ete revoquees."))
      × (live_in existing.family_id s'.sessions ≡ 0)
refresh-reuse env drawn now token meta s existing found fresh dead =
    elim (Option-cases (find_session existing.id s.sessions)) [
      | inl missing ↦ absurd (found_by_id (env.hash_token token) s.sessions existing found missing)
      | inr (current, by_id) ↦
          let (e, t) =
            reuse_result env drawn now token meta s existing found fresh dead current by_id in
          (e, rw t (revoke_family-live_in now existing.family_id "REUSE_DETECTED" s.sessions))
    ]
