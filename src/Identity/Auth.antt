-- ===== src/Identity/Auth.antt =====
-- The sessions and the passwords of apps/api/src/modules/identity/services/auth.service.ts.
mod Data
mod Registration
pub use Data.*
unfoldable pub use Registration.*
use savemycontrollers.Errors.{conflict, forbidden, validation}
use savemycontrollers.Audit.{AuditRow, user_actor, AuditOutcome, success, failure, record_entry}
use savemycontrollers.Outbox.{
  OutboxEvent, EncryptedPayload, user_registered, email_verification_requested, user, user_payload,
  verification_payload, append_event,
}
use savemycontrollers.Identity.Sessions.{
  Hash, Session, RequestContext, RotationResult, rotated, reuse_detected, session_row,
  find_active_by_hash, find_any_by_hash, rotate_if_active, revoke_family, revoke,
  revoke_all_for_user,
}
use savemycontrollers.Identity.Sessions
use savemycontrollers.Identity.Tokens.{
  UseToken, consume, create_email_verification, create_password_reset,
}
use savemycontrollers.Identity.Users.{
  User, AccountType, individual, find_by_email, find_user, mark_email_verified,
  update_password_hash, register_failed_login, reset_failed_logins,
}
use savemycontrollers.Prelude.{
  ℕ, String, Uuid, Instant, Bool, true, false, none, some, List, [], ◌∷◌, ◌++◌, ◌+◌, ◌*◌, ◌&&◌, not,
  leb, ltb, is_some, ok, err, Action, pure, throw, gets, modify, throw_if, or_throw, transaction,
  ◌>>=◌, ◌>>◌, if◌then◌else◌,
}
use Data.{audit_user}

module _ (env : Env) where
  -- `user.lockedUntil && user.lockedUntil > new Date()`
  abbrev pub is_locked : Instant → User → Bool
  is_locked now u = elim u.locked_until [ none ↦ false | some t ↦ ltb now t ]

  pub record LoggedIn : Type 0 where
    pub user_id : Uuid
    pub access : AccessClaims
    pub raw_refresh_token : Token
    pub session_id : Uuid

  abbrev login_failed : Instant → User → RequestMetadata → Action IdentityStore (Unit {0})
  login_failed now u meta = do
    modify λ s. record s {
      users =
          register_failed_login now u.id failed_login_lock_threshold failed_login_lock_duration_ms
            s.users;
    }
    audit_user u.id meta "user.login_failed" failure

  -- A wrong password is counted and journalled before the error.
  abbrev check_password :
      Instant → User → String → RequestMetadata → Action IdentityStore (Unit {0})
  check_password now u password meta s =
      if env.verify_password u.password_hash password
      then (ok tt, s)
      else (login_failed now u meta >> throw (validation "Identifiants invalides.")) s

  unfoldable pub login :
      Drawn → Instant → String → String → RequestMetadata → Action IdentityStore LoggedIn
  login drawn now email password meta = do
    found ← gets (λ s. find_by_email (env.to_lower email) s.users)
    u ← or_throw found (validation "Identifiants invalides.")
    throw_if (is_locked now u)
        (forbidden "Compte temporairement verrouille suite a plusieurs echecs de connexion.")
    check_password now u password meta
    modify λ s. record s {
      users = reset_failed_logins u.id s.users;
      sessions =
          s.sessions
          ++ session_row drawn.row_id drawn.family_id now (record {
            user_id = u.id;
            family_id = none;
            refresh_token_hash = env.hash_token drawn.raw_token;
            expires_at = now + env.refresh_token_ttl_ms;
            context = meta.context;
          })
            ∷ [];
    }
    audit_user u.id meta "user.login_succeeded" success
    pure (record {
      user_id = u.id;
      access = record { sub = u.id; account_type = u.account_type };
      raw_refresh_token = drawn.raw_token;
      session_id = drawn.row_id;
    })

  pub record Refreshed : Type 0 where
    pub access : AccessClaims
    pub raw_refresh_token : Token
    pub session_id : Uuid

  abbrev set_sessions : List Session → IdentityStore → IdentityStore
  set_sessions sessions s = record s { sessions = sessions }

  abbrev meta_of : RequestContext → Uuid → RequestMetadata
  meta_of context correlation = record { context = context; correlation_id = correlation }

  -- After the rotation: a reused token revokes its family, a good one gives a new access token.
  abbrev finish_refresh :
      Drawn → Instant → RequestMetadata → Session → RotationResult → Action IdentityStore Refreshed
  finish_refresh drawn now meta existing Sessions.reuse_detected = do
    modify λ s. set_sessions (revoke_family now existing.family_id "REUSE_DETECTED" s.sessions) s
    audit_user existing.user_id meta "user.refresh_token_reuse_detected" failure
    throw (
        forbidden
          "Reutilisation d'un jeton de rafraichissement detectee : toutes les sessions ont ete revoquees.")
  finish_refresh drawn now meta existing Sessions.not_found =
      throw (forbidden "Session invalide ou expiree.")
  finish_refresh drawn now meta existing (Sessions.rotated created) = do
    found ← gets (λ s. find_user created.user_id s.users)
    u ← or_throw found (forbidden "Compte indisponible.")
    throw_if (not u.is_active) (forbidden "Compte indisponible.")
    pure (record {
      access = record { sub = u.id; account_type = u.account_type };
      raw_refresh_token = drawn.raw_token;
      session_id = created.id;
    })

  abbrev rotate : Drawn → Instant → RequestMetadata → Session → Action IdentityStore RotationResult
  rotate drawn now meta existing s =
      let (result, sessions) =
        rotate_if_active drawn.row_id now existing.id (env.hash_token drawn.raw_token)
          (now + env.refresh_token_ttl_ms) meta.context s.sessions in
      (ok result, set_sessions sessions s)

  unfoldable pub refresh :
      Drawn → Instant → Token → RequestMetadata → Action IdentityStore Refreshed
  refresh drawn now raw_refresh_token meta = do
    found ← gets (λ s. find_any_by_hash (env.hash_token raw_refresh_token) s.sessions)
    existing ← or_throw found (forbidden "Session invalide ou expiree.")
    throw_if (ltb existing.expires_at now) (forbidden "Session expiree.")
    result ← rotate drawn now meta existing
    finish_refresh drawn now meta existing result

  unfoldable pub logout : Instant → Token → IdentityStore → IdentityStore
  logout now raw_refresh_token s =
      elim (find_active_by_hash now (env.hash_token raw_refresh_token) s.sessions) [
        | none ↦ s
        | some session ↦ set_sessions (revoke now session.id "LOGOUT" s.sessions) s
      ]

  unfoldable pub revoke_all_other_sessions : Instant → Uuid → Uuid → IdentityStore → IdentityStore
  revoke_all_other_sessions now user_id current s =
      set_sessions (revoke_all_for_user now user_id (some current) "USER_REVOKED_ALL" s.sessions) s

  -- Nothing tells the caller whether the address is known.
  unfoldable pub request_password_reset : Drawn → Instant → String → IdentityStore → IdentityStore
  request_password_reset drawn now email s = elim (find_by_email (env.to_lower email) s.users) [
    | none ↦ s
    | some u ↦ record s {
      reset_tokens =
          create_password_reset now drawn.row_id u.id (env.hash_token drawn.raw_token)
            (now + password_reset_ttl_ms) s.reset_tokens;
    }
  ]

  unfoldable pub reset_password :
      Instant → Token → String → String → Action IdentityStore (Unit {0})
  reset_password now raw_token password password_hash s =
      if not (is_password_acceptable env password)
      then (err (validation "Le mot de passe ne respecte pas la politique de securite."), s)
      else let (owner, tokens) = consume now (env.hash_token raw_token) s.reset_tokens in
        elim owner [
          | none ↦ (
            err (validation "Jeton de reinitialisation invalide ou expire."),
            record s { reset_tokens = tokens },
          )
          | some i ↦ (
            ok tt,
            record s {
              reset_tokens = tokens;
              users = update_password_hash i password_hash s.users;
              sessions = revoke_all_for_user now i none "PASSWORD_RESET" s.sessions;
            },
          )
        ]
