-- ===== src/Identity/Auth/Registration.antt =====
-- `register` and `verifyEmail` of apps/api/src/modules/identity/services/auth.service.ts, and the
-- password policy of password.service.ts.
use savemycontrollers.Errors.{conflict, validation}
use savemycontrollers.Audit.{success}
use savemycontrollers.Outbox.{
  user_registered, email_verification_requested, user, user_payload, verification_payload,
  append_event,
}
use savemycontrollers.Identity.Tokens.{consume, create_email_verification}
use savemycontrollers.Identity.Users.{User, individual, find_by_email, mark_email_verified}
use savemycontrollers.Prelude.{
  String, Uuid, Instant, Bool, true, false, none, some, [], ◌∷◌, ◌++◌, ◌+◌, ◌&&◌, not, leb, is_some,
  ok, err, Action, pure, gets, modify, throw_if, transaction, ◌>>=◌, ◌>>◌,
}
use savemycontrollers.Identity.Auth.Data.{
  Token, Env, IdentityStore, RequestMetadata, Drawn, audit_user, email_verification_ttl_ms,
}

module _ (env : Env) where
  -- `isPasswordAcceptable`
  unfoldable pub is_password_acceptable : String → Bool
  is_password_acceptable password =
      leb 12 (env.utf16_length password) && leb (env.utf16_length password) 128

  abbrev new_user : Uuid → String → String → String → String → User
  new_user i email password_hash first_name last_name = record {
    id = i;
    email = env.to_lower email;
    password_hash = password_hash;
    first_name = first_name;
    last_name = last_name;
    account_type = individual;
    is_active = true;
    email_verified_at = none;
    failed_login_attempts = 0;
    locked_until = none;
  }

  -- The transaction of `register`: the account, its token and two events.
  abbrev create_account : Drawn → Instant → User → RequestMetadata → Action IdentityStore (Unit {0})
  create_account drawn now u meta = modify λ s. record s {
    users = s.users ++ u ∷ [];
    email_tokens =
        create_email_verification drawn.token_row_id u.id (env.hash_token drawn.raw_token)
          (now + email_verification_ttl_ms) s.email_tokens;
    outbox =
        append_event drawn.second_event_id now
          (record {
            event_type = email_verification_requested;
            aggregate_type = user;
            aggregate_id = u.id;
            payload = verification_payload u.email (some (env.encrypt drawn.raw_token));
            correlation_id = meta.correlation_id;
          })
          true
          (append_event drawn.first_event_id now
            (record {
              event_type = user_registered;
              aggregate_type = user;
              aggregate_id = u.id;
              payload = user_payload u.email u.first_name;
              correlation_id = meta.correlation_id;
            })
            false s.outbox);
  }

  -- `password_hash` is argon2's hash of the password.
  unfoldable pub register :
      Drawn
      → Instant
      → String
      → String
      → String
      → String
      → String
      → RequestMetadata
      → Action IdentityStore (Uuid × Token)
  register drawn now email password password_hash first_name last_name meta = do
    throw_if (not (is_password_acceptable password))
        (validation "Le mot de passe ne respecte pas la politique de securite.")
    existing ← gets (λ s. find_by_email (env.to_lower email) s.users)
    throw_if (is_some existing) (conflict "Impossible de creer ce compte.")
    let u = new_user drawn.row_id email password_hash first_name last_name
    transaction (create_account drawn now u meta)
    audit_user u.id meta "user.registered" success
    pure (u.id, drawn.raw_token)

  unfoldable pub verify_email : Instant → Token → Action IdentityStore (Unit {0})
  verify_email now raw_token s =
      let (owner, tokens) = consume now (env.hash_token raw_token) s.email_tokens in
      elim owner [
        | none ↦ (
          err (validation "Jeton de verification invalide ou expire."),
          record s { email_tokens = tokens },
        )
        | some i ↦
            (ok tt, record s { email_tokens = tokens; users = mark_email_verified now i s.users })
      ]
