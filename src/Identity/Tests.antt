-- ===== src/Identity/Tests.antt =====
-- The accounts and sessions run on small tables, and their theorems at concrete inputs.
use text.Mathlib.Text.{◌==◌ as str_eq}
use mathlib.Core.Option
use savemycontrollers.Errors.{validation, forbidden}
use savemycontrollers.Identity.Sessions.{Session, RequestContext, find_any_by_hash}
use savemycontrollers.Identity.Tokens.{
  UseToken, new_token, is_usable, consume, create_password_reset,
}
use savemycontrollers.Identity.Users.{User, individual}
use savemycontrollers.Identity.Auth.{
  Env, Drawn, IdentityStore, RequestMetadata, is_password_acceptable, login, refresh, verify_email,
  reset_password,
}
use savemycontrollers.Identity.Rotation.{live_in}
use savemycontrollers.Identity.Reuse.{refresh-reuse}
use savemycontrollers.Identity.SingleUse.{
  usable_with, consume_twice, create_password_reset-usable, verify_email_twice, with_new_hash,
  reset_password-effect,
}
use savemycontrollers.Identity.Lockout.{tries, login_after_threshold}
use savemycontrollers.Prelude.{
  true, none, some, List, [], ◌∷◌, err, ◌≡◌, ◌<◌, ◌+◌, refl, arith, ◌&&◌, ◌==◌, ltb, count_where,
  find?, filter, not, is_some, if◌then◌else◌,
}

abbrev env : Env
env = record {
  hash_token = λ t. t + 1000;
  to_lower = λ e. e;
  verify_password = λ h p. str_eq h p;
  utf16_length = λ p. 12;
  encrypt = λ t. t;
  refresh_token_ttl_ms = 1000000;
}

abbrev context : RequestContext
context = record { user_agent = none; ip_address = none }

abbrev meta : RequestMetadata
meta = record { context = context; correlation_id = 9 }

abbrev drawn : Drawn
drawn = record {
  row_id = 50;
  token_row_id = 51;
  family_id = 52;
  first_event_id = 53;
  second_event_id = 54;
  raw_token = 55;
}

abbrev account : User
account = record {
  id = 7;
  email = "a@b.fr";
  password_hash = "right";
  first_name = "A";
  last_name = "B";
  account_type = individual;
  is_active = true;
  email_verified_at = none;
  failed_login_attempts = 3;
  locked_until = none;
}

-- Session 1 was rotated into session 2, of the same family.
abbrev rotated_session : Session
rotated_session = record {
  id = 1;
  user_id = 7;
  family_id = 30;
  refresh_token_hash = 1005;
  created_at = 10;
  last_used_at = 10;
  expires_at = 900;
  revoked_at = some 20;
  revoked_reason = some "ROTATED";
  replaced_by_session_id = some 2;
  user_agent = none;
  ip_address = none;
}

abbrev live_session : Session
live_session = record rotated_session {
  id = 2;
  refresh_token_hash = 1006;
  revoked_at = none;
  revoked_reason = none;
  replaced_by_session_id = none;
}

abbrev sessions : List Session
sessions = rotated_session ∷ live_session ∷ []

abbrev use_token : UseToken
use_token = new_token 40 7 1005 900

abbrev store : IdentityStore
store = record {
  users = account ∷ [];
  sessions = sessions;
  email_tokens = use_token ∷ [];
  reset_tokens = use_token ∷ [];
  outbox = [];
  audit_log = [];
}

refresh-reuse_example :
    let (r, s') = refresh env drawn 100 5 meta store in
    (r
      ≡ err (
          forbidden
            "Reutilisation d'un jeton de rafraichissement detectee : toutes les sessions ont ete revoquees."))
    × (live_in 30 s'.sessions ≡ 0)
unfolding find_any_by_hash
refresh-reuse_example =
    refresh-reuse env drawn 100 5 meta store rotated_session refl (omega arith) refl

consume_twice_run :
    (is_some (consume 100 1005 (use_token ∷ [])).0
      ≡ (count_where (usable_with 100 1005) (use_token ∷ []) == 1))
    × ((consume 200 1005 (consume 100 1005 (use_token ∷ [])).1).0 ≡ none)
consume_twice_run = consume_twice 100 200 1005 (use_token ∷ []) (omega arith)

create_password_reset-usable_run :
    count_where
      (λ t. t.user_id == 7 && is_usable 200 t)
      (create_password_reset 100 41 7 1008 900 (use_token ∷ []))
    ≡ (if ltb 200 900 then 1 else 0)
create_password_reset-usable_run =
    create_password_reset-usable 100 200 41 7 1008 900 (use_token ∷ []) (omega arith)

verify_email_twice_run :
    let s' = (verify_email env 100 5 store).1 in
    let (r, s'') = verify_email env 200 5 s' in
    (r ≡ err (validation "Jeton de verification invalide ou expire.")) × (s''.users ≡ s'.users)
verify_email_twice_run = verify_email_twice env 100 200 5 store (omega arith)

reset_password-effect_example :
    let s' = (reset_password env 100 5 "twelve chars" "hash" store).1 in
    (t : UseToken) × (find? (λ (r : UseToken). r.token_hash == 1005) store.reset_tokens ≡ some t)
    × (t.consumed_at ≡ none)
    × (100 < t.expires_at)
    × (find? (λ (v : User). v.id == t.user_id) s'.users
        ≡ Option.map
            (with_new_hash env "hash")
            (find? (λ (v : User). v.id == t.user_id) store.users))
    × (filter (λ (v : User). not (v.id == t.user_id)) s'.users
        ≡ filter (λ (v : User). not (v.id == t.user_id)) store.users)
    × (count_where
          (λ (c : Session). c.user_id == t.user_id && not (is_some c.revoked_at))
          s'.sessions
        ≡ 0)
    × ((consume 200 1005 s'.reset_tokens).0 ≡ none)
unfolding reset_password is_password_acceptable consume
reset_password-effect_example =
    reset_password-effect env 100 200 5 "twelve chars" "hash" store (omega arith) (omega arith) refl

-- A fourth and a fifth wrong password lock the account.
login_after_threshold_example :
    let s' =
      (login env drawn 200 "a@b.fr" "wrong" meta
        (tries env drawn "a@b.fr" meta ((100, "wrong") ∷ []) store)).1 in
    login env drawn 300 "a@b.fr" "right" meta s' ≡ (
      err (forbidden "Compte temporairement verrouille suite a plusieurs echecs de connexion."),
      s',
    )
login_after_threshold_example =
    login_after_threshold env drawn "a@b.fr" meta ((100, "wrong") ∷ []) 200 300 "wrong" "right"
      store account refl refl refl (refl, tt) refl (omega arith)
