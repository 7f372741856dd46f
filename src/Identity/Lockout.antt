-- ===== src/Identity/Lockout.antt =====
-- The lock after repeated wrong passwords: `login` of
-- apps/api/src/modules/identity/services/auth.service.ts.
use savemycontrollers.Errors.{validation, forbidden}
use savemycontrollers.Identity.Users.{User, find_by_email, with_failure, register_failed_login}
use savemycontrollers.Identity.Auth.{
  Env, Drawn, IdentityStore, RequestMetadata, login, is_locked, failed_login_lock_threshold,
  failed_login_lock_duration_ms,
}
use savemycontrollers.Prelude.{
  ℕ, String, Instant, true, false, none, some, List, [], ◌∷◌, ◌≡◌, ◌<◌, ◌+◌, arith, err, length,
  All, ◌∙◌, ap,
}

find_by_email-failure :
    (now : Instant) (threshold duration : ℕ) (lower : String) (u : User) (users : List User)
    → find_by_email lower users ≡ some u
    → find_by_email lower (register_failed_login now u.id threshold duration users)
      ≡ some (with_failure now threshold duration u)
unfolding register_failed_login
find_by_email-failure now threshold duration lower u [] f = cc
find_by_email-failure now threshold duration lower u (v ∷ users) f =
    ground (arith, find_by_email-failure now threshold duration lower u users)

-- A failure below the threshold is only counted.
with_failure_below :
    (now : Instant) (u : User)
    → u.failed_login_attempts + 1 < failed_login_lock_threshold
    → with_failure now failed_login_lock_threshold failed_login_lock_duration_ms u
      ≡ record u { failed_login_attempts = u.failed_login_attempts + 1 }
with_failure_below now u few = ground arith

module _ (env : Env) (drawn : Drawn) (email : String) (meta : RequestMetadata) where
  login_wrong :
      (now : Instant) (password : String) (s : IdentityStore) (u : User)
      → find_by_email (env.to_lower email) s.users ≡ some u
      → is_locked env now u ≡ false
      → env.verify_password u.password_hash password ≡ false
      → ((login env drawn now email password meta s).0 ≡ err (validation "Identifiants invalides."))
        × ((login env drawn now email password meta s).1.users
            ≡ register_failed_login now u.id failed_login_lock_threshold
                failed_login_lock_duration_ms s.users)
  unfolding login
  login_wrong now password s u found unlocked wrong = ground arith

  login_locked :
      (now : Instant) (password : String) (s : IdentityStore) (u : User)
      → find_by_email (env.to_lower email) s.users ≡ some u
      → is_locked env now u ≡ true
      → login env drawn now email password meta s ≡ (
        err (forbidden "Compte temporairement verrouille suite a plusieurs echecs de connexion."),
        s,
      )
  unfolding login
  login_locked now password s u found locked = rw (found, locked)

  -- The store after a list of tries.
  unfoldable pub tries : List (Instant × String) → IdentityStore → IdentityStore
  tries [] s = s
  tries ((now, password) ∷ later) s = tries later (login env drawn now email password meta s).1

  -- A password that is not the account's.
  abbrev pub IsWrong : User → Instant × String → Type 0
  IsWrong u t = env.verify_password u.password_hash t.1 ≡ false

  failed_once :
      (now : Instant) (password : String) (s : IdentityStore) (u : User)
      → find_by_email (env.to_lower email) s.users ≡ some u
      → u.locked_until ≡ none
      → IsWrong u (now, password)
      → find_by_email (env.to_lower email) (login env drawn now email password meta s).1.users
        ≡ some (with_failure now failed_login_lock_threshold failed_login_lock_duration_ms u)
  failed_once now password s u found unlocked wrong =
      rw ((login_wrong now password s u found (ground arith) wrong).1) (
        find_by_email-failure now failed_login_lock_threshold failed_login_lock_duration_ms
          (env.to_lower email) u s.users found)

  tries_counted :
      (ts : List (Instant × String)) (s : IdentityStore) (u : User)
      → find_by_email (env.to_lower email) s.users ≡ some u
      → u.locked_until ≡ none
      → u.failed_login_attempts + length ts < failed_login_lock_threshold
      → All (IsWrong u) ts
      → find_by_email (env.to_lower email) (tries ts s).users
        ≡ some (record u { failed_login_attempts = u.failed_login_attempts + length ts })
  unfolding tries
  tries_counted [] s u found unlocked few wrong =
      found ∙ ap (λ n. some (record u { failed_login_attempts = n })) (omega arith)
  tries_counted ((now, password) ∷ ts) s u found unlocked few (w, wrong) =
      tries_counted ts _ (record u { failed_login_attempts = u.failed_login_attempts + 1 })
        (failed_once now password s u found unlocked w
          ∙ ap some (with_failure_below now u (omega arith)))
        unlocked (omega arith) wrong
      ∙ ap (λ n. some (record u { failed_login_attempts = n })) (omega arith)

  -- An account that is not locked, tried with wrong passwords until the threshold of failures is
  -- reached: for 15 minutes from the last of them every login is refused, the right password too,
  -- and changes nothing.
  pub login_after_threshold :
      (ts : List (Instant × String)) (now later : Instant) (password any_password : String)
      (s : IdentityStore) (u : User)
      → find_by_email (env.to_lower email) s.users ≡ some u
      → u.locked_until ≡ none
      → u.failed_login_attempts + length ts + 1 ≡ failed_login_lock_threshold
      → All (IsWrong u) ts
      → IsWrong u (now, password)
      → later < now + failed_login_lock_duration_ms
      → let s' = (login env drawn now email password meta (tries ts s)).1 in
        login env drawn later email any_password meta s' ≡ (
          err (forbidden "Compte temporairement verrouille suite a plusieurs echecs de connexion."),
          s',
        )
  login_after_threshold ts now later password any_password s u found unlocked full wrong last soon =
      login_locked later any_password _ _
        (failed_once now password (tries ts s)
          (record u { failed_login_attempts = u.failed_login_attempts + length ts })
          (tries_counted ts s u found unlocked (omega arith) wrong) unlocked last)
        (ground arith)
