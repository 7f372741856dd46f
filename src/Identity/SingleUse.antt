-- ===== src/Identity/SingleUse.antt =====
-- Tokens that are used once: apps/api/src/modules/identity/repositories/verification-token.repository.ts
-- and the calls of apps/api/src/modules/identity/services/auth.service.ts that consume them.
use savemycontrollers.Errors.{validation}
use savemycontrollers.Identity.Sessions.{Hash, Session, is_live, revoke_all_for_user}
use savemycontrollers.Identity.Tokens.{
  UseToken, consume, consumed, owner_of, create_password_reset, is_usable, with_hash,
}
use mathlib.Core.Option
use savemycontrollers.Identity.Users.{User, update_password_hash}
use savemycontrollers.Identity.Auth.{
  Env, IdentityStore, Token, is_password_acceptable, verify_email, reset_password,
}
use savemycontrollers.Prelude.{
  String, Uuid, Instant, Bool, none, some, List, [], ◌∷◌, ◌≡◌, ◌≢◌, ◌≤◌, ◌<◌, refl, arith, ◌&&◌,
  ◌==◌, ltb, find?, filter, not, true, count_where, update_where, is_some, ok, err, if◌then◌else◌,
  inl, inr, Bool-cases, Option-cases,
}

-- The tokens with a hash that can be used.
abbrev pub usable_with : Instant → Hash → UseToken → Bool
usable_with now h t = with_hash h t && is_usable now t

used_up :
    (now later : Instant) (h : Hash) (tokens : List UseToken)
    → now ≤ later
    → count_where (usable_with later h) (update_where (usable_with now h) (consumed now) tokens) ≡ 0
used_up now later h [] le = refl
used_up now later h (t ∷ tokens) le = ground (arith, used_up now later h tokens)

found_after :
    (now : Instant) (h : Hash) (tokens : List UseToken)
    → count_where (usable_with now h) tokens ≢ 0
    → find? (with_hash h) (update_where (usable_with now h) (consumed now) tokens) ≢ none
found_after now h [] c = absurd (c refl)
found_after now h (t ∷ tokens) c = ground (arith, found_after now h tokens)

-- A token is accepted exactly where one row of its hash is unused and not expired, and once it was
-- presented, whether accepted or not, it is refused at any later instant.
pub consume_twice :
    (now later : Instant) (h : Hash) (tokens : List UseToken)
    → now ≤ later
    → (is_some (consume now h tokens).0 ≡ (count_where (usable_with now h) tokens == 1))
      × ((consume later h (consume now h tokens).1).0 ≡ none)
unfolding consume
consume_twice now later h tokens le =
    (ground (arith, found_after now h tokens), ground (arith, used_up now later h tokens))

-- The marks of the consumed rows do not change whose they are.
owner_of-used :
    (now : Instant) (h : Hash) (tokens : List UseToken)
    → owner_of (find? (with_hash h) (update_where (usable_with now h) (consumed now) tokens))
      ≡ owner_of (find? (with_hash h) tokens)
owner_of-used now h [] = refl
owner_of-used now h (t ∷ tokens) = ground (arith, owner_of-used now h tokens)

unusable :
    (now : Instant) (h : Hash) (tokens : List UseToken)
    → count_where (with_hash h) tokens ≡ 0
    → count_where (usable_with now h) tokens ≡ 0
unusable now h [] none_left = refl
unusable now h (t ∷ tokens) none_left = ground (arith, unusable now h tokens)

only_usable :
    (now : Instant) (h : Hash) (tokens : List UseToken) (t : UseToken)
    → count_where (with_hash h) tokens ≤ 1
    → count_where (usable_with now h) tokens ≢ 0
    → find? (with_hash h) tokens ≡ some t
    → is_usable now t ≡ true
only_usable now h [] t unique some_left found = absurd (some_left refl)
only_usable now h (x ∷ tokens) t unique some_left found =
    ground (arith, unusable now h tokens, only_usable now h tokens t)

-- The row of a token that is accepted: its hash stands in it, and its user is the owner.
consumed_row :
    (now : Instant) (h : Hash) (tokens : List UseToken) (i : Uuid)
    → count_where (with_hash h) tokens ≤ 1
    → (consume now h tokens).0 ≡ some i
    → (t : UseToken) × (find? (with_hash h) tokens ≡ some t)
      × (is_usable now t ≡ true)
      × (t.user_id ≡ i)
unfolding consume
consumed_row now h tokens i unique accepted =
    elim (Bool-cases (count_where (usable_with now h) tokens == 1)) [
      | inr other ↦ absurd (ground arith)
      | inl one ↦ elim (Option-cases (find? (with_hash h) tokens)) [
        | inl missing ↦ absurd (ground (arith, owner_of-used now h tokens))
        | inr (t, found) ↦ (
          t,
          found,
          only_usable now h tokens t unique (ground arith) found,
          ground (arith, owner_of-used now h tokens),
        )
      ]
    ]

unused :
    (now : Instant) (t : UseToken)
    → is_usable now t ≡ true
    → (t.consumed_at ≡ none) × (now < t.expires_at)
unused now t h = (ground (arith, Option-cases t.consumed_at), ground arith)

used_by : Instant → Uuid → UseToken → Bool
used_by now user t = t.user_id == user && is_usable now t

-- From the creation of a reset token on, no other reset token of the user can be used.
pub create_password_reset-usable :
    (now later : Instant) (i user : Uuid) (h : Hash) (expires : Instant) (tokens : List UseToken)
    → now ≤ later
    → count_where
        (λ t. t.user_id == user && is_usable later t)
        (create_password_reset now i user h expires tokens)
      ≡ (if ltb later expires then 1 else 0)
unfolding create_password_reset
create_password_reset-usable now later i user h expires [] le = ground arith
create_password_reset-usable now later i user h expires (t ∷ tokens) le =
    ground (arith, create_password_reset-usable now later i user h expires tokens)

module _ (env : Env) where
  -- A link for the verification of an address that was followed once is refused at any later
  -- instant, and the accounts stay as they are.
  pub verify_email_twice :
      (now later : Instant) (token : Token) (s : IdentityStore)
      → now ≤ later
      → let s' = (verify_email env now token s).1 in
        let (r, s'') = verify_email env later token s' in
        (r ≡ err (validation "Jeton de verification invalide ou expire.")) × (s''.users ≡ s'.users)
  unfolding verify_email
  verify_email_twice now later token s le =
      ground (arith, consume_twice now later (env.hash_token token) s.email_tokens le)

  abbrev pub with_new_hash : String → User → User
  with_new_hash h u = record u { password_hash = h }

  updated_hash :
      (i : Uuid) (h : String) (users : List User)
      → (find? (λ (v : User). v.id == i) (update_password_hash i h users)
          ≡ Option.map (with_new_hash h) (find? (λ (v : User). v.id == i) users))
        × (filter (λ (v : User). not (v.id == i)) (update_password_hash i h users)
            ≡ filter (λ (v : User). not (v.id == i)) users)
  unfolding update_password_hash
  updated_hash i h [] = (refl, refl)
  updated_hash i h (v ∷ users) = ground (arith, updated_hash i h users)

  revoke_all-live :
      (now : Instant) (i : Uuid) (reason : String) (sessions : List Session)
      → count_where
          (λ (s : Session). s.user_id == i && is_live s)
          (revoke_all_for_user now i none reason sessions)
        ≡ 0
  unfolding revoke_all_for_user
  revoke_all-live now i reason [] = refl
  revoke_all-live now i reason (s ∷ sessions) =
      ground (arith, revoke_all-live now i reason sessions)

  -- A reset that succeeds, with at most one row of the token's hash, has found the row of the token,
  -- unused and not expired. The account of that row's user has the new password hash and is else as it
  -- was, every other account is unchanged, none of the user's sessions is live, and the same token is
  -- refused at any later instant.
  pub reset_password-effect :
      (now later : Instant) (token : Token) (password password_hash : String) (s : IdentityStore)
      → now ≤ later
      → count_where (with_hash (env.hash_token token)) s.reset_tokens ≤ 1
      → (reset_password env now token password password_hash s).0 ≡ ok tt
      → let s' = (reset_password env now token password password_hash s).1 in
        (t : UseToken) × (find?
            (λ (r : UseToken). r.token_hash == env.hash_token token)
            s.reset_tokens
          ≡ some t)
        × (t.consumed_at ≡ none)
        × (now < t.expires_at)
        × (find? (λ (v : User). v.id == t.user_id) s'.users
            ≡ Option.map
                (with_new_hash password_hash)
                (find? (λ (v : User). v.id == t.user_id) s.users))
        × (filter (λ (v : User). not (v.id == t.user_id)) s'.users
            ≡ filter (λ (v : User). not (v.id == t.user_id)) s.users)
        × (count_where
              (λ (c : Session). c.user_id == t.user_id && not (is_some c.revoked_at))
              s'.sessions
            ≡ 0)
        × ((consume later (env.hash_token token) s'.reset_tokens).0 ≡ none)
  unfolding reset_password
  reset_password-effect now later token password password_hash s le unique done =
      elim (Bool-cases (is_password_acceptable env password)) [
        | inr short ↦ ground arith
        | inl long ↦ elim (Option-cases (consume now (env.hash_token token) s.reset_tokens).0) [
          | inl refused ↦ ground arith
          | inr (i, owner) ↦
              let (t, found, usable, same) =
                consumed_row now (env.hash_token token) s.reset_tokens i unique owner in
              rw (long, owner, ← same)
                (
                  t,
                  found,
                  (unused now t usable).0,
                  (unused now t usable).1,
                  (updated_hash t.user_id password_hash s.users).0,
                  (updated_hash t.user_id password_hash s.users).1,
                  revoke_all-live now t.user_id "PASSWORD_RESET" s.sessions,
                  (consume_twice now later (env.hash_token token) s.reset_tokens le).1,
                )
        ]
      ]
