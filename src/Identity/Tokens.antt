-- ===== src/Identity/Tokens.antt =====
-- apps/api/src/modules/identity/repositories/verification-token.repository.ts: tokens that are used
-- once, for the verification of an address and for a new password. Both tables have this shape.
use savemycontrollers.Prelude.{
  Uuid, Instant, Bool, Option, none, some, List, [], ◌∷◌, ◌++◌, ◌&&◌, ◌==◌, not, ltb, find?,
  update_where, count_where, is_some, if◌then◌else◌,
}
use savemycontrollers.Identity.Sessions.{Hash}

pub record UseToken : Type 0 where
  pub id : Uuid
  pub user_id : Uuid
  pub token_hash : Hash
  pub expires_at : Instant
  pub consumed_at : Option Instant

abbrev pub new_token : Uuid → Uuid → Hash → Instant → UseToken
new_token i user h expires = record {
  id = i;
  user_id = user;
  token_hash = h;
  expires_at = expires;
  consumed_at = none;
}

-- `consumedAt: null, expiresAt: { gt: new Date() }`
abbrev pub is_usable : Instant → UseToken → Bool
is_usable now t = not (is_some t.consumed_at) && ltb now t.expires_at

abbrev pub consumed : Instant → UseToken → UseToken
consumed now t = record t { consumed_at = some now }

abbrev pub with_hash : Hash → UseToken → Bool
with_hash h t = t.token_hash == h

abbrev pub owner_of : Option UseToken → Option Uuid
owner_of none = none
owner_of (some t) = some t.user_id

-- `consumeEmailVerification` and `consumePasswordReset`: the owner, and the table.
unfoldable pub consume : Instant → Hash → List UseToken → Option Uuid × List UseToken
consume now h tokens =
    let used = update_where (λ t. with_hash h t && is_usable now t) (consumed now) tokens in
    if count_where (λ t. with_hash h t && is_usable now t) tokens == 1
    then (owner_of (find? (with_hash h) used), used)
    else (none, used)

unfoldable pub create_email_verification :
    Uuid → Uuid → Hash → Instant → List UseToken → List UseToken
create_email_verification i user h expires tokens = tokens ++ new_token i user h expires ∷ []

-- The tokens of the user that could still be used are consumed first.
unfoldable pub create_password_reset :
    Instant → Uuid → Uuid → Hash → Instant → List UseToken → List UseToken
create_password_reset now i user h expires tokens =
    update_where (λ t. t.user_id == user && is_usable now t) (consumed now) tokens
    ++ new_token i user h expires ∷ []
