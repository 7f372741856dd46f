-- ===== src/Identity/SignedTokens.antt =====
-- The tokens of apps/api/src/modules/identity/services/token.service.ts at the guard of
-- apps/api/src/modules/identity/guards/jwt-auth.guard.ts.
use text.Mathlib.Text.{◌==◌ as str_eq}
use text.Mathlib.TextEquality.{eq_iff}
use savemycontrollers.Http.Exceptions.{returned, thrown}
use savemycontrollers.Identity.AccessTokens.{
  AccountTypeClaim, individual, company_member, staff, claim_name, valid_account_type,
  AccessTokenClaims, Payload, TokenConfig, Jwt, plain_text, object, sign_access_token, claims_of,
  verify_access_token, CurrentUser, unauthorized, jwt_can_activate,
}
use savemycontrollers.Prelude.{
  String, Instant, false, Option, none, some, ok, ◌+◌, ◌<◌, ◌/◌, ◌≡◌, ◌⊎◌, inl, inr, refl, arith,
  Bool-cases, Option-cases, Result-cases,
}

-- The documented behaviour of jsonwebtoken for a payload: the token verifies with the options that
-- it was signed with until its expiry, counted in seconds, and it is not the empty text.
pub record JwtLaws (jwt : Jwt) (config : TokenConfig) (p : Payload) : Type 0 where
  pub verify-sign :
      (now later : Instant)
      → later / 1000 < now / 1000 + config.access_token_ttl_seconds
      → jwt.verify config later (jwt.sign config now p) ≡ some (object p)
  pub not_empty : (now : Instant) → str_eq (jwt.sign config now p) "" ≡ false

valid_account_type-claim_name : (a : AccountTypeClaim) → valid_account_type (claim_name a) ≡ some a
valid_account_type-claim_name individual = refl
valid_account_type-claim_name company_member = refl
valid_account_type-claim_name staff = refl

valid_account_type_sound :
    (t : String) (a : AccountTypeClaim) → valid_account_type t ≡ some a → t ≡ claim_name a
valid_account_type_sound t a h = elim (Bool-cases (str_eq t "INDIVIDUAL")) [
  | inl e ↦ ground (arith, (eq_iff t "INDIVIDUAL").0)
  | inr e ↦ elim (Bool-cases (str_eq t "COMPANY_MEMBER")) [
    | inl e' ↦ ground (arith, (eq_iff t "COMPANY_MEMBER").0)
    | inr e' ↦ ground (arith, (eq_iff t "STAFF").0)
  ]
]

abbrev pub signed_payload : String → AccountTypeClaim → String → Payload
signed_payload sub account_type random_uuid = record {
  sub = some sub;
  account_type = some (claim_name account_type);
  jti = some random_uuid;
}

-- A token that was signed for an account is accepted by the guard until its life in seconds is
-- over, and the request gets the identifier and the account type that were signed.
pub guard-sign :
    (jwt : Jwt) (config : TokenConfig) (now later : Instant) (random_uuid sub : String)
    (account_type : AccountTypeClaim)
    → JwtLaws jwt config (signed_payload sub account_type random_uuid)
    → str_eq sub "" ≡ false
    → str_eq random_uuid "" ≡ false
    → later / 1000 < now / 1000 + config.access_token_ttl_seconds
    → jwt_can_activate jwt config later
        (some (sign_access_token jwt config now random_uuid sub account_type))
      ≡ returned (record { id = sub; account_type = account_type })
unfolding jwt_can_activate verify_access_token claims_of sign_access_token
guard-sign jwt config now later random_uuid sub account_type laws named drawn alive =
    rw
      (
        laws.not_empty now,
        laws.verify-sign now later alive,
        named,
        valid_account_type-claim_name account_type,
        drawn,
      )
      refl

claims_of_sound :
    (jwt : Jwt) (config : TokenConfig) (p : Payload) (c : AccessTokenClaims)
    → claims_of jwt config p ≡ ok c
    → (p.sub ≡ some c.sub)
      × (p.account_type ≡ some (claim_name c.account_type))
      × (str_eq c.sub "" ≡ false)
unfolding claims_of
claims_of_sound jwt config p c h = elim (Option-cases p.sub) [
  | inl missing ↦ ground arith
  | inr (sub, e) ↦ elim (Option-cases p.account_type) [
    | inl missing ↦ ground arith
    | inr (a, f) ↦ elim (Option-cases (valid_account_type a)) [
      | inl other ↦ ground arith
      | inr (claim, g) ↦ elim (Option-cases p.jti) [
        | inl missing ↦ ground arith
        | inr (jti, j) ↦ ground (arith, valid_account_type_sound a claim)
      ]
    ]
  ]
]

-- The guard ends in one of two ways on any cookie: the request is refused with 401, or the cookie is
-- a token that jsonwebtoken verified, and the user of the request is the subject and the account
-- type of its payload, where the subject is not empty.
pub guard-outcome :
    (jwt : Jwt) (config : TokenConfig) (now : Instant) (cookie : Option String)
    → ((m : String) × (jwt_can_activate jwt config now cookie ≡ thrown (unauthorized m)))
      ⊎ ((u : CurrentUser) × (token : String) × (p : Payload) × (jwt_can_activate jwt config now
              cookie
            ≡ returned u)
          × (cookie ≡ some token)
          × (jwt.verify config now token ≡ some (object p))
          × (p.sub ≡ some u.id)
          × (p.account_type ≡ some (claim_name u.account_type))
          × (str_eq u.id "" ≡ false))
unfolding jwt_can_activate verify_access_token
guard-outcome jwt config now none = inl (_, refl)
guard-outcome jwt config now (some token) = elim (Bool-cases (str_eq token "")) [
  | inl empty ↦ inl ("Authentification requise.", rw empty refl)
  | inr text ↦ elim (Option-cases (jwt.verify config now token)) [
    | inl refused ↦ inl ("Session invalide ou expiree.", rw (text, refused) refl)
    | inr (plain_text t, e) ↦ inl ("Session invalide ou expiree.", rw (text, e) refl)
    | inr (object p, e) ↦ elim (Result-cases (claims_of jwt config p)) [
      | inr (d, f) ↦ inl ("Session invalide ou expiree.", rw (text, e, f) refl)
      | inl (c, f) ↦
          let (sub, account_type, not_empty) = claims_of_sound jwt config p c f in
          inr (
            record { id = c.sub; account_type = c.account_type },
            token,
            p,
            rw (text, e, f) refl,
            refl,
            e,
            sub,
            account_type,
            not_empty,
          )
    ]
  ]
]
