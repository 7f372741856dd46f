-- ===== src/Identity/AccessTokens.antt =====
-- The access tokens: apps/api/src/modules/identity/services/token.service.ts and
-- apps/api/src/modules/identity/guards/jwt-auth.guard.ts. The library jsonwebtoken is a parameter.
use text.Mathlib.Text.{◌==◌ as str_eq}
use savemycontrollers.Errors.{forbidden}
use savemycontrollers.Http.Exceptions.{Exception, http, Outcome, returned, thrown}
use savemycontrollers.Prelude.{
  ℕ, String, Instant, Option, none, some, Result, ok, err, if◌then◌else◌,
}

pub data AccountTypeClaim : Type 0 where
  individual company_member staff : AccountTypeClaim

abbrev pub claim_name : AccountTypeClaim → String
claim_name individual = "INDIVIDUAL"
claim_name company_member = "COMPANY_MEMBER"
claim_name staff = "STAFF"

-- `VALID_ACCOUNT_TYPES.includes(accountType)`, with the claim that the text is cast to.
abbrev pub valid_account_type : String → Option AccountTypeClaim
valid_account_type t =
    if str_eq t "INDIVIDUAL"
    then some individual
    else if str_eq t "COMPANY_MEMBER"
    then some company_member
    else if str_eq t "STAFF"
    then some staff
    else none

pub record AccessTokenClaims : Type 0 where
  pub sub : String
  pub account_type : AccountTypeClaim
  pub jti : String

-- A member of a decoded payload: a text, or a value of another type (or none at all).
abbrev pub Member : Type 0
Member = Option String

-- `sub`, `accountType` and `jti` of a decoded payload.
pub record Payload : Type 0 where
  pub sub : Member
  pub account_type : Member
  pub jti : Member

-- `jwt.verify` returns a text for a payload that is not an object.
pub data Decoded : Type 0 where
  plain_text : String → Decoded
  object : Payload → Decoded

-- The environment that the constructor of TokenService reads, with its fallbacks.
pub record TokenConfig : Type 0 where
  pub secret : String
  pub access_token_ttl_seconds : ℕ
  pub issuer : String
  pub audience : String

-- What jsonwebtoken does with HS256: `sign` with a payload and an identifier, and `verify`, which
-- throws (none) on a bad signature, another algorithm, issuer or audience, or after the expiry.
pub record Jwt : Type 0 where
  pub sign : TokenConfig → Instant → Payload → String
  pub verify : TokenConfig → Instant → String → Option Decoded

module _ (jwt : Jwt) (config : TokenConfig) where
  unfoldable pub sign_access_token : Instant → String → String → AccountTypeClaim → String
  sign_access_token now random_uuid sub account_type = jwt.sign config now (record {
    sub = some sub;
    account_type = some (claim_name account_type);
    jti = some random_uuid;
  })

  -- `typeof value !== "string" || !value`
  abbrev required : Member → String → Result String
  required none message = err (forbidden message)
  required (some t) message = if str_eq t "" then err (forbidden message) else ok t

  abbrev account_type_of : Member → Result AccountTypeClaim
  account_type_of none = err (forbidden "Jeton invalide (type de compte inconnu).")
  account_type_of (some t) = elim (valid_account_type t) [
    | none ↦ err (forbidden "Jeton invalide (type de compte inconnu).")
    | some a ↦ ok a
  ]

  abbrev and_then : {A B : Type 0} → Result A → (A → Result B) → Result B
  and_then (ok a) f = f a
  and_then (err e) f = err e

  unfoldable pub claims_of : Payload → Result AccessTokenClaims
  claims_of p = and_then (required p.sub "Jeton incomplet (sujet manquant).") λ sub.
      and_then (account_type_of p.account_type) λ account_type.
        and_then (required p.jti "Jeton incomplet (identifiant manquant).")
          λ jti. ok (record { sub = sub; account_type = account_type; jti = jti })

  -- `verifyAccessToken`: none where jsonwebtoken throws its own error.
  unfoldable pub verify_access_token : Instant → String → Option (Result AccessTokenClaims)
  unfolding claims_of
  verify_access_token now token = elim (jwt.verify config now token) [
    | none ↦ none
    | some decoded ↦ elim decoded [
      | plain_text t ↦ some (err (forbidden "Jeton invalide."))
      | object p ↦ some (claims_of p)
    ]
  ]

-- `request.currentUser`
pub record CurrentUser : Type 0 where
  pub id : String
  pub account_type : AccountTypeClaim

-- `new UnauthorizedException(message)`, whose body has a text under `error`.
abbrev pub unauthorized : String → Exception
unauthorized message = http (record { status = 401; message = message; enriched = none })

abbrev expired : Outcome CurrentUser
expired = thrown (unauthorized "Session invalide ou expiree.")

module _ (jwt : Jwt) (config : TokenConfig) where
  -- `canActivate` on the cookie smc_access_token, with the user that it sets on the request.
  unfoldable pub jwt_can_activate : Instant → Option String → Outcome CurrentUser
  unfolding verify_access_token
  jwt_can_activate now none = thrown (unauthorized "Authentification requise.")
  jwt_can_activate now (some token) =
      if str_eq token ""
      then thrown (unauthorized "Authentification requise.")
      else elim (verify_access_token jwt config now token) [
        | none ↦ expired
        | some r ↦ elim r [
          | ok claims ↦ returned (record { id = claims.sub; account_type = claims.account_type })
          | err e ↦ expired
        ]
      ]
