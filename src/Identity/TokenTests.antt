-- ===== src/Identity/TokenTests.antt =====
-- A toy of jsonwebtoken whose tokens know one payload and their expiry, which is their length.
use Prim.Native.String.{◌++◌, count}
use text.Mathlib.Text.{◌==◌ as str_eq}
use text.Mathlib.TextEquality.{eq_iff}
use text.Mathlib.TextLemmas.{length-append}
use savemycontrollers.Http.Exceptions.{returned, thrown}
use savemycontrollers.Identity.AccessTokens.{
  staff, claim_name, Payload, TokenConfig, Jwt, object, sign_access_token, CurrentUser,
  unauthorized, jwt_can_activate,
}
use savemycontrollers.Identity.SignedTokens.{JwtLaws, signed_payload, guard-sign, guard-outcome}
use savemycontrollers.Prelude.{
  ℕ, zero, suc, String, false, none, some, ◌+◌, ◌/◌, ◌≡◌, ◌⊎◌, ap, inl, inr, Bool-cases, ltb, refl,
  arith, if◌then◌else◌,
}

abbrev ticks : ℕ → String
ticks zero = ""
ticks (suc n) = "'" ++ ticks n

count-ticks : (n : ℕ) → count (ticks n) ≡ n
count-ticks zero = refl
count-ticks (suc n) = omega (arith, length-append "'" (ticks n), count-ticks n)

ticks_not_empty : (n : ℕ) → str_eq (ticks (suc n)) "" ≡ false
ticks_not_empty n = elim (Bool-cases (str_eq (ticks (suc n)) "")) [
  | inl empty ↦
      absurd (omega (arith, count-ticks (suc n), ap count ((eq_iff (ticks (suc n)) "").0 empty)))
  | inr text ↦ text
]

abbrev toy_payload : Payload
toy_payload = signed_payload "user-7" staff "jti-1"

abbrev toy_jwt : Jwt
toy_jwt = record {
  sign = λ config now p. ticks (suc (now / 1000 + config.access_token_ttl_seconds));
  verify = λ config now token.
      if ltb (now / 1000 + 1) (count token) then some (object toy_payload) else none;
}

abbrev toy_config : TokenConfig
toy_config = record {
  secret = "secret";
  access_token_ttl_seconds = 900;
  issuer = "savemycontrollers";
  audience = "savemycontrollers-api";
}

toy_laws : JwtLaws toy_jwt toy_config toy_payload
toy_laws = record {
  verify-sign = λ now later alive. ground (arith, count-ticks (suc (now / 1000 + 900)));
  not_empty = λ now. ticks_not_empty (now / 1000 + 900);
}

-- Signed at 0 s and read at 60 s.
guard-sign_example :
    jwt_can_activate toy_jwt toy_config 60000
      (some (sign_access_token toy_jwt toy_config 0 "jti-1" "user-7" staff))
    ≡ returned (record { id = "user-7"; account_type = staff })
guard-sign_example =
    guard-sign toy_jwt toy_config 0 60000 "jti-1" "user-7" staff toy_laws refl refl (omega arith)

guard-outcome_example :
    ((m : String) × (jwt_can_activate toy_jwt toy_config 0 (some "ticks")
        ≡ thrown (unauthorized m)))
    ⊎ ((u : CurrentUser) × (token : String) × (p : Payload) × (jwt_can_activate toy_jwt toy_config 0
            (some "ticks")
          ≡ returned u)
        × (some "ticks" ≡ some token)
        × (toy_jwt.verify toy_config 0 token ≡ some (object p))
        × (p.sub ≡ some u.id)
        × (p.account_type ≡ some (claim_name u.account_type))
        × (str_eq u.id "" ≡ false))
guard-outcome_example = guard-outcome toy_jwt toy_config 0 (some "ticks")
