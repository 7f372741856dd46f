-- ===== src/Environment/Production.antt =====
-- The environments that `validateEnv` of apps/api/src/config/env.schema.ts lets start.
use text.Mathlib.Text.{◌==◌ as str_eq}
use mathlib.Core.Path.{sym}
use savemycontrollers.Environment.Domains.{
  IsDevDomain, passed-not-IsDevDomain, not-IsDevDomain-passed,
}
use savemycontrollers.Environment.{
  AppEnv, NodeEnv, production, preprod, test, development, accepted, ParsedEnv, success, failure,
  is_dev_minio_key, Rule, push_all, production_rules, is_set, production_errors, is_bad_key,
  is_production, validate_env,
}
use savemycontrollers.Prelude.{
  ℕ, String, Bool, Option, none, some, ◌∙◌, true, false, List, [], ◌∷◌, ◌||◌, ◌≡◌, ◌≤◌, ◌↔◌, inl,
  inr, refl, arith, ◌==◌, not, ltb, length, or_else, utf16_length, Bool-cases, All, ap,
}

abbrev pub is_minio_key : String → Bool
is_minio_key key = str_eq key "smc_minio_access_key" || str_eq key "smc_minio_secret_key"

-- The variable is absent or empty.
abbrev pub is_empty : Option String → Bool
is_empty value = str_eq (or_else value "") ""

-- What an environment of production must satisfy.
pub record IsSafe (env : AppEnv) : Type 0 where
  pub own_secret : str_eq env.access_token_secret "dev-only-insecure-secret-change-me" ≡ false
  pub long_secret : 32 ≤ utf16_length env.access_token_secret
  pub own_csrf_secret : str_eq env.csrf_secret "dev-only-insecure-csrf-secret-change-me" ≡ false
  pub long_csrf_secret : 32 ≤ utf16_length env.csrf_secret
  pub own_access_key : is_minio_key env.storage_access_key_id ≡ false
  pub own_secret_key : is_minio_key env.storage_secret_access_key ≡ false
  pub api : ¬ (IsDevDomain env.api_url)
  pub storage : ¬ (IsDevDomain env.storage_endpoint)
  pub cookies : ¬ (IsDevDomain (or_else env.cookie_domain ""))
  pub mails : ¬ (IsDevDomain env.smtp_from)
  pub no_email : is_empty env.seed_superadmin_email ≡ true
  pub no_password : is_empty env.seed_superadmin_password ≡ true
  pub encrypted : is_empty env.payload_encryption_key ≡ false
  pub not_localhost : str_eq (or_else env.cookie_domain "") "localhost" ≡ false

is_set-is_empty : (value : Option String) → is_set value ≡ not (is_empty value)
is_set-is_empty none = refl
is_set-is_empty (some text) = refl

unset-is_empty : (value : Option String) → is_set value ≡ false → is_empty value ≡ true
unset-is_empty value h = ground (arith, is_set-is_empty value)

is_empty-unset : (value : Option String) → is_empty value ≡ true → is_set value ≡ false
is_empty-unset value h = ground (arith, is_set-is_empty value)

-- No error is pushed exactly where no rule applies.
rules_kept :
    (rules : List Rule)
    → (length (push_all rules) == 0) ≡ true
    → All (λ (r : Rule). r.0 ≡ false) rules
rules_kept [] h = tt
rules_kept ((true, m) ∷ rules) h = absurd (ground arith)
rules_kept ((false, m) ∷ rules) h = (refl, rules_kept rules h)

kept_rules :
    (rules : List Rule)
    → All (λ (r : Rule). r.0 ≡ false) rules
    → (length (push_all rules) == 0) ≡ true
kept_rules [] h = refl
kept_rules ((b, m) ∷ rules) h = rw (h.0) (kept_rules rules h.1)

neither : (a b : Bool) → (a || b) ≡ false → (a ≡ false) × (b ≡ false)
neither a b h = (ground arith, ground arith)

at_least : (a b : ℕ) → ltb a b ≡ false → b ≤ a
at_least a b h = ground arith

errors-IsSafe : (env : AppEnv) → (length (production_errors env) == 0) ≡ true → IsSafe env
unfolding production_errors
errors-IsSafe env h =
    let (
      secret,
      (
        long,
        (
          csrf,
          (csrf_long, (minio, (api, (storage, (cookies, (mails, (seed, (key, (local, _))))))))),
        ),
      ),
    ) =
      rules_kept (production_rules env) h in
    record {
      own_secret = secret;
      long_secret = at_least (utf16_length env.access_token_secret) 32 long;
      own_csrf_secret = csrf;
      long_csrf_secret = at_least (utf16_length env.csrf_secret) 32 csrf_long;
      own_access_key =
          (neither (is_dev_minio_key env.storage_access_key_id)
            (is_dev_minio_key env.storage_secret_access_key) minio).0;
      own_secret_key =
          (neither (is_dev_minio_key env.storage_access_key_id)
            (is_dev_minio_key env.storage_secret_access_key) minio).1;
      api = passed-not-IsDevDomain env.api_url api;
      storage = passed-not-IsDevDomain env.storage_endpoint storage;
      cookies = passed-not-IsDevDomain (or_else env.cookie_domain "") cookies;
      mails = passed-not-IsDevDomain env.smtp_from mails;
      no_email =
          unset-is_empty env.seed_superadmin_email
            (neither (is_set env.seed_superadmin_email) (is_set env.seed_superadmin_password)
              seed).0;
      no_password =
          unset-is_empty env.seed_superadmin_password
            (neither (is_set env.seed_superadmin_email) (is_set env.seed_superadmin_password)
              seed).1;
      encrypted = ground (arith, key, is_set-is_empty env.payload_encryption_key);
      not_localhost = local;
    }

below : (a b : ℕ) → b ≤ a → ltb a b ≡ false
below a b h = ground arith

both_false : (a b : Bool) → a ≡ false → b ≡ false → (a || b) ≡ false
both_false a b e f = ground arith

IsSafe-errors : (env : AppEnv) → IsSafe env → (length (production_errors env) == 0) ≡ true
unfolding production_errors
IsSafe-errors env s = kept_rules (production_rules env) (
  s.own_secret,
  (
    below (utf16_length env.access_token_secret) 32 s.long_secret,
    (
      s.own_csrf_secret,
      (
        below (utf16_length env.csrf_secret) 32 s.long_csrf_secret,
        (
          both_false (is_dev_minio_key env.storage_access_key_id)
              (is_dev_minio_key env.storage_secret_access_key) s.own_access_key s.own_secret_key,
          (
            not-IsDevDomain-passed env.api_url s.api,
            (
              not-IsDevDomain-passed env.storage_endpoint s.storage,
              (
                not-IsDevDomain-passed (or_else env.cookie_domain "") s.cookies,
                (
                  not-IsDevDomain-passed env.smtp_from s.mails,
                  (
                    both_false (is_set env.seed_superadmin_email)
                        (is_set env.seed_superadmin_password)
                        (is_empty-unset env.seed_superadmin_email s.no_email)
                        (is_empty-unset env.seed_superadmin_password s.no_password),
                    (
                      ground (arith, s.encrypted, is_set-is_empty env.payload_encryption_key),
                      (s.not_localhost, tt),
                    ),
                  ),
                ),
              ),
            ),
          ),
        ),
      ),
    ),
  ),
)

is_live : (node_env : NodeEnv) → is_production node_env ≡ true → node_env ≡ production
is_live production h = refl
is_live preprod h = absurd (ground arith)
is_live test h = absurd (ground arith)
is_live development h = absurd (ground arith)

true≢false : true ≡ false → ⊥
true≢false h = ground arith

module _ {R : Type 0} (safe_parse : R → ParsedEnv) (decoded_length : String → ℕ) where
  -- Absent, empty, or of 32 bytes once decoded.
  abbrev pub is_key : Option String → Bool
  is_key key = is_empty key || decoded_length (or_else key "") == 32

  key_checked : (key : Option String) → is_bad_key decoded_length key ≡ not (is_key key)
  key_checked none = refl
  key_checked (some text) = ground arith

  abbrev pub MayStart : R → AppEnv → Type 0
  MayStart raw_env env =
      (safe_parse raw_env ≡ success env)
      × (is_key env.payload_encryption_key ≡ true)
      × (env.node_env ≡ production → IsSafe env)

  started :
      (raw_env : R) (env : AppEnv)
      → validate_env safe_parse decoded_length raw_env ≡ accepted env
      → MayStart raw_env env
  unfolding validate_env
  started raw_env env h = go (safe_parse raw_env) refl
    where
      go : (parsed : ParsedEnv) → safe_parse raw_env ≡ parsed → MayStart raw_env env
      go (failure issues) e = absurd (ground arith)
      go (success found) e =
          elim (Bool-cases (is_bad_key decoded_length found.payload_encryption_key)) [
            | inl bad ↦ absurd (ground arith)
            | inr good ↦ elim (Bool-cases (is_production found.node_env)) [
              | inl live ↦ elim (Bool-cases (ltb 0 (length (production_errors found)))) [
                | inl errors ↦ absurd (ground arith)
                | inr clean ↦
                    let same : found ≡ env = ground arith in
                    rw⁻¹ same (
                      e,
                      ground (arith, good, key_checked found.payload_encryption_key),
                      λ _. errors-IsSafe found (ground arith),
                    )
              ]
              | inr other ↦
                  let same : found ≡ env = ground arith in
                  rw⁻¹ same (
                    e,
                    ground (arith, good, key_checked found.payload_encryption_key),
                    λ live. absurd (true≢false (ap is_production (sym live) ∙ other)),
                  )
            ]
          ]

  may_start :
      (raw_env : R) (env : AppEnv)
      → MayStart raw_env env
      → validate_env safe_parse decoded_length raw_env ≡ accepted env
  unfolding validate_env
  may_start raw_env env (parsed, good, safe) =
      let checked : is_bad_key decoded_length env.payload_encryption_key ≡ false =
        key_checked env.payload_encryption_key ∙ ap not good in
      elim (Bool-cases (is_production env.node_env)) [
        | inl live ↦ ground (arith, checked, IsSafe-errors env (safe (is_live env.node_env live)))
        | inr other ↦ ground (arith, checked)
      ]

  -- The application starts with an environment exactly where the schema parses it, its encryption key
  -- has 32 bytes or is absent or empty, and, in production, it is safe: two secrets of at least 32
  -- characters that are not those of development, no storage key of development, an encryption key, no
  -- account for the seed, the cookie domain not "localhost", and in the addresses of the API and of the
  -- storage, the cookie domain and the sender of mails neither "localhost" between the start, a dot or
  -- a slash and the end, a colon or a slash, nor ".example" before one of these, in any case of the
  -- letters. An @ is no such start, so noreply@localhost passes.
  pub validate-MayStart :
      (raw_env : R) (env : AppEnv)
      → (validate_env safe_parse decoded_length raw_env ≡ accepted env) ↔ MayStart raw_env env
  validate-MayStart raw_env env = (started raw_env env, may_start raw_env env)
