-- ===== src/Environment.antt =====
-- The check of the environment at the start: apps/api/src/config/env.schema.ts. The schema of zod and
-- the base64 coding of Buffer are parameters.
pub mod Domains
pub mod Production
mod Tests
use Prim.Native.Char.{Char, code}
use Prim.Native.String.{◌++◌ as text_append, [] as empty_text, ◌∷◌ as char_cons}
use text.Mathlib.Text.{◌==◌ as str_eq}
use savemycontrollers.Prelude.{
  ℕ, String, Bool, true, false, Option, none, some, List, [], ◌∷◌, ◌++◌, ◌&&◌, ◌||◌, ◌==◌, not, any,
  leb, ltb, length, or_else, utf16_length, after_pattern, if◌then◌else◌,
}

pub data NodeEnv : Type 0 where
  development test preprod production : NodeEnv

-- The variables that the rules read, once the schema has parsed them.
pub record AppEnv : Type 0 where
  pub node_env : NodeEnv
  pub api_url : String
  pub cookie_domain : Option String
  pub storage_endpoint : String
  pub storage_access_key_id : String
  pub storage_secret_access_key : String
  pub smtp_from : String
  pub access_token_secret : String
  pub csrf_secret : String
  pub seed_superadmin_email : Option String
  pub seed_superadmin_password : Option String
  pub payload_encryption_key : Option String

abbrev pub insecure_dev_secret : String
insecure_dev_secret = "dev-only-insecure-secret-change-me"

abbrev pub insecure_dev_csrf_secret : String
insecure_dev_csrf_secret = "dev-only-insecure-csrf-secret-change-me"

-- `KNOWN_DEV_MINIO_KEYS.includes(key)`
abbrev pub is_dev_minio_key : String → Bool
is_dev_minio_key key = str_eq key "smc_minio_access_key" || str_eq key "smc_minio_secret_key"

-- `([:/]|$)`
abbrev is_boundary : Option String → Bool
is_boundary none = false
is_boundary (some empty_text) = true
is_boundary (some (char_cons c t)) = code c == b':' || code c == b'/'

-- `(^|[./])localhost([:/]|$)` from here on; `begins` is whether the first group matches here.
unfoldable pub has_localhost : Bool → String → Bool
has_localhost begins empty_text = false
has_localhost begins (char_cons c t) =
    (begins && is_boundary (after_pattern "localhost" (char_cons c t)))
    || has_localhost (code c == b'.' || code c == b'/') t

-- `(^|[./])(.*\.example)([:/]|$)`, where the text holds no line break.
unfoldable pub has_example : String → Bool
has_example empty_text = false
has_example (char_cons c t) =
    is_boundary (after_pattern ".example" (char_cons c t)) || has_example t

unfoldable pub contains_local_or_example_domain : String → Bool
contains_local_or_example_domain value = has_localhost true value || has_example value

-- `if (condition) errors.push(message)`, a step of the checks of production.
abbrev pub Rule : Type 0
Rule = Bool × String

abbrev pub push_all : List Rule → List String
push_all [] = []
push_all ((condition, message) ∷ rules) =
    let errors = push_all rules in if condition then message ∷ errors else errors

-- `value && containsLocalOrExampleDomain(value)` for one of the four variables.
abbrev pub domain_rule : String → String → Rule
domain_rule key value = (
  not (str_eq value "") && contains_local_or_example_domain value,
  text_append key
      " contient un domaine de developpement (localhost/.example) — interdit en production.",
)

-- A variable that is absent or empty is as good as none.
abbrev pub is_set : Option String → Bool
is_set none = false
is_set (some value) = not (str_eq value "")

abbrev pub production_rules : AppEnv → List Rule
production_rules env =
    (
      str_eq env.access_token_secret insecure_dev_secret,
      "ACCESS_TOKEN_SECRET utilise la valeur de secours de developpement — interdit en production.",
    )
    ∷ (
      ltb (utf16_length env.access_token_secret) 32,
      "ACCESS_TOKEN_SECRET doit contenir au moins 32 caracteres en production.",
    )
    ∷ (
      str_eq env.csrf_secret insecure_dev_csrf_secret,
      "CSRF_SECRET utilise la valeur de secours de developpement — interdit en production.",
    )
    ∷ (
      ltb (utf16_length env.csrf_secret) 32,
      "CSRF_SECRET doit contenir au moins 32 caracteres en production.",
    )
    ∷ (
      is_dev_minio_key env.storage_access_key_id || is_dev_minio_key env.storage_secret_access_key,
      "Des identifiants MinIO de developpement sont utilises — interdit en production.",
    )
    ∷ domain_rule "API_URL" env.api_url
    ∷ domain_rule "STORAGE_ENDPOINT" env.storage_endpoint
    ∷ domain_rule "COOKIE_DOMAIN" (or_else env.cookie_domain "")
    ∷ domain_rule "SMTP_FROM" env.smtp_from
    ∷ (
      is_set env.seed_superadmin_email || is_set env.seed_superadmin_password,
      "SEED_SUPERADMIN_EMAIL / SEED_SUPERADMIN_PASSWORD ne doivent jamais etre definis en production.",
    )
    ∷ (
      not (is_set env.payload_encryption_key),
      "PAYLOAD_ENCRYPTION_KEY est requis en production (chiffrement des charges utiles sensibles de l'Outbox, voir ADR-016).",
    )
    ∷ (
      str_eq (or_else env.cookie_domain "") "localhost",
      "COOKIE_DOMAIN ne doit jamais valoir \"localhost\" (y compris hors production, cela empeche les cookies de fonctionner correctement) — laisser vide en local.",
    )
    ∷ []

unfoldable pub production_errors : AppEnv → List String
production_errors env = push_all (production_rules env)

pub data Validated : Type 0 where
  accepted : AppEnv → Validated
  -- The start fails, with the lines of the error.
  refused : List String → Validated

-- What `safeParse` of the schema returns: the variables, or the issues.
pub data ParsedEnv : Type 0 where
  success : AppEnv → ParsedEnv
  failure : List String → ParsedEnv

-- `if (env.PAYLOAD_ENCRYPTION_KEY)`, whose decoded length is other than 32.
abbrev pub is_bad_key : (String → ℕ) → Option String → Bool
is_bad_key decoded_length none = false
is_bad_key decoded_length (some key) = not (str_eq key "") && not (decoded_length key == 32)

abbrev pub is_production : NodeEnv → Bool
is_production production = true
is_production preprod = false
is_production test = false
is_production development = false

abbrev check_production : AppEnv → Validated
check_production env =
    if ltb 0 (length (production_errors env)) then refused (production_errors env) else accepted env

unfoldable pub validate_env : {R : Type 0} → (R → ParsedEnv) → (String → ℕ) → R → Validated
validate_env safe_parse decoded_length raw_env = elim (safe_parse raw_env) [
  | failure issues ↦ refused issues
  | success env ↦
      if is_bad_key decoded_length env.payload_encryption_key
      then refused ("PAYLOAD_ENCRYPTION_KEY doit decoder en exactement 32 octets (AES-256)." ∷ [])
      else if is_production env.node_env
      then check_production env
      else accepted env
]
