-- ===== src/Environment/Tests.antt =====
-- An environment of production, through apps/api/src/config/env.schema.ts.
use savemycontrollers.Environment.{
  AppEnv, production, ParsedEnv, success, accepted, production_errors, validate_env,
  contains_local_or_example_domain, has_localhost, has_example,
}
use savemycontrollers.Environment.Production.{MayStart, validate-MayStart}
use savemycontrollers.Prelude.{ℕ, true, false, none, some, ◌≡◌, ◌↔◌, refl}

abbrev live_env : AppEnv
live_env = record {
  node_env = production;
  api_url = "https://api.savemycontrollers.fr";
  cookie_domain = some "savemycontrollers.fr";
  storage_endpoint = "https://s3.fr-par.scw.cloud";
  storage_access_key_id = "SCW1";
  storage_secret_access_key = "SCW2";
  smtp_from = "bonjour@savemycontrollers.fr";
  access_token_secret = "0123456789abcdef0123456789abcdef";
  csrf_secret = "fedcba9876543210fedcba9876543210";
  seed_superadmin_email = none;
  seed_superadmin_password = none;
  payload_encryption_key = some "K32";
}

abbrev parsed : ℕ → ParsedEnv
parsed raw = success live_env

validate-MayStart_example :
    (validate_env parsed (λ key. 32) 0 ≡ accepted live_env) ↔ MayStart parsed (λ key. 32) 0 live_env
validate-MayStart_example = validate-MayStart parsed (λ key. 32) 0 live_env

live_starts : validate_env parsed (λ key. 32) 0 ≡ accepted live_env
unfolding validate_env production_errors contains_local_or_example_domain has_localhost has_example
live_starts = refl

local_url : contains_local_or_example_domain "http://LOCALHOST:3001" ≡ true
unfolding contains_local_or_example_domain has_localhost
local_url = refl

example_url : contains_local_or_example_domain "https://shop.example/api" ≡ true
unfolding contains_local_or_example_domain has_localhost has_example
example_url = refl

-- The sender of a mail is not found, since `@` is no boundary.
local_sender : contains_local_or_example_domain "noreply@localhost" ≡ false
unfolding contains_local_or_example_domain has_localhost has_example
local_sender = refl
