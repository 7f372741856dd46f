-- ===== src/Crypto/Tests.antt =====
-- A toy of node:crypto for packages/crypto/src/index.ts: a buffer is a text, and the tag is the key.
use text.Mathlib.Text.{◌==◌ as str_eq}
use text.Mathlib.TextPositions.{eq_refl}
use savemycontrollers.Crypto.{
  NodeCrypto, CryptoEnv, get_key, encrypt_sensitive_value, decrypt_sensitive_value,
}
use savemycontrollers.Crypto.RoundTrip.{NodeLaws, decrypt-encrypt, wrong_key_cached}
use savemycontrollers.Errors.{internal}
use savemycontrollers.Prelude.{
  String, none, some, ok, err, ◌≡◌, refl, inl, inr, true, false, if◌then◌else◌,
}

abbrev toy_node : NodeCrypto String
toy_node = record {
  byte_length = λ text. if str_eq text "short" then 5 else 32;
  from_base64 = λ text. text;
  to_base64 = λ text. text;
  from_utf8 = λ text. text;
  to_utf8 = λ text. text;
  seal = λ key iv plain. (plain, key);
  unseal = λ key iv tag sealed. if str_eq key tag then some sealed else none;
}

toy_laws : NodeLaws toy_node
toy_laws = record {
  base64 = λ b. refl;
  utf8 = λ s. refl;
  authentic = λ key iv plain. rw (eq_refl key) refl;
}

abbrev preprod : CryptoEnv
preprod = record { is_production = false; configured_key = some "K32" }

-- The API has used the key before, the worker has not.
decrypt-encrypt_example :
    (payload : _) × ((encrypt_sensitive_value toy_node preprod "r" "iv" "token" (some "K32")).0
      ≡ ok payload)
    × ((decrypt_sensitive_value toy_node preprod "q" payload none).0 ≡ ok "token")
decrypt-encrypt_example =
    decrypt-encrypt toy_node preprod "K32" "r" "q" "iv" "token" (some "K32") none toy_laws
      (record { configured = refl; not_empty = refl; length = refl }) (inr refl) (inl refl)

abbrev misconfigured : CryptoEnv
misconfigured = record { is_production = true; configured_key = some "short" }

wrong_key_cached_example :
    ((get_key toy_node misconfigured "r" none).0
      ≡ err (internal "PAYLOAD_ENCRYPTION_KEY doit decoder en exactement 32 octets (AES-256)."))
    × ((get_key toy_node misconfigured "q" (get_key toy_node misconfigured "r" none).1).0
        ≡ ok "short")
wrong_key_cached_example = wrong_key_cached toy_node misconfigured "short" "r" "q" refl refl refl
