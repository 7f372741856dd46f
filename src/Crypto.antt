-- ===== src/Crypto.antt =====
-- The encryption of sensitive payloads: packages/crypto/src/index.ts. The cipher and the base64
-- coding of node:crypto are parameters.
pub mod RoundTrip
mod Tests
use text.Mathlib.Text.{◌==◌ as str_eq}
use savemycontrollers.Errors.{internal}
use savemycontrollers.Prelude.{
  ℕ, String, Bool, true, false, Option, none, some, Result, ok, err, Action, pure, throw, throw_if,
  modify, lift, ◌>>=◌, ◌>>◌, ◌==◌, not, if◌then◌else◌,
}

-- `ciphertext`, `iv` and `authTag`, each in base64.
pub record EncryptedPayload : Type 0 where
  pub ciphertext : String
  pub iv : String
  pub auth_tag : String

-- What the file uses of node:crypto and of Buffer. `B` is the type of buffers.
pub record NodeCrypto (B : Type 0) : Type 0 where
  pub byte_length : B → ℕ
  pub from_base64 : String → B
  pub to_base64 : B → String
  pub from_utf8 : String → B
  pub to_utf8 : B → String
  -- `createCipheriv("aes-256-gcm", key, iv)`: the ciphertext and its authentication tag
  pub seal : B → B → B → B × B
  -- `createDecipheriv` with `setAuthTag` and `final`, which throws on a tag that does not fit
  pub unseal : B → B → B → B → Option B

-- `NODE_ENV` and `PAYLOAD_ENCRYPTION_KEY`
pub record CryptoEnv : Type 0 where
  pub is_production : Bool
  pub configured_key : Option String

module _ {B : Type 0} (node : NodeCrypto B) (env : CryptoEnv) where
  -- `cachedKey = Buffer.from(configured, "base64")`, which stays cached where the length is wrong.
  unfoldable pub configure : String → Action (Option B) B
  configure text = do
    modify (λ _. some (node.from_base64 text))
    throw_if (not (node.byte_length (node.from_base64 text) == 32))
        (internal "PAYLOAD_ENCRYPTION_KEY doit decoder en exactement 32 octets (AES-256).")
    pure (node.from_base64 text)

  -- `drawn` is what `randomBytes(32)` returns, a key for this process only.
  unfoldable pub ephemeral_key : B → Action (Option B) B
  ephemeral_key drawn = do
    throw_if env.is_production (internal "PAYLOAD_ENCRYPTION_KEY est obligatoire en production.")
    modify (λ _. some drawn)
    pure drawn

  -- `if (configured)`: the empty text is as good as none.
  unfoldable pub load_key : B → Option String → Action (Option B) B
  unfolding configure ephemeral_key
  load_key drawn none = ephemeral_key drawn
  load_key drawn (some text) = if str_eq text "" then ephemeral_key drawn else configure text

  -- `getKey()` over the variable `cachedKey` of the process.
  unfoldable pub get_key : B → Action (Option B) B
  unfolding load_key
  get_key drawn none = load_key drawn env.configured_key none
  get_key drawn (some key) = (ok key, some key)

  -- `iv` is what `randomBytes(12)` returns.
  unfoldable pub encrypt_sensitive_value : B → B → String → Action (Option B) EncryptedPayload
  encrypt_sensitive_value drawn iv plaintext = do
    key ← get_key drawn
    let (sealed, tag) = node.seal key iv (node.from_utf8 plaintext) in
        pure (record {
          ciphertext = node.to_base64 sealed;
          iv = node.to_base64 iv;
          auth_tag = node.to_base64 tag;
        })

  unfoldable pub decrypt_sensitive_value : B → EncryptedPayload → Action (Option B) String
  decrypt_sensitive_value drawn payload = do
    key ← get_key drawn
    elim (node.unseal key (node.from_base64 payload.iv) (node.from_base64 payload.auth_tag)
        (node.from_base64 payload.ciphertext)) [
          | none ↦ throw (internal "Unsupported state or unable to authenticate data")
          | some bytes ↦ pure (node.to_utf8 bytes)
        ]
