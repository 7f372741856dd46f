-- ===== src/Crypto/RoundTrip.antt =====
-- What one process encrypts with packages/crypto/src/index.ts, another one decrypts.
use text.Mathlib.Text.{◌==◌ as str_eq}
use savemycontrollers.Crypto.{
  NodeCrypto, CryptoEnv, EncryptedPayload, configure, load_key, get_key, encrypt_sensitive_value,
  decrypt_sensitive_value,
}
use savemycontrollers.Errors.{internal}
use savemycontrollers.Prelude.{
  String, false, Option, none, some, ok, err, ◌≡◌, ◌==◌, refl, arith, ◌⊎◌, inl, inr,
}

-- The documented behaviour of node:crypto and of Buffer.
pub record NodeLaws {B : Type 0} (node : NodeCrypto B) : Type 0 where
  pub base64 : (b : B) → node.from_base64 (node.to_base64 b) ≡ b
  pub utf8 : (s : String) → node.to_utf8 (node.from_utf8 s) ≡ s
  pub authentic :
      (key iv plain : B)
      → node.unseal key iv (node.seal key iv plain).1 (node.seal key iv plain).0 ≡ some plain

module _ {B : Type 0} (node : NodeCrypto B) (env : CryptoEnv) where
  -- The process has a configured key of 32 bytes.
  pub record IsConfigured (text : String) : Type 0 where
    pub configured : env.configured_key ≡ some text
    pub not_empty : str_eq text "" ≡ false
    pub length : node.byte_length (node.from_base64 text) ≡ 32

  -- The variable `cachedKey` of a process that has called `getKey` or not.
  abbrev pub IsCache : String → Option B → Type 0
  IsCache text cached = (cached ≡ none) ⊎ (cached ≡ some (node.from_base64 text))

  get_key-configured :
      (text : String) (drawn : B) (cached : Option B)
      → IsConfigured text
      → IsCache text cached
      → get_key node env drawn cached ≡ (ok (node.from_base64 text), some (node.from_base64 text))
  unfolding get_key load_key configure
  get_key-configured text drawn cached c (inl e) = rw (e, c.configured, c.not_empty, c.length) refl
  get_key-configured text drawn cached c (inr e) = rw e refl

  -- What `encryptSensitiveValue` returns under the configured key.
  abbrev pub sealed_under : String → B → String → EncryptedPayload
  sealed_under text iv plaintext =
      let (sealed, tag) = node.seal (node.from_base64 text) iv (node.from_utf8 plaintext) in
      record {
        ciphertext = node.to_base64 sealed;
        iv = node.to_base64 iv;
        auth_tag = node.to_base64 tag;
      }

  encrypt-configured :
      (text : String) (drawn iv : B) (plaintext : String) (cached : Option B)
      → IsConfigured text
      → IsCache text cached
      → (encrypt_sensitive_value node env drawn iv plaintext cached).0
        ≡ ok (sealed_under text iv plaintext)
  unfolding encrypt_sensitive_value
  encrypt-configured text drawn iv plaintext cached c h =
      ground (arith, get_key-configured text drawn cached c h)

  decrypt-configured :
      (text : String) (drawn iv : B) (plaintext : String) (cached : Option B)
      → NodeLaws node
      → IsConfigured text
      → IsCache text cached
      → (decrypt_sensitive_value node env drawn (sealed_under text iv plaintext) cached).0
        ≡ ok plaintext
  unfolding decrypt_sensitive_value
  decrypt-configured text drawn iv plaintext cached laws c h =
      let (sealed, tag) = node.seal (node.from_base64 text) iv (node.from_utf8 plaintext) in
      ground (
        arith,
        get_key-configured text drawn cached c h,
        laws.base64 iv,
        laws.base64 sealed,
        laws.base64 tag,
        laws.authentic (node.from_base64 text) iv (node.from_utf8 plaintext),
        laws.utf8 plaintext,
      )

  -- Two processes with the same configured key of 32 bytes, such as the API and the worker, whether
  -- or not each of them has used the key before: the value that one encrypts, the other decrypts.
  pub decrypt-encrypt :
      (text : String) (drawn drawn' iv : B) (plaintext : String) (api worker : Option B)
      → NodeLaws node
      → IsConfigured text
      → IsCache text api
      → IsCache text worker
      → (payload : EncryptedPayload) × ((encrypt_sensitive_value node env drawn iv plaintext api).0
          ≡ ok payload)
        × ((decrypt_sensitive_value node env drawn' payload worker).0 ≡ ok plaintext)
  decrypt-encrypt text drawn drawn' iv plaintext api worker laws c ha hw = (
    sealed_under text iv plaintext,
    encrypt-configured text drawn iv plaintext api c ha,
    decrypt-configured text drawn' iv plaintext worker laws c hw,
  )

  -- A configured key of another length is refused at the first call and cached all the same: the
  -- next call returns it with no error.
  pub wrong_key_cached :
      (text : String) (drawn drawn' : B)
      → env.configured_key ≡ some text
      → str_eq text "" ≡ false
      → (node.byte_length (node.from_base64 text) == 32) ≡ false
      → ((get_key node env drawn none).0
          ≡ err (internal "PAYLOAD_ENCRYPTION_KEY doit decoder en exactement 32 octets (AES-256)."))
        × ((get_key node env drawn' (get_key node env drawn none).1).0 ≡ ok (node.from_base64 text))
  unfolding get_key load_key configure
  wrong_key_cached text drawn drawn' configured not_empty length =
      rw (configured, not_empty, length) (refl, refl)
