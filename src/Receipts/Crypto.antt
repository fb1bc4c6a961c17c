-- ===== src/Receipts/Crypto.antt =====
-- receipt_crypto.py. The libraries' part is an interface: SHA-256, base64 and Ed25519 over byte
-- strings `B` and private keys `K`, and the canonical JSON text of a document.
use site_proof.Prelude.{ℕ, ◌≡◌, String, Bool, true, false, Option, none, some}
use site_proof.Receipts.Receipt.{Payload}

pub record Crypto (F B K : Type 0) : Type 0 where
  pub sha256_hex : String → String
  pub encode : B → String
  pub decode : String → Option B
  -- of a private key
  pub sign : K → String → B
  pub public_bytes : K → B
  -- whether `from_public_bytes(key).verify(signature, payload)` raises nothing
  pub verifies : B → B → String → Bool
  -- `fixed_decimal(value, places)`
  pub fixed_decimal : F → ℕ → String
  -- `canonical_json_bytes`
  pub canonical_json : Payload → String

-- What the libraries document.
pub record IsCrypto {F B K : Type 0} (c : Crypto F B K) : Type 0 where
  pub decode_encode : (b : B) → c.decode (c.encode b) ≡ some b
  pub verifies_sign :
      (k : K) (payload : String) → c.verifies (c.public_bytes k) (c.sign k payload) payload ≡ true

pub record SignatureResult : Type 0 where
  pub algorithm : String
  pub key_id : String
  pub signature_base64 : String
  pub payload_sha256 : String

pub record PublicKeyInfo : Type 0 where
  pub key_id : String
  pub algorithm : String
  pub public_key_base64 : String

-- Ed25519SigningKeyProvider
pub record Provider (K : Type 0) : Type 0 where
  pub key_id : String
  pub key : K

module _ {F B K : Type 0} (c : Crypto F B K) where
  unfoldable pub sign : Provider K → String → SignatureResult
  sign p payload = record {
    algorithm = "Ed25519";
    key_id = p.key_id;
    signature_base64 = c.encode (c.sign p.key payload);
    payload_sha256 = c.sha256_hex payload;
  }

  unfoldable pub get_public_key : Provider K → PublicKeyInfo
  get_public_key p = record {
    key_id = p.key_id;
    algorithm = "Ed25519";
    public_key_base64 = c.encode (c.public_bytes p.key);
  }

  abbrev pub verify_decoded : String → Option B → Option B → Bool
  verify_decoded payload none key = false
  verify_decoded payload (some signature) none = false
  verify_decoded payload (some signature) (some key) = c.verifies key signature payload

  unfoldable pub verify_ed25519_signature : String → String → String → Bool
  verify_ed25519_signature payload signature public_key =
      verify_decoded payload (c.decode signature) (c.decode public_key)

  -- What is signed verifies under the provider's public key.
  pub verify_ed25519_signature-sign :
      (p : Provider K) (payload : String)
      → IsCrypto c
      → verify_ed25519_signature payload
          (sign p payload).signature_base64
          (get_public_key p).public_key_base64
        ≡ true
  unfolding verify_ed25519_signature sign get_public_key
  verify_ed25519_signature-sign p payload laws =
      rw (laws.decode_encode (c.sign p.key payload), laws.decode_encode (c.public_bytes p.key))
        (laws.verifies_sign p.key payload)
