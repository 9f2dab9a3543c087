-- ===== src/Protocol/Crypto.antt =====
-- The cryptography that internal/protocol takes from Go's library: AES-256-GCM and the hashes.
use void_bridge.Base.{◌≡◌, Option, some, Str}

-- An authenticated cipher: key, nonce, plaintext or sealed text, associated data.
pub record Aead : Type 0 where
  pub seal : Str → Str → Str → Str → Str
  pub open_sealed : Str → Str → Str → Str → Option Str

-- What the program relies on: sealing can be undone, and a sealed text opens only under the key,
-- the nonce and the associated data that it was made with.
pub record IsAead (c : Aead) : Type 0 where
  pub open-seal : (k n p a : Str) → c.open_sealed k n (c.seal k n p a) a ≡ some p
  pub open-seal_bound :
      (k n p a : Str) {k' n' a' q : Str}
      → c.open_sealed k' n' (c.seal k n p a) a' ≡ some q
      → (k' ≡ k) × (n' ≡ n) × (a' ≡ a)

-- SHA-256 in hex, HMAC-SHA256 by key and text, and HKDF by key and label.
pub record Hashes : Type 0 where
  pub sha256_hex : Str → Str
  pub hmac : Str → Str → Str
  pub hkdf : Str → Str → Str
