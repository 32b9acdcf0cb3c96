-- ===== src/Crypto.antt =====
-- crates/tsnode/src/crypto.rs and keys.rs: HMAC and HKDF over BLAKE2s. The primitives of the
-- third-party crates are the fields of a record, with the facts that the protocols rely on.
pub mod Example
use usb_camera_over_tailscal.Base.{
  ℕ, ◌+◌, ◌-◌, ◌≡◌, Bool, List, [], ◌∷◌, ◌++◌, map, Option, some, ltb, if◌then◌else◌, length,
  replicate, bit_xor,
}

abbrev pub Bytes : Type 0
Bytes = List ℕ

-- `KeyPair` of keys.rs.
pub record KeyPair : Type 0 where
  pub secret : Bytes
  pub public : Bytes

-- `blake2s` takes the concatenation of its parts, `aead_encrypt` and `aead_decrypt` the key, the
-- counter, the text and the associated data.
pub record Primitives : Type 0 where
  pub blake2s : Bytes → Bytes
  pub blake2s_mac16 : Bytes → Bytes → Bytes
  pub aead_encrypt : Bytes → ℕ → Bytes → Bytes → Bytes
  pub aead_decrypt : Bytes → ℕ → Bytes → Bytes → Option Bytes
  pub x25519 : Bytes → Bytes → Bytes
  pub x25519_public : Bytes → Bytes

-- The tag of an encrypted text.
abbrev pub tag_len : ℕ
tag_len = 16

-- What is relied on: decryption undoes encryption, both ends of a key exchange find the same
-- secret, and the sizes of the outputs.
pub record IsSound (p : Primitives) : Type 0 where
  pub decrypts :
      (k : Bytes) (n : ℕ) (text ad : Bytes)
      → p.aead_decrypt k n (p.aead_encrypt k n text ad) ad ≡ some text
  pub agrees : (a b : Bytes) → p.x25519 a (p.x25519_public b) ≡ p.x25519 b (p.x25519_public a)
  pub length-public : (a : Bytes) → length (p.x25519_public a) ≡ 32
  pub length-mac16 : (k m : Bytes) → length (p.blake2s_mac16 k m) ≡ 16
  pub length-encrypt :
      (k : Bytes) (n : ℕ) (text ad : Bytes)
      → length (p.aead_encrypt k n text ad) ≡ length text + tag_len
  pub length-decrypt :
      (k : Bytes) (n : ℕ) (ct ad text : Bytes)
      → p.aead_decrypt k n ct ad ≡ some text
      → length text + tag_len ≡ length ct

module _ (p : Primitives) where
  open p use {blake2s}

  -- The key of `hmac_blake2s`, in a block of 64 bytes.
  pub hmac_block : Bytes → Bytes
  hmac_block key =
      let k = if ltb 64 (length key) then blake2s key else key in k ++ replicate (64 - length k) 0

  pub hmac_blake2s : Bytes → Bytes → Bytes
  hmac_blake2s key msg =
      let k = hmac_block key in
      blake2s (map (bit_xor 0x5c) k ++ blake2s (map (bit_xor 0x36) k ++ msg))

  -- `hkdf`: three outputs derived from the chaining key and the input.
  pub hkdf : Bytes → Bytes → Bytes × Bytes × Bytes
  hkdf ck ikm =
      let t0 = hmac_blake2s ck ikm in
      let t1 = hmac_blake2s t0 (1 ∷ []) in
      let t2 = hmac_blake2s t0 (t1 ++ (2 ∷ [])) in
      let t3 = hmac_blake2s t0 (t2 ++ (3 ∷ [])) in (t1, t2, t3)
