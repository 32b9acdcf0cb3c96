-- ===== src/Noise.antt =====
-- crates/tsnode/src/noise.rs: the symmetric state of a Noise handshake.
pub mod Laws
use usb_camera_over_tailscal.Base.{
  ℕ, ◌-◌, ◌≡◌, refl, List, [], ◌∷◌, ◌++◌, Option, none, some, leb, if◌then◌else◌, length, replicate,
  Exec, ok, err, panic, ◌>>=◌, try,
}
use usb_camera_over_tailscal.Crypto.{Bytes, Primitives, IsSound, hkdf}

pub record SymmetricState : Type 0 where
  pub h : Bytes
  pub ck : Bytes
  pub k : Option Bytes

module _ (p : Primitives) where
  open p use {blake2s, aead_encrypt, aead_decrypt, x25519}

  pub new : Bytes → SymmetricState
  new name =
      let h =
        if leb (length name) 32 then name ++ replicate (32 - length name) 0 else blake2s name in
      record { h = h; ck = h; k = none }

  pub mix_hash : Bytes → SymmetricState → SymmetricState
  mix_hash data_bytes s = record s { h = blake2s (s.h ++ data_bytes) }

  pub mix_key : Bytes → SymmetricState → SymmetricState
  mix_key ikm s = let (ck, k, _) = hkdf p s.ck ikm in record s { ck = ck; k = some k }

  pub mix_key_and_hash : Bytes → SymmetricState → SymmetricState
  mix_key_and_hash ikm s =
      let (ck, temp_h, k) = hkdf p s.ck ikm in
      record (mix_hash temp_h (record s { ck = ck })) { k = some k }

  pub mix_dh : Bytes → Bytes → SymmetricState → SymmetricState
  mix_dh secret public s = mix_key (x25519 secret public) s

  -- `expect` on a missing key panics.
  pub key_of : {E : Type 0} → Option Bytes → Exec E Bytes
  key_of none = panic
  key_of (some k) = ok k

  -- The ciphertext, and the state that it was mixed into.
  pub encrypt_and_hash : {E : Type 0} → Bytes → SymmetricState → Exec E (Bytes × SymmetricState)
  encrypt_and_hash plaintext s = do
    k ← key_of s.k
    let ct = aead_encrypt k 0 plaintext s.h
    ok (ct, mix_hash ct s)

  pub decrypt_and_hash : {E : Type 0} → E → Bytes → SymmetricState → Exec E (Bytes × SymmetricState)
  decrypt_and_hash e ciphertext s = do
    k ← key_of s.k
    pt ← try e (aead_decrypt k 0 ciphertext s.h)
    ok (pt, mix_hash ciphertext s)

  -- The key from the initiator to the responder, and the key back.
  pub split : SymmetricState → Bytes × Bytes
  split s = let (k1, k2, _) = hkdf p s.ck [] in (k1, k2)
