-- ===== src/Noise/Laws.antt =====
-- A text that one side encrypts, the other side in the same state decrypts, and both go on in the
-- same state.
use usb_camera_over_tailscal.Base.{
  ◌+◌, ◌≡◌, refl, ap, Option, none, some, length, Exec, ok, ◌>>=◌, try, NoPanic,
}
use usb_camera_over_tailscal.Crypto.{Bytes, Primitives, IsSound, hkdf, tag_len}
use usb_camera_over_tailscal.Noise.{
  SymmetricState, mix_hash, mix_key, mix_key_and_hash, mix_dh, key_of, encrypt_and_hash,
  decrypt_and_hash,
}

-- The state has a key.
abbrev pub HasKey : SymmetricState → Type 0
HasKey s = (k : Bytes) × (s.k ≡ some k)

module _ (p : Primitives) where
  pub mix_key-HasKey : (ikm : Bytes) (s : SymmetricState) → HasKey (mix_key p ikm s)
  unfolding mix_key
  mix_key-HasKey ikm s = ((hkdf p s.ck ikm).1, refl)

  pub mix_dh-HasKey :
      (secret public : Bytes) (s : SymmetricState) → HasKey (mix_dh p secret public s)
  unfolding mix_dh
  mix_dh-HasKey secret public s = mix_key-HasKey (p.x25519 secret public) s

  pub mix_key_and_hash-HasKey :
      (ikm : Bytes) (s : SymmetricState) → HasKey (mix_key_and_hash p ikm s)
  unfolding mix_key_and_hash
  mix_key_and_hash-HasKey ikm s = ((hkdf p s.ck ikm).2, refl)

-- Both ends of a key exchange go on in the same state.
pub mix_dh-agrees :
    (p : Primitives)
    → IsSound p
    → (a b : Bytes) (s : SymmetricState)
    → mix_dh p a (p.x25519_public b) s ≡ mix_dh p b (p.x25519_public a) s
unfolding mix_dh
mix_dh-agrees p sound a b s = ap (λ x. mix_key p x s) (sound.agrees a b)

-- An encrypted text and what both sides make of it.
pub record Sent (p : Primitives) (text : Bytes) (s : SymmetricState) : Type 1 where
  pub cipher : Bytes
  pub size : length cipher ≡ length text + tag_len
  pub sends : (E : Type 0) → encrypt_and_hash p {E = E} text s ≡ ok (cipher, mix_hash p cipher s)
  pub receives :
      (E : Type 0) (e : E) → decrypt_and_hash p e cipher s ≡ ok (text, mix_hash p cipher s)

pub HasKey-Sent :
    (p : Primitives) → IsSound p → (text : Bytes) (s : SymmetricState) → HasKey s → Sent p text s
unfolding encrypt_and_hash decrypt_and_hash key_of
HasKey-Sent p sound text s (k, e) = record {
  cipher = p.aead_encrypt k 0 text s.h;
  size = sound.length-encrypt k 0 text s.h;
  sends = λ E. simp e;
  receives = λ E x. simp (e, sound.decrypts) refl;
}

-- Decryption under a state with a key never panics, and the text is as long as it must be.
pub decrypt_and_hash-NoPanic :
    {E B : Type 0} (p : Primitives)
    → IsSound p
    → (e : E) (cipher : Bytes) (s : SymmetricState) (f : Bytes × SymmetricState → Exec E B)
    → HasKey s
    → ((q : Bytes × SymmetricState) → length q.0 + tag_len ≡ length cipher → NoPanic (f q))
    → NoPanic (decrypt_and_hash p e cipher s >>= f)
unfolding decrypt_and_hash key_of
decrypt_and_hash-NoPanic p sound e cipher s f (k, has) rest =
    simp has (by_text (p.aead_decrypt k 0 cipher s.h) refl)
  where
    by_text :
        (o : Option Bytes)
        → p.aead_decrypt k 0 cipher s.h ≡ o
        → NoPanic (try e o >>= (λ pt. ok (pt, mix_hash p cipher s)) >>= f)
    by_text none _ = tt
    by_text (some pt) eq =
        rest (pt, mix_hash p cipher s) (sound.length-decrypt k 0 cipher s.h pt eq)
