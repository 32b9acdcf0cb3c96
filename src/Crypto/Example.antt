-- ===== src/Crypto/Example.antt =====
-- Primitives without any secrecy that satisfy the laws, for runs of the protocols.
use usb_camera_over_tailscal.Base.{
  ℕ, ◌+◌, ◌-◌, ◌≤◌, ◌%◌, ◌≡◌, refl, ap, Bool, true, false, [], ◌∷◌, ◌++◌, Option, none, some, leb,
  ◌&&◌, if◌then◌else◌, arith, length, length-append, length-take, take, take-append, drop,
  drop-append, replicate, get_or, le→leb, leb→le, Bool-cases, inl, inr,
}
use usb_camera_over_tailscal.Base.Text.{text_eq, text_eq_self}
use usb_camera_over_tailscal.Crypto.{Bytes, Primitives, IsSound}

abbrev total : Bytes → ℕ
total [] = 0
total (b ∷ bs) = b + total bs

abbrev tag : Bytes → Bytes
tag k = replicate 16 (total k % 256)

abbrev open_tagged : Bytes → Bytes → Option Bytes
open_tagged k ct =
    if leb 16 (length ct) && text_eq (drop (length ct - 16) ct) (tag k)
    then some (take (length ct - 16) ct)
    else none

abbrev pub plain : Primitives
plain = record {
  blake2s = λ m. replicate 32 (total m % 251);
  blake2s_mac16 = λ k m. replicate 16 (total m % 251);
  aead_encrypt = λ k n text ad. text ++ tag k;
  aead_decrypt = λ k n ct ad. open_tagged k ct;
  x25519 = λ a q. replicate 32 (total a + get_or q 0 0);
  x25519_public = λ a. replicate 32 (total a);
}

length-taken :
    (b : Bool) (ct text : Bytes)
    → 16 ≤ length ct
    → (if b then some (take (length ct - 16) ct) else none) ≡ some text
    → length text + 16 ≡ length ct
length-taken true ct text h e =
    cc (ap {B = ℕ} (λ o. elim o [ none ↦ 0 | some t ↦ length t + 16 ]) e, size)
  where
    size : length (take (length ct - 16) ct) + 16 ≡ length ct
    size = omega (arith, h, length-take (length ct - 16) ct)
length-taken false ct text h e = cc e

length-open_tagged :
    (k ct text : Bytes) → open_tagged k ct ≡ some text → length text + 16 ≡ length ct
length-open_tagged k ct text = elim (Bool-cases (leb 16 (length ct))) [
  | inl big ↦ rw big (
      length-taken (text_eq (drop (length ct - 16) ct) (tag k)) ct text (leb→le 16 (length ct) big))
  | inr small ↦ rw small (λ e. cc e)
]

open_tagged-tag : (k text : Bytes) → open_tagged k (text ++ tag k) ≡ some text
open_tagged-tag k text =
    rw (size, le→leb 16 (length text + 16) (omega arith))
      (rw
        (
          less,
          drop-append (length text) text (tag k) refl,
          take-append (length text) text (tag k) refl,
        )
        (rw (text_eq_self (tag k)) refl))
  where
    size : length (text ++ tag k) ≡ length text + 16
    size = length-append text (tag k)

    less : length text + 16 - 16 ≡ length text
    less = omega arith

pub plain-IsSound : IsSound plain
plain-IsSound = record {
  decrypts = λ k n text ad. open_tagged-tag k text;
  agrees = λ a b. ap (λ n. replicate 32 n) (omega arith);
  length-public = λ a. refl;
  length-mac16 = λ k m. refl;
  length-encrypt = λ k n text ad. length-append text (tag k);
  length-decrypt = λ k n ct ad text. length-open_tagged k ct text;
}
