-- ===== src/Control.antt =====
-- crates/tsnode/src/controlbase.rs: the transport to the control server. Handshake is the Noise IK
-- handshake, Records the encrypted records over the connection, Dial the upgrade that starts them.
pub mod Handshake
pub mod Records
pub mod Dial
use usb_camera_over_tailscal.Base.{
  ℕ, zero, suc, ◌+◌, ◌-◌, ◌/◌, ◌%◌, Bool, List, [], ◌∷◌, ◌++◌, Option, ◌==◌, if◌then◌else◌, length,
  Exec, ok, panic,
}
use usb_camera_over_tailscal.Base.Text.{decimal, chars, Text}
use usb_camera_over_tailscal.Base.Words.{u16_to_be, to_le, from_be}
use usb_camera_over_tailscal.Crypto.{Bytes, Primitives, tag_len}

abbrev pub protocol_name : Bytes
protocol_name = chars "Noise_IK_25519_ChaChaPoly_BLAKE2s"

abbrev pub prologue_prefix : Bytes
prologue_prefix = chars "Tailscale Control Protocol v"

abbrev pub msg_initiation : ℕ
msg_initiation = 1

abbrev pub msg_response : ℕ
msg_response = 2

abbrev pub msg_error : ℕ
msg_error = 3

abbrev pub msg_record : ℕ
msg_record = 4

abbrev pub header_len : ℕ
header_len = 3

abbrev pub initiation_header_len : ℕ
initiation_header_len = 5

abbrev pub initiation_len : ℕ
initiation_len = 101

abbrev pub response_len : ℕ
response_len = 51

abbrev pub max_message : ℕ
max_message = 4096

abbrev pub max_ciphertext : ℕ
max_ciphertext = max_message - header_len

abbrev pub max_plaintext : ℕ
max_plaintext = max_ciphertext - tag_len

-- The three bytes that `set_header` writes.
abbrev pub header : ℕ → ℕ → Bytes
header msg_type len = msg_type ∷ u16_to_be len

-- `be_nonce_key`.
pub be_nonce_key : ℕ → ℕ
be_nonce_key counter = from_be 0 (to_le 8 counter)

pub prologue : ℕ → Bytes
prologue version = prologue_prefix ++ decimal version

-- `copy_from_slice` into, or `try_into().unwrap()` as, an array of the given size.
unfoldable pub array : {E : Type 0} → ℕ → Bytes → Exec E Bytes
array n bs = if length bs == n then ok bs else panic

module _ (p : Primitives) where
  unfoldable pub aead_encrypt_be : Bytes → ℕ → Bytes → Bytes
  aead_encrypt_be key counter plaintext = p.aead_encrypt key (be_nonce_key counter) plaintext []

  unfoldable pub aead_decrypt_be : Bytes → ℕ → Bytes → Option Bytes
  aead_decrypt_be key counter ciphertext = p.aead_decrypt key (be_nonce_key counter) ciphertext []

-- `SessionKeys`.
pub record SessionKeys : Type 0 where
  pub tx : Bytes
  pub rx : Bytes
