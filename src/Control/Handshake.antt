-- ===== src/Control/Handshake.antt =====
-- `ClientHandshake` and `server_handshake`. The fresh ephemeral secrets are arguments.
pub mod Agree
use usb_camera_over_tailscal.Base.{
  ℕ, ◌+◌, ◌-◌, not, ◌||◌, List, [], ◌∷◌, ◌++◌, ◌==◌, length, Exec, ok, ◌>>=◌, ◌>>◌, fail_if, index,
  slice,
}
use usb_camera_over_tailscal.Base.Words.{u16_from_be, u16_to_be}
use usb_camera_over_tailscal.Crypto.{Bytes, Primitives}
use usb_camera_over_tailscal.Net.{ErrorKind, invalid_data, permission_denied}
use usb_camera_over_tailscal.Noise.{
  SymmetricState, mix_hash, mix_dh, encrypt_and_hash, decrypt_and_hash, split,
}
use usb_camera_over_tailscal.Noise
use usb_camera_over_tailscal.Control.{
  protocol_name, msg_initiation, msg_response, header_len, initiation_header_len, initiation_len,
  response_len, header, prologue, array, SessionKeys,
}

pub record ClientHandshake : Type 0 where
  pub state : SymmetricState
  pub ephemeral_secret : Bytes
  pub machine_secret : Bytes
  pub initiation : Bytes

module _ (p : Primitives) where
  open p use {x25519_public}

  -- Both sides start from the protocol's name, the prologue and the server's key.
  pub start_state : ℕ → Bytes → SymmetricState
  start_state version control_pub =
      mix_hash p control_pub (mix_hash p (prologue version) (Noise.new p protocol_name))

  -- The parts of the initiation, one behind the other.
  pub initiation_bytes : ℕ → Bytes → Bytes → Bytes → Bytes
  initiation_bytes version ephemeral_pub enc_static tag =
      u16_to_be version
      ++ (header msg_initiation (initiation_len - initiation_header_len)
          ++ (ephemeral_pub ++ (enc_static ++ tag)))

  -- `ClientHandshake::new`.
  pub new : Bytes → Bytes → ℕ → Bytes → Exec ErrorKind ClientHandshake
  new machine_secret control_pub version ephemeral_secret = do
    let ephemeral_pub = x25519_public ephemeral_secret
    let s =
        mix_dh p ephemeral_secret control_pub
          (mix_hash p ephemeral_pub (start_state version control_pub))
    (enc_static, s) ← encrypt_and_hash p (x25519_public machine_secret) s
    static ← array 48 enc_static
    (sealed, s) ← encrypt_and_hash p [] (mix_dh p machine_secret control_pub s)
    tag ← array 16 sealed
    ok record {
      state = s;
      ephemeral_secret = ephemeral_secret;
      machine_secret = machine_secret;
      initiation = initiation_bytes version ephemeral_pub static tag;
    }

  -- `ClientHandshake::finish`: the type is only looked at in a message of the right length.
  pub check_response : Bytes → Exec ErrorKind (Unit {0})
  check_response response = do
    fail_if (not (length response == response_len)) invalid_data
    typ ← index response 0
    fail_if (not (typ == msg_response)) invalid_data
    hi ← index response 1
    lo ← index response 2
    fail_if (not (u16_from_be hi lo == (response_len - header_len))) invalid_data

  pub finish : Bytes → ClientHandshake → Exec ErrorKind SessionKeys
  finish response hs = do
    check_response response
    re ← slice response 3 35
    sealed ← slice response 35 51
    (empty, s) ←
        decrypt_and_hash p permission_denied sealed
          (mix_dh p hs.machine_secret re (mix_dh p hs.ephemeral_secret re (mix_hash p re hs.state)))
    ok record { tx = (split p s).0; rx = (split p s).1 }

  pub check_initiation : Bytes → Exec ErrorKind (Unit {0})
  check_initiation initiation = do
    fail_if (not (length initiation == initiation_len)) invalid_data
    typ ← index initiation 2
    fail_if (not (typ == msg_initiation)) invalid_data

  pub response_bytes : Bytes → Bytes → Bytes
  response_bytes ephemeral_pub tag =
      header msg_response (response_len - header_len) ++ (ephemeral_pub ++ tag)

  -- `server_handshake` up to the state behind the initiation: the state, the client's ephemeral key
  -- and its machine key.
  pub read_initiation : Bytes → Bytes → Exec ErrorKind (SymmetricState × Bytes × Bytes)
  read_initiation control_secret initiation = do
    check_initiation initiation
    hi ← index initiation 0
    lo ← index initiation 1
    re ← slice initiation 5 37
    enc_static ← slice initiation 37 85
    (static, s) ← decrypt_and_hash p permission_denied enc_static (
        mix_dh p control_secret re
          (mix_hash p re (start_state (u16_from_be hi lo) (x25519_public control_secret))))
    machine_pub ← array 32 static
    sealed ← slice initiation 85 101
    (empty, s) ← decrypt_and_hash p permission_denied sealed (mix_dh p control_secret machine_pub s)
    ok (s, re, machine_pub)

  -- `server_handshake`.
  pub server_handshake : Bytes → Bytes → Bytes → Exec ErrorKind (SessionKeys × Bytes × Bytes)
  server_handshake control_secret ephemeral_secret initiation = do
    (s, re, machine_pub) ← read_initiation control_secret initiation
    let ephemeral_pub = x25519_public ephemeral_secret
    (sealed, s) ← encrypt_and_hash p [] (
        mix_dh p ephemeral_secret machine_pub
          (mix_dh p ephemeral_secret re (mix_hash p ephemeral_pub s)))
    tag ← array 16 sealed
    ok (
      record { tx = (split p s).1; rx = (split p s).0 },
      machine_pub,
      response_bytes ephemeral_pub tag,
    )
