-- ===== src/Wireguard/Handshake.antt =====
-- The handshake: `new_initiation`, `initiate_if_needed`, `consume_initiation`,
-- `accept_initiation`, `consume_response`. An error leaves the tunnel as it was.
pub mod Messages
pub mod Replies
pub mod Agree
pub mod Exchange
pub mod Safe
mod Tests
use usb_camera_over_tailscal.Base.{
  ℕ, suc, ◌+◌, ◌-◌, Bool, true, false, not, List, [], ◌∷◌, ◌++◌, Option, none, some, ltb, leb, ◌==◌,
  if◌then◌else◌, length, replicate, Exec, ok, err, panic, ◌>>=◌, ◌>>◌, fail_if, index, slice,
}
use usb_camera_over_tailscal.Base.Text.{text_eq}
use usb_camera_over_tailscal.Base.Words.{to_le, from_le}
use usb_camera_over_tailscal.Crypto.{Bytes, KeyPair, Primitives}
use usb_camera_over_tailscal.Noise
use usb_camera_over_tailscal.Noise.{
  SymmetricState, mix_hash, mix_key, mix_key_and_hash, mix_dh, encrypt_and_hash, decrypt_and_hash,
  split,
}
use usb_camera_over_tailscal.Wireguard.Replay
use usb_camera_over_tailscal.Wireguard.Tunnel.{
  WgError, bad_length, bad_type, bad_mac, bad_receiver, auth_failed, replayed, unknown_peer,
  msg_initiation, msg_response, initiation_len, response_len, rekey_timeout, max_handshake_attempts,
  Session, PendingInitiation, Tunn, ConsumedInitiation, Fresh, bytes_le,
}
use usb_camera_over_tailscal.Base.Text.{chars}

-- `CONSTRUCTION`, `IDENTIFIER` and `LABEL_MAC1`.
abbrev pub construction : Bytes
construction = chars "Noise_IKpsk2_25519_ChaChaPoly_BLAKE2s"

abbrev pub identifier : Bytes
identifier = chars "WireGuard v1 zx2c4 Jason@zx2c4.com"

abbrev pub label_mac1 : Bytes
label_mac1 = chars "mac1----"

-- The number of an initiation, counted on from the one that is pending.
pub next_attempt : Option PendingInitiation → ℕ
next_attempt none = 1
next_attempt (some p) = p.attempts + 1

-- `try_into().unwrap()` into an array of `n` bytes.
pub sized : {E : Type 0} → ℕ → Bytes → Exec E Bytes
sized n b = if length b == n then ok b else panic

module _ (p : Primitives) where
  open p use {blake2s, blake2s_mac16, x25519_public}

  pub mac1_key : Bytes → Bytes
  mac1_key public = blake2s (label_mac1 ++ public)

  -- The state behind the hashes of the names and of the responder's public key.
  pub start_state : Bytes → SymmetricState
  start_state responder = mix_hash p responder (mix_hash p identifier (Noise.new p construction))

  -- The part of an initiation that `mac1` covers.
  pub initiation_body : ℕ → Bytes → Bytes → Bytes → Bytes
  initiation_body index e_pub enc_static enc_ts =
      (msg_initiation ∷ 0 ∷ 0 ∷ 0 ∷ []) ++ (to_le 4 index ++ (e_pub ++ (enc_static ++ enc_ts)))

  pub with_macs : Bytes → Bytes → Bytes
  with_macs public body = body ++ (blake2s_mac16 (mac1_key public) body ++ replicate 16 0)

  -- `new_initiation`: the message, and the tunnel that waits for its response.
  pub new_initiation : Fresh → ℕ → Tunn → Exec WgError (Bytes × Tunn)
  new_initiation fresh now t = do
    let e_pub = x25519_public fresh.ephemeral
    let s1 = mix_hash p e_pub (mix_key p e_pub (start_state t.peer_public))
    (enc_static, s2) ← encrypt_and_hash p t.local.public (mix_dh p fresh.ephemeral t.peer_public s1)
    (enc_ts, s3) ← encrypt_and_hash p fresh.timestamp (mix_dh p t.local.secret t.peer_public s2)
    let body = initiation_body fresh.index e_pub enc_static enc_ts
    ok (
      with_macs t.peer_public body,
      record t {
        pending = some (record {
          local_index = fresh.index;
          ephemeral_secret = fresh.ephemeral;
          state = s3;
          sent_at = now;
          attempts = next_attempt t.pending;
        });
      },
    )

  pub some_message : Bytes × Tunn → Option Bytes × Tunn
  some_message (msg, t) = (some msg, t)

  pub start_or_wait :
      Option PendingInitiation → Fresh → ℕ → Tunn → Exec WgError (Option Bytes × Tunn)
  start_or_wait none fresh now t = new_initiation fresh now t >>= λ r. ok (some_message r)
  start_or_wait (some w) fresh now t =
      if ltb (now - w.sent_at) rekey_timeout
      then ok (none, t)
      else if leb max_handshake_attempts w.attempts
      then ok (none, record t { pending = none; queued = [] })
      else new_initiation fresh now t >>= λ r. ok (some_message r)

  -- `initiate_if_needed`.
  unfoldable pub initiate_by :
      Option Session → Fresh → ℕ → Tunn → Exec WgError (Option Bytes × Tunn)
  initiate_by (some s) fresh now t = ok (none, t)
  initiate_by none fresh now t = start_or_wait t.pending fresh now t

  unfoldable pub initiate_if_needed : Fresh → ℕ → Tunn → Exec WgError (Option Bytes × Tunn)
  initiate_if_needed fresh now t = initiate_by t.current fresh now t

  -- `consume_initiation`.
  pub consume_initiation : KeyPair → Bytes → Exec WgError ConsumedInitiation
  consume_initiation local msg = do
    fail_if (not (length msg == initiation_len)) bad_length
    typ ← index msg 0
    fail_if (not (typ == msg_initiation)) bad_type
    body ← slice msg 0 116
    mac1 ← slice msg 116 132
    fail_if (not (text_eq (blake2s_mac16 (mac1_key local.public) body) mac1)) bad_mac
    remote ← slice msg 4 8
    re ← slice msg 8 40
    let s1 = mix_hash p re (mix_key p re (start_state local.public))
    enc_static ← slice msg 40 88
    (key_bytes, s2) ← decrypt_and_hash p auth_failed enc_static (mix_dh p local.secret re s1)
    peer_public ← sized 32 key_bytes
    enc_ts ← slice msg 88 116
    (ts_bytes, s3) ← decrypt_and_hash p auth_failed enc_ts (mix_dh p local.secret peer_public s2)
    timestamp ← sized 12 ts_bytes
    ok (record {
      peer_public = peer_public;
      remote_index = from_le remote;
      remote_ephemeral = re;
      state = s3;
      timestamp = timestamp;
    })

  -- The part of a response that `mac1` covers.
  pub response_body : ℕ → ℕ → Bytes → Bytes → Bytes
  response_body local_index remote_index e_pub empty =
      (msg_response ∷ 0 ∷ 0 ∷ 0 ∷ [])
      ++ (to_le 4 local_index ++ (to_le 4 remote_index ++ (e_pub ++ empty)))

  -- `accept_initiation`: the response, and the tunnel with the new session.
  unfoldable pub accept_initiation :
      ConsumedInitiation → Fresh → ℕ → Tunn → Exec WgError (Bytes × Tunn)
  accept_initiation ci fresh now t = do
    fail_if (not (text_eq ci.peer_public t.peer_public)) unknown_peer
    fail_if (bytes_le ci.timestamp t.last_initiation_ts) replayed
    let e_pub = x25519_public fresh.ephemeral
    let s1 = mix_key p e_pub (mix_hash p e_pub ci.state)
    let s2 =
        mix_dh p fresh.ephemeral t.peer_public (mix_dh p fresh.ephemeral ci.remote_ephemeral s1)
    (empty, s3) ← encrypt_and_hash p [] (mix_key_and_hash p (replicate 32 0) s2)
    let body = response_body fresh.index ci.remote_index e_pub empty
    let (initiator_send, responder_send) = split p s3
    ok (
      with_macs t.peer_public body,
      record t {
        last_initiation_ts = ci.timestamp;
        previous = t.current;
        current = some (record {
          local_index = fresh.index;
          remote_index = ci.remote_index;
          send_key = responder_send;
          recv_key = initiator_send;
          send_counter = 0;
          replay = Replay.new;
          created = now;
          is_initiator = false;
          confirmed = false;
        });
        pending = none;
      },
    )

  -- The initiation that a response with this receiver index answers.
  pub answered : Option PendingInitiation → ℕ → Exec WgError PendingInitiation
  answered none receiver = err bad_receiver
  answered (some w) receiver = if w.local_index == receiver then ok w else err bad_receiver

  -- `consume_response` before `flush_queue`: the tunnel with the new session.
  pub finish_handshake : Bytes → ℕ → Tunn → Exec WgError Tunn
  finish_handshake msg now t = do
    fail_if (not (length msg == response_len)) bad_length
    typ ← index msg 0
    fail_if (not (typ == msg_response)) bad_type
    body ← slice msg 0 60
    mac1 ← slice msg 60 76
    fail_if (not (text_eq (blake2s_mac16 (mac1_key t.local.public) body) mac1)) bad_mac
    remote ← slice msg 4 8
    receiver ← slice msg 8 12
    w ← answered t.pending (from_le receiver)
    re ← slice msg 12 44
    let s1 = mix_key p re (mix_hash p re w.state)
    let s2 = mix_dh p t.local.secret re (mix_dh p w.ephemeral_secret re s1)
    enc ← slice msg 44 60
    (empty, s3) ← decrypt_and_hash p auth_failed enc (mix_key_and_hash p (replicate 32 0) s2)
    let (send_key, recv_key) = split p s3
    ok (record t {
      previous = t.current;
      current = some (record {
        local_index = w.local_index;
        remote_index = from_le remote;
        send_key = send_key;
        recv_key = recv_key;
        send_counter = 0;
        replay = Replay.new;
        created = now;
        is_initiator = true;
        confirmed = true;
      });
      pending = none;
    })
