-- ===== src/Wireguard/Handshake/Agree.antt =====
-- A handshake between two tunnels that hold each other's public keys ends with one session on each
-- side, and each encrypts with the key that the other decrypts with.
use usb_camera_over_tailscal.Base.{
  ℕ, ◌<◌, ◌^◌, ◌≡◌, refl, true, none, some, ==_refl, length, replicate, ok,
}
use usb_camera_over_tailscal.Base.Text.{text_eq_self}
use usb_camera_over_tailscal.Base.Words.{to_le, from_le, from_le-to_le}
use usb_camera_over_tailscal.Crypto.{Bytes, KeyPair, Primitives}
use usb_camera_over_tailscal.Noise.{
  SymmetricState, mix_hash, mix_key, mix_key_and_hash, mix_dh, decrypt_and_hash, split,
}
use usb_camera_over_tailscal.Wireguard.Replay
use usb_camera_over_tailscal.Wireguard.Tunnel.{auth_failed, Session, PendingInitiation, Tunn}
use usb_camera_over_tailscal.Wireguard.Handshake.{
  mac1_key, start_state, consume_initiation, answered, finish_handshake, sized,
}
use usb_camera_over_tailscal.Wireguard.Handshake.Messages.{ReadsInitiation}
use usb_camera_over_tailscal.Wireguard.Handshake.Replies.{ReadsResponse}

module _ (p : Primitives) where
  -- A genuine initiation is accepted by its receiver.
  pub consume_initiation-reads :
      (local : KeyPair) (msg body idx e_pub c1 c2 peer ts : Bytes) (s2 s3 : SymmetricState)
      → ReadsInitiation msg body (p.blake2s_mac16 (mac1_key p local.public) body) idx e_pub c1 c2
      → decrypt_and_hash p auth_failed c1 (
          mix_dh p local.secret e_pub
            (mix_hash p e_pub (mix_key p e_pub (start_state p local.public))))
        ≡ ok (peer, s2)
      → length peer ≡ 32
      → decrypt_and_hash p auth_failed c2 (mix_dh p local.secret peer s2) ≡ ok (ts, s3)
      → length ts ≡ 12
      → consume_initiation p local msg
        ≡ ok (record {
          peer_public = peer;
          remote_index = from_le idx;
          remote_ephemeral = e_pub;
          state = s3;
          timestamp = ts;
        })
  unfolding consume_initiation sized
  consume_initiation-reads local msg body idx e_pub c1 c2 peer ts s2 s3 r d1 l1 d2 l2 =
      rw (r.covered, r.mac1, r.sender, r.ephemeral, r.static_key, r.timestamp, r.typ, r.size)
        (rw (text_eq_self (p.blake2s_mac16 (mac1_key p local.public) body), d1, l1, d2, l2) refl)

  -- The session of an initiator whose handshake ended in this state.
  abbrev pub initiator_session : PendingInitiation → ℕ → SymmetricState → ℕ → Session
  initiator_session w remote s now = record {
    local_index = w.local_index;
    remote_index = remote;
    send_key = (split p s).0;
    recv_key = (split p s).1;
    send_counter = 0;
    replay = Replay.new;
    created = now;
    is_initiator = true;
    confirmed = true;
  }

  -- A genuine response completes the initiation that waits for it.
  pub finish_handshake-reads :
      (t : Tunn) (w : PendingInitiation) (msg body idx e_pub enc pt : Bytes) (now : ℕ)
      (s : SymmetricState)
      → t.pending ≡ some w
      → w.local_index < 256 ^ 4
      → ReadsResponse msg body
          (p.blake2s_mac16 (mac1_key p t.local.public) body)
          idx
          (to_le 4 w.local_index)
          e_pub
          enc
      → decrypt_and_hash p auth_failed enc (
          mix_key_and_hash p (replicate 32 0) (
            mix_dh p t.local.secret e_pub
              (mix_dh p w.ephemeral_secret e_pub (mix_key p e_pub (mix_hash p e_pub w.state)))))
        ≡ ok (pt, s)
      → finish_handshake p msg now t
        ≡ ok (record t {
          previous = t.current;
          current = some (initiator_session w (from_le idx) s now);
          pending = none;
        })
  unfolding finish_handshake answered
  finish_handshake-reads t w msg body idx e_pub enc pt now s waits fits r d =
      rw (r.covered, r.mac1, r.sender, r.addressee, r.ephemeral, r.empty, r.typ, r.size)
        (rw
          (
            text_eq_self (p.blake2s_mac16 (mac1_key p t.local.public) body),
            waits,
            from_le-to_le 4 w.local_index fits,
            ==_refl w.local_index,
            d,
          )
          refl)
