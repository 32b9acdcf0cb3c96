-- ===== src/Wireguard/Handshake/Exchange.antt =====
-- The whole handshake: the initiation, its receipt, the response and its receipt.
use usb_camera_over_tailscal.Base.{
  ℕ, ◌+◌, ◌<◌, ◌^◌, ◌≡◌, refl, ◌∙◌, ap, false, [], none, some, length, replicate, Exec, ok, ◌>>=◌,
}
use usb_camera_over_tailscal.Base.Text.{text_eq_self}
use usb_camera_over_tailscal.Base.Words.{to_le, from_le-to_le}
use usb_camera_over_tailscal.Crypto.{Bytes, Primitives, IsSound}
use usb_camera_over_tailscal.Noise.{
  SymmetricState, mix_hash, mix_key, mix_key_and_hash, mix_dh, split,
}
use usb_camera_over_tailscal.Noise.Laws.{
  Sent, HasKey-Sent, mix_dh-HasKey, mix_dh-agrees, mix_key_and_hash-HasKey,
}
use usb_camera_over_tailscal.Wireguard.Replay.{ReplayWindow}
use usb_camera_over_tailscal.Wireguard.Replay
use usb_camera_over_tailscal.Wireguard.Tunnel.{
  WgError, auth_failed, Session, PendingInitiation, Tunn, ConsumedInitiation, Fresh, bytes_le,
}
use usb_camera_over_tailscal.Wireguard.Handshake.{
  start_state, initiation_body, with_macs, next_attempt, new_initiation, consume_initiation,
  response_body, accept_initiation, finish_handshake,
}
use usb_camera_over_tailscal.Wireguard.Handshake.Messages.{with_macs-ReadsInitiation}
use usb_camera_over_tailscal.Wireguard.Handshake.Replies.{with_macs-ReadsResponse}
use usb_camera_over_tailscal.Wireguard.Handshake.Agree.{
  consume_initiation-reads, finish_handshake-reads, initiator_session,
}

-- The two ends of one session.
pub record IsMirror (a b : Session) : Type 0 where
  pub forth : a.send_key ≡ b.recv_key
  pub back : b.send_key ≡ a.recv_key
  pub names_b : a.remote_index ≡ b.local_index
  pub names_a : b.remote_index ≡ a.local_index
  pub starts_a : a.send_counter ≡ 0
  pub starts_b : b.send_counter ≡ 0
  pub fresh_a : a.replay ≡ Replay.new
  pub fresh_b : b.replay ≡ Replay.new

module _ (p : Primitives) where
  open p use {x25519_public}

  -- The tunnel `t` of the holder of the secret `a` to the holder of the secret `b`.
  abbrev pub between : Bytes → Bytes → Tunn → Tunn
  between a b t = record t {
    local = record { secret = a; public = x25519_public a };
    peer_public = x25519_public b;
  }

  -- The first tunnel starts a handshake, and every message arrives.
  pub exchange : Fresh → Fresh → ℕ → ℕ → ℕ → Tunn → Tunn → Exec WgError (Tunn × Tunn)
  exchange fa fb t0 t1 t2 ta tb = do
    (init, ta') ← new_initiation p fa t0 ta
    ci ← consume_initiation p tb.local init
    (response, tb') ← accept_initiation p ci fb t1 tb
    ta'' ← finish_handshake p response t2 ta'
    ok (ta'', tb')

  module _ (sound : IsSound p) where
    module _ (a b : Bytes) (fa fb : Fresh) (t0 t1 t2 : ℕ) (ta tb : Tunn)
        (a_fits : fa.index < 256 ^ 4) (b_fits : fb.index < 256 ^ 4)
        (stamp : length fa.timestamp ≡ 12)
        (newer : bytes_le fa.timestamp tb.last_initiation_ts ≡ false) where
      abbrev pub_a : Bytes
      pub_a = x25519_public a

      abbrev pub_b : Bytes
      pub_b = x25519_public b

      abbrev eph_a : Bytes
      eph_a = x25519_public fa.ephemeral

      abbrev eph_b : Bytes
      eph_b = x25519_public fb.ephemeral

      abbrev state1 : SymmetricState
      state1 =
          mix_dh p fa.ephemeral pub_b (mix_hash p eph_a (mix_key p eph_a (start_state p pub_b)))

      abbrev static_sent : Sent p pub_a state1
      static_sent = HasKey-Sent p sound pub_a state1 (
          mix_dh-HasKey p fa.ephemeral pub_b
            (mix_hash p eph_a (mix_key p eph_a (start_state p pub_b))))

      abbrev state2 : SymmetricState
      state2 = mix_hash p static_sent.cipher state1

      abbrev state3 : SymmetricState
      state3 = mix_dh p a pub_b state2

      abbrev stamp_sent : Sent p fa.timestamp state3
      stamp_sent = HasKey-Sent p sound fa.timestamp state3 (mix_dh-HasKey p a pub_b state2)

      abbrev state4 : SymmetricState
      state4 = mix_hash p stamp_sent.cipher state3

      abbrev waiting : PendingInitiation
      waiting = record {
        local_index = fa.index;
        ephemeral_secret = fa.ephemeral;
        state = state4;
        sent_at = t0;
        attempts = next_attempt ta.pending;
      }

      abbrev initiation : Bytes
      initiation =
          with_macs p pub_b (initiation_body p fa.index eph_a static_sent.cipher stamp_sent.cipher)

      abbrev tunnel_a : Tunn
      tunnel_a = between a b ta

      abbrev tunnel_b : Tunn
      tunnel_b = between b a tb

      step1 :
          new_initiation p fa t0 tunnel_a
          ≡ ok (initiation, record tunnel_a { pending = some waiting })
      unfolding new_initiation
      step1 = rw (static_sent.sends WgError, stamp_sent.sends WgError) refl

      abbrev consumed : ConsumedInitiation
      consumed = record {
        peer_public = pub_a;
        remote_index = fa.index;
        remote_ephemeral = eph_a;
        state = state4;
        timestamp = fa.timestamp;
      }

      step2 : consume_initiation p tunnel_b.local initiation ≡ ok consumed
      step2 =
          consume_initiation-reads p tunnel_b.local initiation
            (initiation_body p fa.index eph_a static_sent.cipher stamp_sent.cipher)
            (to_le 4 fa.index) eph_a static_sent.cipher stamp_sent.cipher pub_a fa.timestamp state2
            state4
            (with_macs-ReadsInitiation p sound pub_b fa.index eph_a static_sent.cipher
              stamp_sent.cipher (sound.length-public fa.ephemeral)
              (static_sent.size ∙ ap (λ n. n + 16) (sound.length-public a))
              (stamp_sent.size ∙ ap (λ n. n + 16) stamp))
            (rw (mix_dh-agrees p sound b fa.ephemeral _) (static_sent.receives WgError auth_failed))
            (sound.length-public a)
            (rw (mix_dh-agrees p sound b a _) (stamp_sent.receives WgError auth_failed)) stamp
          ∙ rw (from_le-to_le 4 fa.index a_fits) refl

      abbrev state5 : SymmetricState
      state5 = mix_key p eph_b (mix_hash p eph_b state4)

      abbrev state6 : SymmetricState
      state6 = mix_dh p fb.ephemeral pub_a (mix_dh p fb.ephemeral eph_a state5)

      abbrev state7 : SymmetricState
      state7 = mix_key_and_hash p (replicate 32 0) state6

      abbrev empty_sent : Sent p [] state7
      empty_sent = HasKey-Sent p sound [] state7 (mix_key_and_hash-HasKey p (replicate 32 0) state6)

      abbrev state8 : SymmetricState
      state8 = mix_hash p empty_sent.cipher state7

      abbrev response : Bytes
      response = with_macs p pub_a (response_body p fb.index fa.index eph_b empty_sent.cipher)

      abbrev session_a : Session
      session_a = initiator_session p waiting fb.index state8 t2

      abbrev session_b : Session
      session_b = record {
        local_index = fb.index;
        remote_index = fa.index;
        send_key = (split p state8).1;
        recv_key = (split p state8).0;
        send_counter = 0;
        replay = Replay.new;
        created = t1;
        is_initiator = false;
        confirmed = false;
      }

      step3 :
          accept_initiation p consumed fb t1 tunnel_b
          ≡ ok (
            response,
            record tunnel_b {
              last_initiation_ts = fa.timestamp;
              previous = tb.current;
              current = some session_b;
              pending = none;
            },
          )
      unfolding accept_initiation
      step3 = rw (text_eq_self pub_a, newer, empty_sent.sends WgError) refl

      step4 :
          finish_handshake p response t2 (record tunnel_a { pending = some waiting })
          ≡ ok (record tunnel_a { previous = ta.current; current = some session_a; pending = none })
      step4 =
          finish_handshake-reads p (record tunnel_a { pending = some waiting }) waiting response
            (response_body p fb.index fa.index eph_b empty_sent.cipher) (to_le 4 fb.index) eph_b
            empty_sent.cipher [] t2 state8 refl a_fits
            (with_macs-ReadsResponse p sound pub_a fb.index fa.index eph_b empty_sent.cipher
              (sound.length-public fb.ephemeral) empty_sent.size)
            (rw
              (
                mix_dh-agrees p sound fa.ephemeral fb.ephemeral _,
                mix_dh-agrees p sound a fb.ephemeral _,
              )
              (empty_sent.receives WgError auth_failed))
          ∙ rw (from_le-to_le 4 fb.index b_fits) refl

      -- A handshake between two tunnels that hold each other's public keys succeeds, if the
      -- initiation's timestamp is newer than the last one accepted: each side has a new current
      -- session, what one sends with the other receives with, and each names the other's index.
      pub exchange_agrees :
          (sa sb : Session) × (exchange fa fb t0 t1 t2 (between a b ta) (between b a tb)
            ≡ ok (
              record (between a b ta) { previous = ta.current; current = some sa; pending = none },
              record (between b a tb) {
                last_initiation_ts = fa.timestamp;
                previous = tb.current;
                current = some sb;
                pending = none;
              },
            ))
          × IsMirror sa sb
      unfolding exchange
      exchange_agrees = (
        session_a,
        session_b,
        rw (step1, step2, step3, step4) refl,
        record {
          forth = refl;
          back = refl;
          names_b = refl;
          names_a = refl;
          starts_a = refl;
          starts_b = refl;
          fresh_a = refl;
          fresh_b = refl;
        },
      )
