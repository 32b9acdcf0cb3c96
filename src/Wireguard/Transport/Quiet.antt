-- ===== src/Wireguard/Transport/Quiet.antt =====
-- What a tunnel with a young session does not send, and the panics of its data path.
use usb_camera_over_tailscal.Base.{
  ℕ, ◌-◌, ◌<◌, ◌++◌, ◌≡◌, refl, ap, ◌∙◌, Bool, true, false, not, List, [], Option, none, some,
  not_leb, if◌then◌else◌, ◌||◌, ◌&&◌, replicate, Exec, ok, ◌>>=◌,
}
use usb_camera_over_tailscal.Base.Text.{text_eq}
use usb_camera_over_tailscal.Crypto.{Bytes, Primitives, IsSound}
use usb_camera_over_tailscal.Noise.{SymmetricState, mix_hash, mix_key, mix_key_and_hash, mix_dh}
use usb_camera_over_tailscal.Noise.Laws.{Sent, HasKey-Sent, mix_key_and_hash-HasKey}
use usb_camera_over_tailscal.Wireguard.Tunnel.{
  WgError, Session, PendingInitiation, Tunn, ConsumedInitiation, Fresh, bytes_le,
}
use usb_camera_over_tailscal.Wireguard.Handshake.{
  accept_initiation, initiate_by, initiate_if_needed,
}
use usb_camera_over_tailscal.Wireguard.Transport.{
  is_some, is_empty, to_list, unless_expired, expire, encapsulate, tick, tick_handshake, keepalive,
}

unless_expired-young :
    (now : ℕ) (s : Session) → now - s.created < 180 → unless_expired now (some s) ≡ some s
unfolding unless_expired
unless_expired-young now s young = rw (not_leb 180 (now - s.created) young) refl

module _ (p : Primitives) where
  initiate_if_needed-live :
      (fresh : Fresh) (now : ℕ) (t : Tunn) (s : Session)
      → t.current ≡ some s
      → initiate_if_needed p fresh now t ≡ ok (none, t)
  unfolding initiate_if_needed initiate_by
  initiate_if_needed-live fresh now t s e = simp e

  tick_handshake-live :
      (fresh : Fresh) (now : ℕ) (t : Tunn) (s : Session)
      → t.current ≡ some s
      → tick_handshake p fresh now t ≡ ok ([], t)
  unfolding tick_handshake to_list
  tick_handshake-live fresh now t s e =
      either (is_some t.pending || (not (is_empty t.queued) && not (is_some t.current)))
    where
      either :
          (b : Bool)
          → (if b
              then ◌>>=◌ {B = List Bytes × Tunn}
                  (initiate_if_needed p fresh now t)
                  (λ r. ok (to_list r.0, r.1))
              else ok ([], t))
            ≡ ok ([], t)
      either true = simp (initiate_if_needed-live fresh now t s e) refl
      either false = refl

  keepalive-quiet : (now : ℕ) (t : Tunn) → t.need_keepalive ≡ false → keepalive p now t ≡ ([], t)
  unfolding keepalive
  keepalive-quiet now t quiet = simp quiet refl

  expire-current :
      (now : ℕ) (t : Tunn) (s : Session)
      → t.current ≡ some s
      → now - s.created < 180
      → (expire now t).current ≡ some s
  unfolding expire
  expire-current now t s e young = ap (unless_expired now) e ∙ unless_expired-young now s young

  expire-quiet :
      (now : ℕ) (t : Tunn) → t.need_keepalive ≡ false → (expire now t).need_keepalive ≡ false
  unfolding expire
  expire-quiet now t quiet = quiet

  -- While the current session is less than 180 seconds old and no keepalive is due, `tick` sends
  -- nothing, whatever is pending or queued.
  pub tick_live :
      (fresh : Fresh) (now : ℕ) (t : Tunn) (s : Session)
      → t.current ≡ some s
      → now - s.created < 180
      → t.need_keepalive ≡ false
      → tick p fresh now t ≡ ok ([], expire now t)
  unfolding tick
  tick_live fresh now t s e young quiet =
      simp
        (
          tick_handshake-live fresh now (expire now t) s (expire-current now t s e young),
          keepalive-quiet now (expire now t) (expire-quiet now t quiet),
        )
        refl

  -- What `tick` sends, and what still waits then.
  pub tick_queue : Fresh → ℕ → Tunn → Exec WgError (List Bytes × List Bytes)
  tick_queue fresh now t = tick p fresh now t >>= λ q. ok (q.0, q.1.queued)

  -- An accepted initiation does not release the packets that wait for a session: none is sent with
  -- the response, nor by `tick` while the new session is young and no keepalive is due.
  pub accept_initiation-tick :
      (ci : ConsumedInitiation) (fresh fresh' : Fresh) (now later : ℕ) (t : Tunn)
      → text_eq ci.peer_public t.peer_public ≡ true
      → bytes_le ci.timestamp t.last_initiation_ts ≡ false
      → t.need_keepalive ≡ false
      → later - now < 180
      → IsSound p
      → (accept_initiation p ci fresh now t >>= λ r. tick_queue fresh' later r.1)
        ≡ ok ([], t.queued)
  unfolding accept_initiation tick_queue expire
  accept_initiation-tick ci fresh fresh' now later t same newer quiet young sound =
      rw (same, newer, sent.sends WgError)
        (ap {B = Exec WgError (List Bytes × List Bytes)} (λ m. m >>= λ q. ok (q.0, q.1.queued))
          (tick_live fresh' later _ _ refl young quiet))
    where
      e_pub : Bytes
      e_pub = p.x25519_public fresh.ephemeral

      state : SymmetricState
      state = mix_dh p fresh.ephemeral t.peer_public (
          mix_dh p fresh.ephemeral ci.remote_ephemeral
            (mix_key p e_pub (mix_hash p e_pub ci.state)))

      sent : Sent p [] (mix_key_and_hash p (replicate 32 0) state)
      sent =
          HasKey-Sent p sound [] (mix_key_and_hash p (replicate 32 0) state)
            (mix_key_and_hash-HasKey p (replicate 32 0) state)

  -- Sends a packet, then lets `tick` run: what goes out, and the initiation that waits then.
  pub send_then_tick :
      Fresh → Bytes → ℕ → Fresh → ℕ → Tunn → Exec WgError (List Bytes × Option PendingInitiation)
  send_then_tick fresh pkt now fresh' later t = do
    (out, t') ← encapsulate p fresh pkt now t
    (more, t'') ← tick p fresh' later t'
    ok (out ++ more, t''.pending)
