-- ===== src/Wireguard/Transport/Deliver.antt =====
-- What `seal` sends, `consume_transport` delivers.
use usb_camera_over_tailscal.Base.{
  ℕ, ◌-◌, ◌<◌, ◌≤◌, ◌^◌, ◌≡◌, refl, ◌∙◌, sym, ap, Bool, true, [], ◌∷◌, ◌++◌, none, some, ==_refl,
  le→leb, not_leb, not_ltb, arith, length, length-append, take-append, ok, index, slice, slice_part,
  slice_from, slice_from-append,
}
use usb_camera_over_tailscal.Base.Words.{to_le, from_le, from_le-to_le}
use usb_camera_over_tailscal.Crypto.{Bytes, Primitives, IsSound}
use usb_camera_over_tailscal.Wireguard.Replay.{check_and_update}
use usb_camera_over_tailscal.Wireguard.Tunnel.{WgError, Session, Tunn, ip_packet_len}
use usb_camera_over_tailscal.Wireguard.Tunnel.PacketLen.{ip_packet_len-append, ip_packet_len-nil}
use usb_camera_over_tailscal.Wireguard.Transport.{
  pad, named, session_slot, put_slot, clip, deliver, seal, receive, consume_transport,
}

module _ (p : Primitives) where
  -- A transport message as its parts.
  consume_transport-reads :
      (msg idx count ct pt : Bytes) (s : Session) (is_current : Bool) (now : ℕ) (t : Tunn)
      → 32 ≤ length msg
      → index {E = WgError} msg 0 ≡ ok 4
      → slice {E = WgError} msg 4 8 ≡ ok idx
      → slice {E = WgError} msg 8 16 ≡ ok count
      → slice_from {E = WgError} msg 16 ≡ ok ct
      → session_slot (named (from_le idx) t.current) (named (from_le idx) t.previous)
        ≡ ok (s, is_current)
      → now - s.created < 180
      → p.aead_decrypt s.recv_key (from_le count) ct [] ≡ some pt
      → consume_transport p msg now t ≡ receive s is_current (from_le count) pt now t
  unfolding consume_transport
  consume_transport-reads msg idx count ct pt s is_current now t size typ e1 e2 e3 slot young
        plain =
      rw (e1, e2, e3, typ, not_ltb (length msg) 32 size)
        (rw (slot, not_leb 180 (now - s.created) young, plain) refl)

  module _ (sound : IsSound p) (pkt : Bytes) (s : Session) where
    abbrev head : Bytes
    head = 4 ∷ 0 ∷ 0 ∷ 0 ∷ []

    abbrev sent : Bytes
    sent = p.aead_encrypt s.send_key s.send_counter (pad pkt) []

    abbrev msg : Bytes
    msg = (seal p pkt s).0

    sent_size : 16 ≤ length sent
    sent_size = omega (arith, sound.length-encrypt s.send_key s.send_counter (pad pkt) [])

    abbrev idx : Bytes
    idx = to_le 4 s.remote_index

    abbrev count : Bytes
    count = to_le 8 s.send_counter

    -- The receiver of a sealed packet gets as far as the replay window with it.
    pub consume_transport-seal_receive :
        (r : Session) (is_current : Bool) (now : ℕ) (t : Tunn)
        → s.send_key ≡ r.recv_key
        → s.remote_index < 256 ^ 4
        → s.send_counter < 256 ^ 8
        → session_slot (named s.remote_index t.current) (named s.remote_index t.previous)
          ≡ ok (r, is_current)
        → now - r.created < 180
        → consume_transport p msg now t ≡ receive r is_current s.send_counter (pad pkt) now t
    unfolding seal
    consume_transport-seal_receive r is_current now t keys fits counts slot young =
        consume_transport-reads msg idx count sent (pad pkt) r is_current now t
          (omega (arith, sent_size)) refl
          (slice_part msg 4 8 head idx (count ++ sent) refl refl refl)
          (slice_part msg 8 16 (head ++ idx) count sent refl refl refl)
          (slice_from-append 16 (head ++ (idx ++ count)) sent refl)
          (rw (from_le-to_le 4 s.remote_index fits) slot) young
          (rw (from_le-to_le 8 s.send_counter counts, sym keys)
            (sound.decrypts s.send_key s.send_counter (pad pkt) []))
        ∙ rw (from_le-to_le 8 s.send_counter counts) refl

-- The padding is taken off, by the length in the header of the packet.
clip-pad : (pkt zs : Bytes) → clip (pkt ++ zs) (some (length pkt)) ≡ pkt
unfolding clip
clip-pad pkt zs =
    rw (le→leb (length pkt) (length (pkt ++ zs)) (omega (arith, length-append pkt zs)))
      (take-append (length pkt) pkt zs refl)

deliver-pad :
    (pkt : Bytes) (t : Tunn)
    → ip_packet_len pkt ≡ ok (some (length pkt))
    → deliver (pad pkt) t ≡ ok (some pkt, record t { need_keepalive = true })
unfolding deliver pad
deliver-pad [] t e = cc (e, ip_packet_len-nil)
deliver-pad (b ∷ pkt) t e =
    rw (ip_packet_len-append (b ∷ pkt) _ (length (b ∷ pkt)) e)
      (ap (λ q. ok (some q, record t { need_keepalive = true })) (clip-pad (b ∷ pkt) _))

-- The tunnel after a packet under its current session: the counter is marked, and the session
-- before it is gone.
abbrev pub after_packet : Session → ℕ → ℕ → Tunn → Tunn
after_packet r counter now t = record t {
  current = some (record r { replay = (check_and_update r.replay counter).0; confirmed = true });
  previous = none;
  last_received = some now;
  need_keepalive = true;
}

-- A receiver index that the current session has picks it.
pub picked :
    (receiver : ℕ) (q : Session) (t : Tunn)
    → t.current ≡ some q
    → q.local_index ≡ receiver
    → session_slot (named receiver t.current) (named receiver t.previous) ≡ ok (q, true)
unfolding session_slot named
picked receiver q t e same = rw (e, same, ==_refl receiver) refl

module _ (p : Primitives) (sound : IsSound p) (pkt : Bytes) (s r : Session) (now : ℕ) (t : Tunn)
    (keys : s.send_key ≡ r.recv_key) (index_fits : s.remote_index < 256 ^ 4)
    (counter_fits : s.send_counter < 256 ^ 8) (current : t.current ≡ some r)
    (names : r.local_index ≡ s.remote_index) (young : now - r.created < 180)
    (unseen : (check_and_update r.replay s.send_counter).1 ≡ true)
    (packet : ip_packet_len pkt ≡ ok (some (length pkt))) where
  -- A packet that is sealed under one end of a session reaches the holder of the other end as it
  -- was, if that session is its current one and not yet 180 seconds old, the counter is new to the
  -- replay window, and the header states the packet's length.
  pub consume_transport-seal :
      consume_transport p (seal p pkt s).0 now t
      ≡ ok (some pkt, after_packet r s.send_counter now t)
  unfolding receive put_slot
  consume_transport-seal =
      consume_transport-seal_receive p sound pkt s r true now t keys index_fits counter_fits
        (picked s.remote_index r t current names) young
      ∙ rw unseen (deliver-pad pkt _ packet)
