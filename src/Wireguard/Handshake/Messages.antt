-- ===== src/Wireguard/Handshake/Messages.antt =====
-- The parts of an initiation and of a response, where the other side cuts them out.
use usb_camera_over_tailscal.Base.{
  ℕ, ◌≡◌, refl, ◌∙◌, ap, [], ◌∷◌, ◌++◌, append_assoc, arith, length, length-append, replicate, ok,
  index, slice, slice_part,
}
use usb_camera_over_tailscal.Base.Words.{to_le}
use usb_camera_over_tailscal.Crypto.{Bytes, Primitives, IsSound}
use usb_camera_over_tailscal.Wireguard.Tunnel.{WgError}
use usb_camera_over_tailscal.Wireguard.Handshake.{mac1_key, initiation_body, with_macs}

-- What a receiver reads of an initiation with these parts.
pub record ReadsInitiation (msg body mac idx e_pub enc_static enc_ts : Bytes) : Type 0 where
  pub size : length msg ≡ 148
  pub typ : index {E = WgError} msg 0 ≡ ok 1
  pub covered : slice {E = WgError} msg 0 116 ≡ ok body
  pub mac1 : slice {E = WgError} msg 116 132 ≡ ok mac
  pub sender : slice {E = WgError} msg 4 8 ≡ ok idx
  pub ephemeral : slice {E = WgError} msg 8 40 ≡ ok e_pub
  pub static_key : slice {E = WgError} msg 40 88 ≡ ok enc_static
  pub timestamp : slice {E = WgError} msg 88 116 ≡ ok enc_ts

module _ (p : Primitives) (sound : IsSound p) (public : Bytes) (n : ℕ) (e_pub st ts : Bytes)
    (e_size : length e_pub ≡ 32) (st_size : length st ≡ 48) (ts_size : length ts ≡ 28) where
  abbrev body : Bytes
  body = initiation_body p n e_pub st ts

  abbrev mac : Bytes
  mac = p.blake2s_mac16 (mac1_key p public) body

  abbrev msg : Bytes
  msg = with_macs p public body

  abbrev head : Bytes
  head = 1 ∷ 0 ∷ 0 ∷ 0 ∷ []

  abbrev tail : Bytes
  tail = mac ++ replicate 16 0

  body_size : length body ≡ 116
  unfolding initiation_body
  body_size = omega (
    arith,
    e_size,
    st_size,
    ts_size,
    length-append (to_le 4 n) (e_pub ++ (st ++ ts)),
    length-append e_pub (st ++ ts),
    length-append st ts,
  )

  -- The message, bracketed to the right.
  flat : msg ≡ head ++ (to_le 4 n ++ (e_pub ++ (st ++ (ts ++ tail))))
  unfolding with_macs initiation_body
  flat = simp append_assoc

  pub with_macs-ReadsInitiation : ReadsInitiation msg body mac (to_le 4 n) e_pub st ts
  unfolding with_macs
  with_macs-ReadsInitiation = record {
    size = omega (
      arith,
      length-append body tail,
      length-append mac (replicate 16 0),
      body_size,
      sound.length-mac16 (mac1_key p public) body,
    );
    typ = ap (λ m. index m 0) flat;
    covered = slice_part msg 0 116 [] body tail refl refl (omega (arith, body_size));
    mac1 =
        slice_part msg 116 132 body mac (replicate 16 0) refl body_size
          (omega (arith, sound.length-mac16 (mac1_key p public) body));
    sender = slice_part msg 4 8 head (to_le 4 n) (e_pub ++ (st ++ (ts ++ tail))) flat refl refl;
    ephemeral =
        slice_part msg 8 40 (head ++ to_le 4 n) e_pub (st ++ (ts ++ tail)) flat refl
          (omega (arith, e_size));
    static_key =
        slice_part msg 40 88 (head ++ (to_le 4 n ++ e_pub)) st (ts ++ tail)
          (flat ∙ simp append_assoc) (omega (arith, length-append (to_le 4 n) e_pub, e_size))
          (omega (arith, st_size));
    timestamp =
        slice_part msg 88 116 (head ++ (to_le 4 n ++ (e_pub ++ st))) ts tail
          (flat ∙ simp append_assoc) (omega (arith, length-append e_pub st, e_size, st_size))
          (omega (arith, ts_size));
  }
