-- ===== src/Wireguard/Handshake/Replies.antt =====
-- The parts of a response, where the initiator cuts them out.
use usb_camera_over_tailscal.Base.{
  ℕ, ◌≡◌, refl, ◌∙◌, ap, [], ◌∷◌, ◌++◌, append_assoc, arith, length, length-append, replicate, ok,
  index, slice, slice_part,
}
use usb_camera_over_tailscal.Base.Words.{to_le}
use usb_camera_over_tailscal.Crypto.{Bytes, Primitives, IsSound}
use usb_camera_over_tailscal.Wireguard.Tunnel.{WgError}
use usb_camera_over_tailscal.Wireguard.Handshake.{mac1_key, response_body, with_macs}

-- What the initiator reads of a response with these parts.
pub record ReadsResponse (msg body mac idx receiver e_pub enc : Bytes) : Type 0 where
  pub size : length msg ≡ 92
  pub typ : index {E = WgError} msg 0 ≡ ok 2
  pub covered : slice {E = WgError} msg 0 60 ≡ ok body
  pub mac1 : slice {E = WgError} msg 60 76 ≡ ok mac
  pub sender : slice {E = WgError} msg 4 8 ≡ ok idx
  pub addressee : slice {E = WgError} msg 8 12 ≡ ok receiver
  pub ephemeral : slice {E = WgError} msg 12 44 ≡ ok e_pub
  pub empty : slice {E = WgError} msg 44 60 ≡ ok enc

module _ (p : Primitives) (sound : IsSound p) (public : Bytes) (m n : ℕ) (e_pub enc : Bytes)
    (e_size : length e_pub ≡ 32) (enc_size : length enc ≡ 16) where
  abbrev body : Bytes
  body = response_body p m n e_pub enc

  abbrev mac : Bytes
  mac = p.blake2s_mac16 (mac1_key p public) body

  abbrev msg : Bytes
  msg = with_macs p public body

  abbrev head : Bytes
  head = 2 ∷ 0 ∷ 0 ∷ 0 ∷ []

  abbrev tail : Bytes
  tail = mac ++ replicate 16 0

  body_size : length body ≡ 60
  unfolding response_body
  body_size = omega (arith, e_size, enc_size, length-append e_pub enc)

  -- The message, bracketed to the right.
  flat : msg ≡ head ++ (to_le 4 m ++ (to_le 4 n ++ (e_pub ++ (enc ++ tail))))
  unfolding with_macs response_body
  flat = simp append_assoc

  pub with_macs-ReadsResponse : ReadsResponse msg body mac (to_le 4 m) (to_le 4 n) e_pub enc
  unfolding with_macs
  with_macs-ReadsResponse = record {
    size = omega (
      arith,
      length-append body tail,
      length-append mac (replicate 16 0),
      body_size,
      sound.length-mac16 (mac1_key p public) body,
    );
    typ = ap (λ q. index q 0) flat;
    covered = slice_part msg 0 60 [] body tail refl refl (omega (arith, body_size));
    mac1 =
        slice_part msg 60 76 body mac (replicate 16 0) refl body_size
          (omega (arith, sound.length-mac16 (mac1_key p public) body));
    sender =
        slice_part msg 4 8 head (to_le 4 m) (to_le 4 n ++ (e_pub ++ (enc ++ tail))) flat refl refl;
    addressee =
        slice_part msg 8 12 (head ++ to_le 4 m) (to_le 4 n) (e_pub ++ (enc ++ tail)) flat refl refl;
    ephemeral =
        slice_part msg 12 44 (head ++ (to_le 4 m ++ to_le 4 n)) e_pub (enc ++ tail) flat refl
          (omega (arith, e_size));
    empty =
        slice_part msg 44 60 (head ++ (to_le 4 m ++ (to_le 4 n ++ e_pub))) enc tail
          (flat ∙ simp append_assoc) (omega (arith, e_size)) (omega (arith, enc_size));
  }
