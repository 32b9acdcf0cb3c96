-- ===== src/Control/Handshake/Agree.antt =====
-- The handshake of a client that holds the server's public key.
use usb_camera_over_tailscal.Base.{
  ℕ, ◌+◌, ◌%◌, ◌/◌, ◌<◌, ◌^◌, ◌≡◌, refl, ◌∙◌, ap, [], ◌++◌, append-nil, append_assoc, sym, arith,
  ==_refl, length, length-append, Exec, ok, ◌>>=◌, index, slice, slice-append, slice_part,
}
use usb_camera_over_tailscal.Base.Words.{u16_from_be, u16_to_be}
use usb_camera_over_tailscal.Crypto.{Bytes, Primitives, IsSound}
use usb_camera_over_tailscal.Net.{ErrorKind, permission_denied}
use usb_camera_over_tailscal.Noise.{SymmetricState, mix_hash, mix_dh, split}
use usb_camera_over_tailscal.Noise.Laws.{Sent, HasKey-Sent, mix_dh-HasKey, mix_dh-agrees}
use usb_camera_over_tailscal.Control.{SessionKeys, array, header, msg_initiation, msg_response}
use usb_camera_over_tailscal.Control.Handshake.{
  ClientHandshake, start_state, initiation_bytes, new, check_response, finish, check_initiation,
  response_bytes, read_initiation, server_handshake,
}

pub array-ok : {E : Type 0} (n : ℕ) (bs : Bytes) → length bs ≡ n → array {E = E} n bs ≡ ok bs
unfolding array
array-ok n bs h = rw (h, ==_refl n) refl

module _ (p : Primitives) where
  open p use {x25519_public}

  -- A client with one machine key and a server with one control key, whose messages all arrive: the keys of
  -- the client and of the server, and the machine key that the server learnt.
  pub exchange :
      Bytes → Bytes → Bytes → Bytes → ℕ → Exec ErrorKind (SessionKeys × SessionKeys × Bytes)
  exchange machine control ephemeral_c ephemeral_s version = do
    hs ← new p machine (x25519_public control) version ephemeral_c
    (server_keys, machine_pub, response) ← server_handshake p control ephemeral_s hs.initiation
    client_keys ← finish p response hs
    ok (client_keys, server_keys, machine_pub)

  tail_form : (e c t : Bytes) → e ++ (c ++ t) ≡ (e ++ c) ++ (t ++ [])
  tail_form e c t = sym (append_assoc e c (t ++ []) ∙ ap (λ l. e ++ (c ++ l)) (append-nil t))

  -- The parts of the messages.
  check_initiation-ok :
      (v : ℕ) (e c t : Bytes)
      → length e ≡ 32
      → length c ≡ 48
      → length t ≡ 16
      → check_initiation p (initiation_bytes p v e c t) ≡ ok tt
  unfolding check_initiation initiation_bytes
  check_initiation-ok v e c t le lc lt =
      let size : length (e ++ (c ++ t)) ≡ 96 =
        omega (arith, length-append e (c ++ t), length-append c t, le, lc, lt) in
      rw size refl

  high_part :
      (v : ℕ) (e c t : Bytes)
      → index {E = ErrorKind} (initiation_bytes p v e c t) 0 ≡ ok (v / 256 % 256)
  unfolding initiation_bytes
  high_part v e c t = refl

  low_part :
      (v : ℕ) (e c t : Bytes) → index {E = ErrorKind} (initiation_bytes p v e c t) 1 ≡ ok (v % 256)
  unfolding initiation_bytes
  low_part v e c t = refl

  ephemeral_part :
      (v : ℕ) (e c t : Bytes)
      → length e ≡ 32
      → slice {E = ErrorKind} (initiation_bytes p v e c t) 5 37 ≡ ok e
  unfolding initiation_bytes
  ephemeral_part v e c t le =
      slice-append 5 37 (u16_to_be v ++ header msg_initiation 96) e (c ++ t) refl
        (omega (arith, le))

  static_part :
      (v : ℕ) (e c t : Bytes)
      → length e ≡ 32
      → length c ≡ 48
      → slice {E = ErrorKind} (initiation_bytes p v e c t) 37 85 ≡ ok c
  unfolding initiation_bytes
  static_part v e c t le lc =
      slice-append 37 85 (u16_to_be v ++ (header msg_initiation 96 ++ e)) c t (omega (arith, le))
        (omega (arith, lc))

  tag_part :
      (v : ℕ) (e c t : Bytes)
      → length e ≡ 32
      → length c ≡ 48
      → length t ≡ 16
      → slice {E = ErrorKind} (initiation_bytes p v e c t) 85 101 ≡ ok t
  unfolding initiation_bytes
  tag_part v e c t le lc lt =
      slice_part (initiation_bytes p v e c t) 85 101
        (u16_to_be v ++ (header msg_initiation 96 ++ (e ++ c))) t []
        (ap (λ l. u16_to_be v ++ (header msg_initiation 96 ++ l)) (tail_form e c t))
        (omega (arith, length-append e c, le, lc)) (omega (arith, lt))

  check_response-ok :
      (e t : Bytes)
      → length e ≡ 32
      → length t ≡ 16
      → check_response p (response_bytes p e t) ≡ ok tt
  unfolding check_response response_bytes
  check_response-ok e t le lt =
      let size : length (e ++ t) ≡ 48 = omega (arith, length-append e t, le, lt) in rw size refl

  response_key :
      (e t : Bytes) → length e ≡ 32 → slice {E = ErrorKind} (response_bytes p e t) 3 35 ≡ ok e
  unfolding response_bytes
  response_key e t le = slice-append 3 35 (header msg_response 48) e t refl (omega (arith, le))

  response_tag :
      (e t : Bytes)
      → length e ≡ 32
      → length t ≡ 16
      → slice {E = ErrorKind} (response_bytes p e t) 35 51 ≡ ok t
  unfolding response_bytes
  response_tag e t le lt =
      slice_part (response_bytes p e t) 35 51 (header msg_response 48 ++ e) t []
        (ap (λ l. header msg_response 48 ++ (e ++ l)) (sym (append-nil t))) (omega (arith, le))
        (omega (arith, lt))

  module _ (sound : IsSound p) where
    module _ (machine control ephemeral_c ephemeral_s : Bytes) (version : ℕ)
        (fits : version < 2 ^ 16) where
      abbrev machine_pub : Bytes
      machine_pub = x25519_public machine

      abbrev control_pub : Bytes
      control_pub = x25519_public control

      abbrev eph_c : Bytes
      eph_c = x25519_public ephemeral_c

      abbrev eph_s : Bytes
      eph_s = x25519_public ephemeral_s

      abbrev state1 : SymmetricState
      state1 =
          mix_dh p ephemeral_c control_pub (mix_hash p eph_c (start_state p version control_pub))

      abbrev static_sent : Sent p machine_pub state1
      static_sent =
          HasKey-Sent p sound machine_pub state1 (mix_dh-HasKey p ephemeral_c control_pub _)

      abbrev state2 : SymmetricState
      state2 = mix_dh p machine control_pub (mix_hash p static_sent.cipher state1)

      abbrev tag_sent : Sent p [] state2
      tag_sent = HasKey-Sent p sound [] state2 (mix_dh-HasKey p machine control_pub _)

      abbrev state3 : SymmetricState
      state3 = mix_hash p tag_sent.cipher state2

      abbrev initiation : Bytes
      initiation = initiation_bytes p version eph_c static_sent.cipher tag_sent.cipher

      abbrev waiting : ClientHandshake
      waiting = record {
        state = state3;
        ephemeral_secret = ephemeral_c;
        machine_secret = machine;
        initiation = initiation;
      }

      size_e : length eph_c ≡ 32
      size_e = sound.length-public ephemeral_c

      size_c : length static_sent.cipher ≡ 48
      size_c = static_sent.size ∙ ap (λ n. n + 16) (sound.length-public machine)

      step1 : new p machine control_pub version ephemeral_c ≡ ok waiting
      unfolding new
      step1 =
          rw
            (
              static_sent.sends ErrorKind,
              array-ok {E = ErrorKind} 48 static_sent.cipher size_c,
              tag_sent.sends ErrorKind,
              array-ok {E = ErrorKind} 16 tag_sent.cipher tag_sent.size,
            )
            refl

      version_bytes : u16_from_be (version / 256 % 256) (version % 256) ≡ version
      version_bytes = omega (arith, fits)

      step2 : read_initiation p control initiation ≡ ok (state3, eph_c, machine_pub)
      unfolding read_initiation
      step2 =
          rw
            (
              check_initiation-ok version eph_c static_sent.cipher tag_sent.cipher size_e size_c
                  tag_sent.size,
              ephemeral_part version eph_c static_sent.cipher tag_sent.cipher size_e,
              static_part version eph_c static_sent.cipher tag_sent.cipher size_e size_c,
              tag_part version eph_c static_sent.cipher tag_sent.cipher size_e size_c tag_sent.size,
            )
            (rw
              (
                high_part version eph_c static_sent.cipher tag_sent.cipher,
                low_part version eph_c static_sent.cipher tag_sent.cipher,
                version_bytes,
                mix_dh-agrees p sound control ephemeral_c
                    (mix_hash p eph_c (start_state p version control_pub)),
                static_sent.receives ErrorKind permission_denied,
                array-ok {E = ErrorKind} 32 machine_pub (sound.length-public machine),
                mix_dh-agrees p sound control machine (mix_hash p static_sent.cipher state1),
                tag_sent.receives ErrorKind permission_denied,
              )
              refl)

      abbrev state4 : SymmetricState
      state4 =
          mix_dh p ephemeral_s machine_pub (mix_dh p ephemeral_s eph_c (mix_hash p eph_s state3))

      abbrev answer_sent : Sent p [] state4
      answer_sent = HasKey-Sent p sound [] state4 (mix_dh-HasKey p ephemeral_s machine_pub _)

      abbrev state5 : SymmetricState
      state5 = mix_hash p answer_sent.cipher state4

      abbrev response : Bytes
      response = response_bytes p eph_s answer_sent.cipher

      step3 :
          server_handshake p control ephemeral_s initiation
          ≡ ok (record { tx = (split p state5).1; rx = (split p state5).0 }, machine_pub, response)
      unfolding server_handshake
      step3 =
          rw
            (
              step2,
              answer_sent.sends ErrorKind,
              array-ok {E = ErrorKind} 16 answer_sent.cipher answer_sent.size,
            )
            refl

      size_s : length eph_s ≡ 32
      size_s = sound.length-public ephemeral_s

      step4 :
          finish p response waiting
          ≡ ok (record { tx = (split p state5).0; rx = (split p state5).1 })
      unfolding finish
      step4 =
          rw
            (
              check_response-ok eph_s answer_sent.cipher size_s answer_sent.size,
              response_key eph_s answer_sent.cipher size_s,
              response_tag eph_s answer_sent.cipher size_s answer_sent.size,
              mix_dh-agrees p sound ephemeral_c ephemeral_s (mix_hash p eph_s state3),
              mix_dh-agrees p sound machine ephemeral_s
                  (mix_dh p ephemeral_s eph_c (mix_hash p eph_s state3)),
              answer_sent.receives ErrorKind permission_denied,
            )
            refl

      -- With sound primitives and a protocol version of 16 bits, the handshake between a client and the
      -- server whose public key it holds succeeds: each side sends with the key that the other receives
      -- with, and the server learns the client's machine key.
      pub handshake_agrees :
          (a b : Bytes) × (exchange machine control ephemeral_c ephemeral_s version
            ≡ ok (record { tx = a; rx = b }, record { tx = b; rx = a }, x25519_public machine))
      unfolding exchange
      handshake_agrees = ((split p state5).0, (split p state5).1, rw (step1, step3, step4) refl)
