-- ===== src/Wireguard/Handshake/Safe.antt =====
-- Messages from the network, whatever their bytes, and the panics of the handshake.
use usb_camera_over_tailscal.Base.{
  ℕ, ◌≡◌, Bool, true, false, not, Option, none, some, ◌==◌, if◌then◌else◌, arith, length, Exec, ok,
  err, ◌>>=◌, NoPanic, fail_if-NoPanic, index-NoPanic, slice-NoPanic, replicate, ==_refl,
}
use usb_camera_over_tailscal.Base.Text.{text_eq}
use usb_camera_over_tailscal.Base.Words.{from_le}
use usb_camera_over_tailscal.Crypto.{Bytes, KeyPair, Primitives, IsSound}
use usb_camera_over_tailscal.Noise.Laws.{
  mix_dh-HasKey, mix_key_and_hash-HasKey, decrypt_and_hash-NoPanic,
}
use usb_camera_over_tailscal.Wireguard.Tunnel.{
  WgError, bad_length, bad_type, bad_mac, bad_receiver, auth_failed, PendingInitiation, Tunn,
}
use usb_camera_over_tailscal.Wireguard.Handshake.{
  mac1_key, sized, consume_initiation, answered, finish_handshake,
}

abbrev E : Type 0
E = WgError

of_length : (n m : ℕ) → not (n == m) ≡ false → n ≡ m
of_length n m h = ground arith

sized-NoPanic :
    {B : Type 0} (n : ℕ) (b : Bytes) (f : Bytes → Exec E B)
    → length b ≡ n
    → NoPanic (f b)
    → NoPanic (sized n b >>= f)
unfolding sized
sized-NoPanic n b f e h = rw (e, ==_refl n) h

answered-NoPanic :
    {B : Type 0} (p : Primitives) (o : Option PendingInitiation) (n : ℕ)
    (f : PendingInitiation → Exec E B)
    → ((w : PendingInitiation) → NoPanic (f w))
    → NoPanic (answered p o n >>= f)
unfolding answered
answered-NoPanic p none n f h = tt
answered-NoPanic p (some w) n f h = by_index (w.local_index == n)
  where
    by_index : (b : Bool) → NoPanic ((if b then ok w else err bad_receiver) >>= f)
    by_index true = h w
    by_index false = tt

module _ (p : Primitives) (sound : IsSound p) where
  -- Reading an initiation never panics, given sound primitives.
  pub consume_initiation-NoPanic :
      (local : KeyPair) (msg : Bytes) → NoPanic (consume_initiation p local msg)
  unfolding consume_initiation
  consume_initiation-NoPanic local msg =
      fail_if-NoPanic (not (length msg == 148)) bad_length _ λ size.
        let long = of_length (length msg) 148 size in
        index-NoPanic msg 0 _ (omega (arith, long)) λ typ.
          fail_if-NoPanic (not (typ == 1)) bad_type _ λ _.
            slice-NoPanic msg 0 116 _ (omega arith) (omega (arith, long)) λ body _.
              slice-NoPanic msg 116 132 _ (omega arith) (omega (arith, long)) λ mac _.
                fail_if-NoPanic (not (text_eq (p.blake2s_mac16 (mac1_key p local.public) body) mac))
                  bad_mac _
                  λ _. slice-NoPanic msg 4 8 _ (omega arith) (omega (arith, long)) λ remote _.
                    slice-NoPanic msg 8 40 _ (omega arith) (omega (arith, long)) λ re _.
                      slice-NoPanic msg 40 88 _ (omega arith) (omega (arith, long)) λ enc_static e1.
                        decrypt_and_hash-NoPanic p sound auth_failed enc_static _ _
                          (mix_dh-HasKey p local.secret re _)
                          λ q l1. sized-NoPanic 32 q.0 _ (omega (arith, l1, e1)) (
                            slice-NoPanic msg 88 116 _ (omega arith) (omega (arith, long))
                              λ enc_ts e2.
                                decrypt_and_hash-NoPanic p sound auth_failed enc_ts _ _
                                  (mix_dh-HasKey p local.secret q.0 _)
                                  λ r l2. sized-NoPanic 12 r.0 _ (omega (arith, l2, e2)) tt)

  -- Reading a response never panics, given sound primitives.
  pub finish_handshake-NoPanic :
      (msg : Bytes) (now : ℕ) (t : Tunn) → NoPanic (finish_handshake p msg now t)
  unfolding finish_handshake
  finish_handshake-NoPanic msg now t = fail_if-NoPanic (not (length msg == 92)) bad_length _ λ size.
      let long = of_length (length msg) 92 size in
      index-NoPanic msg 0 _ (omega (arith, long)) λ typ.
        fail_if-NoPanic (not (typ == 2)) bad_type _ λ _.
          slice-NoPanic msg 0 60 _ (omega arith) (omega (arith, long)) λ body _.
            slice-NoPanic msg 60 76 _ (omega arith) (omega (arith, long)) λ mac _.
              fail_if-NoPanic (not (text_eq (p.blake2s_mac16 (mac1_key p t.local.public) body) mac))
                bad_mac _
                λ _. slice-NoPanic msg 4 8 _ (omega arith) (omega (arith, long)) λ remote _.
                  slice-NoPanic msg 8 12 _ (omega arith) (omega (arith, long)) λ receiver _.
                    answered-NoPanic {B = Tunn} p t.pending (from_le receiver) _ λ w.
                      slice-NoPanic msg 12 44 _ (omega arith) (omega (arith, long)) λ re _.
                        slice-NoPanic msg 44 60 _ (omega arith) (omega (arith, long)) λ enc _.
                          decrypt_and_hash-NoPanic p sound auth_failed enc _ _
                            (mix_key_and_hash-HasKey p (replicate 32 0) _) λ q _. tt
