-- ===== src/Derp/Tests.antt =====
-- What a client reads from its relay.
use usb_camera_over_tailscal.Base.{◌≡◌, refl, true, false, [], ◌∷◌, ◌++◌, none, arith, replicate}
use usb_camera_over_tailscal.Base.Text.{chars}
use usb_camera_over_tailscal.Net.{got}
use usb_camera_over_tailscal.Derp.{DerpClient, frame_bytes, prefix_reads}
use usb_camera_over_tailscal.Derp.Frames.{Received, recv-frame_bytes}

-- Three bytes of the frame are in the buffer, the others come in two reads, the second with a byte
-- of the next frame.
abbrev client : DerpClient
client = record {
  conn = record {
    incoming = got (0 ∷ 34 ∷ replicate 20 7) ∷ got (replicate 12 7 ++ chars "hi" ++ (6 ∷ [])) ∷ [];
    sent = [];
    writable = true;
  };
  inbuf = 5 ∷ 0 ∷ 0 ∷ [];
  server_key = replicate 32 0;
  last_activity = 0;
  last_ping_sent = none;
}

recv-frame_bytes_example : Received (λ k. false) 12 client (replicate 32 7) (chars "hi") (6 ∷ [])
unfolding frame_bytes
recv-frame_bytes_example =
    recv-frame_bytes (λ k. false) 12 (replicate 32 7) (chars "hi") (6 ∷ []) client (λ k. refl) refl
      (omega arith) tt refl

-- A prefix that is longer than the buffer comes in two reads.
prefix_reads_test :
    prefix_reads 260 (replicate 256 1 ++ replicate 4 2)
    ≡ got (replicate 256 1) ∷ got (replicate 4 2) ∷ []
unfolding prefix_reads
prefix_reads_test = refl
