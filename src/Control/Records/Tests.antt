-- ===== src/Control/Records/Tests.antt =====
-- Two ends of a control connection, with primitives without secrecy.
use usb_camera_over_tailscal.Base.{◌≡◌, refl, true, List, [], ◌∷◌, arith, replicate, ok, err}
use usb_camera_over_tailscal.Crypto.{Bytes}
use usb_camera_over_tailscal.Crypto.Example.{plain, plain-IsSound}
use usb_camera_over_tailscal.Net.{timed_out, Conn, Read, got, failing}
use usb_camera_over_tailscal.Control.Handshake.Agree.{exchange, handshake_agrees}
use usb_camera_over_tailscal.Control.Records.{NoiseConn, new, read}
use usb_camera_over_tailscal.Control.Records.Timeout.{read-failing}

abbrev machine : Bytes
machine = replicate 32 1

abbrev control : Bytes
control = replicate 32 2

handshake_agrees_example :
    (a b : Bytes) × (exchange plain machine control (replicate 32 3) (replicate 32 4) 106
      ≡ ok (record { tx = a; rx = b }, record { tx = b; rx = a }, plain.x25519_public machine))
handshake_agrees_example =
    handshake_agrees plain plain-IsSound machine control (replicate 32 3) (replicate 32 4) 106
      (omega arith)

abbrev quiet : List Read → Conn
quiet reads = record { incoming = reads; sent = []; writable = true }

abbrev client : NoiseConn
client = new (quiet []) (record { tx = replicate 32 5; rx = replicate 32 6 }) []

abbrev server : List Read → Bytes → NoiseConn
server reads leftover =
    new (quiet reads) (record { tx = replicate 32 6; rx = replicate 32 5 }) leftover

-- The record of `hi`, in three pieces.
abbrev pieces : List Read
pieces = got (0 ∷ []) ∷ got (18 ∷ b'h' ∷ []) ∷ got (b'i' ∷ replicate 16 160) ∷ []

read-failing_example :
    read plain 100 (server (got (4 ∷ 0 ∷ []) ∷ failing timed_out ∷ got (18 ∷ []) ∷ []) [])
    ≡ (err timed_out, server (got (18 ∷ []) ∷ []) [])
unfolding new
read-failing_example =
    read-failing plain 100 4 (0 ∷ []) timed_out (got (18 ∷ []) ∷ [])
      (server (got (4 ∷ 0 ∷ []) ∷ failing timed_out ∷ got (18 ∷ []) ∷ []) []) (omega arith) refl
      refl (omega arith)
