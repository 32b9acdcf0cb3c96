-- ===== src/Wireguard/Handshake/Tests.antt =====
-- A handshake between two new tunnels.
use usb_camera_over_tailscal.Base.{ℕ, NoPanic, ◌∷◌, ◌≡◌, refl, some, none, [], arith, ok, replicate}
use usb_camera_over_tailscal.Crypto.{Bytes}
use usb_camera_over_tailscal.Crypto.Example.{plain, plain-IsSound}
use usb_camera_over_tailscal.Wireguard.Tunnel.{Session, Tunn, Fresh, new_tunn}
use usb_camera_over_tailscal.Wireguard.Handshake.{consume_initiation, finish_handshake}
use usb_camera_over_tailscal.Wireguard.Handshake.Safe.{
  consume_initiation-NoPanic, finish_handshake-NoPanic,
}
use usb_camera_over_tailscal.Wireguard.Handshake.Exchange.{
  IsMirror, between, exchange, exchange_agrees,
}

abbrev fresh_a : Fresh
fresh_a = record { ephemeral = replicate 32 3; index = 1000; timestamp = replicate 12 1 }

abbrev fresh_b : Fresh
fresh_b = record { ephemeral = replicate 32 4; index = 2000; timestamp = replicate 12 1 }

abbrev secret_a : Bytes
secret_a = replicate 32 1

abbrev secret_b : Bytes
secret_b = replicate 32 2

abbrev tunnel : Tunn
tunnel = new_tunn (record { secret = []; public = [] }) []

exchange_agrees_example :
    (sa sb : Session) × (exchange plain fresh_a fresh_b 0 1 2
        (between plain secret_a secret_b tunnel)
        (between plain secret_b secret_a tunnel)
      ≡ ok (
        record (between plain secret_a secret_b tunnel) {
          previous = tunnel.current;
          current = some sa;
          pending = none;
        },
        record (between plain secret_b secret_a tunnel) {
          last_initiation_ts = fresh_a.timestamp;
          previous = tunnel.current;
          current = some sb;
          pending = none;
        },
      ))
    × IsMirror sa sb
unfolding new_tunn
exchange_agrees_example =
    exchange_agrees plain plain-IsSound secret_a secret_b fresh_a fresh_b 0 1 2 tunnel tunnel
      (omega arith) (omega arith) refl refl

-- A message of the right length and type, with nothing else right.
abbrev junk : ℕ → ℕ → Bytes
junk typ n = typ ∷ replicate n 0xff

consume_initiation-NoPanic_example :
    NoPanic
      (consume_initiation plain (record { secret = secret_a; public = secret_b }) (junk 1 147))
consume_initiation-NoPanic_example =
    consume_initiation-NoPanic plain plain-IsSound (record { secret = secret_a; public = secret_b })
      (junk 1 147)

finish_handshake-NoPanic_example : NoPanic (finish_handshake plain (junk 2 91) 5 tunnel)
finish_handshake-NoPanic_example = finish_handshake-NoPanic plain plain-IsSound (junk 2 91) 5 tunnel
