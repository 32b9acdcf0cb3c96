-- ===== src/Disco/Tests.antt =====
-- The round trip on the kinds of message that the source's test sends.
use usb_camera_over_tailscal.Base.{
  ℕ, ◌+◌, ◌*◌, ◌^◌, ◌≡◌, refl, true, some, List, [], ◌∷◌, arith, ok, NoPanic, replicate,
}
use usb_camera_over_tailscal.Ip.{v4, v6}
use usb_camera_over_tailscal.Crypto.{KeyPair}
use usb_camera_over_tailscal.Disco.{Message, ping, call_me_maybe, marshal, parse}
use usb_camera_over_tailscal.Disco.Packet.{
  NaclBox, is_disco, sender_key, seal, open_packet, open_packet-seal,
}
use usb_camera_over_tailscal.Disco.RoundTrip.{parse-marshal}
use usb_camera_over_tailscal.Disco.Total.{parse-NoPanic}

abbrev calls : Message
calls = call_me_maybe (
    record { ip = v4 3232235778; port = 41641 }
    ∷ record { ip = v6 (0xfd00 * 2 ^ 112 + 2); port = 41641 }
    ∷ [])

parse-marshal_example : parse (marshal calls) ≡ ok calls
parse-marshal_example = parse-marshal calls ((λ e. cc), omega arith)

parse-NoPanic_example : NoPanic (parse (2 ∷ 0 ∷ 7 ∷ []))
parse-NoPanic_example = parse-NoPanic (2 ∷ 0 ∷ 7 ∷ [])

-- A box that leaves the message as it is.
abbrev plain : NaclBox
plain = record {
  public_of = λ s. s;
  box_seal = λ a b n m. m;
  box_open = λ a b n m. some m;
  opens = λ a b n m. refl;
}

abbrev ours : KeyPair
ours = record { secret = replicate 32 1; public = replicate 32 1 }

abbrev theirs : KeyPair
theirs = record { secret = replicate 32 2; public = replicate 32 2 }

abbrev hello : Message
hello = ping (replicate 12 9) (some (replicate 32 7))

abbrev packet : List ℕ
packet = seal plain ours theirs.public (replicate 24 5) hello

open_packet-seal_example :
    (is_disco packet ≡ true)
    × (sender_key packet ≡ ok ours.public)
    × (open_packet plain theirs ours.public packet ≡ ok hello)
open_packet-seal_example =
    open_packet-seal plain ours theirs (replicate 24 5) hello
      (record { derived = refl; size = refl }) (record { derived = refl; size = refl }) refl
      (refl, refl, refl)
