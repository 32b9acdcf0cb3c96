-- ===== src/Stun/Tests.antt =====
-- The request and the response of the source's test.
use usb_camera_over_tailscal.Base.{◌≡◌, refl, [], ◌∷◌, ◌++◌, ok, NoPanic, replicate}
use usb_camera_over_tailscal.Crypto.{Bytes}
use usb_camera_over_tailscal.Ip.{v4}
use usb_camera_over_tailscal.Stun.{
  is_stun, parse_response, scan, attribute_step, read_attribute, found_or, parse_mapped, mapped_ip,
  unmask, unmask_port, xor_bytes, or_else,
}
use usb_camera_over_tailscal.Stun.Laws.{parse_response-NoPanic}

abbrev txid : Bytes
txid = replicate 12 7

-- 203.0.113.9:41641.
abbrev response : Bytes
response =
    (1 ∷ 1 ∷ 0 ∷ 12 ∷ 0x21 ∷ 0x12 ∷ 0xa4 ∷ 0x42 ∷ [])
    ++ (txid ++ (0 ∷ 0x20 ∷ 0 ∷ 8 ∷ 0 ∷ 1 ∷ 131 ∷ 187 ∷ 234 ∷ 18 ∷ 213 ∷ 75 ∷ []))

parse_response_test :
    parse_response response ≡ ok (txid, record { ip = v4 3405803785; port = 41641 })
unfolding parse_response is_stun scan attribute_step read_attribute found_or parse_mapped mapped_ip
    unmask unmask_port xor_bytes or_else
parse_response_test = refl

parse_response-NoPanic_example : NoPanic (parse_response response)
parse_response-NoPanic_example = parse_response-NoPanic response
