-- ===== src/Filter/Tests.antt =====
-- The filter run on the rules and packets of the source's own tests.
use usb_camera_over_tailscal.Base.{
  ℕ, ◌+◌, ◌*◌, ◌/◌, ◌%◌, ◌≡◌, ◌↔◌, ◌⊎◌, refl, true, false, Option, none, some, List, [], ◌∷◌, ◌++◌,
  arith, ok, NoPanic, replicate, if◌then◌else◌,
}
use usb_camera_over_tailscal.Base.Int.{pos, negsuc}
use usb_camera_over_tailscal.Base.Text.{Text, text_eq, chars, trim, split_once, parse_unsigned}
use usb_camera_over_tailscal.Ip.{IpAddr, v4}
use usb_camera_over_tailscal.Filter.{
  Filter, Tuple, contains, cidr_contains, proto_allowed, proto_in, allows_tuple, allows_rules,
  dst_hit, prefix_mask, proto_tcp, is_default_proto,
}
use usb_camera_over_tailscal.Filter.Compile.{
  FilterRule, compile, compile_rule, compile_dst, parse_set, to_u8,
}
use usb_camera_over_tailscal.Filter.Packet.{
  allows, parse_tuple, header, header_v4, transport, transport_tcp, parse_tuple-NoPanic,
}
use usb_camera_over_tailscal.Filter.Cidr.{same_prefix, cidr_contains_prefix}
use usb_camera_over_tailscal.Filter.Admits.{Some, Admits, allows_tuple_iff}
use usb_camera_over_tailscal.Filter.Protos.{named, proto_allowed-named, proto_allowed-OutOfRange}

abbrev quad : ℕ → ℕ → ℕ → ℕ → ℕ
quad a b c d = ((a * 256 + b) * 256 + c) * 256 + d

-- A reader of the few addresses that the tests write.
abbrev read_ip : Text → Option IpAddr
read_ip s =
    if text_eq s (chars "100.64.0.0")
    then some (v4 (quad 100 64 0 0))
    else if text_eq s (chars "100.64.0.9")
    then some (v4 (quad 100 64 0 9))
    else none

abbrev camera_rule : FilterRule
camera_rule = record {
  src_ips = chars "100.64.0.0/10" ∷ [];
  dst_ports = record { ip = chars " 100.64.0.9/32"; first = 2300; last = 2300 } ∷ [];
  ip_proto = pos 6 ∷ [];
}

abbrev camera : Filter
camera = compile read_ip (camera_rule ∷ [])

-- `tcp4` of the tests: a segment to 100.64.0.9.
abbrev tcp4 : ℕ → ℕ → ℕ → List ℕ
tcp4 src_top port flags =
    0x45 ∷ replicate 8 0
    ++ (6
        ∷ 0
        ∷ 0
        ∷ src_top
        ∷ 64
        ∷ 0
        ∷ 1
        ∷ 100
        ∷ 64
        ∷ 0
        ∷ 9
        ∷ 0
        ∷ 0
        ∷ (port / 256)
        ∷ (port % 256)
        ∷ replicate 9 0)
    ++ (flags ∷ replicate 6 0)

syn_is_filtered :
    (allows camera (tcp4 100 2300 2) ≡ ok true)
    × (allows camera (tcp4 100 22 2) ≡ ok false)
    × (allows camera (tcp4 10 2300 2) ≡ ok false)
    × (allows camera (tcp4 10 22 16) ≡ ok true)
unfolding allows parse_tuple header header_v4 transport transport_tcp allows_tuple allows_rules
    dst_hit contains cidr_contains prefix_mask proto_allowed proto_in compile compile_rule
    compile_dst parse_set to_u8 trim split_once parse_unsigned
syn_is_filtered = (refl, refl, refl, refl)

parse_tuple-NoPanic_example : NoPanic (parse_tuple (0x45 ∷ 0 ∷ 0 ∷ []))
parse_tuple-NoPanic_example = parse_tuple-NoPanic (0x45 ∷ 0 ∷ 0 ∷ [])

cidr_contains_prefix_example :
    cidr_contains (v4 (quad 100 64 0 0)) 10 (v4 (quad 100 64 3 7))
    ≡ same_prefix (v4 (quad 100 64 0 0)) 10 (v4 (quad 100 64 3 7))
cidr_contains_prefix_example =
    cidr_contains_prefix (v4 (quad 100 64 0 0)) 10 (v4 (quad 100 64 3 7)) (omega arith)
      (omega arith) (omega arith)

abbrev ping : Tuple
ping = record {
  proto = 1;
  src = v4 (quad 100 64 3 7);
  dst = v4 (quad 100 64 0 9);
  dst_port = 0;
  tcp_established = false;
}

allows_tuple_iff_example :
    (allows_tuple camera ping ≡ true)
    ↔ (((ping.proto ≡ proto_tcp) × (ping.tcp_established ≡ true)) ⊎ Some (Admits ping) camera.rules)
allows_tuple_iff_example = allows_tuple_iff camera ping

proto_allowed-named_example :
    proto_allowed (compile_rule read_ip camera_rule) 17 ≡ named 17 camera_rule.ip_proto
proto_allowed-named_example = proto_allowed-named read_ip camera_rule 17 (λ e. cc) (omega arith)

abbrev stray_rule : FilterRule
stray_rule = record camera_rule { ip_proto = pos 256 ∷ negsuc 0 ∷ [] }

proto_allowed-OutOfRange_example :
    proto_allowed (compile_rule read_ip stray_rule) 17 ≡ is_default_proto 17
proto_allowed-OutOfRange_example = proto_allowed-OutOfRange read_ip stray_rule 17 (omega arith)
