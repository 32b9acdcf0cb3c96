-- ===== src/Filter/Protos.antt =====
-- The protocol numbers of a compiled rule.
use usb_camera_over_tailscal.Base.{
  ℕ, ◌≤◌, ◌<◌, ◌≡◌, ◌≢◌, refl, Bool, false, ◌||◌, Option, some, List, [], ◌∷◌, arith, any, ◌==◌,
  filter_map, ap,
}
use usb_camera_over_tailscal.Base.Int.{ℤ, pos, negsuc}
use usb_camera_over_tailscal.Base.Text.{Text}
use usb_camera_over_tailscal.Base.Words.{All}
use usb_camera_over_tailscal.Ip.{IpAddr}
use usb_camera_over_tailscal.Filter.{proto_in, proto_allowed, is_default_proto}
use usb_camera_over_tailscal.Filter.Compile.{FilterRule, to_u8, compile_rule}

-- A protocol number that a `u8` holds.
abbrev pub InRange : ℤ → Type 0
InRange (pos n) = n ≤ 255
InRange (negsuc n) = ⊥

-- One that it does not hold.
abbrev pub OutOfRange : ℤ → Type 0
OutOfRange (pos n) = 255 < n
OutOfRange (negsuc n) = Unit

-- The list names the number.
abbrev pub named : ℕ → List ℤ → Bool
named proto [] = false
named proto (pos n ∷ ps) = n == proto || named proto ps
named proto (negsuc n ∷ ps) = named proto ps

any-filter_map :
    (proto : ℕ) (ps : List ℤ)
    → All InRange ps
    → any (λ q. q == proto) (filter_map to_u8 ps) ≡ named proto ps
unfolding to_u8
any-filter_map proto [] h = refl
any-filter_map proto (pos n ∷ ps) h = ground (arith, any-filter_map proto ps)
any-filter_map proto (negsuc n ∷ ps) h = absurd h.0

filter_map-out : (ps : List ℤ) → All OutOfRange ps → filter_map to_u8 ps ≡ []
unfolding to_u8
filter_map-out [] h = refl
filter_map-out (pos n ∷ ps) h = ground (arith, filter_map-out ps)
filter_map-out (negsuc n ∷ ps) h = filter_map-out ps h.1

proto_in-named :
    (proto : ℕ) (ps : List ℤ)
    → ps ≢ []
    → All InRange ps
    → proto_in (filter_map to_u8 ps) proto ≡ named proto ps
unfolding proto_in to_u8
proto_in-named proto [] some_proto h = absurd (some_proto refl)
proto_in-named proto (pos n ∷ ps) some_proto h =
    ground (arith, any-filter_map proto ps h.1, some_head)
  where
    some_head : to_u8 (pos n) ≡ some n
    some_head = ground (arith, h.0)
proto_in-named proto (negsuc n ∷ ps) some_proto h = absurd h.0

module _ (parse_ip : Text → Option IpAddr) (r : FilterRule) (proto : ℕ) where
  -- A compiled rule whose protocol numbers all fit a byte, and that names at least one, allows
  -- exactly the protocols that it names.
  pub proto_allowed-named :
      r.ip_proto ≢ []
      → All InRange r.ip_proto
      → proto_allowed (compile_rule parse_ip r) proto ≡ named proto r.ip_proto
  unfolding proto_allowed compile_rule proto_in
  proto_allowed-named some_proto h = proto_in-named proto r.ip_proto some_proto h

  -- A rule that names only protocol numbers that no byte holds is compiled to one that allows
  -- TCP, UDP and ICMP, as a rule without protocol numbers does.
  pub proto_allowed-OutOfRange :
      All OutOfRange r.ip_proto
      → proto_allowed (compile_rule parse_ip r) proto ≡ is_default_proto proto
  unfolding proto_allowed compile_rule proto_in
  proto_allowed-OutOfRange h = ap (λ l. proto_in l proto) (filter_map-out r.ip_proto h)
