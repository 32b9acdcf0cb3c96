-- ===== src/Filter/Compile.antt =====
-- `IpSet::parse` and `Filter::compile`. `IpAddr::from_str` is the standard library's: the reader
-- of addresses is a parameter.
use usb_camera_over_tailscal.Base.{
  ℕ, Bool, true, false, not, Option, none, some, List, ltb, leb, if◌then◌else◌, filter_map, map,
}
use usb_camera_over_tailscal.Base.Text.{Text, text_eq, chars, trim, split_once, parse_unsigned}
use usb_camera_over_tailscal.Base.Int.{ℤ, pos, negsuc}
use usb_camera_over_tailscal.Ip.{IpAddr, is_ipv4}
use usb_camera_over_tailscal.Filter.{IpSet, everything, cidr, range, Dst, Rule, Filter}

-- `NetPortRange` and `FilterRule` of crates/tsnode/src/types.rs.
pub record NetPortRange : Type 0 where
  pub ip : Text
  pub first : ℕ
  pub last : ℕ

pub record FilterRule : Type 0 where
  pub src_ips : List Text
  pub dst_ports : List NetPortRange
  pub ip_proto : List ℤ

infixl 5 ◌>>=◌
abbrev ◌>>=◌ : {A B : Type 0} → Option A → (A → Option B) → Option B
none >>= f = none
some a >>= f = f a

-- `xor` of two Booleans, as `!=` on them.
abbrev differ : Bool → Bool → Bool
differ true b = not b
differ false b = b

-- `u8::try_from` of an `i32`.
unfoldable pub to_u8 : ℤ → Option ℕ
to_u8 (pos n) = if leb n 255 then some n else none
to_u8 (negsuc n) = none

abbrev pub max_bits : IpAddr → ℕ
max_bits ip = if is_ipv4 ip then 32 else 128

module _ (parse_ip : Text → Option IpAddr) where
  parse_range : Text → Text → Option IpSet
  parse_range a b = do
    a' ← parse_ip a
    b' ← parse_ip b
    if differ (is_ipv4 a') (is_ipv4 b') then none else some (range a' b')

  parse_cidr : Text → Text → Option IpSet
  parse_cidr ip bits = do
    ip' ← parse_ip ip
    bits' ← parse_unsigned 255 bits
    if ltb (max_bits ip') bits' then none else some (cidr ip' bits')

  parse_single : Text → Option IpSet
  parse_single s = do ip ← parse_ip s; some (cidr ip (max_bits ip))

  -- `IpSet::parse` behind the `trim`.
  parse_trimmed : Text → Option IpSet
  unfolding parse_range parse_cidr parse_single
  parse_trimmed s = if text_eq s (chars "*") then some everything else elim (split_once b'-' s) [
    | some (a, b) ↦ parse_range a b
    | none ↦ elim (split_once b'/' s) [
      | some (ip, bits) ↦ parse_cidr ip bits
      | none ↦ parse_single s
    ]
  ]

  unfoldable pub parse_set : Text → Option IpSet
  unfolding parse_trimmed
  parse_set s = parse_trimmed (trim s)

  unfoldable pub compile_dst : NetPortRange → Option Dst
  compile_dst d = do s ← parse_set d.ip; some (record { set = s; first = d.first; last = d.last })

  unfoldable pub compile_rule : FilterRule → Rule
  compile_rule r = record {
    srcs = filter_map parse_set r.src_ips;
    dsts = filter_map compile_dst r.dst_ports;
    protos = filter_map to_u8 r.ip_proto;
  }

  unfoldable pub compile : List FilterRule → Filter
  compile rules = record { rules = map compile_rule rules }
