-- ===== src/Filter.antt =====
-- crates/tsnode/src/filter.rs: the packet filter. `IpSet`, `Rule`, `Filter` and the tests of a
-- packet's `Tuple` against them; the parsing of rules and of packets is in the children.
pub mod Compile
pub mod Packet
pub mod Cidr
pub mod Admits
pub mod Protos
mod Tests
use usb_camera_over_tailscal.Base.{
  ℕ, zero, suc, ◌+◌, ◌-◌, ◌*◌, ◌%◌, ◌^◌, Bool, true, false, not, ◌&&◌, ◌||◌, List, [], ◌∷◌, ltb,
  leb, ◌==◌, if◌then◌else◌, any, bit_and, min,
}
use usb_camera_over_tailscal.Ip.{IpAddr, v4, v6}

abbrev pub proto_icmp : ℕ
proto_icmp = 1

abbrev pub proto_tcp : ℕ
proto_tcp = 6

abbrev pub proto_udp : ℕ
proto_udp = 17

abbrev pub proto_icmpv6 : ℕ
proto_icmpv6 = 58

pub data IpSet : Type 0 where
  everything : IpSet
  cidr : IpAddr → ℕ → IpSet
  range : IpAddr → IpAddr → IpSet

-- `MAX << (width - bits)` in a word of `width` bits, and 0 for no bits.
unfoldable pub prefix_mask : ℕ → ℕ → ℕ
prefix_mask width bits = if bits == 0 then 0 else (2 ^ width - 1) * 2 ^ (width - bits) % 2 ^ width

unfoldable pub cidr_contains : IpAddr → ℕ → IpAddr → Bool
cidr_contains (v4 net) bits (v4 ip) =
    let mask = prefix_mask 32 (min bits 32) in bit_and net mask == bit_and ip mask
cidr_contains (v6 net) bits (v6 ip) =
    let mask = prefix_mask 128 (min bits 128) in bit_and net mask == bit_and ip mask
cidr_contains (v4 net) bits (v6 ip) = false
cidr_contains (v6 net) bits (v4 ip) = false

-- The `Range` case of `IpSet::contains`.
unfoldable pub range_contains : IpAddr → IpAddr → IpAddr → Bool
range_contains (v4 a) (v4 b) (v4 ip) = leb a ip && leb ip b
range_contains (v6 a) (v6 b) (v6 ip) = leb a ip && leb ip b
range_contains _ _ _ = false

unfoldable pub contains : IpSet → IpAddr → Bool
contains everything ip = true
contains (cidr net bits) ip = cidr_contains net bits ip
contains (range a b) ip = range_contains a b ip

-- A destination of a rule: its set, first port and last port.
pub record Dst : Type 0 where
  pub set : IpSet
  pub first : ℕ
  pub last : ℕ

pub record Rule : Type 0 where
  pub srcs : List IpSet
  pub dsts : List Dst
  pub protos : List ℕ

abbrev pub is_default_proto : ℕ → Bool
is_default_proto p = p == proto_tcp || p == proto_udp || p == proto_icmp || p == proto_icmpv6

-- The test of `proto_allowed` on the list of protocols, empty or not.
unfoldable pub proto_in : List ℕ → ℕ → Bool
proto_in [] proto = is_default_proto proto
proto_in (p ∷ ps) proto = any (λ q. q == proto) (p ∷ ps)

unfoldable pub proto_allowed : Rule → ℕ → Bool
proto_allowed r proto = proto_in r.protos proto

-- `Filter` is the list of its rules; `Filter::default` is the empty one.
pub record Filter : Type 0 where
  pub rules : List Rule

abbrev pub default : Filter
default = record { rules = [] }

unfoldable pub allow_all : Filter
allow_all = record {
  rules =
      record {
        srcs = everything ∷ [];
        dsts = record { set = everything; first = 0; last = 65535 } ∷ [];
        protos = [];
      }
      ∷ [];
}

pub record Tuple : Type 0 where
  pub proto : ℕ
  pub src : IpAddr
  pub dst : IpAddr
  pub dst_port : ℕ
  pub tcp_established : Bool

abbrev pub port_matters : ℕ → Bool
port_matters proto = proto == proto_tcp || proto == proto_udp

-- The closure over `r.dsts`.
unfoldable pub dst_hit : Tuple → Dst → Bool
dst_hit t d =
    contains d.set t.dst
    && (not (port_matters t.proto) || (leb d.first t.dst_port && leb t.dst_port d.last))

-- The loop over the rules.
unfoldable pub allows_rules : List Rule → Tuple → Bool
allows_rules [] t = false
allows_rules (r ∷ rs) t =
    let rest = allows_rules rs t in
    if not (proto_allowed r t.proto)
    then rest
    else if not (any (λ s. contains s t.src) r.srcs)
    then rest
    else if any (dst_hit t) r.dsts
    then true
    else rest

unfoldable pub allows_tuple : Filter → Tuple → Bool
allows_tuple f t =
    if t.proto == proto_tcp && t.tcp_established then true else allows_rules f.rules t
