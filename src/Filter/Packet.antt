-- ===== src/Filter/Packet.antt =====
-- `parse_tuple` and `Filter::allows`: reading the tuple out of an IP packet.
use usb_camera_over_tailscal.Base.{
  ℕ, ◌*◌, ◌/◌, Bool, false, not, ◌||◌, List, ltb, ◌==◌, if◌then◌else◌, length, get_elem?, bit_and,
  arith, Bool-cases, inl, inr, ok, err, panic, ◌>>=◌, ◌>>◌, fail_if, try, index, slice, slice_from,
  Parse, reject, NoPanic, fail_if-NoPanic, try-NoPanic, index-NoPanic, slice-NoPanic,
  slice_from-NoPanic, NoPanic->>=,
}
use usb_camera_over_tailscal.Base.Words.{u16_from_be, from_be}
use usb_camera_over_tailscal.Ip.{IpAddr, v4, v6}
use usb_camera_over_tailscal.Filter.{Filter, Tuple, proto_tcp, proto_udp, allows_tuple}

-- Protocol, addresses and the bytes behind the IP header.
pub record Header : Type 0 where
  pub proto : ℕ
  pub src : IpAddr
  pub dst : IpAddr
  pub l4 : List ℕ

unfoldable pub header_v4 : List ℕ → Parse Header
header_v4 p = do
  fail_if (ltb (length p) 20) tt
  b0 ← index p 0
  let ihl = bit_and b0 0x0f * 4
  fail_if (ltb ihl 20 || ltb (length p) ihl) tt
  b6 ← index p 6
  b7 ← index p 7
  fail_if (not (bit_and (u16_from_be b6 b7) 0x1fff == 0)) tt
  proto ← index p 9
  src ← slice p 12 16
  dst ← slice p 16 20
  l4 ← slice_from p ihl
  ok (record { proto = proto; src = v4 (from_be 0 src); dst = v4 (from_be 0 dst); l4 = l4 })

unfoldable pub header_v6 : List ℕ → Parse Header
header_v6 p = do
  fail_if (ltb (length p) 40) tt
  src ← slice p 8 24
  dst ← slice p 24 40
  proto ← index p 6
  l4 ← slice_from p 40
  ok (record { proto = proto; src = v6 (from_be 0 src); dst = v6 (from_be 0 dst); l4 = l4 })

-- `p.first()? >> 4` chooses the version.
unfoldable pub header : List ℕ → Parse Header
header p = do
  b ← try tt (get_elem? p 0)
  if b / 16 == 4 then header_v4 p else if b / 16 == 6 then header_v6 p else reject

unfoldable pub transport_tcp : List ℕ → Parse (ℕ × Bool)
transport_tcp l4 = do
  fail_if (ltb (length l4) 14) tt
  flags ← index l4 13
  hi ← index l4 2
  lo ← index l4 3
  ok (u16_from_be hi lo, bit_and flags 0x02 == 0)

unfoldable pub transport_udp : List ℕ → Parse (ℕ × Bool)
transport_udp l4 = do
  fail_if (ltb (length l4) 8) tt
  hi ← index l4 2
  lo ← index l4 3
  ok (u16_from_be hi lo, false)

-- The destination port, and whether a TCP segment lacks SYN.
unfoldable pub transport : ℕ → List ℕ → Parse (ℕ × Bool)
transport proto l4 =
    if proto == proto_tcp
    then transport_tcp l4
    else if proto == proto_udp
    then transport_udp l4
    else ok (0, false)

unfoldable pub parse_tuple : List ℕ → Parse Tuple
parse_tuple p = do
  h ← header p
  t ← transport h.proto h.l4
  ok (record { proto = h.proto; src = h.src; dst = h.dst; dst_port = t.0; tcp_established = t.1 })

-- `Filter::allows`.
unfoldable pub allows : Filter → List ℕ → Parse Bool
allows f p = elim (parse_tuple p) [
  | ok t ↦ ok (allows_tuple f t)
  | err e ↦ ok false
  | panic ↦ panic
]

module _ (p : List ℕ) where
  header_v4-NoPanic : NoPanic (header_v4 p)
  unfolding header_v4
  header_v4-NoPanic = fail_if-NoPanic (ltb (length p) 20) tt _ λ long.
      index-NoPanic p 0 _ (ground arith) λ b0.
        fail_if-NoPanic (ltb (bit_and b0 0x0f * 4) 20 || ltb (length p) (bit_and b0 0x0f * 4)) tt _
          λ fits. index-NoPanic p 6 _ (ground arith) λ b6. index-NoPanic p 7 _ (ground arith) λ b7.
            fail_if-NoPanic (not (bit_and (u16_from_be b6 b7) 0x1fff == 0)) tt _ λ whole.
              index-NoPanic p 9 _ (ground arith) λ proto.
                slice-NoPanic p 12 16 _ (omega arith) (ground arith) λ src e.
                  slice-NoPanic p 16 20 _ (omega arith) (ground arith) λ dst e'.
                    slice_from-NoPanic p (bit_and b0 0x0f * 4) _ (ground arith) λ l4 e''. tt

  header_v6-NoPanic : NoPanic (header_v6 p)
  unfolding header_v6
  header_v6-NoPanic = fail_if-NoPanic (ltb (length p) 40) tt _ λ long.
      slice-NoPanic p 8 24 _ (omega arith) (ground arith) λ src e.
        slice-NoPanic p 24 40 _ (omega arith) (ground arith) λ dst e'.
          index-NoPanic p 6 _ (ground arith)
            λ proto. slice_from-NoPanic p 40 _ (ground arith) λ l4 e''. tt

  header-NoPanic : NoPanic (header p)
  unfolding header
  header-NoPanic =
      try-NoPanic tt (get_elem? p 0) _ λ b e. ground (arith, header_v4-NoPanic, header_v6-NoPanic)

transport_tcp-NoPanic : (l4 : List ℕ) → NoPanic (transport_tcp l4)
unfolding transport_tcp
transport_tcp-NoPanic l4 = fail_if-NoPanic (ltb (length l4) 14) tt _ λ long.
    index-NoPanic l4 13 _ (ground arith) λ flags.
      index-NoPanic l4 2 _ (ground arith) λ hi. index-NoPanic l4 3 _ (ground arith) λ lo. tt

transport_udp-NoPanic : (l4 : List ℕ) → NoPanic (transport_udp l4)
unfolding transport_udp
transport_udp-NoPanic l4 =
    fail_if-NoPanic (ltb (length l4) 8) tt _
      λ long. index-NoPanic l4 2 _ (ground arith) λ hi. index-NoPanic l4 3 _ (ground arith) λ lo. tt

transport-NoPanic : (proto : ℕ) (l4 : List ℕ) → NoPanic (transport proto l4)
unfolding transport
transport-NoPanic proto l4 = elim (Bool-cases (proto == proto_tcp)) [
  | inl tcp ↦ rw tcp (transport_tcp-NoPanic l4)
  | inr other ↦ elim (Bool-cases (proto == proto_udp)) [
    | inl udp ↦ rw (other, udp) (transport_udp-NoPanic l4)
    | inr neither ↦ rw (other, neither) tt
  ]
]

-- Reading a packet never indexes or slices out of range, whatever its bytes.
pub parse_tuple-NoPanic : (p : List ℕ) → NoPanic (parse_tuple p)
unfolding parse_tuple
parse_tuple-NoPanic p =
    NoPanic->>= (header p) _ (header-NoPanic p)
      λ h e. NoPanic->>= (transport h.proto h.l4) _ (transport-NoPanic h.proto h.l4) λ t e'. tt
