-- ===== src/Disco.antt =====
-- crates/tsnode/src/disco.rs: the NAT-traversal messages. `Message` with `marshal` and `parse`,
-- and the layout of a sealed packet.
pub mod Packet
pub mod RoundTrip
pub mod Total
mod Tests
use usb_camera_over_tailscal.Base.{
  ℕ, zero, suc, ◌+◌, ◌-◌, ◌*◌, ◌/◌, ◌%◌, ◌^◌, ◌<◌, ◌≡◌, Bool, true, false, not, ◌&&◌, ◌||◌, List,
  [], ◌∷◌, ◌++◌, ltb, ◌==◌, if◌then◌else◌, length, take, drop, replicate, Option, none, some, Exec,
  ok, err, panic, ◌>>=◌, ◌>>◌, fail_if, index, slice, slice_from, Parse, reject,
}
use usb_camera_over_tailscal.Base.Words.{u16_from_be, u16_to_be, from_be, to_be}
use usb_camera_over_tailscal.Base.Text.{text_eq}
use usb_camera_over_tailscal.Ip.{IpAddr, v4, v6, SocketAddr}

abbrev pub type_ping : ℕ
type_ping = 1

abbrev pub type_pong : ℕ
type_pong = 2

abbrev pub type_call_me_maybe : ℕ
type_call_me_maybe = 3

abbrev pub version : ℕ
version = 0

pub data Message : Type 0 where
  ping : List ℕ → Option (List ℕ) → Message
  pong : List ℕ → SocketAddr → Message
  call_me_maybe : List SocketAddr → Message

-- The IPv4-mapped range `::ffff:a.b.c.d` of the IPv6 addresses.
abbrev pub mapped_prefix : ℕ
mapped_prefix = 0xffff * 2 ^ 32

-- `ip16`: the octets of the address, an IPv4 address mapped into IPv6.
unfoldable pub ip16 : IpAddr → List ℕ
ip16 (v4 a) = to_be 16 (mapped_prefix + a)
ip16 (v6 a) = to_be 16 a

-- `from_ip16`, on sixteen octets.
unfoldable pub from_ip16 : List ℕ → IpAddr
from_ip16 b = let a = from_be 0 b in if a / 2 ^ 32 == 0xffff then v4 (a % 2 ^ 32) else v6 a

-- An address and its port, as the messages carry them.
unfoldable pub put_endpoint : SocketAddr → List ℕ
put_endpoint e = ip16 e.ip ++ u16_to_be e.port

unfoldable pub put_endpoints : List SocketAddr → List ℕ
put_endpoints [] = []
put_endpoints (e ∷ es) = put_endpoint e ++ put_endpoints es

-- The node key of a ping, if it has one.
unfoldable pub put_key : Option (List ℕ) → List ℕ
put_key none = []
put_key (some k) = k

unfoldable pub marshal : Message → List ℕ
marshal (ping txid node_key) = type_ping ∷ version ∷ txid ++ put_key node_key
marshal (pong txid src) = type_pong ∷ version ∷ txid ++ put_endpoint src
marshal (call_me_maybe endpoints) = type_call_me_maybe ∷ version ∷ put_endpoints endpoints

-- The endpoint in one chunk of 18 bytes.
unfoldable pub get_endpoint : List ℕ → Parse SocketAddr
get_endpoint c = do
  a ← slice c 0 16
  hi ← index c 16
  lo ← index c 17
  ok (record { ip = from_ip16 a; port = u16_from_be hi lo })

-- `as_chunks::<18>().0` with the closure on each chunk; the fuel is the number of chunks.
unfoldable pub get_endpoints : ℕ → List ℕ → Parse (List SocketAddr)
get_endpoints zero d = ok []
get_endpoints (suc n) d = do
  e ← get_endpoint (take 18 d)
  es ← get_endpoints n (drop 18 d)
  ok (e ∷ es)

-- The node key at the end of a ping: absent if there is no room for it or it is all zeros.
unfoldable pub get_key : List ℕ → Parse (Option (List ℕ))
get_key d =
    if ltb (length d) (12 + 32)
    then ok none
    else do k ← slice d 12 44; ok (if text_eq k (replicate 32 0) then none else some k)

unfoldable pub parse_ping : List ℕ → Parse Message
parse_ping d = do
  fail_if (ltb (length d) 12) tt
  txid ← slice d 0 12
  node_key ← get_key d
  ok (ping txid node_key)

unfoldable pub parse_pong : List ℕ → Parse Message
parse_pong d = do
  fail_if (ltb (length d) (12 + 18)) tt
  txid ← slice d 0 12
  a ← slice d 12 28
  hi ← index d 28
  lo ← index d 29
  ok (pong txid (record { ip = from_ip16 a; port = u16_from_be hi lo }))

unfoldable pub parse_call_me_maybe : List ℕ → Parse Message
parse_call_me_maybe d = do
  fail_if (length d == 0 || not (length d % 18 == 0)) tt
  es ← get_endpoints (length d / 18) d
  ok (call_me_maybe es)

-- `Message::parse`.
unfoldable pub parse : List ℕ → Parse Message
parse p = do
  fail_if (ltb (length p) 2) tt
  t ← index p 0
  ver ← index p 1
  d ← slice_from p 2
  fail_if (not (ver == version)) tt
  if t == type_ping
      then parse_ping d
      else if t == type_pong
      then parse_pong d
      else if t == type_call_me_maybe
      then parse_call_me_maybe d
      else reject
