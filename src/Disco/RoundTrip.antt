-- ===== src/Disco/RoundTrip.antt =====
-- What `marshal` writes, `parse` reads back.
use usb_camera_over_tailscal.Base.{
  ℕ, ◌+◌, ◌*◌, ◌/◌, ◌%◌, ◌^◌, ◌<◌, ◌≡◌, ◌≢◌, refl, ◌∙◌, ap, false, not, ◌||◌, List, [], ◌∷◌, ◌++◌,
  append-nil, Option, none, some, arith, not_ltb, lt→ltb, le→leb, ◌==◌, if◌then◌else◌, length,
  length-append, take-append, drop-append, replicate, ok, slice, slice-append, slice-ok,
  index-append, take_all, reject,
}
use usb_camera_over_tailscal.Base.Words.{All, u16_from_be, u16_to_be, length-to_be, from_be-to_be}
use usb_camera_over_tailscal.Base.Text.{text_eq}
use usb_camera_over_tailscal.Ip.{IpAddr, v4, v6, SocketAddr}
use usb_camera_over_tailscal.Disco.{
  Message, ping, pong, call_me_maybe, ip16, from_ip16, mapped_prefix, put_endpoint, put_endpoints,
  put_key, marshal, get_endpoint, get_endpoints, get_key, parse_ping, parse_pong,
  parse_call_me_maybe, parse,
}

-- An address that is not an IPv4 address written in the mapped IPv6 range.
abbrev pub IsCanonical : IpAddr → Type 0
IsCanonical (v4 a) = a < 2 ^ 32
IsCanonical (v6 a) = (a < 2 ^ 128) × (a / 2 ^ 32 ≢ 0xffff)

pub record IsEndpoint (e : SocketAddr) : Type 0 where
  pub addr : IsCanonical e.ip
  pub port : e.port < 2 ^ 16

-- The messages that the node builds: a transaction id of 12 bytes, a node key that is a key and
-- not all zeros, canonical endpoints, and at least one of them in a call-me-maybe.
abbrev pub IsMessage : Message → Type 0
IsMessage (ping txid none) = length txid ≡ 12
IsMessage (ping txid (some k)) =
    (length txid ≡ 12) × (length k ≡ 32) × (text_eq k (replicate 32 0) ≡ false)
IsMessage (pong txid src) = (length txid ≡ 12) × IsEndpoint src
IsMessage (call_me_maybe es) = (es ≢ []) × All IsEndpoint es

length-ip16 : (a : IpAddr) → length (ip16 a) ≡ 16
unfolding ip16
length-ip16 (v4 a) = length-to_be 16 (mapped_prefix + a)
length-ip16 (v6 a) = length-to_be 16 a

from_ip16-ip16 : (a : IpAddr) → IsCanonical a → from_ip16 (ip16 a) ≡ a
unfolding from_ip16 ip16
from_ip16-ip16 (v4 a) h = rw (from_be-to_be 16 (mapped_prefix + a) (omega arith)) (ground arith)
from_ip16-ip16 (v6 a) h = rw (from_be-to_be 16 a h.0) (ground arith)

length-put_endpoint : (e : SocketAddr) → length (put_endpoint e) ≡ 18
unfolding put_endpoint
length-put_endpoint e =
    omega (arith, length-append (ip16 e.ip) (u16_to_be e.port), length-ip16 e.ip)

port-bytes : (p : ℕ) → p < 2 ^ 16 → u16_from_be (p / 256 % 256) (p % 256) ≡ p
port-bytes p h = omega arith

get_endpoint-put_endpoint : (e : SocketAddr) → IsEndpoint e → get_endpoint (put_endpoint e) ≡ ok e
unfolding get_endpoint put_endpoint
get_endpoint-put_endpoint e h =
    rw
      (
        slice-append 0 16 [] (ip16 e.ip) (u16_to_be e.port) refl (omega (arith, length-ip16 e.ip)),
        index-append 16 0 (ip16 e.ip) (u16_to_be e.port) (length-ip16 e.ip),
        index-append 16 1 (ip16 e.ip) (u16_to_be e.port) (length-ip16 e.ip),
        from_ip16-ip16 e.ip h.addr,
        port-bytes e.port h.port,
      )
      refl

get_endpoints-put_endpoints :
    (es : List SocketAddr)
    → All IsEndpoint es
    → get_endpoints (length es) (put_endpoints es) ≡ ok es
unfolding get_endpoints put_endpoints
get_endpoints-put_endpoints [] h = refl
get_endpoints-put_endpoints (e ∷ es) h =
    rw
      (
        take-append 18 (put_endpoint e) (put_endpoints es) (length-put_endpoint e),
        drop-append 18 (put_endpoint e) (put_endpoints es) (length-put_endpoint e),
        get_endpoint-put_endpoint e h.0,
        get_endpoints-put_endpoints es h.1,
      )
      refl

length-put_endpoints : (es : List SocketAddr) → length (put_endpoints es) ≡ 18 * length es
unfolding put_endpoints
length-put_endpoints [] = refl
length-put_endpoints (e ∷ es) = omega (
  arith,
  length-append (put_endpoint e) (put_endpoints es),
  length-put_endpoint e,
  length-put_endpoints es,
)

parse_ping-marshal :
    (txid : List ℕ) (key : Option (List ℕ))
    → IsMessage (ping txid key)
    → parse_ping (txid ++ put_key key) ≡ ok (ping txid key)
unfolding parse_ping get_key put_key
parse_ping-marshal txid none h =
    rw
      (
        append-nil txid,
        not_ltb (length txid) 12 (omega arith),
        lt→ltb (length txid) 44 (omega arith),
        whole,
      )
      refl
  where
    whole : slice {E = Unit {0}} txid 0 12 ≡ ok txid
    whole = slice-ok txid 0 12 (omega arith) (omega arith) ∙ ap ok (take_all 12 txid (omega arith))
parse_ping-marshal txid (some k) h =
    rw
      (
        not_ltb (length (txid ++ k)) 12 (omega (arith, length-append txid k)),
        slice-append 0 12 [] txid k refl (omega arith),
        not_ltb (length (txid ++ k)) 44 (omega (arith, length-append txid k)),
        key,
        h.2,
      )
      refl
  where
    key : slice {E = Unit {0}} (txid ++ k) 12 44 ≡ ok k
    key = rw (append-nil k) at (slice-append {E = Unit {0}} 12 44 txid k [] h.0 (omega arith))

parse_pong-marshal :
    (txid : List ℕ) (src : SocketAddr)
    → IsMessage (pong txid src)
    → parse_pong (txid ++ put_endpoint src) ≡ ok (pong txid src)
unfolding parse_pong put_endpoint
parse_pong-marshal txid src h =
    rw
      (
        not_ltb (length (txid ++ (ip16 src.ip ++ u16_to_be src.port))) 30 (omega (arith, size)),
        slice-append 0 12 [] txid (ip16 src.ip ++ u16_to_be src.port) refl (omega arith),
        slice-append 12 28 txid (ip16 src.ip) (u16_to_be src.port) h.0
            (omega (arith, length-ip16 src.ip)),
        index-append 12 16 txid (ip16 src.ip ++ u16_to_be src.port) h.0,
        index-append 16 0 (ip16 src.ip) (u16_to_be src.port) (length-ip16 src.ip),
        index-append 12 17 txid (ip16 src.ip ++ u16_to_be src.port) h.0,
        index-append 16 1 (ip16 src.ip) (u16_to_be src.port) (length-ip16 src.ip),
        from_ip16-ip16 src.ip h.1.addr,
        port-bytes src.port h.1.port,
      )
      refl
  where
    size : length (txid ++ (ip16 src.ip ++ u16_to_be src.port)) ≡ 30
    size = omega (
      arith,
      length-append txid (ip16 src.ip ++ u16_to_be src.port),
      length-append (ip16 src.ip) (u16_to_be src.port),
      length-ip16 src.ip,
    )

parse_call_me_maybe-marshal :
    (es : List SocketAddr)
    → IsMessage (call_me_maybe es)
    → parse_call_me_maybe (put_endpoints es) ≡ ok (call_me_maybe es)
unfolding parse_call_me_maybe
parse_call_me_maybe-marshal [] h = absurd (h.0 refl)
parse_call_me_maybe-marshal (e ∷ es) h =
    rw (some_whole, count, get_endpoints-put_endpoints (e ∷ es) h.1) refl
  where
    size : length (put_endpoints (e ∷ es)) ≡ 18 * length (e ∷ es)
    size = length-put_endpoints (e ∷ es)

    count : length (put_endpoints (e ∷ es)) / 18 ≡ length (e ∷ es)
    count = omega (arith, size)

    some_whole :
        (length (put_endpoints (e ∷ es)) == 0 || not (length (put_endpoints (e ∷ es)) % 18 == 0))
        ≡ false
    some_whole = ground (arith, size)

-- The two bytes in front choose the parser.
parse_by_type :
    (t : ℕ) (d : List ℕ)
    → parse (t ∷ 0 ∷ d) ≡ (
        if t == 1
        then parse_ping d
        else if t == 2
        then parse_pong d
        else if t == 3
        then parse_call_me_maybe d
        else reject)
unfolding parse
parse_by_type t d =
    rw (not_ltb (length (t ∷ 0 ∷ d)) 2 (omega arith), le→leb 2 (length (t ∷ 0 ∷ d)) (omega arith))
      refl

-- Every message that the node builds is read back as it was written.
pub parse-marshal : (m : Message) → IsMessage m → parse (marshal m) ≡ ok m
unfolding marshal
parse-marshal (ping txid key) h =
    parse_by_type 1 (txid ++ put_key key) ∙ parse_ping-marshal txid key h
parse-marshal (pong txid src) h =
    parse_by_type 2 (txid ++ put_endpoint src) ∙ parse_pong-marshal txid src h
parse-marshal (call_me_maybe es) h =
    parse_by_type 3 (put_endpoints es) ∙ parse_call_me_maybe-marshal es h
