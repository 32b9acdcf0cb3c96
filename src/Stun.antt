-- ===== src/Stun.antt =====
-- crates/tsnode/src/stun.rs: binding requests and responses.
pub mod Laws
mod Tests
use usb_camera_over_tailscal.Base.{
  ℕ, zero, suc, ◌+◌, ◌*◌, ◌/◌, ◌^◌, ◌-◌, min, bit_and, bit_xor, Bool, true, false, not, ◌&&◌, ◌||◌,
  List, [], ◌∷◌, ◌++◌, Option, none, some, ltb, leb, ◌==◌, if◌then◌else◌, length, take, drop,
  replicate, get_or, Exec, ok, err, panic, ◌>>=◌, ◌>>◌, fail_if, Parse, reject, index, slice,
  slice_from,
}
use usb_camera_over_tailscal.Base.Words.{u16_from_be, u16_to_be, u32_to_be, from_be}
use usb_camera_over_tailscal.Base.Text.{chars, text_eq}
use usb_camera_over_tailscal.Crypto.{Bytes}
use usb_camera_over_tailscal.Ip.{IpAddr, v4, v6, SocketAddr}

abbrev pub magic_cookie : Bytes
magic_cookie = 0x21 ∷ 0x12 ∷ 0xa4 ∷ 0x42 ∷ []

abbrev pub attr_mapped_address : ℕ
attr_mapped_address = 1

abbrev pub attr_xor_mapped_address : ℕ
attr_xor_mapped_address = 0x20

abbrev pub attr_xor_mapped_address_alt : ℕ
attr_xor_mapped_address_alt = 0x8020

abbrev pub attr_software : ℕ
attr_software = 0x8022

abbrev pub attr_fingerprint : ℕ
attr_fingerprint = 0x8028

abbrev pub software : Bytes
software = chars "tsnode"

-- `(n + 3) & !3`.
abbrev pub padded : ℕ → ℕ
padded n = (n + 3) / 4 * 4

-- `crc32`, bit by bit over each byte.
pub crc_bits : ℕ → ℕ → ℕ
crc_bits zero crc = crc
crc_bits (suc n) crc = crc_bits n (bit_xor (crc / 2) (if bit_and crc 1 == 1 then 0xedb88320 else 0))

pub crc_bytes : Bytes → ℕ → ℕ
crc_bytes [] crc = crc
crc_bytes (b ∷ bs) crc = crc_bytes bs (crc_bits 8 (bit_xor crc b))

pub crc32 : Bytes → ℕ
crc32 bytes = 0xffffffff - crc_bytes bytes 0xffffffff

-- What the fingerprint of a request covers.
pub request_body : Bytes → Bytes
request_body txid =
    (0 ∷ 1 ∷ [])
    ++ (u16_to_be (4 + padded (length software) + 8)
        ++ (magic_cookie
            ++ (txid
                ++ (u16_to_be attr_software
                    ++ (u16_to_be (length software)
                        ++ (software
                            ++ replicate (padded (length software) - length software) 0))))))

pub request : Bytes → Bytes
request txid =
    let b = request_body txid in
    b ++ (u16_to_be attr_fingerprint ++ (u16_to_be 4 ++ u32_to_be (bit_xor (crc32 b) 0x5354554e)))

-- `is_stun`: its slice and its indices come after the test of the length.
pub is_stun : Bytes → Bool
is_stun b =
    leb 20 (length b)
    && (text_eq (take 4 (drop 4 b)) magic_cookie && (bit_and (get_or b 0 0) 0xc0 == 0))

-- The loops `o[i] ^= key[i]`, for a key of the length of `o`.
pub xor_bytes : Bytes → Bytes → Bytes
xor_bytes [] key = []
xor_bytes (x ∷ xs) [] = x ∷ xs
xor_bytes (x ∷ xs) (k ∷ key) = bit_xor x k ∷ xor_bytes xs key

pub unmask : Option Bytes → Bytes → Bytes
unmask none o = o
unmask (some txid) o = xor_bytes o (magic_cookie ++ txid)

pub unmask_port : Option Bytes → ℕ → ℕ
unmask_port none port = port
unmask_port (some txid) port = bit_xor port 0x2112

-- The arms of the match on the family.
pub mapped_ip : ℕ → Bytes → Option Bytes → ℕ → Parse SocketAddr
mapped_ip family v xor port =
    if (family == 1) && leb 8 (length v)
    then (slice v 4 8 >>= λ o. ok (record { ip = v4 (from_be 0 (unmask xor o)); port = port }))
    else if (family == 2) && leb 20 (length v)
    then (slice v 4 20 >>= λ o. ok (record { ip = v6 (from_be 0 (unmask xor o)); port = port }))
    else reject

pub parse_mapped : Bytes → Option Bytes → Parse SocketAddr
parse_mapped v xor = do
  fail_if (ltb (length v) 4) tt
  family ← index v 1
  p0 ← index v 2
  p1 ← index v 3
  let port = unmask_port xor (u16_from_be p0 p1)
  mapped_ip family v xor port

-- What an attribute does to the scan: it ends it, or it leaves a fallback.
pub data Scanned : Type 0 where
  found : SocketAddr → Scanned
  go_on : Option SocketAddr → Scanned

pub found_or : Option SocketAddr → Parse SocketAddr → Parse Scanned
found_or fallback (ok a) = ok (found a)
found_or fallback (err e) = ok (go_on fallback)
found_or fallback panic = panic

pub fall_back : Parse SocketAddr → Parse Scanned
fall_back (ok a) = ok (go_on (some a))
fall_back (err e) = ok (go_on none)
fall_back panic = panic

pub read_attribute : ℕ → Bytes → Bytes → Option SocketAddr → Parse Scanned
read_attribute t txid v fallback =
    if (t == attr_xor_mapped_address) || (t == attr_xor_mapped_address_alt)
    then found_or fallback (parse_mapped v (some txid))
    else if t == attr_mapped_address
    then fall_back (parse_mapped v none)
    else ok (go_on fallback)

pub or_else : (Option SocketAddr → Parse SocketAddr) → Scanned → Parse SocketAddr
or_else go (found a) = ok a
or_else go (go_on fallback) = go fallback

pub only : Option SocketAddr → Parse SocketAddr
only none = reject
only (some a) = ok a

-- One turn of the loop over the attributes, where `go` is the rest of the loop.
pub attribute_step :
    (Bytes → Option SocketAddr → Parse SocketAddr)
    → Bytes
    → Bytes
    → Option SocketAddr
    → Parse SocketAddr
attribute_step go txid attrs fallback = do
  t0 ← index attrs 0
  t1 ← index attrs 1
  l0 ← index attrs 2
  l1 ← index attrs 3
  let l = u16_from_be l0 l1
  fail_if (ltb (length attrs) (4 + l)) tt
  v ← slice attrs 4 (4 + l)
  r ← read_attribute (u16_from_be t0 t1) txid v fallback
  rest ← slice_from attrs (min (4 + padded l) (length attrs))
  or_else (go rest) r

-- The loop over the attributes, on fuel. To run out of it counts as a panic.
pub scan : ℕ → Bytes → Bytes → Option SocketAddr → Parse SocketAddr
scan zero txid attrs fallback = panic
scan (suc fuel) txid attrs fallback =
    if leb 4 (length attrs)
    then attribute_step (λ rest f. scan fuel txid rest f) txid attrs fallback
    else only fallback

pub parse_response : Bytes → Parse (Bytes × SocketAddr)
parse_response b = do
  fail_if (not (is_stun b)) tt
  b0 ← index b 0
  b1 ← index b 1
  fail_if (not (b0 == 1) || not (b1 == 1)) tt
  txid ← slice b 8 20
  l0 ← index b 2
  l1 ← index b 3
  rest ← slice_from b 20
  fail_if (ltb (length rest) (u16_from_be l0 l1)) tt
  attrs ← slice rest 0 (u16_from_be l0 l1)
  a ← scan (length attrs + 1) txid attrs none
  ok (txid, a)
