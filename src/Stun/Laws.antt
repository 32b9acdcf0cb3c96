-- ===== src/Stun/Laws.antt =====
-- The reader of responses never panics and its loop ends; a request is recognised.
use usb_camera_over_tailscal.Base.{
  ℕ, zero, suc, ◌+◌, ◌-◌, ◌<◌, ◌≤◌, ◌≡◌, refl, min, true, false, not, ◌&&◌, ◌||◌, ◌∷◌, Option, none,
  some, ltb, leb, leb→le, ◌==◌, arith, length, ok, err, panic, ◌>>=◌, Parse, reject, NoPanic,
  NoPanic->>=, if-NoPanic, ltb_false→le, and_leb→le, fail_if-NoPanic, index-NoPanic, slice-NoPanic,
  slice_from-NoPanic, length-append, slice, ◌++◌, replicate, bit_xor,
}
use usb_camera_over_tailscal.Base.Words.{u16_from_be, from_be, u16_to_be, u32_to_be}
use usb_camera_over_tailscal.Crypto.{Bytes}
use usb_camera_over_tailscal.Ip.{SocketAddr, v4, v6}
use usb_camera_over_tailscal.Stun.{
  padded, unmask, is_stun, mapped_ip, parse_mapped, unmask_port, Scanned, found, go_on, found_or,
  fall_back, read_attribute, attribute_step, or_else, only, scan, parse_response, request,
  request_body, attr_software, attr_fingerprint, software, crc32,
}

mapped_ip-NoPanic :
    (family : ℕ) (v : Bytes) (xor : Option Bytes) (port : ℕ) → NoPanic (mapped_ip family v xor port)
unfolding mapped_ip
mapped_ip-NoPanic family v xor port =
    if-NoPanic ((family == 1) && leb 8 (length v))
      (slice v 4 8 >>= λ o. ok (record { ip = v4 (from_be 0 (unmask xor o)); port = port })) _
      (λ h. slice-NoPanic v 4 8 _ (omega arith) (and_leb→le (family == 1) 8 (length v) h) λ o _. tt)
      (λ _.
        if-NoPanic ((family == 2) && leb 20 (length v))
          (slice v 4 20 >>= λ o. ok (record { ip = v6 (from_be 0 (unmask xor o)); port = port }))
          reject
          (λ h.
            slice-NoPanic v 4 20 _ (omega arith) (and_leb→le (family == 2) 20 (length v) h)
              λ o _. tt)
          (λ _. tt))

parse_mapped-NoPanic : (v : Bytes) (xor : Option Bytes) → NoPanic (parse_mapped v xor)
unfolding parse_mapped
parse_mapped-NoPanic v xor = fail_if-NoPanic (ltb (length v) 4) tt _ λ size.
    let long = ltb_false→le (length v) 4 size in
    index-NoPanic v 1 _ (omega (arith, long)) λ family.
      index-NoPanic v 2 _ (omega (arith, long)) λ p0.
        index-NoPanic v 3 _ (omega (arith, long))
          λ p1. mapped_ip-NoPanic family v xor (unmask_port xor (u16_from_be p0 p1))

found_or-NoPanic :
    (fallback : Option SocketAddr) (m : Parse SocketAddr)
    → NoPanic m
    → NoPanic (found_or fallback m)
unfolding found_or
found_or-NoPanic fallback (ok a) h = tt
found_or-NoPanic fallback (err e) h = tt
found_or-NoPanic fallback panic h = h

fall_back-NoPanic : (m : Parse SocketAddr) → NoPanic m → NoPanic (fall_back m)
unfolding fall_back
fall_back-NoPanic (ok a) h = tt
fall_back-NoPanic (err e) h = tt
fall_back-NoPanic panic h = h

read_attribute-NoPanic :
    (t : ℕ) (txid v : Bytes) (fallback : Option SocketAddr)
    → NoPanic (read_attribute t txid v fallback)
unfolding read_attribute
read_attribute-NoPanic t txid v fallback =
    if-NoPanic ((t == 0x20) || (t == 0x8020)) (found_or fallback (parse_mapped v (some txid))) _
      (λ _.
        found_or-NoPanic fallback (parse_mapped v (some txid)) (parse_mapped-NoPanic v (some txid)))
      (λ _.
        if-NoPanic (t == 1) (fall_back (parse_mapped v none)) (ok (go_on fallback))
          (λ _. fall_back-NoPanic (parse_mapped v none) (parse_mapped-NoPanic v none)) λ _. tt)

or_else-NoPanic :
    (go : Option SocketAddr → Parse SocketAddr) (r : Scanned)
    → ((f : Option SocketAddr) → NoPanic (go f))
    → NoPanic (or_else go r)
unfolding or_else
or_else-NoPanic go (found a) h = tt
or_else-NoPanic go (go_on f) h = h f

-- A turn of the loop goes on with at least four bytes less.
attribute_step-NoPanic :
    (go : Bytes → Option SocketAddr → Parse SocketAddr) (txid attrs : Bytes)
    (fallback : Option SocketAddr)
    → 4 ≤ length attrs
    → ((rest : Bytes) (f : Option SocketAddr)
        → length rest + 4 ≤ length attrs
        → NoPanic (go rest f))
    → NoPanic (attribute_step go txid attrs fallback)
unfolding attribute_step
attribute_step-NoPanic go txid attrs fallback long next =
    index-NoPanic attrs 0 _ (omega (arith, long)) λ t0.
      index-NoPanic attrs 1 _ (omega (arith, long)) λ t1.
        index-NoPanic attrs 2 _ (omega (arith, long)) λ l0.
          index-NoPanic attrs 3 _ (omega (arith, long)) λ l1.
            fail_if-NoPanic (ltb (length attrs) (4 + u16_from_be l0 l1)) tt _ λ size.
              let all = ltb_false→le (length attrs) (4 + u16_from_be l0 l1) size in
              slice-NoPanic attrs 4 (4 + u16_from_be l0 l1) _ (omega arith) all λ v _.
                NoPanic->>= (read_attribute (u16_from_be t0 t1) txid v fallback) _
                  (read_attribute-NoPanic (u16_from_be t0 t1) txid v fallback)
                  λ r _.
                    slice_from-NoPanic attrs (min (4 + padded (u16_from_be l0 l1)) (length attrs)) _
                      (omega arith)
                      λ rest shorter.
                        or_else-NoPanic (go rest) r λ f. next rest f (omega (arith, shorter, long))

only-NoPanic : (o : Option SocketAddr) → NoPanic (only o)
unfolding only
only-NoPanic none = tt
only-NoPanic (some a) = tt

scan-NoPanic :
    (fuel : ℕ) (txid attrs : Bytes) (fallback : Option SocketAddr)
    → length attrs < fuel
    → NoPanic (scan fuel txid attrs fallback)
unfolding scan
scan-NoPanic zero txid attrs fallback enough = absurd (omega arith)
scan-NoPanic (suc fuel) txid attrs fallback enough =
    if-NoPanic (leb 4 (length attrs))
      (attribute_step (λ rest f. scan fuel txid rest f) txid attrs fallback) (only fallback)
      (λ h.
        attribute_step-NoPanic (λ rest f. scan fuel txid rest f) txid attrs fallback
          (leb→le 4 (length attrs) h) λ rest f shorter. scan-NoPanic fuel txid rest f (omega arith))
      λ _. only-NoPanic fallback

is_stun-size : (b : Bytes) → not (is_stun b) ≡ false → 20 ≤ length b
unfolding is_stun
is_stun-size b h = ground arith

-- Reading a response never panics, and its loop ends before it has run once for each byte.
pub parse_response-NoPanic : (b : Bytes) → NoPanic (parse_response b)
unfolding parse_response
parse_response-NoPanic b = fail_if-NoPanic (not (is_stun b)) tt _ λ stun.
    let long = is_stun-size b stun in
    index-NoPanic b 0 _ (omega (arith, long)) λ b0. index-NoPanic b 1 _ (omega (arith, long)) λ b1.
      fail_if-NoPanic (not (b0 == 1) || not (b1 == 1)) tt _ λ _.
        slice-NoPanic b 8 20 _ (omega arith) (omega (arith, long)) λ txid _.
          index-NoPanic b 2 _ (omega (arith, long)) λ l0.
            index-NoPanic b 3 _ (omega (arith, long)) λ l1. slice_from-NoPanic b 20 _ long λ rest _.
              fail_if-NoPanic (ltb (length rest) (u16_from_be l0 l1)) tt _ λ size.
                slice-NoPanic rest 0 (u16_from_be l0 l1) _ (omega arith)
                  (ltb_false→le (length rest) (u16_from_be l0 l1) size)
                  λ attrs _.
                    NoPanic->>= (scan (length attrs + 1) txid attrs none) _
                      (scan-NoPanic (length attrs + 1) txid attrs none (omega arith)) λ a _. tt

request_body-size : (txid : Bytes) → length txid ≡ 12 → length (request_body txid) ≡ 32
unfolding request_body
request_body-size txid h = omega (
  arith,
  h,
  length-append txid (
      u16_to_be attr_software
      ++ (u16_to_be (length software)
          ++ (software ++ replicate (padded (length software) - length software) 0))),
)

request-size : (txid : Bytes) → length txid ≡ 12 → length (request txid) ≡ 40
unfolding request
request-size txid h = omega (
  arith,
  request_body-size txid h,
  length-append (request_body txid) (
      u16_to_be attr_fingerprint
      ++ (u16_to_be 4 ++ u32_to_be (bit_xor (crc32 (request_body txid)) 0x5354554e))),
)

is_stun-head :
    (b rest : Bytes)
    → b ≡ 0 ∷ 1 ∷ 0 ∷ 20 ∷ 0x21 ∷ 0x12 ∷ 0xa4 ∷ 0x42 ∷ rest
    → length b ≡ 40
    → is_stun b ≡ true
unfolding is_stun
is_stun-head b rest e size = rw (size, e) refl

-- A request with a transaction id of 12 bytes is a STUN message of 40 bytes.
pub is_stun-request :
    (txid : Bytes)
    → length txid ≡ 12
    → (is_stun (request txid) ≡ true) × (length (request txid) ≡ 40)
unfolding request request_body
is_stun-request txid h =
    (is_stun-head (request txid) _ refl (request-size txid h), request-size txid h)
