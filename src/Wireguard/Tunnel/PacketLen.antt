-- ===== src/Wireguard/Tunnel/PacketLen.antt =====
-- The length that `ip_packet_len` reads is that of the packet, whatever follows it.
use usb_camera_over_tailscal.Base.{
  ℕ, zero, suc, ◌+◌, ◌/◌, ◌<◌, ◌≡◌, refl, [], ◌∷◌, ◌++◌, none, some, leb, leb→le, le→leb, ◌==◌,
  if◌then◌else◌, arith, length, length-append, get_or, Bool-cases, inl, inr, ok, index-ok, NoPanic,
  if-NoPanic, index-NoPanic,
}
use usb_camera_over_tailscal.Crypto.{Bytes}
use usb_camera_over_tailscal.Wireguard.Tunnel.{WgError, length_field, packet_len_by, ip_packet_len}

get_or-append : (i : ℕ) (xs ys : Bytes) → i < length xs → get_or (xs ++ ys) i 0 ≡ get_or xs i 0
get_or-append i [] ys h = absurd (omega arith)
get_or-append zero (x ∷ xs) ys h = refl
get_or-append (suc i) (x ∷ xs) ys h = get_or-append i xs ys (omega arith)

-- A field inside of a packet is read, and is the same whatever follows the packet.
length_field-append :
    (fixed i : ℕ) (pkt zs : Bytes)
    → i + 1 < length pkt
    → length_field fixed i (pkt ++ zs) ≡ length_field fixed i pkt
unfolding length_field
length_field-append fixed i pkt zs h =
    rw
      (
        index-ok {E = WgError} pkt i (omega arith),
        index-ok {E = WgError} pkt (i + 1) h,
        index-ok {E = WgError} (pkt ++ zs) i (omega (arith, length-append pkt zs)),
        index-ok {E = WgError} (pkt ++ zs) (i + 1) (omega (arith, length-append pkt zs)),
        get_or-append i pkt zs (omega arith),
        get_or-append (i + 1) pkt zs h,
      )
      refl

length_field-NoPanic :
    (fixed i : ℕ) (pkt : Bytes) → i + 1 < length pkt → NoPanic (length_field fixed i pkt)
unfolding length_field
length_field-NoPanic fixed i pkt h =
    index-NoPanic pkt i _ (omega arith) λ hi. index-NoPanic pkt (i + 1) _ h λ lo. tt

-- A length that is read behind the test of the size is read also of the longer packet.
tested-append :
    (fixed i size : ℕ) (pkt zs : Bytes) (n : ℕ)
    → i + 1 < size
    → (if leb size (length pkt) then length_field fixed i pkt else ok none) ≡ ok (some n)
    → (if leb size (length (pkt ++ zs)) then length_field fixed i (pkt ++ zs) else ok none)
      ≡ ok (some n)
tested-append fixed i size pkt zs n inside = elim (Bool-cases (leb size (length pkt))) [
  | inl big ↦
      let room = leb→le size (length pkt) big in
      rw
        (
          big,
          le→leb size (length (pkt ++ zs)) (omega (arith, room, length-append pkt zs)),
          length_field-append fixed i pkt zs (omega (arith, room, inside)),
        )
        (λ e. e)
  | inr small ↦ rw small (λ e. cc e)
]

-- The header tells the length of a packet whatever follows it.
packet_len_by-append :
    (version : ℕ) (pkt zs : Bytes) (n : ℕ)
    → packet_len_by version pkt ≡ ok (some n)
    → packet_len_by version (pkt ++ zs) ≡ ok (some n)
unfolding packet_len_by
packet_len_by-append version pkt zs n = elim (Bool-cases (version == 4)) [
  | inl four ↦ rw four (tested-append 0 2 20 pkt zs n (omega arith))
  | inr other ↦ elim (Bool-cases (version == 6)) [
    | inl six ↦ rw (other, six) (tested-append 40 4 40 pkt zs n (omega arith))
    | inr unknown ↦ rw (other, unknown) (λ e. cc e)
  ]
]

packet_len_by-NoPanic : (version : ℕ) (pkt : Bytes) → NoPanic (packet_len_by version pkt)
unfolding packet_len_by
packet_len_by-NoPanic version pkt =
    if-NoPanic (version == 4) _ _
      (λ _.
        if-NoPanic (leb 20 (length pkt)) _ _
          (λ big. length_field-NoPanic 0 2 pkt (omega (arith, leb→le 20 (length pkt) big)))
          (λ _. tt))
      (λ _.
        if-NoPanic (version == 6) _ _
          (λ _.
            if-NoPanic (leb 40 (length pkt)) _ _
              (λ big. length_field-NoPanic 40 4 pkt (omega (arith, leb→le 40 (length pkt) big)))
              (λ _. tt))
          (λ _. tt))

pub ip_packet_len-append :
    (pkt zs : Bytes) (n : ℕ)
    → ip_packet_len pkt ≡ ok (some n)
    → ip_packet_len (pkt ++ zs) ≡ ok (some n)
unfolding ip_packet_len
ip_packet_len-append [] zs n e = cc e
ip_packet_len-append (b ∷ rest) zs n e = packet_len_by-append (b / 16) (b ∷ rest) zs n e

pub ip_packet_len-nil : ip_packet_len [] ≡ ok none
unfolding ip_packet_len
ip_packet_len-nil = refl

-- The fields that are read lie inside of the packet.
pub ip_packet_len-NoPanic : (pkt : Bytes) → NoPanic (ip_packet_len pkt)
unfolding ip_packet_len
ip_packet_len-NoPanic [] = tt
ip_packet_len-NoPanic (b ∷ rest) = packet_len_by-NoPanic (b / 16) (b ∷ rest)
