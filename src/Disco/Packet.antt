-- ===== src/Disco/Packet.antt =====
-- The sealed packet: magic, the sender's public key, nonce, and the NaCl box of the message.
use usb_camera_over_tailscal.Base.{
  ℕ, ◌+◌, ◌≡◌, refl, Bool, true, not, ◌&&◌, List, [], ◌∷◌, ◌++◌, append_assoc, Option, some, arith,
  leb, le→leb, length, take, length-append, ok, ◌>>=◌, ◌>>◌, fail_if, try, slice, slice_from,
  slice-append, slice_from-append, Parse, NoPanic, fail_if-NoPanic, slice-NoPanic,
  slice_from-NoPanic, try-NoPanic,
}
use usb_camera_over_tailscal.Base.Text.{text_eq}
use usb_camera_over_tailscal.Crypto.{KeyPair}
use usb_camera_over_tailscal.Disco.{Message, marshal, parse}
use usb_camera_over_tailscal.Disco.RoundTrip.{IsMessage, parse-marshal}
use usb_camera_over_tailscal.Disco.Total.{parse-NoPanic}

-- `MAGIC`, and the lengths of the header's parts.
abbrev pub magic : List ℕ
magic = b'T' ∷ b'S' ∷ 0xf0 ∷ 0x9f ∷ 0x92 ∷ 0xac ∷ []

abbrev pub header_len : ℕ
header_len = 6 + 32 + 24

-- The NaCl box: a message sealed by one key for another is opened with the two swapped.
pub record NaclBox : Type 0 where
  pub public_of : List ℕ → List ℕ
  pub box_seal : List ℕ → List ℕ → List ℕ → List ℕ → List ℕ
  pub box_open : List ℕ → List ℕ → List ℕ → List ℕ → Option (List ℕ)
  pub opens :
      (a b nonce m : List ℕ)
      → box_open b (public_of a) nonce (box_seal a (public_of b) nonce m) ≡ some m

-- The slice `p[..6]` is only taken behind `&&`, and so in range.
unfoldable pub is_disco : List ℕ → Bool
is_disco p = leb header_len (length p) && text_eq (take 6 p) magic

unfoldable pub sender_key : List ℕ → Parse (List ℕ)
sender_key p = do fail_if (not (is_disco p)) tt; slice p 6 (6 + 32)

module _ (box : NaclBox) where
  open box use {box_seal, box_open}

  -- `seal`; the random nonce is an argument.
  unfoldable pub seal : KeyPair → List ℕ → List ℕ → Message → List ℕ
  seal ours theirs nonce msg =
      magic ++ (ours.public ++ (nonce ++ box_seal ours.secret theirs nonce (marshal msg)))

  -- `open`; the error is `CryptoError`.
  unfoldable pub open_packet : KeyPair → List ℕ → List ℕ → Parse Message
  open_packet ours sender p = do
    fail_if (not (is_disco p)) tt
    nonce ← slice p (6 + 32) header_len
    sealed ← slice_from p header_len
    pt ← try tt (box_open ours.secret sender nonce sealed)
    parse pt

-- A pair of a secret and the public key of it, of 32 bytes.
pub record IsPair (box : NaclBox) (k : KeyPair) : Type 0 where
  pub derived : k.public ≡ box.public_of k.secret
  pub size : length k.public ≡ 32

-- What a sealed packet looks like to its receiver.
module _ (box : NaclBox) (a b : KeyPair) (nonce : List ℕ) (m : Message) (from : IsPair box a)
    (to : IsPair box b) (nonce_size : length nonce ≡ 24) where
  abbrev sealed : List ℕ
  sealed = box.box_seal a.secret b.public nonce (marshal m)

  length-seal : length (seal box a b.public nonce m) ≡ header_len + length sealed
  unfolding seal
  length-seal = omega (
    arith,
    from.size,
    nonce_size,
    length-append a.public (nonce ++ sealed),
    length-append nonce sealed,
  )

  is_disco-seal : is_disco (seal box a b.public nonce m) ≡ true
  unfolding is_disco
  is_disco-seal =
      rw (le→leb header_len (length (seal box a b.public nonce m)) (omega (arith, length-seal)))
        (unfold seal in refl)

  key-seal : slice {E = Unit {0}} (seal box a b.public nonce m) 6 38 ≡ ok a.public
  unfolding seal
  key-seal = slice-append 6 38 magic a.public (nonce ++ sealed) refl (omega (arith, from.size))

  nonce-seal : slice {E = Unit {0}} (seal box a b.public nonce m) 38 62 ≡ ok nonce
  unfolding seal
  nonce-seal =
      slice-append 38 62 (magic ++ a.public) nonce sealed (omega (arith, from.size))
        (omega (arith, nonce_size))

  sealed-seal : slice_from {E = Unit {0}} (seal box a b.public nonce m) 62 ≡ ok sealed
  unfolding seal
  sealed-seal = rw (append_assoc a.public nonce sealed) at (
      slice_from-append {E = Unit {0}} 62 (magic ++ (a.public ++ nonce)) sealed
        (omega (arith, from.size, nonce_size, length-append a.public nonce)))

  opened : box.box_open b.secret a.public nonce sealed ≡ some (marshal m)
  opened = rw (from.derived, to.derived) (box.opens a.secret b.secret nonce (marshal m))

  -- A message as the node builds it (`IsMessage`: a transaction id of 12 bytes, a node key of 32 bytes
  -- that are not all zero, canonical endpoints, and one at least in a call-me-maybe), which one node
  -- seals for another, is recognised as a disco packet, shows the sender's public key, and is opened
  -- by the receiver to the message that was sealed.
  pub open_packet-seal :
      IsMessage m
      → (is_disco (seal box a b.public nonce m) ≡ true)
        × (sender_key (seal box a b.public nonce m) ≡ ok a.public)
        × (open_packet box b a.public (seal box a b.public nonce m) ≡ ok m)
  unfolding sender_key open_packet
  open_packet-seal h = (
    is_disco-seal,
    rw is_disco-seal key-seal,
    rw (is_disco-seal, nonce-seal, sealed-seal, opened) (parse-marshal m h),
  )

-- Opening a packet never panics, whatever its bytes.
pub open_packet-NoPanic :
    (box : NaclBox) (ours : KeyPair) (sender p : List ℕ) → NoPanic (open_packet box ours sender p)
unfolding open_packet is_disco
open_packet-NoPanic box ours sender p =
    fail_if-NoPanic (not (leb header_len (length p) && text_eq (take 6 p) magic)) tt _ λ disco.
      slice-NoPanic p 38 62 _ (omega arith) (ground arith) λ nonce e.
        slice_from-NoPanic p 62 _ (ground arith) λ sealed e'.
          try-NoPanic tt (box.box_open ours.secret sender nonce sealed) _ λ pt e''. parse-NoPanic pt
