-- ===== src/H2/Frame.antt =====
-- `push_frame`, `take_frame` and `strip_padding`.
use usb_camera_over_tailscal.Base.{
  ℕ, ◌+◌, ◌-◌, ◌*◌, ◌/◌, ◌%◌, ◌^◌, ◌≤◌, ◌<◌, ◌≡◌, refl, Bool, true, false, ◌∷◌, ◌++◌, Option, none,
  some, arith, ltb, not_ltb, ◌==◌, if◌then◌else◌, length, length-append, drop, bit_and, Exec, ok,
  ◌>>=◌, ◌>>◌, fail_if, index, slice, slice-append, slice-ok, drop-append, NoPanic, fail_if-NoPanic,
  index-NoPanic, slice-NoPanic, Bool-cases, inl, inr,
}
use usb_camera_over_tailscal.Base.Bits.{bit_and_low}
use usb_camera_over_tailscal.Base.Words.{u32_from_be, u32_to_be}
use usb_camera_over_tailscal.H2.{Bytes, IoError, invalid_data, max_frame_size}

pub record Frame : Type 0 where
  pub typ : ℕ
  pub flags : ℕ
  pub sid : ℕ
  pub payload : Bytes

-- The nine bytes in front of a payload.
abbrev pub frame_head : ℕ → ℕ → ℕ → ℕ → Bytes
frame_head typ flags sid len =
    (len / 2 ^ 16 % 256) ∷ (len / 2 ^ 8 % 256) ∷ (len % 256) ∷ typ ∷ flags ∷ u32_to_be sid

-- `push_frame`: the bytes that it appends.
unfoldable pub frame_bytes : ℕ → ℕ → ℕ → Bytes → Bytes
frame_bytes typ flags sid payload = frame_head typ flags sid (length payload) ++ payload

-- The three length bytes; the shifted bytes are disjoint, so `|` adds them.
abbrev pub frame_len : ℕ → ℕ → ℕ → ℕ
frame_len a b c = a * 2 ^ 16 + b * 2 ^ 8 + c

-- The header and the payload of a frame of `len` bytes that the buffer holds, and what is left.
unfoldable pub read_frame : ℕ → Bytes → Exec IoError (Option (Frame × Bytes))
read_frame len inbuf = do
  typ ← index inbuf 3
  flags ← index inbuf 4
  a ← index inbuf 5
  b ← index inbuf 6
  c ← index inbuf 7
  d ← index inbuf 8
  payload ← slice inbuf 9 (9 + len)
  ok (
      some (
        record {
          typ = typ;
          flags = flags;
          sid = bit_and (u32_from_be a b c d) 0x7fff_ffff;
          payload = payload;
        },
        drop (9 + len) inbuf,
      ))

-- `take_frame` behind its first test.
unfoldable pub take_long : Bytes → Exec IoError (Option (Frame × Bytes))
take_long inbuf = do
  a ← index inbuf 0
  b ← index inbuf 1
  c ← index inbuf 2
  fail_if (ltb max_frame_size (frame_len a b c)) invalid_data
  if ltb (length inbuf) (9 + frame_len a b c) then ok none else read_frame (frame_len a b c) inbuf

-- `take_frame`: `none` if the buffer holds no whole frame, else the frame and the rest of the
-- buffer.
unfoldable pub take_frame : Bytes → Exec IoError (Option (Frame × Bytes))
take_frame inbuf = if ltb (length inbuf) 9 then ok none else take_long inbuf

-- The payload without its padding.
unfoldable pub strip_padding : Bytes → Bool → Exec IoError Bytes
strip_padding payload false = ok payload
strip_padding payload true = do
  fail_if (length payload == 0) invalid_data
  pad ← index payload 0
  fail_if (ltb (length payload) (pad + 1)) invalid_data
  slice payload 1 (length payload - pad)

-- Stripping the padding never slices out of range.
pub strip_padding-NoPanic :
    (payload : Bytes) (padded : Bool) → NoPanic (strip_padding payload padded)
unfolding strip_padding
strip_padding-NoPanic payload false = tt
strip_padding-NoPanic payload true =
    fail_if-NoPanic (length payload == 0) invalid_data _ λ some_bytes.
      index-NoPanic payload 0 _ (ground arith) λ pad.
        fail_if-NoPanic (ltb (length payload) (pad + 1)) invalid_data _
          λ fits. rw (slice-ok payload 1 (length payload - pad) (ground arith) (omega arith)) tt

read_frame-NoPanic :
    (len : ℕ) (inbuf : Bytes) → 9 + len ≤ length inbuf → NoPanic (read_frame len inbuf)
unfolding read_frame
read_frame-NoPanic len p h = index-NoPanic p 3 _ (omega arith) λ typ.
    index-NoPanic p 4 _ (omega arith) λ flags. index-NoPanic p 5 _ (omega arith) λ a.
      index-NoPanic p 6 _ (omega arith) λ b. index-NoPanic p 7 _ (omega arith) λ c.
        index-NoPanic p 8 _ (omega arith)
          λ d. slice-NoPanic p 9 (9 + len) _ (omega arith) h λ payload e. tt

-- Cutting a frame out of the receive buffer never indexes or slices out of range.
pub take_frame-NoPanic : (inbuf : Bytes) → NoPanic (take_frame inbuf)
unfolding take_frame take_long
take_frame-NoPanic p = elim (Bool-cases (ltb (length p) 9)) [
  | inl short ↦ rw short tt
  | inr long ↦ rw long (
      index-NoPanic p 0 _ (ground arith) λ a. index-NoPanic p 1 _ (ground arith) λ b.
        index-NoPanic p 2 _ (ground arith) λ c.
          fail_if-NoPanic (ltb max_frame_size (frame_len a b c)) invalid_data _ λ small.
            elim (Bool-cases (ltb (length p) (9 + frame_len a b c))) [
              | inl partial ↦ rw partial tt
              | inr whole ↦ rw whole (read_frame-NoPanic (frame_len a b c) p (ground arith))
            ])
]

-- A frame that the receiver accepts: its payload has 16384 bytes at most, as the client advertises,
-- and its stream id leaves out the reserved top bit.
pub record IsFrame (f : Frame) : Type 0 where
  pub small : length f.payload ≤ max_frame_size
  pub stream : f.sid < 2 ^ 31

abbrev pub frame_of : Frame → Bytes
frame_of f = frame_bytes f.typ f.flags f.sid f.payload

length-frame_bytes :
    (typ flags sid : ℕ) (payload : Bytes)
    → length (frame_bytes typ flags sid payload) ≡ 9 + length payload
unfolding frame_bytes
length-frame_bytes typ flags sid payload = omega arith

len-bytes : (n : ℕ) → n < 2 ^ 24 → frame_len (n / 2 ^ 16 % 256) (n / 2 ^ 8 % 256) (n % 256) ≡ n
len-bytes n h = omega arith

sid-bytes :
    (n : ℕ)
    → n < 2 ^ 31
    → bit_and
        (u32_from_be (n / 2 ^ 24 % 256) (n / 2 ^ 16 % 256) (n / 2 ^ 8 % 256) (n % 256))
        0x7fff_ffff
      ≡ n
sid-bytes n h = omega (
  arith,
  bit_and_low 31 (u32_from_be (n / 2 ^ 24 % 256) (n / 2 ^ 16 % 256) (n / 2 ^ 8 % 256) (n % 256)),
)

-- A frame with a payload of 16384 bytes at most and a stream id below 2 ^ 31, in the bytes that
-- `push_frame` appends, is cut out of the receive buffer as it was, whatever follows it.
pub take_frame-frame_bytes :
    (f : Frame) (rest : Bytes) → IsFrame f → take_frame (frame_of f ++ rest) ≡ ok (some (f, rest))
unfolding take_frame take_long read_frame frame_bytes
take_frame-frame_bytes f rest h =
    rw
      (
        not_ltb (length (frame_of f ++ rest)) 9 (omega (arith, size)),
        len-bytes (length f.payload) (omega (arith, h.small)),
        not_ltb max_frame_size (length f.payload) h.small,
        not_ltb (length (frame_of f ++ rest)) (9 + length f.payload) (omega (arith, size)),
        sid-bytes f.sid h.stream,
        cut,
        left,
      )
      refl
  where
    head : Bytes
    head = frame_head f.typ f.flags f.sid (length f.payload)

    size : length (frame_of f ++ rest) ≡ 9 + length f.payload + length rest
    size = omega (arith, length-append f.payload rest)

    cut : slice {E = IoError} (frame_of f ++ rest) 9 (9 + length f.payload) ≡ ok f.payload
    cut = slice-append 9 (9 + length f.payload) head f.payload rest refl refl

    left : drop (9 + length f.payload) (frame_of f ++ rest) ≡ rest
    left =
        drop-append (9 + length f.payload) (head ++ f.payload) rest (length-append head f.payload)
