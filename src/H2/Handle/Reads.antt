-- ===== src/H2/Handle/Reads.antt =====
-- What `handle_frame` reads of a payload, it reads without a panic.
use usb_camera_over_tailscal.Base.{
  ℕ, ◌+◌, ◌<◌, Bool, true, false, arith, ltb, leb, length, NoPanic, if-NoPanic, fail_if-NoPanic,
  NoPanic->>=, index-NoPanic, slice_from-ok, leb→le, ltb→lt, ltb_false→le,
}
use usb_camera_over_tailscal.H2.{Bytes, IoError, invalid_data, flag_padded, flag_priority}
use usb_camera_over_tailscal.H2.Frame.{strip_padding, strip_padding-NoPanic}
use usb_camera_over_tailscal.H2.Handle.{
  has, u32_at, reset_code, goaway_code, goaway_debug, goaway_of, skip_priority, headers_block,
}

-- Four bytes are read where they are there.
pub u32_at-NoPanic : (p : Bytes) (i : ℕ) → i + 3 < length p → NoPanic (u32_at p i)
unfolding u32_at
u32_at-NoPanic p i h = index-NoPanic p i _ (omega arith) λ a.
    index-NoPanic p (i + 1) _ (omega arith)
      λ b. index-NoPanic p (i + 2) _ (omega arith) λ c. index-NoPanic p (i + 3) _ h λ d. tt

pub reset_code-NoPanic : (payload : Bytes) → NoPanic (reset_code payload)
unfolding reset_code
reset_code-NoPanic payload =
    if-NoPanic (leb 4 (length payload)) _ _
      (λ long. u32_at-NoPanic payload 0 (omega (arith, leb→le 4 (length payload) long))) (λ _. tt)

pub goaway_of-NoPanic : (payload : Bytes) → NoPanic (goaway_of payload)
unfolding goaway_of goaway_code goaway_debug
goaway_of-NoPanic payload =
    NoPanic->>= (goaway_code payload) _
      (if-NoPanic (leb 8 (length payload)) _ _
        (λ long. u32_at-NoPanic payload 4 (omega (arith, leb→le 8 (length payload) long)))
        (λ _. tt))
      λ code _.
        NoPanic->>= (goaway_debug payload) _
          (if-NoPanic (ltb 8 (length payload)) _ _
            (λ longer.
              rw
                (slice_from-ok {E = IoError} payload 8
                  (omega (arith, ltb→lt 8 (length payload) longer)))
                tt)
            (λ _. tt))
          λ debug _. tt

skip_priority-NoPanic : (priority : Bool) (block : Bytes) → NoPanic (skip_priority priority block)
unfolding skip_priority
skip_priority-NoPanic false block = tt
skip_priority-NoPanic true block =
    fail_if-NoPanic (ltb (length block) 5) invalid_data _
      λ size. rw (slice_from-ok {E = IoError} block 5 (ltb_false→le (length block) 5 size)) tt

pub headers_block-NoPanic : (flags : ℕ) (payload : Bytes) → NoPanic (headers_block flags payload)
unfolding headers_block
headers_block-NoPanic flags payload =
    NoPanic->>= (strip_padding payload (has flags flag_padded)) _
      (strip_padding-NoPanic payload (has flags flag_padded))
      λ block _. skip_priority-NoPanic (has flags flag_priority) block
