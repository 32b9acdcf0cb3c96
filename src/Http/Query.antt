-- ===== src/Http/Query.antt =====
-- Decoding undoes percent encoding.
use usb_camera_over_tailscal.Base.{
  ℕ, ◌+◌, ◌*◌, ◌/◌, ◌%◌, ◌<◌, ◌≡◌, refl, ap, ◌∙◌, [], ◌∷◌, some, ltb, ◌==◌, if◌then◌else◌, arith,
  false,
}
use usb_camera_over_tailscal.Base.Words.{IsBytes}
use usb_camera_over_tailscal.Crypto.{Bytes}
use usb_camera_over_tailscal.Http.{
  hex_digit, two_digits, from_hex, escaped_or, decode_bytes, percent_decode,
}
use usb_camera_over_tailscal.Base.Text.{Text}
use usb_camera_over_tailscal.Base.Utf8.{from_utf8, from_utf8_lossy, from_utf8_lossy-utf8}

-- Every byte as `%` and two digits, which are given in upper case.
pub digit_char : ℕ → ℕ
digit_char d = if ltb d 10 then d + 0x30 else d + 0x37

unfoldable pub percent_encode : Bytes → Bytes
unfolding digit_char
percent_encode [] = []
percent_encode (b ∷ bs) = 0x25 ∷ digit_char (b / 16) ∷ digit_char (b % 16) ∷ percent_encode bs

hex_digit-digit_char : (d : ℕ) → d < 16 → hex_digit (digit_char d) ≡ some d
unfolding hex_digit digit_char
hex_digit-digit_char d h = ground arith

not_plus : (d : ℕ) → d < 16 → (digit_char d == 0x2b) ≡ false
unfolding digit_char
not_plus d h = ground arith

from_hex-digits :
    (h l : ℕ) → h < 16 → l < 16 → from_hex (digit_char h) (digit_char l) ≡ some (16 * h + l)
unfolding from_hex two_digits
from_hex-digits h l a b = rw (not_plus h a, hex_digit-digit_char h a, hex_digit-digit_char l b) refl

decode_bytes-percent_encode : (bs : Bytes) → IsBytes bs → decode_bytes (percent_encode bs) ≡ bs
unfolding decode_bytes percent_encode escaped_or
decode_bytes-percent_encode [] h = refl
decode_bytes-percent_encode (b ∷ bs) (h, hs) =
    rw
      (
        from_hex-digits (b / 16) (b % 16) (omega arith) (omega arith),
        decode_bytes-percent_encode bs hs,
      )
      (ap (λ x. x ∷ bs) (omega arith))

-- The UTF-8 bytes of a text, each as an escape, are decoded to the text.
pub percent_decode-percent_encode :
    (bs : Bytes) (t : Text)
    → IsBytes bs
    → from_utf8 bs ≡ some t
    → percent_decode (percent_encode bs) ≡ t
unfolding percent_decode
percent_decode-percent_encode bs t h e =
    ap from_utf8_lossy (decode_bytes-percent_encode bs h) ∙ from_utf8_lossy-utf8 bs t e
