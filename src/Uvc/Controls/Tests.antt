-- ===== src/Uvc/Controls/Tests.antt =====
-- Values that the source's tests set.
use usb_camera_over_tailscal.Base.{
  ◌≡◌, refl, some, none, true, [], ◌∷◌, inl, inr, ok, ◌>>=◌, arith, replicate,
}
use usb_camera_over_tailscal.Base.Int.{pos, negsuc}
use usb_camera_over_tailscal.Base.Text.{same_ignoring_case, to_lower, chars, parse_digits}
use usb_camera_over_tailscal.Uvc.Controls.{
  ControlDef, processing_unit, simple, pan_tilt, find_in, find, negated, parse_i64, setting_number,
  check_range, number_setting, parse_setting, auto_ae_mode, decode, encode,
}
use usb_camera_over_tailscal.Uvc.Controls.Codec.{decode-encode_other}
use usb_camera_over_tailscal.Uvc.Controls.Settings.{parse_setting-encode}

abbrev brightness : ControlDef
brightness = simple (chars "brightness") processing_unit 0x02 0 2 true none

abbrev pan : ControlDef
pan = pan_tilt (chars "pan") 0

abbrev tilt : ControlDef
tilt = pan_tilt (chars "tilt") 4

parse_setting-encode_example :
    (encode brightness (negsuc 9) (0 ∷ 0 ∷ []) >>= λ b. decode brightness b) ≡ ok (negsuc 9)
unfolding find_in find to_lower same_ignoring_case parse_i64 negated parse_digits setting_number
    number_setting check_range parse_setting
parse_setting-encode_example =
    parse_setting-encode (chars "brightness") (chars "-10") brightness (negsuc 9) (0 ∷ 0 ∷ []) refl
      refl

decode-encode_other_example :
    (encode tilt (pos 1800) (replicate 8 7) >>= λ b. decode pan b) ≡ decode pan (replicate 8 7)
decode-encode_other_example =
    decode-encode_other tilt (inr (inr refl)) (pos 1800) (replicate 8 7) (omega arith) pan
      (inr (inr refl)) (omega arith) (inl (omega arith))

auto_ae_mode_test : auto_ae_mode 0x0a ≡ some 8
unfolding auto_ae_mode
auto_ae_mode_test = refl
