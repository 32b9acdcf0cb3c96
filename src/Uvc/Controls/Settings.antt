-- ===== src/Uvc/Controls/Settings.antt =====
-- What a query parameter sets is a value that the camera's data can hold.
use mathlib.Core.Path.{subst}
use usb_camera_over_tailscal.Base.{
  ◌+◌, ◌≤◌, ◌≡◌, refl, ap, Bool, true, false, ◌||◌, List, [], ◌∷◌, Option, none, some,
  if◌then◌else◌, arith, length, Exec, ok, err, panic, ◌>>=◌, ◌>>◌, fail_if, try,
}
use usb_camera_over_tailscal.Base.Int.{ℤ, ltbℤ, ◌≤ℤ◌}
use usb_camera_over_tailscal.Base.Text.{same_ignoring_case, Text, chars, text_eq}
use usb_camera_over_tailscal.Base.Words.{All}
use usb_camera_over_tailscal.Crypto.{Bytes}
use usb_camera_over_tailscal.Uvc.Controls.{
  ControlDef, AutoControl, Setting, value, SettingError, unknown_parameter, out_of_range, controls,
  find_in, find, setting_number, check_range, number_setting, auto_setting, parse_setting, decode,
  encode,
}
use usb_camera_over_tailscal.Uvc.Controls.Codec.{InRange, IsSize, decode-encode}

-- A control of the table: its size, and its place within the whole data.
abbrev pub IsPlaced : ControlDef → Type 0
IsPlaced d = IsSize d.len × (d.offset + d.len ≤ d.total)

controls-IsPlaced : All IsPlaced controls
controls-IsPlaced = ground arith

found_or_later :
    (b : Bool) (c d : ControlDef) (rest : Option ControlDef)
    → (if b then some c else rest) ≡ some d
    → IsPlaced c
    → (rest ≡ some d → IsPlaced d)
    → IsPlaced d
found_or_later true c d rest e h later = let same : c ≡ d = cc e in subst IsPlaced same h
found_or_later false c d rest e h later = later e

find_in-IsPlaced :
    (l : List ControlDef) (name : Text) (d : ControlDef)
    → All IsPlaced l
    → find_in l name ≡ some d
    → IsPlaced d
unfolding find_in
find_in-IsPlaced [] name d h e = cc e
find_in-IsPlaced (c ∷ cs) name d (h, hs) e =
    found_or_later (text_eq c.name name) c d (find_in cs name) e h
      (λ k. find_in-IsPlaced cs name d hs k)

-- A setting with a number is for this control and within its bounds.
abbrev Sets : ControlDef → ControlDef → ℤ → Type 0
Sets def d n = (def ≡ d) × InRange def.signed def.len n

within : (n lo hi : ℤ) → (ltbℤ n lo || ltbℤ hi n) ≡ false → (lo ≤ℤ n) × (n ≤ℤ hi)
within n lo hi h = ground arith

checked :
    (b : Bool) (def d : ControlDef) (k n : ℤ)
    → (◌>>◌ {B = ControlDef × Setting} (fail_if b out_of_range) (ok (def, value k)))
      ≡ ok (d, value n)
    → (b ≡ false) × (def ≡ d) × (k ≡ n)
checked true def d k n e = cc e
checked false def d k n e = (refl, cc e, cc e)

number_by :
    (m : Exec SettingError ℤ) (def d : ControlDef) (n : ℤ)
    → (m >>= λ k. check_range def k) ≡ ok (d, value n)
    → Sets def d n
unfolding check_range
number_by (ok k) def d n e =
    let (inside, same, number) = checked _ def d k n e in
    (same, subst (λ j. InRange def.signed def.len j) number (within k _ _ inside))
number_by (err x) def d n e = cc e
number_by panic def d n e = cc e

auto_setting-value :
    (def d : ControlDef) (a : Option AutoControl) (n : ℤ) → auto_setting def a ≡ ok (d, value n) → ⊥
unfolding auto_setting
auto_setting-value def d none n e = cc e
auto_setting-value def d (some a) n e = cc e

by_mode :
    (b : Bool) (def d : ControlDef) (name v : Text) (n : ℤ)
    → (if b then auto_setting def def.automatic else number_setting def name v) ≡ ok (d, value n)
    → Sets def d n
unfolding number_setting
by_mode true def d name v n e = absurd (auto_setting-value def d def.automatic n e)
by_mode false def d name v n e = number_by (setting_number name v) def d n e

by_name :
    (o : Option ControlDef) (name v : Text) (d : ControlDef) (n : ℤ)
    → (try unknown_parameter o >>= λ def.
        if same_ignoring_case v (chars "auto")
        then auto_setting def def.automatic
        else number_setting def name v)
      ≡ ok (d, value n)
    → (o ≡ some d) × InRange d.signed d.len n
by_name none name v d n e = cc e
by_name (some def) name v d n e =
    let (same, range) = by_mode (same_ignoring_case v (chars "auto")) def d name v n e in
    (ap some same, subst (λ c. InRange c.signed c.len n) same range)

-- A number that `parse_setting` accepts belongs to a control of the table, in its bounds.
pub parse_setting-InRange :
    (name v : Text) (d : ControlDef) (n : ℤ)
    → parse_setting name v ≡ ok (d, value n)
    → IsPlaced d × InRange d.signed d.len n
unfolding parse_setting find
parse_setting-InRange name v d n e =
    let (known, range) = by_name (find name) name v d n e in
    (find_in-IsPlaced controls name d controls-IsPlaced known, range)

-- A number that `parse_setting` accepts is read back from data as long as the control, once it is
-- written there.
pub parse_setting-encode :
    (name v : Text) (d : ControlDef) (n : ℤ) (bytes : Bytes)
    → parse_setting name v ≡ ok (d, value n)
    → length bytes ≡ d.total
    → (encode d n bytes >>= λ b. decode d b) ≡ ok n
parse_setting-encode name v d n bytes e size =
    let (placed, range) = parse_setting-InRange name v d n e in
    decode-encode d placed.0 n bytes (omega (arith, size, placed.1)) range
