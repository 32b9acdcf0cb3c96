-- ===== src/Uvc/Controls.antt =====
-- The table of controls, the query parameters, and the values in a control's data.
pub mod Codec
pub mod Settings
mod Tests
use usb_camera_over_tailscal.Base.{
  ℕ, ◌+◌, ◌-◌, ◌*◌, ◌/◌, ◌%◌, ◌^◌, bit_and, Bool, true, false, not, ◌&&◌, ◌||◌, List, [], ◌∷◌, ◌++◌,
  Option, none, some, ltb, leb, ◌==◌, if◌then◌else◌, length, take, drop, replicate, Exec, ok, err,
  panic, ◌>>=◌, ◌>>◌, fail_if, Parse, reject, try,
}
use usb_camera_over_tailscal.Base.Int.{ℤ, pos, negsuc, sub_ℕ, ltbℤ}
use usb_camera_over_tailscal.Base.Text.{
  same_ignoring_case, Text, chars, text_eq, parse_digits, parse_unsigned,
}
use usb_camera_over_tailscal.Base.Words.{to_le, from_le}
use usb_camera_over_tailscal.Crypto.{Bytes}

-- `Unit` of the source.
pub data Owner : Type 0 where
  camera_terminal processing_unit : Owner

pub data AutoKind : Type 0 where
  flag ae_mode : AutoKind

pub record AutoControl : Type 0 where
  pub selector : ℕ
  pub bit : ℕ
  pub kind : AutoKind

pub record ControlDef : Type 0 where
  pub name : Text
  pub owner : Owner
  pub selector : ℕ
  pub bit : ℕ
  pub len : ℕ
  pub offset : ℕ
  pub total : ℕ
  pub signed : Bool
  pub automatic : Option AutoControl

abbrev pub simple : Text → Owner → ℕ → ℕ → ℕ → Bool → Option AutoControl → ControlDef
simple name owner selector bit len signed automatic = record {
  name = name;
  owner = owner;
  selector = selector;
  bit = bit;
  len = len;
  offset = 0;
  total = len;
  signed = signed;
  automatic = automatic;
}

abbrev pub pan_tilt : Text → ℕ → ControlDef
pan_tilt name offset = record {
  name = name;
  owner = camera_terminal;
  selector = 0x0d;
  bit = 11;
  len = 4;
  offset = offset;
  total = 8;
  signed = true;
  automatic = none;
}

abbrev pub companion : ℕ → ℕ → AutoKind → Option AutoControl
companion selector bit kind = some (record { selector = selector; bit = bit; kind = kind })

-- `CONTROLS`.
abbrev pub controls : List ControlDef
controls =
    simple (chars "exposure") camera_terminal 0x04 3 4 false (companion 0x02 1 ae_mode)
    ∷ simple (chars "focus") camera_terminal 0x06 5 2 false (companion 0x08 17 flag)
    ∷ simple (chars "iris") camera_terminal 0x09 7 2 false none
    ∷ simple (chars "zoom") camera_terminal 0x0b 9 2 false none
    ∷ pan_tilt (chars "pan") 0
    ∷ pan_tilt (chars "tilt") 4
    ∷ simple (chars "roll") camera_terminal 0x0f 13 2 true none
    ∷ simple (chars "brightness") processing_unit 0x02 0 2 true none
    ∷ simple (chars "contrast") processing_unit 0x03 1 2 false none
    ∷ simple (chars "hue") processing_unit 0x06 2 2 true (companion 0x10 11 flag)
    ∷ simple (chars "saturation") processing_unit 0x07 3 2 false none
    ∷ simple (chars "sharpness") processing_unit 0x08 4 2 false none
    ∷ simple (chars "gamma") processing_unit 0x09 5 2 false none
    ∷ simple (chars "wb") processing_unit 0x0a 6 2 false (companion 0x0b 12 flag)
    ∷ simple (chars "backlight") processing_unit 0x01 8 2 false none
    ∷ simple (chars "gain") processing_unit 0x04 9 2 false none
    ∷ simple (chars "powerline") processing_unit 0x05 10 1 false none
    ∷ []

pub data Setting : Type 0 where
  auto : Setting
  value : ℤ → Setting

-- The messages of `parse_setting`, by their kinds.
pub data SettingError : Type 0 where
  unknown_parameter no_automatic_mode bad_powerline not_a_number out_of_range : SettingError

pub find_in : List ControlDef → Text → Option ControlDef
find_in [] name = none
find_in (c ∷ cs) name = let rest = find_in cs name in if text_eq c.name name then some c else rest

pub find : Text → Option ControlDef
find name = find_in controls name

-- `str::parse::<i64>`.
pub negated : Option ℕ → Option ℤ
negated none = none
negated (some n) = some (sub_ℕ 0 n)

pub unsigned : Option ℕ → Option ℤ
unsigned none = none
unsigned (some n) = some (pos n)

pub parse_i64 : Text → Option ℤ
parse_i64 [] = none
parse_i64 (c ∷ []) = unsigned (parse_unsigned (2 ^ 63 - 1) (c ∷ []))
parse_i64 (c ∷ d ∷ s) =
    if c == b'-'
    then negated (parse_digits (2 ^ 63) 0 (d ∷ s))
    else unsigned (parse_unsigned (2 ^ 63 - 1) (c ∷ d ∷ s))

-- The match on the name and the value.
pub powerline_code : Text → Exec SettingError ℤ
powerline_code v =
    if text_eq v (chars "0") || text_eq v (chars "off")
    then ok (pos 0)
    else if text_eq v (chars "50")
    then ok (pos 1)
    else if text_eq v (chars "60")
    then ok (pos 2)
    else err bad_powerline

pub setting_number : Text → Text → Exec SettingError ℤ
setting_number name v =
    if text_eq name (chars "powerline") then powerline_code v else try not_a_number (parse_i64 v)

-- The bounds of a value of `len` bytes.
abbrev pub lowest : Bool → ℕ → ℤ
lowest signed len = if signed then sub_ℕ 0 (2 ^ (len * 8 - 1)) else pos 0

abbrev pub highest : Bool → ℕ → ℤ
highest signed len = if signed then pos (2 ^ (len * 8 - 1) - 1) else pos (2 ^ (len * 8) - 1)

pub check_range : ControlDef → ℤ → Exec SettingError (ControlDef × Setting)
check_range def n = do
  fail_if (ltbℤ n (lowest def.signed def.len) || ltbℤ (highest def.signed def.len) n) out_of_range
  ok (def, value n)

pub number_setting : ControlDef → Text → Text → Exec SettingError (ControlDef × Setting)
number_setting def name v = setting_number name v >>= λ n. check_range def n

pub auto_setting : ControlDef → Option AutoControl → Exec SettingError (ControlDef × Setting)
auto_setting def none = err no_automatic_mode
auto_setting def (some a) = ok (def, auto)

pub parse_setting : Text → Text → Exec SettingError (ControlDef × Setting)
parse_setting name v = do
  def ← try unknown_parameter (find name)
  if same_ignoring_case v (chars "auto")
      then auto_setting def def.automatic
      else number_setting def name v

-- An `i64` as the `u64` of the same bits, and back.
pub to_u64 : ℤ → ℕ
to_u64 (pos n) = n
to_u64 (negsuc n) = 2 ^ 64 - 1 - n

pub to_i64 : ℕ → ℤ
to_i64 u = if ltb u (2 ^ 63) then pos u else negsuc (2 ^ 64 - 1 - u)

-- The value of `n` bytes, with the sign bit read where the control is signed.
pub value_of : Bool → ℕ → ℕ → ℤ
value_of signed n u =
    if signed && (ltb n 8 && (u / 2 ^ (n * 8 - 1) % 2 == 1))
    then sub_ℕ u (2 ^ (n * 8))
    else to_i64 u

pub decode : ControlDef → Bytes → Parse ℤ
decode def bytes =
    if leb (def.offset + def.len) (length bytes)
    then if leb def.len 8
      then ok (value_of def.signed def.len (from_le (take def.len (drop def.offset bytes))))
      else panic
    else reject

pub encode : {E : Type 0} → ControlDef → ℤ → Bytes → Exec E Bytes
encode def v bytes =
    if leb (def.offset + def.len) (length bytes) && leb def.len 8
    then ok (
        take def.offset bytes
        ++ (take def.len (to_le 8 (to_u64 v)) ++ drop (def.offset + def.len) bytes))
    else panic

pub frequency : ℤ → ℤ
frequency (pos n) = if n == 1 then pos 50 else if n == 2 then pos 60 else pos n
frequency (negsuc n) = negsuc n

-- The raw code of the mains frequency as the frequency.
pub display_value : ControlDef → ℤ → ℤ
display_value def raw = if text_eq def.name (chars "powerline") then frequency raw else raw

pub auto_ae_mode : ℕ → Option ℕ
auto_ae_mode supported =
    if not (bit_and supported 8 == 0)
    then some 8
    else if not (bit_and supported 2 == 0)
    then some 2
    else if not (bit_and supported 4 == 0)
    then some 4
    else none
