-- ===== src/Uvc.antt =====
-- crates/adapter-core/src/uvc.rs: the walk over a configuration descriptor. Positions are those of
-- the source, and an index or a slice out of range is a panic.
pub mod Controls
pub mod Walk
mod Tests
use usb_camera_over_tailscal.Base.{
  ℕ, zero, suc, ◌+◌, ◌*◌, ◌^◌, min, bit_or, Bool, true, false, ◌&&◌, List, [], ◌∷◌, Option, none,
  some, ltb, leb, ◌==◌, if◌then◌else◌, length, take, drop, Exec, ok, err, panic, ◌>>=◌, Parse,
  reject, try, index, slice, slice_from,
}
use usb_camera_over_tailscal.Crypto.{Bytes}

pub record Entity : Type 0 where
  pub id : ℕ
  pub controls : ℕ

pub record VcInfo : Type 0 where
  pub interface : ℕ
  pub camera_terminal : Option Entity
  pub processing_unit : Option Entity

abbrev pub dt_interface : ℕ
dt_interface = 4

abbrev pub dt_cs_interface : ℕ
dt_cs_interface = 0x24

abbrev pub class_video : ℕ
class_video = 0x0e

abbrev pub subclass_videocontrol : ℕ
subclass_videocontrol = 1

abbrev pub vc_input_terminal : ℕ
vc_input_terminal = 2

abbrev pub vc_processing_unit : ℕ
vc_processing_unit = 5

abbrev pub itt_camera : ℕ
itt_camera = 0x0201

-- `bitmap`: the first bytes, at most four, as a little-endian number.
pub bitmap_from : ℕ → ℕ → Bytes → ℕ
bitmap_from i acc [] = acc
bitmap_from i acc (b ∷ bs) = bitmap_from (i + 1) (bit_or acc (b * 2 ^ (8 * i))) bs

pub bitmap : Bytes → ℕ → ℕ
bitmap bytes size = bitmap_from 0 0 (take (min size 4) bytes)

-- The variables of the loop.
pub record Found : Type 0 where
  pub info : Option VcInfo
  pub in_vc : Bool

pub is_none : {A : Type 0} → Option A → Bool
is_none none = true
is_none (some a) = false

-- An interface descriptor: the first VideoControl interface is taken.
pub take_interface : Bytes → Found → Parse Found
take_interface d s = do
  class ← index d 5
  subclass ← index d 6
  number ← index d 2
  if ((class == class_video) && (subclass == subclass_videocontrol)) && is_none s.info
      then ok (record {
        info = some (record { interface = number; camera_terminal = none; processing_unit = none });
        in_vc = true;
      })
      else ok (record s { in_vc = false })

-- An entity whose bitmap begins at `at`, behind its size.
pub read_entity : Bytes → ℕ → Parse Entity
read_entity d at = do
  id ← index d 3
  rest ← slice_from d (at + 1)
  size ← index d at
  ok (record { id = id; controls = bitmap rest size })

pub take_terminal : Bytes → VcInfo → Parse VcInfo
take_terminal d vc = do
  lo ← index d 4
  hi ← index d 5
  if (lo + 256 * hi == itt_camera) && is_none vc.camera_terminal
      then (read_entity d 14 >>= λ e. ok (record vc { camera_terminal = some e }))
      else ok vc

pub take_unit : Bytes → VcInfo → Parse VcInfo
take_unit d vc = read_entity d 7 >>= λ e. ok (record vc { processing_unit = some e })

-- A class-specific descriptor within the interface.
pub take_class_specific : Bytes → VcInfo → Parse VcInfo
take_class_specific d vc = do
  subtype ← index d 2
  if (subtype == vc_input_terminal) && leb 15 (length d)
      then take_terminal d vc
      else if (subtype == vc_processing_unit) && (leb 8 (length d) && is_none vc.processing_unit)
      then take_unit d vc
      else ok vc

-- `info.as_mut()?`.
pub with_info : Bytes → Found → Parse Found
with_info d s = do
  vc ← try tt s.info
  vc' ← take_class_specific d vc
  ok (record s { info = some vc' })

-- The match on the descriptor's type.
pub take_descriptor : Bytes → Found → Parse Found
take_descriptor d s = do
  typ ← index d 1
  if (typ == dt_interface) && leb 9 (length d)
      then take_interface d s
      else if (typ == dt_cs_interface) && (s.in_vc && leb 3 (length d))
      then with_info d s
      else ok s

-- One turn of the loop, where `go` is the rest of it.
pub walk_step : (ℕ → Found → Parse (Option VcInfo)) → Bytes → ℕ → Found → Parse (Option VcInfo)
walk_step go cfg pos s = do
  len ← index cfg pos
  if ltb len 2
      then ok s.info
      else if ltb (length cfg) (pos + len)
      then ok s.info
      else (slice cfg pos (pos + len) >>= λ d. take_descriptor d s >>= λ s'. go (pos + len) s')

-- The loop, on fuel. To run out of it counts as a panic.
pub walk : ℕ → Bytes → ℕ → Found → Parse (Option VcInfo)
walk zero cfg pos s = panic
walk (suc fuel) cfg pos s =
    if leb (pos + 2) (length cfg)
    then walk_step (λ next t. walk fuel cfg next t) cfg pos s
    else ok s.info

pub info_of : Option VcInfo → Parse VcInfo
info_of none = reject
info_of (some vc) = ok vc

pub parse_vc : Bytes → Parse VcInfo
parse_vc cfg = walk (length cfg + 1) cfg 0 (record { info = none; in_vc = false }) >>= info_of
