-- ===== src/Uvc/Tests.antt =====
-- The descriptor of the source's test.
use usb_camera_over_tailscal.Base.{◌≡◌, refl, some, [], ◌∷◌, ◌++◌, ok, NoPanic, replicate}
use usb_camera_over_tailscal.Crypto.{Bytes}
use usb_camera_over_tailscal.Uvc.{
  bitmap_from, bitmap, is_none, take_interface, read_entity, take_terminal, take_unit,
  take_class_specific, with_info, take_descriptor, walk_step, walk, info_of, parse_vc,
}
use usb_camera_over_tailscal.Uvc.Walk.{parse_vc-NoPanic}

abbrev interface : Bytes
interface = 9 ∷ 4 ∷ 0 ∷ 0 ∷ 1 ∷ 14 ∷ 1 ∷ 0 ∷ 0 ∷ []

abbrev camera : Bytes
camera = 18 ∷ 0x24 ∷ 2 ∷ 1 ∷ 1 ∷ 2 ∷ (replicate 8 0 ++ (3 ∷ 0x2a ∷ 2 ∷ 2 ∷ []))

abbrev processing : Bytes
processing = 11 ∷ 0x24 ∷ 5 ∷ 2 ∷ 1 ∷ 0 ∷ 0 ∷ 2 ∷ 0x5f ∷ 0x10 ∷ 0 ∷ []

parse_vc_test :
    parse_vc (interface ++ (camera ++ processing))
    ≡ ok (record {
      interface = 0;
      camera_terminal = some (record { id = 1; controls = 0x2022a });
      processing_unit = some (record { id = 2; controls = 0x105f });
    })
unfolding bitmap_from bitmap is_none take_interface read_entity take_terminal take_unit
    take_class_specific with_info take_descriptor walk_step walk info_of parse_vc
parse_vc_test = refl

parse_vc-NoPanic_example : NoPanic (parse_vc (interface ++ (camera ++ (11 ∷ 0x24 ∷ []))))
parse_vc-NoPanic_example = parse_vc-NoPanic (interface ++ (camera ++ (11 ∷ 0x24 ∷ [])))
