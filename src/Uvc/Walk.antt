-- ===== src/Uvc/Walk.antt =====
-- The walk over a descriptor reads no byte out of range, and it ends.
use usb_camera_over_tailscal.Base.{
  ℕ, zero, suc, ◌+◌, ◌*◌, ◌<◌, ◌≤◌, ◌≡◌, Bool, true, false, ◌&&◌, Option, none, some, ltb, leb,
  leb→le, ◌==◌, arith, length, ok, Parse, NoPanic, NoPanic->>=, if-NoPanic, try-NoPanic,
  index-NoPanic, slice-NoPanic, slice_from-NoPanic, ltb_false→le, and_leb→le,
}
use usb_camera_over_tailscal.Crypto.{Bytes}
use usb_camera_over_tailscal.Uvc.{
  VcInfo, Found, is_none, take_interface, read_entity, take_terminal, take_unit,
  take_class_specific, with_info, take_descriptor, walk_step, walk, info_of, parse_vc,
}

take_interface-NoPanic : (d : Bytes) (s : Found) → 9 ≤ length d → NoPanic (take_interface d s)
unfolding take_interface
take_interface-NoPanic d s long = index-NoPanic d 5 _ (omega (arith, long)) λ class.
    index-NoPanic d 6 _ (omega (arith, long)) λ subclass.
      index-NoPanic d 2 _ (omega (arith, long)) λ number.
        if-NoPanic (((class == 14) && (subclass == 1)) && is_none s.info) _ _ (λ _. tt) λ _. tt

read_entity-NoPanic :
    (d : Bytes) (at : ℕ) → 3 < length d → at < length d → NoPanic (read_entity d at)
unfolding read_entity
read_entity-NoPanic d at long within = index-NoPanic d 3 _ long λ id.
    slice_from-NoPanic d (at + 1) _ (omega (arith, within))
      λ rest _. index-NoPanic d at _ within λ size. tt

take_terminal-NoPanic : (d : Bytes) (vc : VcInfo) → 15 ≤ length d → NoPanic (take_terminal d vc)
unfolding take_terminal
take_terminal-NoPanic d vc long = index-NoPanic d 4 _ (omega (arith, long)) λ lo.
    index-NoPanic d 5 _ (omega (arith, long)) λ hi.
      if-NoPanic ((lo + 256 * hi == 0x0201) && is_none vc.camera_terminal) _ _
        (λ _.
          NoPanic->>= (read_entity d 14) _
            (read_entity-NoPanic d 14 (omega (arith, long)) (omega (arith, long))) λ e _. tt)
        λ _. tt

take_unit-NoPanic : (d : Bytes) (vc : VcInfo) → 8 ≤ length d → NoPanic (take_unit d vc)
unfolding take_unit
take_unit-NoPanic d vc long =
    NoPanic->>= (read_entity d 7) _
      (read_entity-NoPanic d 7 (omega (arith, long)) (omega (arith, long))) λ e _. tt

guarded : (a b : Bool) (n m : ℕ) → (a && (leb n m && b)) ≡ true → n ≤ m
guarded a b n m h = ground arith

take_class_specific-NoPanic :
    (d : Bytes) (vc : VcInfo) → 3 ≤ length d → NoPanic (take_class_specific d vc)
unfolding take_class_specific
take_class_specific-NoPanic d vc long = index-NoPanic d 2 _ long λ subtype.
    if-NoPanic ((subtype == 2) && leb 15 (length d)) (take_terminal d vc) _
      (λ h. take_terminal-NoPanic d vc (and_leb→le (subtype == 2) 15 (length d) h))
      λ _.
        if-NoPanic ((subtype == 5) && (leb 8 (length d) && is_none vc.processing_unit))
          (take_unit d vc) (ok vc)
          (λ h.
            take_unit-NoPanic d vc
              (guarded (subtype == 5) (is_none vc.processing_unit) 8 (length d) h))
          λ _. tt

with_info-NoPanic : (d : Bytes) (s : Found) → 3 ≤ length d → NoPanic (with_info d s)
unfolding with_info
with_info-NoPanic d s long = try-NoPanic tt s.info _ λ vc _.
    NoPanic->>= (take_class_specific d vc) _ (take_class_specific-NoPanic d vc long) λ vc' _. tt

both : (a b : Bool) (n m : ℕ) → (a && (b && leb n m)) ≡ true → n ≤ m
both a b n m h = ground arith

take_descriptor-NoPanic : (d : Bytes) (s : Found) → 2 ≤ length d → NoPanic (take_descriptor d s)
unfolding take_descriptor
take_descriptor-NoPanic d s long = index-NoPanic d 1 _ long λ typ.
    if-NoPanic ((typ == 4) && leb 9 (length d)) (take_interface d s) _
      (λ h. take_interface-NoPanic d s (and_leb→le (typ == 4) 9 (length d) h))
      λ _.
        if-NoPanic ((typ == 0x24) && (s.in_vc && leb 3 (length d))) (with_info d s) (ok s)
          (λ h. with_info-NoPanic d s (both (typ == 0x24) s.in_vc 3 (length d) h)) λ _. tt

-- A turn of the loop moves on by at least two bytes, within the descriptor.
walk_step-NoPanic :
    (go : ℕ → Found → Parse (Option VcInfo)) (cfg : Bytes) (pos : ℕ) (s : Found)
    → pos + 2 ≤ length cfg
    → ((next : ℕ) (t : Found) → pos + 2 ≤ next → next ≤ length cfg → NoPanic (go next t))
    → NoPanic (walk_step go cfg pos s)
unfolding walk_step
walk_step-NoPanic go cfg pos s within rest = index-NoPanic cfg pos _ (omega (arith, within)) λ len.
    if-NoPanic (ltb len 2) (ok s.info) _ (λ _. tt)
      λ big.
        if-NoPanic (ltb (length cfg) (pos + len)) (ok s.info) _ (λ _. tt)
          λ inside.
            let two = ltb_false→le len 2 big in
            let fits = ltb_false→le (length cfg) (pos + len) inside in
            slice-NoPanic cfg pos (pos + len) _ (omega arith) fits λ d size.
              NoPanic->>= (take_descriptor d s) _
                (take_descriptor-NoPanic d s (omega (arith, size, two)))
                λ t _. rest (pos + len) t (omega (arith, two)) fits

walk-NoPanic :
    (fuel : ℕ) (cfg : Bytes) (pos : ℕ) (s : Found)
    → length cfg < pos + fuel
    → pos ≤ length cfg
    → NoPanic (walk fuel cfg pos s)
unfolding walk
walk-NoPanic zero cfg pos s enough inside = absurd (omega arith)
walk-NoPanic (suc fuel) cfg pos s enough inside =
    if-NoPanic (leb (pos + 2) (length cfg)) (walk_step (λ next t. walk fuel cfg next t) cfg pos s)
      (ok s.info)
      (λ h.
        walk_step-NoPanic (λ next t. walk fuel cfg next t) cfg pos s
          (leb→le (pos + 2) (length cfg) h)
          λ next t further within. walk-NoPanic fuel cfg next t (omega arith) within)
      λ _. tt

-- The walk over any bytes reads none out of range, and it ends before it has taken more turns than
-- there are bytes.
pub parse_vc-NoPanic : (cfg : Bytes) → NoPanic (parse_vc cfg)
unfolding parse_vc info_of
parse_vc-NoPanic cfg =
    NoPanic->>= (walk (length cfg + 1) cfg 0 (record { info = none; in_vc = false })) _
      (walk-NoPanic (length cfg + 1) cfg 0 _ (omega arith) (omega arith)) λ o _. last o
  where
    last : (o : Option VcInfo) → NoPanic (info_of o)
    last none = tt
    last (some vc) = tt
