-- ===== src/Wireguard/Replay/Tests.antt =====
-- The replay window run on concrete counters.
use usb_camera_over_tailscal.Base.{ℕ, ◌≡◌, refl, List, [], ◌∷◌, true, false}
use usb_camera_over_tailscal.Wireguard.Replay.{
  new, run, check_and_update, mark, slide, clear_words, delivered,
}
use usb_camera_over_tailscal.Wireguard.Replay.Once.{Distinct, delivered-Distinct}
use usb_camera_over_tailscal.Wireguard.Replay.Refine.{run_refines}
use usb_camera_over_tailscal.Wireguard.Replay.Spec
use usb_camera_over_tailscal.Wireguard.Replay.Spec.{nothing}

abbrev arrivals : List ℕ
arrivals = 0 ∷ 0 ∷ 5 ∷ 3 ∷ 5 ∷ 1990 ∷ 5 ∷ 7 ∷ 1989 ∷ 1990 ∷ 9000 ∷ 7015 ∷ 7016 ∷ 7017 ∷ 7017 ∷ []

run-arrivals :
    run new arrivals
    ≡ true ∷ false ∷ true ∷ true ∷ false ∷ true ∷ false ∷ true ∷ true ∷ false ∷ true ∷ false ∷ false
      ∷ true ∷ false ∷ []
unfolding run check_and_update mark slide clear_words
run-arrivals = refl

run_refines_example : run new arrivals ≡ Spec.run 1984 nothing arrivals
run_refines_example = run_refines arrivals

delivered-Distinct_example : Distinct (delivered new arrivals)
delivered-Distinct_example = delivered-Distinct arrivals
