-- ===== src/Shell/Config/Saves.antt =====
-- `set_field` on a device that stores what it is told.
use usb_camera_over_tailscal.Base.{◌≡◌, some}
use usb_camera_over_tailscal.Shell.{
  SavedConfig, Attempt, success, failure, Platform, failing, saved, Shell, look, act,
}
use usb_camera_over_tailscal.Shell.Ensures.{Post, Any, Ensures, Ensures-run, Ensures-say}
use usb_camera_over_tailscal.Shell.Config.{config_or_default, set_field, report_saved}

module _ {D : Type 0} (p : Platform D) where
  pub set_field-saves :
      (f : SavedConfig → SavedConfig) (s : Shell D) (c : SavedConfig)
      → p.config (p.save_config (f (config_or_default (p.config s.device))) s.device).1 ≡ some c
      → Post (λ d. p.config d ≡ some c) Any (set_field p f s)
  unfolding set_field look act report_saved
  set_field-saves f s c e =
      Ensures-run (λ d. p.config d ≡ some c) Any (report_saved p _ saved) _
        (reported (p.save_config (f (config_or_default (p.config s.device))) s.device).0) e
    where
      reported :
          (r : Attempt (Unit {0})) → Ensures (λ d. p.config d ≡ some c) Any (report_saved p r saved)
      reported (success u) = Ensures-say (λ d. p.config d ≡ some c) saved
      reported (failure m) = Ensures-say (λ d. p.config d ≡ some c) (failing m)
