-- ===== src/Shell/Commands/Hostname.antt =====
-- The `hostname` command does not check the name, as the wizard does.
use usb_camera_over_tailscal.Base.{ℕ, ◌≡◌, refl, true, [], ◌∷◌, ◌++◌, some, leb, length, not, arith}
use usb_camera_over_tailscal.Base.Text.{
  add_char, pieces, nonempty, words, Text, chars, is_whitespace,
}
use usb_camera_over_tailscal.Shell.{Platform, Shell}
use usb_camera_over_tailscal.Shell.Ensures.{Post, Any}
use usb_camera_over_tailscal.Shell.Config.{config_or_default, all_of}
use usb_camera_over_tailscal.Shell.Config.Saves.{set_field-saves}
use usb_camera_over_tailscal.Shell.Commands.{run_verb, run_words, dispatch, hostname}

-- A text of one word: without white space, and not empty.
abbrev pub IsWord : Text → Type 0
IsWord h = (leb 1 (length h) ≡ true) × (all_of (λ c. not (is_whitespace c)) h ≡ true)

pieces-word : (h : Text) → all_of (λ c. not (is_whitespace c)) h ≡ true → pieces h ≡ h ∷ []
unfolding pieces add_char all_of
pieces-word [] e = refl
pieces-word (c ∷ h) e = ground (arith, pieces-word h)

words-hostname : (h : Text) → IsWord h → words (chars "hostname " ++ h) ≡ chars "hostname" ∷ h ∷ []
unfolding words nonempty pieces add_char is_whitespace
words-hostname [] (e, w) = cc e
words-hostname (c ∷ h) (e, w) = rw (pieces-word (c ∷ h) w) refl

module _ {D : Type 0} (p : Platform D) where
  -- After `hostname` with one word, valid or not, a device that stores what it is told has that word
  -- for its name, and the rest of its configuration is as it was.
  pub dispatch-hostname :
      (fuel : ℕ) (h : Text) (s : Shell D)
      → IsWord h
      → p.config
          (p.save_config
            (record (config_or_default (p.config s.device)) { hostname = h })
            s.device).1
        ≡ some (record (config_or_default (p.config s.device)) { hostname = h })
      → Post
          (λ d. p.config d ≡ some (record (config_or_default (p.config s.device)) { hostname = h }))
          Any
          (dispatch p fuel (chars "hostname " ++ h) s)
  unfolding dispatch run_words run_verb hostname
  dispatch-hostname fuel h s word e =
      rw (words-hostname h word) (set_field-saves p (λ c. record c { hostname = h }) s _ e)
