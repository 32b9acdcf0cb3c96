-- ===== src/Shell/Loop.antt =====
-- `run`: the loop over commands. It never returns, so it runs on fuel, a unit for each line, and ends as
-- `spent`, unless it waits for the console or reboots first.
use usb_camera_over_tailscal.Base.{
  ℕ, zero, suc, Bool, true, false, [], Option, none, some, if◌then◌else◌,
}
use usb_camera_over_tailscal.Base.Text.{Text, text_eq}
use usb_camera_over_tailscal.Shell.{
  Platform, greeting, command_prompt, press_enter, spent, M, ◌>>=◌, ◌>>◌, pure, say, look,
}
use usb_camera_over_tailscal.Shell.Line.{read_line, ask}
use usb_camera_over_tailscal.Shell.Wizard.{wizard}
use usb_camera_over_tailscal.Shell.Commands.{dispatch}

-- An hour, in milliseconds.
abbrev pub quiet_wait : ℕ
quiet_wait = 3600000

pub idle_wait : Bool → Option ℕ
idle_wait quiet = if quiet then some quiet_wait else none

module _ {D : Type 0} (p : Platform D) where
  pub banner : M D (Unit {0})
  banner = look p.setup_mode >>= λ setup. say (greeting setup)

  -- The line that was asked for, or none if the console was silent.
  pub run_if_some : ℕ → Option Text → M D (Unit {0})
  run_if_some fuel none = pure tt
  run_if_some fuel (some cmd) = dispatch p fuel cmd

  -- The first key behind a quiet console brings the prompt.
  pub wake : ℕ → M D (Unit {0})
  wake fuel = say command_prompt >> (read_line true none >>= λ o. run_if_some fuel o)

  pub run_command : ℕ → Bool → Option Text → M D (Unit {0})
  run_command fuel quiet none = pure tt
  run_command fuel quiet (some cmd) =
      if text_eq cmd [] then (if quiet then wake fuel else pure tt) else dispatch p fuel cmd

  pub unless : Bool → M D (Unit {0}) → M D (Unit {0})
  unless quiet m = if quiet then pure tt else m

  pub run_turn : ℕ → Bool → M D (Unit {0})
  run_turn fuel quiet = do
    unless quiet (say command_prompt)
    o ← read_line true (idle_wait quiet)
    run_command fuel quiet o

  pub run_loop : ℕ → Bool → M D (Unit {0})
  run_loop zero quiet = λ s. spent s
  run_loop (suc fuel) quiet = let rest = run_loop fuel quiet in run_turn fuel quiet >> rest

  pub start_wizard : ℕ → M D (Unit {0})
  start_wizard fuel = do
    first ← ask press_enter true
    if text_eq first [] then wizard p fuel false else dispatch p fuel first

  -- `run`.
  pub run : ℕ → Bool → Bool → M D (Unit {0})
  run fuel auto_wizard quiet = do
    unless quiet banner
    if auto_wizard then start_wizard fuel else pure tt
    run_loop fuel quiet
