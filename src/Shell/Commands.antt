-- ===== src/Shell/Commands.antt =====
-- `dispatch`: the commands of the shell.
pub mod Hostname
use usb_camera_over_tailscal.Base.{
  ℕ, ◌+◌, Bool, true, false, not, ◌&&◌, ◌||◌, List, [], ◌∷◌, ◌++◌, Option, none, some, ltb, leb,
  ◌==◌, if◌then◌else◌, length, take,
}
use usb_camera_over_tailscal.Base.Text.{words, Text, chars, text_eq, is_whitespace, parse_unsigned}
use usb_camera_over_tailscal.Shell.{
  WifiNetwork, SavedConfig, Attempt, success, failure, Platform, Message, known, no_known_networks,
  failing, connected, ask_erase, erased_all, rebooting, usage, unknown_command, help_text,
  status_text, no_camera, camera_line, captured, Run, M, ◌>>=◌, ◌>>◌, pure, say, act, look, reboot,
}
use usb_camera_over_tailscal.Shell.Line.{ask}
use usb_camera_over_tailscal.Shell.Config.{
  config_or_default, set_field, forget, set_wifi, scan, parse_resolution,
}
use usb_camera_over_tailscal.Shell.Wizard.{is_letter, login, wizard}

-- `pass.join(" ")`.
pub join_words : List Text → Text
join_words [] = []
join_words (w ∷ []) = w
join_words (w ∷ v ∷ ws) = w ++ (0x20 ∷ join_words (v ∷ ws))

pub has_prefix : Text → Text → Bool
has_prefix prefix t = text_eq (take (length prefix) t) prefix

-- A number that is not 0.
pub positive : Option ℕ → Option ℕ
positive none = none
positive (some n) = if n == 0 then none else some n

module _ {D : Type 0} (p : Platform D) where
  pub setup : ℕ → List Text → M D (Unit {0})
  setup fuel [] = wizard p fuel false
  setup fuel (a ∷ []) =
      if text_eq a (chars "all") || text_eq a (chars "full")
      then wizard p fuel true
      else say (usage (chars "setup"))
  setup fuel (a ∷ b ∷ as') = say (usage (chars "setup"))

  pub report_join : Attempt Text → M D (Unit {0})
  report_join (success ip) = say (connected ip)
  report_join (failure e) = say (failing e)

  pub list_networks : List WifiNetwork → M D (Unit {0})
  list_networks [] = pure tt
  list_networks (n ∷ ns) = say (known n.ssid) >> list_networks ns

  -- `wifi_list`.
  pub wifi_list : M D (Unit {0})
  wifi_list = do
    o ← look p.config
    if leb 1 (length (config_or_default o).networks) then pure tt else say no_known_networks
    list_networks (config_or_default o).networks

  pub drop_result : M D Bool → M D (Unit {0})
  drop_result m = m >>= λ _. pure tt

  pub wifi : List Text → M D (Unit {0})
  wifi [] = say (usage (chars "wifi"))
  wifi (a ∷ []) = if text_eq a (chars "list") then wifi_list else drop_result (set_wifi p a [])
  wifi (a ∷ b ∷ []) =
      if text_eq a (chars "forget") then forget p b else drop_result (set_wifi p a b)
  wifi (a ∷ b ∷ c ∷ ws) = drop_result (set_wifi p a (join_words (b ∷ c ∷ ws)))

  pub hostname : List Text → M D (Unit {0})
  hostname (h ∷ []) = set_field p (λ c. record c { hostname = h })
  hostname [] = say (usage (chars "hostname"))
  hostname (a ∷ b ∷ ws) = say (usage (chars "hostname"))

  pub authkey : List Text → M D (Unit {0})
  authkey (k ∷ []) =
      if has_prefix (chars "tskey-") k
      then set_field p (λ c. record c { auth_key = some k })
      else say (usage (chars "authkey"))
  authkey [] = say (usage (chars "authkey"))
  authkey (a ∷ b ∷ ws) = say (usage (chars "authkey"))

  pub set_port : Option ℕ → M D (Unit {0})
  set_port none = say (usage (chars "port"))
  set_port (some n) = set_field p (λ c. record c { http_port = some n })

  pub port : List Text → M D (Unit {0})
  port [] = set_port none
  port (a ∷ ws) = set_port (positive (parse_unsigned 65535 a))

  pub set_resolution : Option (ℕ × ℕ) → M D (Unit {0})
  set_resolution none = say (usage (chars "resolution"))
  set_resolution (some wh) = set_field p (λ c. record c { resolution = some wh })

  pub resolution : List Text → M D (Unit {0})
  resolution [] = set_resolution none
  resolution (a ∷ ws) =
      if text_eq a (chars "auto")
      then set_field p (λ c. record c { resolution = none })
      else set_resolution (parse_resolution a)

  pub set_fps : Option ℕ → M D (Unit {0})
  set_fps none = say (usage (chars "fps"))
  set_fps (some n) = set_field p (λ c. record c { fps = some n })

  pub fps : List Text → M D (Unit {0})
  fps [] = set_fps none
  fps (a ∷ ws) =
      if text_eq a (chars "auto")
      then set_field p (λ c. record c { fps = none })
      else set_fps (positive (parse_unsigned 65535 a))

  pub show_lines : List Text → M D (Unit {0})
  show_lines [] = pure tt
  show_lines (l ∷ ls) = say (camera_line l) >> show_lines ls

  pub camera : M D (Unit {0})
  camera = do
    ls ← look p.camera_info
    if leb 1 (length ls) then pure tt else say no_camera
    show_lines ls

  pub report_capture : Attempt Text → M D (Unit {0})
  report_capture (success d) = say (captured d)
  report_capture (failure e) = say (failing e)

  pub after_reset : Attempt (Unit {0}) → M D (Unit {0})
  after_reset (success u) = say erased_all >> reboot
  after_reset (failure e) = say (failing e)

  pub reset : M D (Unit {0})
  reset = do
    a ← ask ask_erase true
    if is_letter b'y' b'Y' a then (act p.factory_reset >>= λ r. after_reset r) else pure tt

  -- The match on the verb.
  pub run_verb : ℕ → Text → List Text → M D (Unit {0})
  run_verb fuel verb ws =
      if text_eq verb (chars "help") || text_eq verb (chars "?")
      then say help_text
      else if text_eq verb (chars "status")
      then say status_text
      else if text_eq verb (chars "setup")
      then setup fuel ws
      else if text_eq verb (chars "scan")
      then (scan p >>= λ _. pure tt)
      else if text_eq verb (chars "connect")
      then (act p.reconnect_wifi >>= λ r. report_join r)
      else if text_eq verb (chars "wifi")
      then wifi ws
      else if text_eq verb (chars "hostname")
      then hostname ws
      else if text_eq verb (chars "authkey")
      then authkey ws
      else if text_eq verb (chars "port")
      then port ws
      else if text_eq verb (chars "resolution")
      then resolution ws
      else if text_eq verb (chars "fps")
      then fps ws
      else if text_eq verb (chars "camera")
      then camera
      else if text_eq verb (chars "snap")
      then (act p.capture >>= λ r. report_capture r)
      else if text_eq verb (chars "login")
      then drop_result (login p fuel)
      else if text_eq verb (chars "reboot")
      then (say rebooting >> reboot)
      else if text_eq verb (chars "reset")
      then reset
      else say (unknown_command verb)

  pub run_words : ℕ → List Text → M D (Unit {0})
  run_words fuel [] = pure tt
  run_words fuel (verb ∷ ws) = run_verb fuel verb ws

  -- `dispatch`.
  pub dispatch : ℕ → Text → M D (Unit {0})
  dispatch fuel cmd = run_words fuel (words cmd)
