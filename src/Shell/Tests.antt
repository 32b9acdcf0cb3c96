-- ===== src/Shell/Tests.antt =====
-- A device that stores what it is told, and what the shell does on it.
use usb_camera_over_tailscal.Base.{
  ℕ, ◌+◌, ◌≡◌, refl, true, false, List, [], ◌∷◌, Option, none, some,
}
use usb_camera_over_tailscal.Base.Int.{pos}
use usb_camera_over_tailscal.Base.Text.{Text, chars, is_whitespace}
use usb_camera_over_tailscal.Shell.{SavedConfig, running, success, Platform, Poll, Shell}
use usb_camera_over_tailscal.Shell.Ensures.{Post, Any}
use usb_camera_over_tailscal.Shell.Config.{
  is_alphanumeric, starts_with_dash, ends_with_dash, config_or_default, with_network,
  valid_hostname, all_of,
}
use usb_camera_over_tailscal.Shell.Config.Networks.{Added, with_network-Added}
use usb_camera_over_tailscal.Shell.Commands.{dispatch}
use usb_camera_over_tailscal.Shell.Commands.Hostname.{dispatch-hostname}

abbrev board : Platform (Option SavedConfig)
board = record {
  setup_mode = λ d. true;
  scan_wifi =
      λ d. (success (record { ssid = chars "office"; rssi = pos 0; secure = true } ∷ []), d);
  connect_wifi = λ s w d. (success (chars "10.0.0.7"), d);
  reconnect_wifi = λ d. (success (chars "10.0.0.7"), d);
  config = λ d. d;
  save_config = λ c d. (success tt, some c);
  start_node = λ d. (success tt, d);
  node_state = λ d. (running [] (chars "camera"), d);
  is_registered = λ d. false;
  factory_reset = λ d. (success tt, none);
  camera_info = λ d. [];
  capture = λ d. (success (chars "1 frame"), d);
}

abbrev camera_config : SavedConfig
camera_config = record {
  networks = record { ssid = chars "office"; password = chars "old secret" } ∷ [];
  hostname = chars "camera";
  auth_key = none;
  http_port = none;
  resolution = none;
  fps = none;
}

-- The keys of a text, one each millisecond.
abbrev typed : ℕ → Text → List Poll
typed t [] = []
typed t (b ∷ bs) = record { now = t; byte = some b } ∷ typed (t + 1) bs

abbrev shell : Text → Shell (Option SavedConfig)
shell keys = record {
  device = some camera_config;
  input = typed 0 keys;
  output = [];
  swallow_lf = false;
}

with_network-Added_example :
    Added
      (chars "office")
      (chars "new secret")
      camera_config.networks
      (with_network (chars "office") (chars "new secret") camera_config).networks
with_network-Added_example =
    with_network-Added (chars "office") (chars "new secret") camera_config (refl, tt)

dispatch-hostname_example :
    Post
      (λ d. d ≡ some (record camera_config { hostname = chars "-x" }))
      Any
      (dispatch board 9 (chars "hostname -x") (shell []))
unfolding all_of is_whitespace config_or_default
dispatch-hostname_example = dispatch-hostname board 9 (chars "-x") (shell []) (refl, refl) refl

bad_name_test : valid_hostname (chars "-x") ≡ false
unfolding valid_hostname all_of is_alphanumeric starts_with_dash ends_with_dash
bad_name_test = refl
