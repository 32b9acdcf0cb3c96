-- ===== src/Firmware/Tests.antt =====
-- Networks stored and loaded.
use usb_camera_over_tailscal.Base.{
  ◌≡◌, refl, Bool, true, false, List, [], ◌∷◌, Option, none, some, if◌then◌else◌,
}
use usb_camera_over_tailscal.Base.Text.{Text, chars, text_eq, text_eq_self}
use usb_camera_over_tailscal.Shell.{WifiNetwork, SavedConfig}
use usb_camera_over_tailscal.Firmware.{
  is_empty, strip_return, parse_networks, format_networks, Store, and_then, set_or_remove,
  load_config, number, size, load_with, stored_networks, identity_changed, forget_identity,
  save_others, save_config,
}
use usb_camera_over_tailscal.Firmware.Save.{
  SetOutcome, not_stored, stored, IsMap, Saved, Loaded, save_config-Saved, load_config-save_config,
}
use usb_camera_over_tailscal.Firmware.Networks.{IsStorable, parse_networks-format_networks}

abbrev known : List WifiNetwork
known =
    record { ssid = chars "home 1"; password = chars "a\tb" }
    ∷ record { ssid = chars "open"; password = [] }
    ∷ []

home : IsStorable (record { ssid = chars "home 1"; password = chars "a\tb" })
unfolding is_empty strip_return
home = record {
  named = refl;
  name_tabs = (refl, (refl, (refl, (refl, (refl, (refl, tt))))));
  name_lines = (refl, (refl, (refl, (refl, (refl, (refl, tt))))));
  password_lines = (refl, (refl, (refl, tt)));
  password_end = refl;
}

open_network : IsStorable (record { ssid = chars "open"; password = [] })
unfolding is_empty strip_return
open_network = record {
  named = refl;
  name_tabs = (refl, (refl, (refl, (refl, tt))));
  name_lines = (refl, (refl, (refl, (refl, tt))));
  password_lines = tt;
  password_end = refl;
}

parse_networks-format_networks_example : parse_networks (format_networks known) ≡ known
parse_networks-format_networks_example =
    parse_networks-format_networks known (home, (open_network, tt))

-- A store that keeps the values in the order of their writes, the newest first, where `none` is a
-- removal; the outcomes say whether the next operations succeed, which they do behind the last.
record Nvs : Type 0 where
  pub values : List (Text × Option Text)
  pub outcomes : List Bool

newest : Text → List (Text × Option Text) → Option Text
newest key [] = none
newest key ((k, v) ∷ values) = if text_eq k key then v else newest key values

write_by : List Bool → Text → Option Text → Nvs → Bool × Nvs
write_by (false ∷ outcomes) key v s = (false, record s { outcomes = outcomes })
write_by (true ∷ outcomes) key v s =
    (true, record { values = (key, v) ∷ s.values; outcomes = outcomes })
write_by [] key v s = (true, record s { values = (key, v) ∷ s.values })

abbrev nvs : Store Nvs
nvs = record {
  get = λ key s. newest key s.values;
  set = λ key v s. write_by s.outcomes key (some v) s;
  remove = λ key s. write_by s.outcomes key none s;
}

newest-write_by :
    (outcomes : List Bool) (j k : Text) (v : Option Text) (s : Nvs)
    → text_eq j k ≡ false
    → newest k (write_by outcomes j v s).1.values ≡ newest k s.values
unfolding newest write_by
newest-write_by [] j k v s h = rw h refl
newest-write_by (false ∷ outcomes) j k v s h = refl
newest-write_by (true ∷ outcomes) j k v s h = rw h refl

write_by-cases :
    (outcomes : List Bool) (key v : Text) (s : Nvs)
    → SetOutcome nvs key v s (write_by outcomes key (some v) s)
unfolding newest write_by
write_by-cases [] key v s =
    stored _ refl (rw (text_eq_self key) refl) (λ k h. newest-write_by [] key k (some v) s h)
write_by-cases (true ∷ outcomes) key v s =
    stored _ refl (rw (text_eq_self key) refl)
      (λ k h. newest-write_by (true ∷ outcomes) key k (some v) s h)
write_by-cases (false ∷ outcomes) key v s = not_stored _ refl (λ k. refl)

nvs-IsMap : IsMap nvs
nvs-IsMap = record {
  set_outcome = λ key v s. write_by-cases s.outcomes key v s;
  removed = λ j k s h. newest-write_by s.outcomes j k none s h;
}

abbrev camera : SavedConfig
camera = record {
  networks = known;
  hostname = chars "camera";
  auth_key = none;
  http_port = some 8080;
  resolution = some (640, 480);
  fps = none;
}

-- An empty store whose third operation, the removal of the key, fails.
abbrev flash : Nvs
flash = record { values = []; outcomes = true ∷ true ∷ false ∷ [] }

save_config-Saved_example : Saved nvs camera flash (save_config nvs camera flash)
save_config-Saved_example = save_config-Saved nvs nvs-IsMap camera flash

load_config-save_config_example : Loaded camera (load_config nvs (save_config nvs camera flash).1)
unfolding save_config and_then save_others set_or_remove forget_identity identity_changed
    load_config stored_networks load_with newest write_by number size
load_config-save_config_example =
    load_config-save_config nvs nvs-IsMap camera flash (λ e. cc e) (home, (open_network, tt)) refl
