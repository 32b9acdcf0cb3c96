-- ===== src/Shell/Config.antt =====
-- Changes of the saved configuration: `set_field`, `set_wifi`, `scan`, `wifi forget`, and the tests on what is
-- typed.
pub mod Networks
pub mod Saves
use usb_camera_over_tailscal.Base.{
  ℕ, zero, suc, ◌+◌, ◌-◌, Bool, true, false, not, ◌&&◌, ◌||◌, List, [], ◌∷◌, ◌++◌, Option, none,
  some, ltb, leb, ◌==◌, if◌then◌else◌, length, take,
}
use usb_camera_over_tailscal.Base.Int.{ℤ, ltbℤ}
use usb_camera_over_tailscal.Base.Text.{Text, text_eq, split_once, parse_unsigned}
use usb_camera_over_tailscal.Shell.{
  ApInfo, WifiNetwork, SavedConfig, no_config, Attempt, success, failure, Platform, Message,
  scanning, no_networks, network, saved, failing, bad_password, joining, connected, forgotten,
  no_such_network, Shell, Run, done, M, ◌>>=◌, ◌>>◌, pure, say, act, look,
}

unfoldable pub config_or_default : Option SavedConfig → SavedConfig
config_or_default none = no_config
config_or_default (some c) = c

-- `networks.retain(|n| n.ssid != ssid)`.
pub without : Text → List WifiNetwork → List WifiNetwork
without ssid [] = []
without ssid (n ∷ ns) = let rest = without ssid ns in if text_eq n.ssid ssid then rest else n ∷ rest

unfoldable pub with_network : Text → Text → SavedConfig → SavedConfig
with_network ssid password c = record c {
  networks = without ssid c.networks ++ (record { ssid = ssid; password = password } ∷ []);
}

-- The list of `scan`: the strongest first, without a repeated neighbour or an empty name, at most
-- fifteen.
pub insert_ap : ApInfo → List ApInfo → List ApInfo
insert_ap a [] = a ∷ []
insert_ap a (b ∷ bs) =
    let rest = insert_ap a bs in if ltbℤ a.rssi b.rssi then b ∷ rest else a ∷ b ∷ bs

pub sort_aps : List ApInfo → List ApInfo
sort_aps [] = []
sort_aps (a ∷ aps) = insert_ap a (sort_aps aps)

pub dedup_behind : ApInfo → List ApInfo → List ApInfo
dedup_behind a [] = a ∷ []
dedup_behind a (b ∷ bs) = if text_eq b.ssid a.ssid then a ∷ bs else a ∷ b ∷ bs

pub dedup : List ApInfo → List ApInfo
dedup [] = []
dedup (a ∷ aps) = dedup_behind a (dedup aps)

pub named : List ApInfo → List ApInfo
named [] = []
named (a ∷ aps) = if text_eq a.ssid [] then named aps else a ∷ named aps

pub visible : List ApInfo → List ApInfo
visible aps = take 15 (named (dedup (sort_aps aps)))

unfoldable pub is_alphanumeric : ℕ → Bool
is_alphanumeric b =
    (leb b'0' b && leb b b'9') || ((leb b'a' b && leb b b'z') || (leb b'A' b && leb b b'Z'))

unfoldable pub all_of : (ℕ → Bool) → Text → Bool
all_of p [] = true
all_of p (b ∷ bs) = p b && all_of p bs

unfoldable pub starts_with_dash : Text → Bool
starts_with_dash [] = false
starts_with_dash (b ∷ bs) = b == b'-'

unfoldable pub ends_with_dash : Text → Bool
ends_with_dash [] = false
ends_with_dash (b ∷ []) = b == b'-'
ends_with_dash (b ∷ c ∷ bs) = ends_with_dash (c ∷ bs)

unfoldable pub valid_hostname : Text → Bool
valid_hostname h =
    leb 1 (length h)
    && (leb (length h) 63
        && (all_of (λ b. is_alphanumeric b || (b == b'-')) h
            && (not (starts_with_dash h) && not (ends_with_dash h))))

-- `s.split_once(['x', 'X'])`.
pub split_at_x : Text → Option (Text × Text)
split_at_x [] = none
split_at_x (c ∷ s) =
    let rest = split_at_x s in
    if (c == b'x') || (c == b'X')
    then some ([], s)
    else elim rest [ none ↦ none | some (a, b) ↦ some (c ∷ a, b) ]

pub both_positive : Option ℕ → Option ℕ → Option (ℕ × ℕ)
both_positive (some w) (some h) = if (w == 0) || (h == 0) then none else some (w, h)
both_positive none h = none
both_positive (some w) none = none

pub parse_parts : Option (Text × Text) → Option (ℕ × ℕ)
parse_parts none = none
parse_parts (some (w, h)) = both_positive (parse_unsigned 65535 w) (parse_unsigned 65535 h)

pub parse_resolution : Text → Option (ℕ × ℕ)
parse_resolution s = parse_parts (split_at_x s)

pub bad_length : Text → Bool
bad_length password =
    leb 1 (length password) && (ltb (length password) 8 || ltb 63 (length password))

module _ {D : Type 0} (p : Platform D) where
  pub report_saved : Attempt (Unit {0}) → Message → M D (Unit {0})
  report_saved (success u) m = say m
  report_saved (failure e) m = say (failing e)

  -- `set_field`.
  pub set_field : (SavedConfig → SavedConfig) → M D (Unit {0})
  set_field f = do
    c ← look p.config
    r ← act (p.save_config (f (config_or_default c)))
    report_saved r saved

  -- `wifi forget`.
  pub forget : Text → M D (Unit {0})
  forget ssid = do
    o ← look p.config
    let c = config_or_default o
    let kept = without ssid c.networks
    if length kept == length c.networks
        then say no_such_network
        else (act (p.save_config (record c { networks = kept })) >>= λ r. report_saved r forgotten)

  pub keep_network : Attempt (Unit {0}) → M D Bool
  keep_network (success u) = pure true
  keep_network (failure e) = say (failing e) >> pure false

  pub store_network : Text → Text → Attempt Text → M D Bool
  store_network ssid password (failure e) = say (failing e) >> pure false
  store_network ssid password (success ip) = do
    say (connected ip)
    o ← look p.config
    r ← act (p.save_config (with_network ssid password (config_or_default o)))
    keep_network r

  -- `set_wifi`.
  pub join : Text → Text → M D Bool
  join ssid password = do
    say (joining ssid)
    r ← act (p.connect_wifi ssid password)
    store_network ssid password r

  pub set_wifi : Text → Text → M D Bool
  set_wifi ssid password =
      if bad_length password then (say bad_password >> pure false) else join ssid password

  pub list_aps : ℕ → List ApInfo → M D (Unit {0})
  list_aps i [] = pure tt
  list_aps i (a ∷ aps) = say (network i a) >> list_aps (i + 1) aps

  pub note_none : List ApInfo → M D (Unit {0})
  note_none [] = say no_networks
  note_none (a ∷ aps) = pure tt

  pub show_aps : Attempt (List ApInfo) → M D (List ApInfo)
  show_aps (failure e) = say (failing e) >> pure []
  show_aps (success aps) = do list_aps 1 (visible aps); note_none (visible aps); pure (visible aps)

  -- `scan`.
  pub scan : M D (List ApInfo)
  scan = do say scanning; r ← act p.scan_wifi; show_aps r
