-- ===== src/Firmware.antt =====
-- firmware/src/nvs_store.rs: the configuration in flash: `load_config`, `save_config`, and the text in which
-- the known networks are stored.
pub mod Networks
pub mod Save
mod Tests
use usb_camera_over_tailscal.Base.{
  ℕ, Bool, true, false, not, ◌&&◌, List, [], ◌∷◌, ◌++◌, Option, none, some, ◌==◌, if◌then◌else◌,
}
use usb_camera_over_tailscal.Base.Text.{Text, chars, text_eq, split_once, parse_unsigned, decimal}
use usb_camera_over_tailscal.Shell.{WifiNetwork, SavedConfig}
use usb_camera_over_tailscal.Shell.Config.{parse_resolution}

pub is_empty : Text → Bool
is_empty [] = true
is_empty (c ∷ s) = false

-- One CR at the end of a line goes.
pub strip_return : Text → Text
strip_return [] = []
strip_return (c ∷ s) = let rest = strip_return s in if (c == 13) && is_empty s then [] else c ∷ rest

pub to_first_line : ℕ → List Text × Text → List Text × Text
to_first_line c ([], rest) = ([], c ∷ rest)
to_first_line c (l ∷ ls, rest) = ((c ∷ l) ∷ ls, rest)

-- The lines that end with LF, and what stands behind the last of them.
pub split_lines : Text → List Text × Text
split_lines [] = ([], [])
split_lines (c ∷ s) =
    let (ls, rest) = split_lines s in
    if c == 10 then ([] ∷ ls, rest) else to_first_line c (ls, rest)

pub strip_returns : List Text → List Text
strip_returns [] = []
strip_returns (l ∷ ls) = strip_return l ∷ strip_returns ls

-- `str::lines`.
pub lines_of : Text → List Text
lines_of s =
    let (ls, rest) = split_lines s in strip_returns ls ++ (if is_empty rest then [] else rest ∷ [])

-- The network of a line, unless the line has no TAB or nothing before it.
pub network_by : Option (Text × Text) → List WifiNetwork → List WifiNetwork
network_by none ns = ns
network_by (some (ssid, password)) ns =
    if is_empty ssid then ns else record { ssid = ssid; password = password } ∷ ns

pub networks_of : List Text → List WifiNetwork
networks_of [] = []
networks_of (l ∷ ls) = network_by (split_once 9 l) (networks_of ls)

pub parse_networks : Text → List WifiNetwork
parse_networks text = networks_of (lines_of text)

pub format_networks : List WifiNetwork → Text
format_networks [] = []
format_networks (n ∷ ns) = n.ssid ++ (9 ∷ (n.password ++ (10 ∷ format_networks ns)))

abbrev pub k_nets : Text
k_nets = chars "wifi_list"

abbrev pub k_auth : Text
k_auth = chars "auth_key"

abbrev pub k_host : Text
k_host = chars "hostname"

abbrev pub k_port : Text
k_port = chars "http_port"

abbrev pub k_res : Text
k_res = chars "resolution"

abbrev pub k_fps : Text
k_fps = chars "fps"

-- `KEY_REGISTERED` and `KEY_HOME_DERP` of crates/tsnode/src/node.rs.
abbrev pub key_registered : Text
key_registered = chars "registered"

abbrev pub key_home_derp : Text
key_home_derp = chars "home_derp"

-- The trait `Store` of crates/tsnode/src/node.rs, over the states of a store; `set` and `remove` tell
-- whether they succeed.
pub record Store (D : Type 0) : Type 0 where
  pub get : Text → D → Option Text
  pub set : Text → Text → D → Bool × D
  pub remove : Text → D → Bool × D

-- `?` behind a write.
pub and_then : {D : Type 0} → Bool × D → (D → Bool × D) → Bool × D
and_then (true, s) f = f s
and_then (false, s) f = (false, s)

pub some_text : Option Text → Option Text
some_text none = none
some_text (some t) = if is_empty t then none else some t

pub unwrap_or_empty : Option Text → Text
unwrap_or_empty none = []
unwrap_or_empty (some t) = t

pub parsed {ℓ} : {A : Type ℓ} → (Text → Option A) → Option Text → Option A
parsed f none = none
parsed f (some t) = f t

pub stored_networks : Option Text → List WifiNetwork
stored_networks none = []
stored_networks (some t) = parse_networks t

pub other_key : Text → Option Text → Bool
other_key new none = true
other_key new (some old) = not (text_eq old new)

pub identity_changed : Option SavedConfig → Option Text → Bool
identity_changed none new = true
identity_changed (some old) none = false
identity_changed (some old) (some key) = other_key key old.auth_key

pub number : Option ℕ → Option Text
number none = none
number (some n) = some (decimal n)

pub size : Option (ℕ × ℕ) → Option Text
size none = none
size (some (w, h)) = some (decimal w ++ (b'x' ∷ decimal h))

module _ {D : Type 0} (st : Store D) where
  open st use {get, set, remove}

  -- `set_or_remove`: a removal that fails is passed over.
  pub set_or_remove : Text → Option Text → D → Bool × D
  set_or_remove key (some v) s = set key v s
  set_or_remove key none s = (true, (remove key s).1)

  -- `load_config` behind its networks.
  pub load_with : List WifiNetwork → D → Option SavedConfig
  load_with [] s = none
  load_with (n ∷ ns) s = some (record {
    networks = n ∷ ns;
    hostname = unwrap_or_empty (get k_host s);
    auth_key = some_text (get k_auth s);
    http_port = parsed (parse_unsigned 65535) (get k_port s);
    resolution = parsed parse_resolution (get k_res s);
    fps = parsed (parse_unsigned 65535) (get k_fps s);
  })

  pub load_config : D → Option SavedConfig
  load_config s = load_with (stored_networks (get k_nets s)) s

  -- What `save_config` does when its writes succeeded.
  pub forget_identity : Bool → D → Bool × D
  forget_identity false s = (true, s)
  forget_identity true s = (true, (remove key_home_derp (remove key_registered s).1).1)

  -- `save_config` behind the networks and the name.
  pub save_others : SavedConfig → Bool → D → Bool × D
  save_others cfg changed s = and_then (set_or_remove k_auth cfg.auth_key s) λ s.
      and_then (set_or_remove k_port (number cfg.http_port) s) λ s.
        and_then (set_or_remove k_res (size cfg.resolution) s)
          λ s. and_then (set_or_remove k_fps (number cfg.fps) s) λ s. forget_identity changed s

  -- `save_config`, with whether it succeeds.
  pub save_config : SavedConfig → D → Bool × D
  save_config cfg s =
      let changed = identity_changed (load_config s) cfg.auth_key in
      and_then (set k_nets (format_networks cfg.networks) s)
        λ s. and_then (set k_host cfg.hostname s) λ s. save_others cfg changed s

  -- `is_registered`.
  pub is_registered : D → Bool
  is_registered s = text_eq (unwrap_or_empty (get key_registered s)) (chars "1")

  -- `forget_auth_key`.
  pub forget_auth_key : D → Bool × D
  forget_auth_key s = remove k_auth s
