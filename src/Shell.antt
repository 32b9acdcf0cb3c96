-- ===== src/Shell.antt =====
-- crates/adapter-core/src/shell.rs: the setup shell. `Platform` is a record of the device's actions
-- over a type of device states. The console is the list of polls to come, each with the time and the
-- byte that it brings. Where a run waits for more polls than there are, its outcome is `waiting`.
pub mod Ensures
pub mod Line
pub mod Config
pub mod Wizard
pub mod Commands
pub mod Loop
mod Tests
use usb_camera_over_tailscal.Base.{
  ℕ, ◌+◌, Bool, true, false, List, [], ◌∷◌, ◌++◌, Option, none, some,
}
use usb_camera_over_tailscal.Base.Int.{ℤ}
use usb_camera_over_tailscal.Base.Text.{Text}

pub record ApInfo : Type 0 where
  pub ssid : Text
  pub rssi : ℤ
  pub secure : Bool

pub record WifiNetwork : Type 0 where
  pub ssid : Text
  pub password : Text

pub record SavedConfig : Type 0 where
  pub networks : List WifiNetwork
  pub hostname : Text
  pub auth_key : Option Text
  pub http_port : Option ℕ
  pub resolution : Option (ℕ × ℕ)
  pub fps : Option ℕ

-- `SavedConfig::default`.
abbrev pub no_config : SavedConfig
no_config = record {
  networks = [];
  hostname = [];
  auth_key = none;
  http_port = none;
  resolution = none;
  fps = none;
}

pub data NodeState : Type 0 where
  off connecting : NodeState
  needs_login : Text → NodeState
  running : List Text → Text → NodeState
  failed : Text → NodeState

-- `Result<T, String>`.
pub data Attempt (A : Type 0) : Type 0 where
  success : A → Attempt A
  failure : Text → Attempt A

-- The actions take `&self` and change the device behind it. `node_state` may change it too: the
-- node goes on between two calls.
pub record Platform (D : Type 0) : Type 0 where
  pub setup_mode : D → Bool
  pub scan_wifi : D → Attempt (List ApInfo) × D
  pub connect_wifi : Text → Text → D → Attempt Text × D
  pub reconnect_wifi : D → Attempt Text × D
  pub config : D → Option SavedConfig
  pub save_config : SavedConfig → D → Attempt (Unit {0}) × D
  pub start_node : D → Attempt (Unit {0}) × D
  pub node_state : D → NodeState × D
  pub is_registered : D → Bool
  pub factory_reset : D → Attempt (Unit {0}) × D
  pub camera_info : D → List Text
  pub capture : D → Attempt Text × D

-- What the console shows: a constructor for each text of the source, with what is put into it.
pub data Message : Type 0 where
  echoed : ℕ → Message
  masked erased newline cancelled : Message
  title : Bool → Message
  scanning no_networks : Message
  network : ℕ → ApInfo → Message
  known : Text → Message
  no_known_networks no_such_network forgotten saved bad_password wifi_first : Message
  failing : Text → Message
  joining connected : Text → Message
  registering stopped_waiting timed_out open_url waiting_approval : Message
  url : Text → Message
  up : Text → List Text → Message
  retrying : Text → Message
  ask_network ask_again ask_reboot ask_erase aborted wifi_missing wifi_updated use_reboot
        bad_hostname rebooting erased_all :
      Message
  ask_password ask_hostname : Text → Message
  usage : Text → Message
  unknown_command : Text → Message
  help_text status_text no_camera : Message
  camera_line captured : Text → Message
  greeting : Bool → Message
  command_prompt press_enter : Message

pub record Poll : Type 0 where
  pub now : ℕ
  pub byte : Option ℕ

pub record Shell (D : Type 0) : Type 0 where
  pub device : D
  pub input : List Poll
  pub output : List Message
  pub swallow_lf : Bool

-- How a piece of the shell ends. `spent`: the fuel of a loop ran out.
pub data Run (D A : Type 0) : Type 0 where
  done : A → Shell D → Run D A
  waiting rebooted spent : Shell D → Run D A

abbrev pub M : Type 0 → Type 0 → Type 0
M D A = Shell D → Run D A

abbrev pub bind_run : {D A B : Type 0} → Run D A → (A → M D B) → Run D B
bind_run (done a s) f = f a s
bind_run (waiting s) f = waiting s
bind_run (rebooted s) f = rebooted s
bind_run (spent s) f = spent s

infixl 5 ◌>>=◌ ◌>>◌
abbrev pub ◌>>=◌ : {D A B : Type 0} → M D A → (A → M D B) → M D B
◌>>=◌ m f s = bind_run (m s) f

abbrev pub ◌>>◌ : {D B : Type 0} → M D (Unit {0}) → M D B → M D B
◌>>◌ m k = m >>= λ _. k

abbrev pub pure : {D A : Type 0} → A → M D A
pure a s = done a s

-- `out` and `line`.
pub say : {D : Type 0} → Message → M D (Unit {0})
say m s = done tt (record s { output = s.output ++ (m ∷ []) })

pub act : {D A : Type 0} → (D → A × D) → M D A
act f s = let (a, d) = f s.device in done a (record s { device = d })

pub look : {D A : Type 0} → (D → A) → M D A
look f s = done (f s.device) s

-- `reboot`, which does not return.
pub reboot : {D A : Type 0} → M D A
reboot s = rebooted s
