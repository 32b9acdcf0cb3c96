-- ===== src/Shell/Wizard.antt =====
-- `login` and `wizard`. Their loops run on fuel, and a run that needs more ends as `spent`.
use usb_camera_over_tailscal.Base.{
  ℕ, zero, suc, ◌+◌, ◌-◌, ◌^◌, Bool, true, false, not, ◌&&◌, ◌||◌, List, [], ◌∷◌, Option, none,
  some, ltb, leb, ◌==◌, if◌then◌else◌, length, get_elem?,
}
use usb_camera_over_tailscal.Base.Text.{Text, chars, text_eq, parse_unsigned}
use usb_camera_over_tailscal.Shell.{
  ApInfo, SavedConfig, NodeState, off, connecting, needs_login, running, failed, Attempt, success,
  failure, Platform, title, failing, wifi_first, registering, stopped_waiting, timed_out, open_url,
  waiting_approval, url, up, retrying, ask_network, ask_again, ask_reboot, aborted, wifi_missing,
  wifi_updated, use_reboot, bad_hostname, rebooting, ask_password, ask_hostname, Poll, done,
  waiting, spent, M, ◌>>=◌, ◌>>◌, pure, say, act, look, reboot,
}
use usb_camera_over_tailscal.Shell.Line.{ask}
use usb_camera_over_tailscal.Shell.Config.{config_or_default, scan, set_wifi, valid_hostname}

-- `eq_ignore_ascii_case` with one letter.
pub is_letter : ℕ → ℕ → Text → Bool
is_letter lower upper t = text_eq t (lower ∷ []) || text_eq t (upper ∷ [])

pub texts_eq : List Text → List Text → Bool
texts_eq [] [] = true
texts_eq [] (b ∷ bs) = false
texts_eq (a ∷ l) [] = false
texts_eq (a ∷ l) (b ∷ bs) = text_eq a b && texts_eq l bs

pub state_eq : NodeState → NodeState → Bool
state_eq off off = true
state_eq connecting connecting = true
state_eq (needs_login a) (needs_login b) = text_eq a b
state_eq (running l a) (running m b) = texts_eq l m && text_eq a b
state_eq (failed a) (failed b) = text_eq a b
state_eq _ _ = false

pub seen : Option NodeState → NodeState → Bool
seen none st = false
seen (some last) st = state_eq last st

pub shown : Option Text → Text → Bool
shown none u = false
shown (some v) u = text_eq v u

pub is_stop : ℕ → Bool
is_stop b = (b == b'q') || (b == 3)

-- How a new state is shown: it ends the wait, or the wait goes on with the URL that was shown.
pub data Shown : Type 0 where
  is_up : Shown
  wait_on : Option Text → Shown

-- `LOGIN_WAIT`, in milliseconds, from the first look at the clock.
abbrev pub login_wait : ℕ
login_wait = 600000

pub login_deadline : List Poll → ℕ
login_deadline [] = 0
login_deadline (e ∷ es) = e.now + login_wait

module _ {D : Type 0} (p : Platform D) where
  pub show_state : Option Text → NodeState → M D Shown
  show_state shown_url (needs_login u) =
      if shown shown_url u
      then pure (wait_on shown_url)
      else (say open_url >> (say (url u) >> (say waiting_approval >> pure (wait_on (some u)))))
  show_state shown_url (running addresses name) = say (up name addresses) >> pure is_up
  show_state shown_url (failed e) = say (retrying e) >> pure (wait_on shown_url)
  show_state shown_url off = pure (wait_on shown_url)
  show_state shown_url connecting = pure (wait_on shown_url)

  pub after_shown : (Option Text → M D Bool) → Shown → M D Bool
  after_shown go is_up = pure true
  after_shown go (wait_on u) = go u

  pub stop_by : M D Bool → Option ℕ → M D Bool
  stop_by go none = go
  stop_by go (some b) = if is_stop b then (say stopped_waiting >> pure false) else go

  -- A poll of the console while the state stays the same.
  pub poll_stop : M D Bool → List Poll → M D Bool
  poll_stop go [] s = waiting s
  poll_stop go (e ∷ es) s = stop_by go e.byte (record s { input = es })

  pub polls : M D (List Poll)
  polls s = done s.input s

  -- One turn of the loop of `login`, where `go` is the rest of it.
  pub await_state :
      (Option Text → Option NodeState → M D Bool)
      → Option Text
      → Option NodeState
      → List Poll
      → NodeState
      → M D Bool
  await_state go shown_url last es st =
      if seen last st
      then poll_stop (go shown_url (some st)) es
      else (show_state shown_url st >>= λ r. after_shown (λ u. go u (some st)) r)

  pub await_step :
      (Option Text → Option NodeState → M D Bool)
      → ℕ
      → Option Text
      → Option NodeState
      → List Poll
      → M D Bool
  await_step go deadline shown_url last [] = λ s. waiting s
  await_step go deadline shown_url last (e ∷ es) =
      if ltb e.now deadline
      then (act p.node_state >>= λ st. await_state go shown_url last (e ∷ es) st)
      else (say timed_out >> pure false)

  -- The loop of `login`.
  pub await_node : ℕ → ℕ → Option Text → Option NodeState → M D Bool
  await_node zero deadline shown_url last = λ s. spent s
  await_node (suc fuel) deadline shown_url last =
      polls >>= λ es. await_step (λ u st. await_node fuel deadline u st) deadline shown_url last es

  pub login_by : ℕ → Attempt (Unit {0}) → List Poll → M D Bool
  login_by fuel (failure e) es = say (failing e) >> pure false
  login_by fuel (success u) es = say registering >> await_node fuel (login_deadline es) none none

  pub has_network : Option SavedConfig → Bool
  has_network none = false
  has_network (some c) = leb 1 (length c.networks)

  -- `login`: whether the node is running.
  pub login : ℕ → M D Bool
  login fuel = do
    o ← look p.config
    if has_network o
        then (act p.start_node >>= λ r. polls >>= λ es. login_by fuel r es)
        else (say wifi_first >> pure false)

  -- The network that was chosen: a number of the list, or a name.
  pub chosen : List ApInfo → Text → Option ℕ → Text × Bool
  chosen aps sel none = (sel, true)
  chosen aps sel (some zero) = (sel, true)
  chosen aps sel (some (suc n)) = elim (get_elem? aps n) [
    | none ↦ (sel, true)
    | some a ↦ (a.ssid, a.secure)
  ]

  pub ask_secret : Text → Bool → M D Text
  ask_secret ssid true = ask (ask_password ssid) false
  ask_secret ssid false = pure []

  -- One turn of the loop over networks. `none`: the wizard was left.
  pub wifi_try : M D (Option Bool) → Text × Bool → M D (Option Bool)
  wifi_try go (ssid, secure) = do
    password ← ask_secret ssid secure
    joined ← set_wifi p ssid password
    if joined
        then pure (some true)
        else (ask ask_again true >>= λ again.
            if is_letter b'n' b'N' again then pure (some false) else go)

  pub wifi_turn : M D (Option Bool) → M D (Option Bool)
  wifi_turn go = do
    aps ← scan p
    sel ← ask ask_network true
    if text_eq sel []
        then go
        else if text_eq sel (chars "q")
        then (say aborted >> pure none)
        else wifi_try go (chosen aps sel (parse_unsigned (2 ^ 32 - 1) sel))

  pub wifi_loop : ℕ → M D (Option Bool)
  wifi_loop zero = λ s. spent s
  wifi_loop (suc fuel) = let go = wifi_loop fuel in wifi_turn go

  pub host_turn : M D Text → Text → M D Text
  host_turn go default = do
    typed ← ask (ask_hostname default) true
    let host = if text_eq typed [] then default else typed
    if valid_hostname host then pure host else (say bad_hostname >> go)

  pub host_loop : ℕ → Text → M D Text
  host_loop zero default = λ s. spent s
  host_loop (suc fuel) default = let go = host_loop fuel default in host_turn go default

  pub offer_reboot : Bool → M D (Unit {0})
  offer_reboot false = pure tt
  offer_reboot true = do
    a ← ask ask_reboot true
    if is_letter b'n' b'N' a then pure tt else (say rebooting >> reboot)

  pub after_hostname : ℕ → Attempt (Unit {0}) → M D (Unit {0})
  after_hostname fuel (failure e) = say (failing e)
  after_hostname fuel (success u) = login fuel >>= λ running. offer_reboot running

  pub choose_hostname : ℕ → Text → M D (Unit {0})
  choose_hostname fuel existing = do
    host ← host_loop fuel (if text_eq existing [] then chars "camera" else existing)
    o ← look p.config
    r ← act (p.save_config (record (config_or_default o) { hostname = host }))
    after_hostname fuel r

  pub note_reboot : Bool → M D (Unit {0})
  note_reboot setup = if setup then say use_reboot else pure tt

  pub after_wifi : ℕ → Bool → Text → Option Bool → M D (Unit {0})
  after_wifi fuel full existing none = pure tt
  after_wifi fuel full existing (some false) = say wifi_missing
  after_wifi fuel full existing (some true) = do
    registered ← look p.is_registered
    if not full && (not (text_eq existing []) && registered)
        then (say wifi_updated >> (look p.setup_mode >>= λ setup. note_reboot setup))
        else choose_hostname fuel existing

  -- `wizard`.
  pub wizard : ℕ → Bool → M D (Unit {0})
  wizard fuel full = do
    say (title full)
    o ← look p.config
    found ← wifi_loop fuel
    after_wifi fuel full (config_or_default o).hostname found
