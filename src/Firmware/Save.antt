-- ===== src/Firmware/Save.antt =====
-- What is in flash behind a save, also one that stops half way.
use usb_camera_over_tailscal.Base.{
  ◌≡◌, ◌≢◌, refl, ◌∙◌, sym, ◌⊎◌, inl, inr, Bool, true, false, List, [], ◌∷◌, Option, none, some,
}
use usb_camera_over_tailscal.Base.Text.{Text, text_eq}
use usb_camera_over_tailscal.Shell.{WifiNetwork, SavedConfig}
use usb_camera_over_tailscal.Firmware.{
  k_nets, k_host, k_auth, k_port, k_res, k_fps, key_registered, key_home_derp, Store, and_then,
  set_or_remove, unwrap_or_empty, stored_networks, load_with, load_config, forget_identity, number,
  size, save_others, save_config, identity_changed, format_networks,
}
use usb_camera_over_tailscal.Firmware.Networks.{AllStorable, parse_networks-format_networks}

-- What `set` does: it fails and nothing changes, or the value is stored under its key and the other
-- keys keep theirs.
pub data SetOutcome {D : Type 0} (st : Store D) (key v : Text) (s : D) (o : Bool × D) : Type 0 where
  not_stored :
      (s' : D) → o ≡ (false, s') → ((k : Text) → st.get k s' ≡ st.get k s) → SetOutcome st key v s o
  stored :
      (s' : D)
      → o ≡ (true, s')
      → st.get key s' ≡ some v
      → ((k : Text) → text_eq key k ≡ false → st.get k s' ≡ st.get k s)
      → SetOutcome st key v s o

-- What is relied on of the store, that it is a map whose writes and removals are whole or do nothing
-- to the other keys.
pub record IsMap {D : Type 0} (st : Store D) : Type 0 where
  pub set_outcome : (key v : Text) (s : D) → SetOutcome st key v s (st.set key v s)
  pub removed : (j k : Text) (s : D) → text_eq j k ≡ false → st.get k (st.remove j s).1 ≡ st.get k s

-- A key that `save_config` writes before all others.
record IsFirst (key : Text) : Type 0 where
  pub auth : text_eq k_auth key ≡ false
  pub port : text_eq k_port key ≡ false
  pub res : text_eq k_res key ≡ false
  pub fps : text_eq k_fps key ≡ false
  pub registered : text_eq key_registered key ≡ false
  pub home_derp : text_eq key_home_derp key ≡ false

IsFirst-nets : IsFirst k_nets
IsFirst-nets = record {
  auth = refl;
  port = refl;
  res = refl;
  fps = refl;
  registered = refl;
  home_derp = refl;
}

IsFirst-host : IsFirst k_host
IsFirst-host = record {
  auth = refl;
  port = refl;
  res = refl;
  fps = refl;
  registered = refl;
  home_derp = refl;
}

-- What stands in flash behind a save.
pub record Saved {D : Type 0} (st : Store D) (cfg : SavedConfig) (s : D) (o : Bool × D)
    : Type 0 where
  pub networks :
      (st.get k_nets o.1 ≡ st.get k_nets s)
      ⊎ (st.get k_nets o.1 ≡ some (format_networks cfg.networks))
  pub hostname : (st.get k_host o.1 ≡ st.get k_host s) ⊎ (st.get k_host o.1 ≡ some cfg.hostname)
  pub whole :
      o.0 ≡ true
      → (st.get k_nets o.1 ≡ some (format_networks cfg.networks))
        × (st.get k_host o.1 ≡ some cfg.hostname)

-- What is loaded is this, whatever the other settings are.
pub record Loaded (cfg : SavedConfig) (o : Option SavedConfig) : Type 0 where
  pub config : SavedConfig
  pub there : o ≡ some config
  pub networks : config.networks ≡ cfg.networks
  pub hostname : config.hostname ≡ cfg.hostname

module _ {D : Type 0} (st : Store D) (map : IsMap st) where
  get-set :
      (j key v : Text) (s : D) (o : Bool × D)
      → SetOutcome st j v s o
      → text_eq j key ≡ false
      → st.get key o.1 ≡ st.get key s
  get-set j key v s o (not_stored s' e same) h = rw e (same key)
  get-set j key v s o (stored s' e new same) h = rw e (same key h)

  get-set_or_remove :
      (j key : Text) (v : Option Text) (s : D)
      → text_eq j key ≡ false
      → st.get key (set_or_remove st j v s).1 ≡ st.get key s
  unfolding set_or_remove
  get-set_or_remove j key none s h = map.removed j key s h
  get-set_or_remove j key (some t) s h = get-set j key t s (st.set j t s) (map.set_outcome j t s) h

  get-and_then :
      (key : Text) (m : Bool × D) (f : D → Bool × D)
      → ((s : D) → st.get key (f s).1 ≡ st.get key s)
      → st.get key (and_then m f).1 ≡ st.get key m.1
  unfolding and_then
  get-and_then key (true, s) f h = h s
  get-and_then key (false, s) f h = refl

  get-forget_identity :
      (key : Text) (changed : Bool) (s : D)
      → IsFirst key
      → st.get key (forget_identity st changed s).1 ≡ st.get key s
  unfolding forget_identity
  get-forget_identity key false s h = refl
  get-forget_identity key true s h =
      map.removed key_home_derp key _ h.home_derp ∙ map.removed key_registered key s h.registered

  get-save_others :
      (key : Text) (cfg : SavedConfig) (changed : Bool) (s : D)
      → IsFirst key
      → st.get key (save_others st cfg changed s).1 ≡ st.get key s
  unfolding save_others
  get-save_others key cfg changed s h =
      get-and_then key (set_or_remove st k_auth cfg.auth_key s) _ (λ s.
        get-and_then key (set_or_remove st k_port (number cfg.http_port) s) _ (λ s.
          get-and_then key (set_or_remove st k_res (size cfg.resolution) s) _ (λ s.
            get-and_then key (set_or_remove st k_fps (number cfg.fps) s) _
              (λ s. get-forget_identity key changed s h)
            ∙ get-set_or_remove k_fps key (number cfg.fps) s h.fps)
          ∙ get-set_or_remove k_res key (size cfg.resolution) s h.res)
        ∙ get-set_or_remove k_port key (number cfg.http_port) s h.port)
      ∙ get-set_or_remove k_auth key cfg.auth_key s h.auth

  module _ (cfg : SavedConfig) (changed : Bool) (s s1 : D)
      (nets : st.get k_nets s1 ≡ some (format_networks cfg.networks))
      (host : st.get k_host s1 ≡ st.get k_host s) where
    -- The save behind the networks.
    save_host-Saved :
        (o : Bool × D)
        → SetOutcome st k_host cfg.hostname s1 o
        → Saved st cfg s (and_then o λ s. save_others st cfg changed s)
    unfolding and_then
    save_host-Saved o (not_stored s2 e same) = rw e (record {
      networks = inr (same k_nets ∙ nets);
      hostname = inl (same k_host ∙ host);
      whole = λ h. cc h;
    })
    save_host-Saved o (stored s2 e new same) =
        let nets2 : st.get k_nets (save_others st cfg changed s2).1
            ≡ some (format_networks cfg.networks) =
          get-save_others k_nets cfg changed s2 IsFirst-nets ∙ same k_nets refl ∙ nets in
        let host2 : st.get k_host (save_others st cfg changed s2).1 ≡ some cfg.hostname =
          get-save_others k_host cfg changed s2 IsFirst-host ∙ new in
        rw e (record { networks = inr nets2; hostname = inr host2; whole = λ h. (nets2, host2) })

  save_nets-Saved :
      (cfg : SavedConfig) (changed : Bool) (s : D) (o : Bool × D)
      → SetOutcome st k_nets (format_networks cfg.networks) s o
      → Saved st cfg s (
          and_then o λ s. and_then (st.set k_host cfg.hostname s) λ s. save_others st cfg changed s)
  unfolding and_then
  save_nets-Saved cfg changed s o (not_stored s1 e same) =
      rw e
        (record { networks = inl (same k_nets); hostname = inl (same k_host); whole = λ h. cc h })
  save_nets-Saved cfg changed s o (stored s1 e new same) = rw e (
      save_host-Saved cfg changed s s1 new (same k_host refl) (st.set k_host cfg.hostname s1)
        (map.set_outcome k_host cfg.hostname s1))

  -- In a store that is a map (`IsMap`): whichever of its writes and removals fail, behind a save the
  -- networks in flash are those that were there or those of the configuration, and so is the name;
  -- and if the save reports success, both are those of the configuration.
  pub save_config-Saved : (cfg : SavedConfig) (s : D) → Saved st cfg s (save_config st cfg s)
  unfolding save_config
  save_config-Saved cfg s =
      save_nets-Saved cfg (identity_changed (load_config st s) cfg.auth_key) s
        (st.set k_nets (format_networks cfg.networks) s)
        (map.set_outcome k_nets (format_networks cfg.networks) s)

  load_with-Loaded :
      (cfg : SavedConfig) (ns : List WifiNetwork) (s : D)
      → cfg.networks ≡ ns
      → ns ≢ []
      → st.get k_host s ≡ some cfg.hostname
      → Loaded cfg (load_with st ns s)
  unfolding load_with unwrap_or_empty
  load_with-Loaded cfg [] s e some_network h = absurd (some_network refl)
  load_with-Loaded cfg (n ∷ ns) s e some_network h = record {
    config = _;
    there = refl;
    networks = sym e;
    hostname = rw h refl;
  }

  -- In a store that is a map (`IsMap`): a configuration with a network, whose networks are storable,
  -- is loaded with its networks and its name behind a save that reports success, whatever was in
  -- flash and whichever removals failed.
  pub load_config-save_config :
      (cfg : SavedConfig) (s : D)
      → cfg.networks ≢ []
      → AllStorable cfg.networks
      → (save_config st cfg s).0 ≡ true
      → Loaded cfg (load_config st (save_config st cfg s).1)
  unfolding load_config stored_networks
  load_config-save_config cfg s some_network storable success =
      let (nets, host) = (save_config-Saved cfg s).whole success in
      rw (nets, parse_networks-format_networks cfg.networks storable)
        (load_with-Loaded cfg cfg.networks (save_config st cfg s).1 refl some_network host)
