-- ===== src/Shell/Config/Networks.antt =====
-- A network that is added to the configuration replaces the one of its name.
use usb_camera_over_tailscal.Base.{
  ◌≡◌, refl, ap, ◌∙◌, if◌then◌else◌, Bool, true, false, ◌||◌, List, [], ◌∷◌, ◌++◌, Option, none,
  some, inl, inr, arith, Bool-cases,
}
use usb_camera_over_tailscal.Base.Text.{Text, text_eq, text_eq_self}
use usb_camera_over_tailscal.Shell.{WifiNetwork, SavedConfig}
use usb_camera_over_tailscal.Shell.Config.{without, with_network}

abbrev pub has_name : Text → List WifiNetwork → Bool
has_name ssid [] = false
has_name ssid (n ∷ ns) = text_eq n.ssid ssid || has_name ssid ns

-- Every network of the list has a name of its own.
abbrev pub Distinct : List WifiNetwork → Type 0
Distinct [] = Unit
Distinct (n ∷ ns) = (has_name n.ssid ns ≡ false) × Distinct ns

text_eq_sym : (a b : Text) → text_eq a b ≡ text_eq b a
text_eq_sym [] [] = refl
text_eq_sym [] (y ∷ b) = refl
text_eq_sym (x ∷ a) [] = refl
text_eq_sym (x ∷ a) (y ∷ b) = ground (arith, text_eq_sym a b)

text_eq→eq : (a b : Text) → text_eq a b ≡ true → a ≡ b
text_eq→eq [] [] h = refl
text_eq→eq [] (y ∷ b) h = cc h
text_eq→eq (x ∷ a) [] h = cc h
text_eq→eq (x ∷ a) (y ∷ b) h = ground (arith, text_eq→eq a b)

has_name-without :
    (s t : Text) (ns : List WifiNetwork) → has_name t ns ≡ false → has_name t (without s ns) ≡ false
unfolding without
has_name-without s t [] h = refl
has_name-without s t (n ∷ ns) h = ground (arith, has_name-without s t ns)

has_name-without_self : (s : Text) (ns : List WifiNetwork) → has_name s (without s ns) ≡ false
unfolding without
has_name-without_self s [] = refl
has_name-without_self s (n ∷ ns) = ground (arith, has_name-without_self s ns)

Distinct-without : (s : Text) (ns : List WifiNetwork) → Distinct ns → Distinct (without s ns)
unfolding without
Distinct-without s [] h = tt
Distinct-without s (n ∷ ns) (h, hs) = elim (Bool-cases (text_eq n.ssid s)) [
  | inl gone ↦ rw gone (Distinct-without s ns hs)
  | inr kept ↦ rw kept (has_name-without s n.ssid ns h, Distinct-without s ns hs)
]

has_name-append_one :
    (t : Text) (ns : List WifiNetwork) (x : WifiNetwork)
    → has_name t (ns ++ (x ∷ [])) ≡ (has_name t ns || text_eq x.ssid t)
has_name-append_one t [] x = ground arith
has_name-append_one t (n ∷ ns) x = ground (arith, has_name-append_one t ns x)

Distinct-append_one :
    (ns : List WifiNetwork) (x : WifiNetwork)
    → has_name x.ssid ns ≡ false
    → Distinct ns
    → Distinct (ns ++ (x ∷ []))
Distinct-append_one [] x new h = (refl, tt)
Distinct-append_one (n ∷ ns) x new (h, hs) = (
  ground (arith, has_name-append_one n.ssid ns x, text_eq_sym n.ssid x.ssid),
  Distinct-append_one ns x (ground arith) hs,
)

-- The password under which a network is known, if it is: that of the first entry of the name.
abbrev pub password_of : Text → List WifiNetwork → Option Text
password_of ssid [] = none
password_of ssid (n ∷ ns) = if text_eq n.ssid ssid then some n.password else password_of ssid ns

password_of-without :
    (s t : Text) (ns : List WifiNetwork)
    → text_eq s t ≡ false
    → password_of t (without s ns) ≡ password_of t ns
unfolding without
password_of-without s t [] h = refl
password_of-without s t (n ∷ ns) h = elim (Bool-cases (text_eq n.ssid s)) [
  | inl gone ↦
      rw (gone, ap (λ (w : Text). text_eq w t) (text_eq→eq n.ssid s gone) ∙ h)
        (password_of-without s t ns h)
  | inr kept ↦ rw kept (
      ap (λ (o : Option Text). if text_eq n.ssid t then some n.password else o)
        (password_of-without s t ns h))
]

password_of-append_one :
    (t : Text) (ns : List WifiNetwork) (x : WifiNetwork)
    → has_name t ns ≡ false
    → password_of t (ns ++ (x ∷ [])) ≡ password_of t (x ∷ [])
password_of-append_one t [] x h = refl
password_of-append_one t (n ∷ ns) x h = ground (arith, password_of-append_one t ns x)

password_of-append_other :
    (t : Text) (ns : List WifiNetwork) (x : WifiNetwork)
    → text_eq x.ssid t ≡ false
    → password_of t (ns ++ (x ∷ [])) ≡ password_of t ns
password_of-append_other t [] x h = rw h refl
password_of-append_other t (n ∷ ns) x h =
    ap (λ (o : Option Text). if text_eq n.ssid t then some n.password else o)
      (password_of-append_other t ns x h)

-- What is known behind a network that was added: it, with its password, the other networks as they
-- were, and each name once.
pub record Added (ssid password : Text) (before after : List WifiNetwork) : Type 0 where
  pub known : password_of ssid after ≡ some password
  pub others : (t : Text) → text_eq ssid t ≡ false → password_of t after ≡ password_of t before
  pub once : Distinct after

-- Adding a network to a configuration that knows each name once makes it known under its password,
-- whether or not it was known under another, leaves the passwords of the other networks as they
-- were, and each name is still known once.
pub with_network-Added :
    (ssid password : Text) (c : SavedConfig)
    → Distinct c.networks
    → Added ssid password c.networks (with_network ssid password c).networks
unfolding with_network
with_network-Added ssid password c h =
    let x : WifiNetwork = record { ssid = ssid; password = password } in
    let kept = without ssid c.networks in
    record {
      known =
          password_of-append_one ssid kept x (has_name-without_self ssid c.networks)
          ∙ rw (text_eq_self ssid) refl;
      others = λ t other.
          password_of-append_other t kept x other ∙ password_of-without ssid t c.networks other;
      once =
          Distinct-append_one kept x (has_name-without_self ssid c.networks)
            (Distinct-without ssid c.networks h);
    }
