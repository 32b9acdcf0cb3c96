-- ===== src/Firmware/Networks.antt =====
-- What of a list of networks comes back from its text.
use usb_camera_over_tailscal.Base.{
  ℕ, ◌≡◌, refl, ap, ◌∙◌, sym, false, List, [], ◌∷◌, ◌++◌, append_assoc, append-nil, some, ◌==◌,
  arith,
}
use usb_camera_over_tailscal.Base.Text.{Text, split_once}
use usb_camera_over_tailscal.Shell.{WifiNetwork}
use usb_camera_over_tailscal.Firmware.{
  is_empty, strip_return, to_first_line, split_lines, strip_returns, lines_of, network_by,
  networks_of, parse_networks, format_networks,
}

-- The character does not stand in the text.
abbrev pub Without : ℕ → Text → Type 0
Without d [] = Unit
Without d (c ∷ s) = ((c == d) ≡ false) × Without d s

-- A network whose text can be told apart: a name without TAB and LF, which is not empty, and a
-- password without LF, which does not end with CR.
pub record IsStorable (n : WifiNetwork) : Type 0 where
  pub named : is_empty n.ssid ≡ false
  pub name_tabs : Without 9 n.ssid
  pub name_lines : Without 10 n.ssid
  pub password_lines : Without 10 n.password
  pub password_end : strip_return n.password ≡ n.password

abbrev pub AllStorable : List WifiNetwork → Type 0
AllStorable [] = Unit
AllStorable (n ∷ ns) = IsStorable n × AllStorable ns

split_lines-line :
    (l s : Text)
    → Without 10 l
    → split_lines (l ++ (10 ∷ s)) ≡ (l ∷ (split_lines s).0, (split_lines s).1)
unfolding split_lines to_first_line
split_lines-line [] s h = refl
split_lines-line (c ∷ l) s (h, hs) = rw (h, split_lines-line l s hs) refl

Without-tab : (a b : Text) → Without 10 a → Without 10 b → Without 10 (a ++ (9 ∷ b))
Without-tab [] b h k = (refl, k)
Without-tab (c ∷ a) b (h, hs) k = (h, Without-tab a b hs k)

split_once-tab : (a b : Text) → Without 9 a → split_once 9 (a ++ (9 ∷ b)) ≡ some (a, b)
unfolding split_once
split_once-tab [] b h = refl
split_once-tab (c ∷ a) b (h, hs) = rw (h, split_once-tab a b hs) refl

is_empty-tab : (a b : Text) → is_empty (a ++ (9 ∷ b)) ≡ false
unfolding is_empty
is_empty-tab [] b = refl
is_empty-tab (c ∷ a) b = refl

strip_return-tab : (a b : Text) → strip_return b ≡ b → strip_return (a ++ (9 ∷ b)) ≡ a ++ (9 ∷ b)
unfolding strip_return
strip_return-tab [] b h = ap (λ (l : Text). 9 ∷ l) h
strip_return-tab (c ∷ a) b h = rw (is_empty-tab a b, strip_return-tab a b h) (ground arith)

-- The line of a network, whose text stands in front of others.
split_lines-network :
    (n : WifiNetwork) (s : Text)
    → IsStorable n
    → split_lines (n.ssid ++ (9 ∷ (n.password ++ (10 ∷ s))))
      ≡ ((n.ssid ++ (9 ∷ n.password)) ∷ (split_lines s).0, (split_lines s).1)
split_lines-network n s h =
    ap split_lines (sym (append_assoc n.ssid (9 ∷ n.password) (10 ∷ s)))
    ∙ split_lines-line (n.ssid ++ (9 ∷ n.password)) s
        (Without-tab n.ssid n.password h.name_lines h.password_lines)

-- A text of networks ends with its last line.
split_lines-format :
    (ns : List WifiNetwork) → AllStorable ns → (split_lines (format_networks ns)).1 ≡ []
unfolding format_networks split_lines
split_lines-format [] h = refl
split_lines-format (n ∷ ns) (h, hs) =
    ap (λ (q : List Text × Text). q.1) (split_lines-network n (format_networks ns) h)
    ∙ split_lines-format ns hs

networks_of-format :
    (ns : List WifiNetwork)
    → AllStorable ns
    → networks_of (strip_returns (split_lines (format_networks ns)).0) ≡ ns
unfolding format_networks networks_of strip_returns network_by split_lines
networks_of-format [] h = refl
networks_of-format (n ∷ ns) (h, hs) =
    ap (λ (q : List Text × Text). networks_of (strip_returns q.0))
      (split_lines-network n (format_networks ns) h)
    ∙ ap
        (λ (l : Text).
          network_by (split_once 9 l)
            (networks_of (strip_returns (split_lines (format_networks ns)).0)))
        (strip_return-tab n.ssid n.password h.password_end)
    ∙ rw (split_once-tab n.ssid n.password h.name_tabs, h.named, networks_of-format ns hs) refl

-- The networks that are stored are the networks that are loaded, in their order and with their
-- passwords: if each name is not empty and has neither TAB nor LF, and each password has no LF and
-- does not end with CR.
pub parse_networks-format_networks :
    (ns : List WifiNetwork) → AllStorable ns → parse_networks (format_networks ns) ≡ ns
unfolding parse_networks lines_of is_empty
parse_networks-format_networks ns h = rw (split_lines-format ns h) (
    ap networks_of (append-nil (strip_returns (split_lines (format_networks ns)).0))
    ∙ networks_of-format ns h)
