-- ===== src/Wireguard/Replay/Spec.antt =====
-- What a replay window promises: it remembers every counter that it accepted, accepts none twice,
-- and refuses those that lie `replay_bits` or more below the newest.
use usb_camera_over_tailscal.Base.{
  ℕ, ◌-◌, Bool, true, false, not, ◌&&◌, ◌||◌, List, [], ◌∷◌, ltb, ◌==◌, if◌then◌else◌, any,
}

pub record Seen : Type 0 where
  pub newest : ℕ
  pub accepted : List ℕ

abbrev pub nothing : Seen
nothing = record { newest = 0; accepted = [] }

abbrev pub was_seen : ℕ → List ℕ → Bool
was_seen c l = any (λ x. x == c) l

module _ (width : ℕ) where
  unfoldable pub accepts : Seen → ℕ → Bool
  accepts s c = ltb s.newest c || (ltb (s.newest - c) width && not (was_seen c s.accepted))

  unfoldable pub step : Seen → ℕ → Seen × Bool
  unfolding accepts
  step s c =
      if accepts s c
      then (
        record { newest = if ltb s.newest c then c else s.newest; accepted = c ∷ s.accepted },
        true,
      )
      else (s, false)

  unfoldable pub run : Seen → List ℕ → List Bool
  run s [] = []
  run s (c ∷ cs) = let (s', verdict) = step s c in verdict ∷ run s' cs
