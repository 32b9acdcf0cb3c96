-- ===== src/Wireguard/Replay/Once.antt =====
-- No counter passes the replay window twice.
use mathlib.Core.Logic.{inl, inr}
use usb_camera_over_tailscal.Base.{
  ℕ, ◌≡◌, refl, sym, ◌∙◌, List, [], ◌∷◌, true, false, arith, ltb, ltb→lt, ==_iff, ==_refl,
  Bool-cases,
}
use usb_camera_over_tailscal.Wireguard.Replay.{
  ReplayWindow, replay_bits, new, check_and_update, delivered,
}
use usb_camera_over_tailscal.Wireguard.Replay.Refine.{Tracks, new-Tracks, check_and_update-Agree}
use usb_camera_over_tailscal.Wireguard.Replay.Spec
use usb_camera_over_tailscal.Wireguard.Replay.Spec.{Seen, nothing, was_seen}

-- Every counter of the list stands in it once.
abbrev pub Distinct : List ℕ → Type 0
Distinct [] = Unit
Distinct (x ∷ xs) = (was_seen x xs ≡ false) × Distinct xs

module _ (s : Seen) (c d : ℕ) where
  -- What was accepted stays so.
  pub step-was_seen :
      was_seen d s.accepted ≡ true → was_seen d (Spec.step replay_bits s c).0.accepted ≡ true
  unfolding Spec.step
  step-was_seen h = ground arith

  pub step-accepted :
      (Spec.step replay_bits s c).1 ≡ true
      → was_seen c (Spec.step replay_bits s c).0.accepted ≡ true
  unfolding Spec.step
  step-accepted h = ground (arith, ==_refl c)

-- An accepted counter is new.
accepted_fresh :
    (r : ReplayWindow) (s : Seen) (c : ℕ)
    → Tracks r s
    → (Spec.step replay_bits s c).1 ≡ true
    → was_seen c s.accepted ≡ false
unfolding Spec.step
accepted_fresh r s c t h = elim (Bool-cases (ltb r.last c)) [
  | inl newer ↦ t.above c (ltb→lt r.last c newer)
  | inr older ↦ ground (arith, t.newest)
]

-- A counter that was accepted is refused.
pub step_old :
    (r : ReplayWindow) (s : Seen) (c : ℕ)
    → Tracks r s
    → was_seen c s.accepted ≡ true
    → (Spec.step replay_bits s c).1 ≡ false
unfolding Spec.step
step_old r s c t old = ground (arith, t.newest, t.above c)

cons_fresh :
    (r : ReplayWindow) (s : Seen) (c d : ℕ) (l : List ℕ)
    → Tracks r s
    → (check_and_update r c).1 ≡ true
    → was_seen d s.accepted ≡ true
    → was_seen d l ≡ false
    → was_seen d (c ∷ l) ≡ false
cons_fresh r s c d l t taken old rest = ground (
  arith,
  accepted_fresh r s c t (sym (check_and_update-Agree r s c t).1 ∙ taken),
  ==_iff c d,
  different,
)
  where
    different : c ≡ d → was_seen c s.accepted ≡ true
    different e = rw e old

delivered_fresh :
    (r : ReplayWindow) (s : Seen) (d : ℕ) (cs : List ℕ)
    → Tracks r s
    → was_seen d s.accepted ≡ true
    → was_seen d (delivered r cs) ≡ false
unfolding delivered
delivered_fresh r s d [] t h = refl
delivered_fresh r s d (c ∷ cs) t h =
    let (next, same) = check_and_update-Agree r s c t in
    let rest =
      delivered_fresh (check_and_update r c).0 (Spec.step replay_bits s c).0 d cs next
        (step-was_seen s c d h) in
    elim (Bool-cases (check_and_update r c).1) [
      | inl taken ↦
          rw taken (cons_fresh r s c d (delivered (check_and_update r c).0 cs) t taken h rest)
      | inr dropped ↦ rw dropped rest
    ]

delivered-Distinct_from :
    (r : ReplayWindow) (s : Seen) (cs : List ℕ) → Tracks r s → Distinct (delivered r cs)
unfolding delivered
delivered-Distinct_from r s [] t = tt
delivered-Distinct_from r s (c ∷ cs) t =
    let (next, same) = check_and_update-Agree r s c t in
    let rest =
      delivered-Distinct_from (check_and_update r c).0 (Spec.step replay_bits s c).0 cs next in
    elim (Bool-cases (check_and_update r c).1) [
      | inl taken ↦ rw taken (
        delivered_fresh (check_and_update r c).0 (Spec.step replay_bits s c).0 c cs next
            (step-accepted s c c (sym same ∙ taken)),
        rest,
      )
      | inr dropped ↦ rw dropped rest
    ]

-- The counters that a new window lets through are all different, whatever arrives.
pub delivered-Distinct : (cs : List ℕ) → Distinct (delivered new cs)
delivered-Distinct cs = delivered-Distinct_from new nothing cs new-Tracks
