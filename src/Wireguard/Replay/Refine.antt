-- ===== src/Wireguard/Replay/Refine.antt =====
-- The bitmap refines the list of the accepted counters: no sequence of packets tells them apart.
use native.Mathlib.Decide.{ℕ_discrete}
use mathlib.Core.Path.{subst}
use native.Mathlib.Nat.{one-le-pow, le_refl}
use mathlib.Core.Logic.{inl, inr}
use usb_camera_over_tailscal.Base.{
  ℕ, ◌+◌, ◌-◌, ◌/◌, ◌%◌, ◌≤◌, ◌<◌, ◌≡◌, refl, ◌∙◌, ap, ap₂, List, [], ◌∷◌, Bool, true, false, not,
  arith, ltb, leb, ◌==◌, ltb→lt, leb→le, Bool-cases, length, get_or, replicate, if◌then◌else◌,
  bit_and, ==_refl, ne→==_false,
}
use usb_camera_over_tailscal.Base.Bits.{bit-zero, bit_and-pow}
use usb_camera_over_tailscal.Wireguard.Replay.{
  ReplayWindow, replay_words, replay_bits, new, slot_word, slot_bit, mark, clear_words, slide,
  check_and_update, run,
}
use usb_camera_over_tailscal.Wireguard.Replay.Slide.{
  counter_bit, length-clear_words, clear_words-cleared, clear_words-kept, length-mark, mark_self,
  mark_other, get_or-replicate_zero,
}
use usb_camera_over_tailscal.Wireguard.Replay.Spec
use usb_camera_over_tailscal.Wireguard.Replay.Spec.{Seen, nothing, was_seen}

abbrev pub digit : Bool → ℕ
digit b = if b then 1 else 0

-- The bits of a bitmap whose newest counter is `last` record exactly the counters of `accepted`
-- that are less than `replay_bits` below `last`; its word holds no counter above `last` either.
pub record Records (last : ℕ) (bitmap accepted : List ℕ) : Type 0 where
  pub size : length bitmap ≡ replay_words
  bits :
      (c : ℕ)
      → c / 64 ≤ last / 64
      → last < c + replay_bits
      → counter_bit bitmap c ≡ digit (was_seen c accepted)

pub record Tracks (r : ReplayWindow) (s : Seen) : Type 0 where
  pub newest : r.last ≡ s.newest
  pub above : (c : ℕ) → r.last < c → was_seen c s.accepted ≡ false
  pub records : Records r.last r.bitmap s.accepted

counter_bit-replicate : (c : ℕ) → counter_bit (replicate replay_words 0) c ≡ 0
counter_bit-replicate c = rw (get_or-replicate_zero replay_words (slot_word c)) (bit-zero (c % 64))

pub new-Tracks : Tracks new nothing
new-Tracks = record {
  newest = refl;
  above = λ c h. refl;
  records = record { size = refl; bits = λ c h k. counter_bit-replicate c };
}

-- Sliding to a newer counter keeps the records of the window that stays.
module _ (last next : ℕ) (bitmap accepted : List ℕ) (newer : last < next)
    (above : (c : ℕ) → last < c → was_seen c accepted ≡ false)
    (old : Records last bitmap accepted) where
  slid_far : replay_bits ≤ next - last → Records next (replicate replay_words 0) accepted
  slid_far far = record {
    size = refl;
    bits = λ c h k. counter_bit-replicate c ∙ ap digit (sym_above c (omega arith));
  }
    where
      sym_above : (c : ℕ) → last < c → false ≡ was_seen c accepted
      sym_above c h = rw (above c h)

  slid_near :
      next - last < replay_bits
      → Records next
          (clear_words (next / 64 - last / 64 + 1) (last / 64 + 1) (next / 64) bitmap)
          accepted
  slid_near near = record {
    size = length-clear_words fuel (last / 64 + 1) (next / 64) bitmap ∙ old.size;
    bits = bits;
  }
    where
      fuel : ℕ
      fuel = next / 64 - last / 64 + 1

      bits :
          (c : ℕ)
          → c / 64 ≤ next / 64
          → next < c + replay_bits
          → counter_bit (clear_words fuel (last / 64 + 1) (next / 64) bitmap) c
            ≡ digit (was_seen c accepted)
      bits c h k = elim (Bool-cases (leb (c / 64) (last / 64))) [
        | inl kept ↦
            rw
              (clear_words-kept fuel (last / 64 + 1) (next / 64) bitmap (c / 64)
                (omega (arith, leb→le (c / 64) (last / 64) kept)) (omega arith))
              (old.bits c (leb→le (c / 64) (last / 64) kept) (omega arith))
        | inr cleared ↦
            rw
              (
                clear_words-cleared fuel (last / 64 + 1) (next / 64) bitmap (c / 64) (omega arith)
                    (ground arith) h old.size,
                above c (ground arith),
              )
              (bit-zero (c % 64))
      ]

  slide-Records : Records next (slide last next bitmap) accepted
  unfolding slide
  slide-Records = elim (Bool-cases (leb replay_bits (next - last))) [
    | inl far ↦ rw far (slid_far (leb→le replay_bits (next - last) far))
    | inr near ↦ rw near (slid_near (ground arith))
  ]

-- Marking a counter in the window adds it to the records.
mark-Records :
    (last c : ℕ) (bitmap accepted : List ℕ)
    → c ≤ last
    → last < c + replay_bits
    → Records last bitmap accepted
    → Records last (mark bitmap c) (c ∷ accepted)
mark-Records last c bitmap accepted le near old = record {
  size = length-mark bitmap c ∙ old.size;
  bits = λ d h k. elim (ℕ_discrete c d) [
    | yes e ↦
        subst (λ x. counter_bit (mark bitmap c) x ≡ digit (was_seen x (c ∷ accepted))) e
          (mark_self bitmap c old.size ∙ ap digit (self_seen c))
    | no n ↦
        rw (ne→==_false c d n)
          (mark_other bitmap c d old.size n (omega arith) (omega arith) ∙ old.bits d h k)
  ];
}
  where
    self_seen : (c : ℕ) → true ≡ was_seen c (c ∷ accepted)
    self_seen c = rw (==_refl c)

-- The test `bitmap[word] & bit != 0` asks whether the counter was accepted.
tested :
    (last c : ℕ) (bitmap accepted : List ℕ)
    → c ≤ last
    → last < c + replay_bits
    → Records last bitmap accepted
    → not (bit_and (get_or bitmap (slot_word c) 0) (slot_bit c) == 0) ≡ was_seen c accepted
tested last c bitmap accepted le near old = elim (Bool-cases (was_seen c accepted)) [
  | inl seen ↦ ground (
    arith,
    seen,
    old.bits c (omega arith) near,
    one-le-pow (c % 64) 2,
    bit_and-pow (c % 64) (get_or bitmap (slot_word c) 0),
  )
  | inr fresh ↦ ground (
    arith,
    fresh,
    old.bits c (omega arith) near,
    bit_and-pow (c % 64) (get_or bitmap (slot_word c) 0),
  )
]

above-cons :
    (last c : ℕ) (accepted : List ℕ)
    → c ≤ last
    → ((d : ℕ) → last < d → was_seen d accepted ≡ false)
    → (d : ℕ) → last < d
    → was_seen d (c ∷ accepted) ≡ false
above-cons last c accepted le above d h = rw (ne→==_false c d (λ e. omega arith)) (above d h)

-- One packet: the same verdict, and the windows agree again.
abbrev pub Agree : ReplayWindow × Bool → Seen × Bool → Type 0
Agree a b = Tracks a.0 b.0 × (a.1 ≡ b.1)

module _ (r : ReplayWindow) (s : Seen) (c : ℕ) (t : Tracks r s) where
  in_window : ltb r.last c ≡ false → (c ≤ r.last)
  in_window old = ground arith

  Agree-newer : ltb r.last c ≡ true → Agree (check_and_update r c) (Spec.step replay_bits s c)
  unfolding check_and_update Spec.step
  Agree-newer go =
      rw (go, spec)
        (
          record {
            newest = refl;
            above = above-cons c c s.accepted (le_refl c) (λ d h. t.above d (omega (arith, lt)));
            records =
                mark-Records c c (slide r.last c r.bitmap) s.accepted (le_refl c) (omega arith)
                  (slide-Records r.last c r.bitmap s.accepted lt t.above t.records);
          },
          refl,
        )
    where
      lt : r.last < c
      lt = ltb→lt r.last c go

      spec : Spec.step replay_bits s c ≡ (record { newest = c; accepted = c ∷ s.accepted }, true)
      spec = ground (arith, go, t.newest)

  Agree-older : ltb r.last c ≡ false → Agree (check_and_update r c) (Spec.step replay_bits s c)
  unfolding check_and_update Spec.step
  Agree-older old = elim (Bool-cases (leb replay_bits (r.last - c))) [
    | inl far ↦ rw (old, far, far_spec far) (t, refl)
    | inr near ↦ elim (Bool-cases (was_seen c s.accepted)) [
      | inl seen ↦ rw (old, near, test near ∙ seen, seen_spec seen) (t, refl)
      | inr fresh ↦
          rw (old, near, test near ∙ fresh, fresh_spec near fresh)
            (
              record {
                newest = t.newest;
                above = above-cons r.last c s.accepted (in_window old) t.above;
                records =
                    mark-Records r.last c r.bitmap s.accepted (in_window old) (within near)
                      t.records;
              },
              refl,
            )
    ]
  ]
    where
      within : leb replay_bits (r.last - c) ≡ false → r.last < c + replay_bits
      within near = ground arith

      test :
          leb replay_bits (r.last - c) ≡ false
          → not (bit_and (get_or r.bitmap (slot_word c) 0) (slot_bit c) == 0)
            ≡ was_seen c s.accepted
      test near = tested r.last c r.bitmap s.accepted (in_window old) (within near) t.records

      far_spec : leb replay_bits (r.last - c) ≡ true → Spec.step replay_bits s c ≡ (s, false)
      far_spec far = ground (arith, old, t.newest)

      seen_spec : was_seen c s.accepted ≡ true → Spec.step replay_bits s c ≡ (s, false)
      seen_spec seen = ground (arith, old, t.newest)

      fresh_spec :
          leb replay_bits (r.last - c) ≡ false
          → was_seen c s.accepted ≡ false
          → Spec.step replay_bits s c
            ≡ (record { newest = s.newest; accepted = c ∷ s.accepted }, true)
      fresh_spec near fresh = ground (arith, old, t.newest)

  pub check_and_update-Agree : Agree (check_and_update r c) (Spec.step replay_bits s c)
  check_and_update-Agree = elim (Bool-cases (ltb r.last c)) [
    | inl go ↦ Agree-newer go
    | inr old ↦ Agree-older old
  ]

run-Tracks :
    (r : ReplayWindow) (s : Seen) (cs : List ℕ) → Tracks r s → run r cs ≡ Spec.run replay_bits s cs
unfolding run Spec.run
run-Tracks r s [] t = refl
run-Tracks r s (c ∷ cs) t =
    let (next, same) = check_and_update-Agree r s c t in
    ap₂ ◌∷◌ same (run-Tracks (check_and_update r c).0 (Spec.step replay_bits s c).0 cs next)

-- Started empty, the replay window gives on every sequence of counters, of any length, order and
-- distance, the verdicts of the window that remembers all accepted counters: a counter is accepted
-- exactly when it is above the newest or less than 1984 below it and was not accepted before.
pub run_refines : (cs : List ℕ) → run new cs ≡ Spec.run replay_bits nothing cs
run_refines cs = run-Tracks new nothing cs new-Tracks
