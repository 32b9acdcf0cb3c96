-- ===== src/Wireguard/Replay/Slide.antt =====
-- What sliding the window and marking a counter do to the words and the bits of the bitmap.
use mathlib.Core.Logic.{inl, inr}
use native.Mathlib.Decide.{ℕ_discrete}
use usb_camera_over_tailscal.Base.{
  ℕ, zero, suc, ◌+◌, ◌%◌, ◌≤◌, ◌<◌, ◌≡◌, ◌≢◌, refl, ◌∙◌, List, arith, leb, leb→le, le→leb,
  Bool-cases, length, get_or, set, replicate, length-set, get_or-set_self, get_or-set_ne, bit_or,
}
use usb_camera_over_tailscal.Base.Bits.{bit, bit-bit_or_pow_self, bit-bit_or_pow_ne}
use usb_camera_over_tailscal.Wireguard.Replay.{replay_words, slot_word, slot_bit, mark, clear_words}

pub length-clear_words :
    (fuel w limit : ℕ) (b : List ℕ) → length (clear_words fuel w limit b) ≡ length b
unfolding clear_words
length-clear_words zero w limit b = refl
length-clear_words (suc fuel) w limit b = elim (Bool-cases (leb w limit)) [
  | inl go ↦ rw go (
      length-clear_words fuel (w + 1) limit (set b (w % replay_words) 0)
      ∙ length-set b (w % replay_words) 0)
  | inr stop ↦ rw stop
]

-- A word that is zero stays zero.
zero-clear_words :
    (fuel w limit : ℕ) (b : List ℕ) (j : ℕ)
    → j < length b
    → get_or b j 0 ≡ 0
    → get_or (clear_words fuel w limit b) j 0 ≡ 0
unfolding clear_words
zero-clear_words zero w limit b j h z = z
zero-clear_words (suc fuel) w limit b j h z = elim (Bool-cases (leb w limit)) [
  | inl go ↦ rw go (
      zero-clear_words fuel (w + 1) limit (set b (w % replay_words) 0) j
        (omega (arith, length-set b (w % replay_words) 0))
        (elim (ℕ_discrete (w % replay_words) j) [
          | yes e ↦ rw e (get_or-set_self b j 0 0 h)
          | no n ↦ get_or-set_ne b (w % replay_words) j 0 0 n ∙ z
        ]))
  | inr stop ↦ rw stop z
]

-- With enough fuel, the word of every index that the loop passes is zero.
pub clear_words-cleared :
    (fuel w limit : ℕ) (b : List ℕ) (v : ℕ)
    → limit < w + fuel
    → w ≤ v
    → v ≤ limit
    → length b ≡ replay_words
    → get_or (clear_words fuel w limit b) (v % replay_words) 0 ≡ 0
unfolding clear_words
clear_words-cleared zero w limit b v f p q s = absurd (omega arith)
clear_words-cleared (suc fuel) w limit b v f p q s =
    rw (le→leb w limit (omega arith)) (elim (ℕ_discrete w v) [
      | yes e ↦
          zero-clear_words fuel (w + 1) limit (set b (w % replay_words) 0) (v % replay_words)
            (omega (arith, length-set b (w % replay_words) 0))
            (rw e (get_or-set_self b (v % replay_words) 0 0 (omega arith)))
      | no n ↦
          clear_words-cleared fuel (w + 1) limit (set b (w % replay_words) 0) v (omega arith)
            (omega arith) q (length-set b (w % replay_words) 0 ∙ s)
    ])

-- The word of an index less than 32 below the limit, and below the loop, is kept.
pub clear_words-kept :
    (fuel w limit : ℕ) (b : List ℕ) (u : ℕ)
    → u < w
    → limit < u + replay_words
    → get_or (clear_words fuel w limit b) (u % replay_words) 0 ≡ get_or b (u % replay_words) 0
unfolding clear_words
clear_words-kept zero w limit b u p q = refl
clear_words-kept (suc fuel) w limit b u p q = elim (Bool-cases (leb w limit)) [
  | inl go ↦ rw go (
      clear_words-kept fuel (w + 1) limit (set b (w % replay_words) 0) u (omega arith) q
      ∙ get_or-set_ne b (w % replay_words) (u % replay_words) 0 0
          (λ e. absurd (omega (arith, leb→le w limit go))))
  | inr stop ↦ rw stop
]

-- The bit that stands for a counter.
abbrev pub counter_bit : List ℕ → ℕ → ℕ
counter_bit b c = bit (get_or b (slot_word c) 0) (c % 64)

pub length-mark : (b : List ℕ) (c : ℕ) → length (mark b c) ≡ length b
unfolding mark
length-mark b c = length-set b (slot_word c) (bit_or (get_or b (slot_word c) 0) (slot_bit c))

pub mark_self : (b : List ℕ) (c : ℕ) → length b ≡ replay_words → counter_bit (mark b c) c ≡ 1
unfolding mark
mark_self b c s =
    rw
      (get_or-set_self b (slot_word c) (bit_or (get_or b (slot_word c) 0) (slot_bit c)) 0
        (omega arith))
      (bit-bit_or_pow_self (c % 64) (get_or b (slot_word c) 0))

-- Two counters less than 2048 apart have different bits.
pub mark_other :
    (b : List ℕ) (c d : ℕ)
    → length b ≡ replay_words
    → c ≢ d
    → c < d + 2048
    → d < c + 2048
    → counter_bit (mark b c) d ≡ counter_bit b d
unfolding mark
mark_other b c d s ne p q = elim (ℕ_discrete (slot_word c) (slot_word d)) [
  | yes e ↦ rw (← e) (
      rw
        (get_or-set_self b (slot_word c) (bit_or (get_or b (slot_word c) 0) (slot_bit c)) 0
          (omega arith))
        (bit-bit_or_pow_ne (c % 64) (d % 64) (get_or b (slot_word c) 0) (λ same. ne (omega arith))))
  | no n ↦ rw (
      get_or-set_ne b (slot_word c) (slot_word d) (bit_or (get_or b (slot_word c) 0) (slot_bit c)) 0
        n)
]

pub get_or-replicate_zero : (n j : ℕ) → get_or {A = ℕ} (replicate n 0) j 0 ≡ 0
get_or-replicate_zero zero j = refl
get_or-replicate_zero (suc n) zero = refl
get_or-replicate_zero (suc n) (suc j) = get_or-replicate_zero n j
