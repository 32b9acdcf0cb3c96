-- ===== src/Base/Bits.antt =====
-- Bits of a machine word: `w & (1 << j)` and `w | (1 << i)` read digit by digit at every
-- position, and masks as division and remainder by powers of two.
use Prim.Native.Nat.{
  ℕ, zero, suc, ◌+◌, ◌-◌, ◌*◌, ◌/◌, ◌%◌, ◌^◌, ◌≤◌, ◌<◌, min, max, bit_and, bit_or, digits, bitwise,
  bit_and-bitwise, bit_or-bitwise,
}
use mathlib.Core.Path.{◌≡◌, refl, sym, ap, ap₂, ◌∙◌}
use mathlib.Core.Logic.{◌≢◌}
use native.Mathlib.Nat.{le_refl, pow-suc, one-le-pow}
use native.Mathlib.Omega.{arith}

-- The native operations are defined by a recursion on binary digits whose fuel is the first
-- number. One unit of fuel more changes nothing once the fuel reaches that number.
module _ (last : ℕ → ℕ) (join : ℕ → ℕ → ℕ) where
  digits_spare :
      (fuel x y : ℕ) → x ≤ fuel → digits last join (suc fuel) x y ≡ digits last join fuel x y
  digits_spare zero (suc x) y enough = elim enough [ ]
  digits_spare zero zero y enough = refl
  digits_spare (suc fuel) zero y enough = refl
  digits_spare (suc fuel) (suc x) y enough =
      ap (λ (t : ℕ). t * 2 + join (suc x % 2) (y % 2))
        (digits_spare fuel (suc x / 2) (y / 2) (omega arith))

  -- So any fuel from the number on serves.
  digits_enough :
      (spare fuel x y : ℕ) {total : ℕ}
      → total ≡ fuel + spare
      → x ≤ fuel
      → digits last join total x y ≡ digits last join fuel x y
  digits_enough zero fuel x y same enough =
      ap (λ (t : ℕ). digits last join t x y) (omega (arith, same))
  digits_enough (suc spare) fuel x y same enough =
      ap (λ (t : ℕ). digits last join t x y) {y = suc (fuel + spare)} (omega (arith, same))
      ∙ digits_spare (fuel + spare) x y (omega arith)
      ∙ digits_enough spare fuel x y refl enough

  bitwise-suc :
      (x y : ℕ)
      → bitwise last join (suc x) y
        ≡ bitwise last join (suc x / 2) (y / 2) * 2 + join (suc x % 2) (y % 2)
  bitwise-suc x y =
      ap (λ (t : ℕ). t * 2 + join (suc x % 2) (y % 2))
        (digits_enough (x - suc x / 2) (suc x / 2) (suc x / 2) (y / 2) (omega arith)
          (le_refl (suc x / 2)))

-- The lowest digit of `w & v` and of `w | v`.
pub bit_and_step : (w v : ℕ) → bit_and w v ≡ bit_and (w / 2) (v / 2) * 2 + min (w % 2) (v % 2)
bit_and_step zero v = omega (arith, bit_and-bitwise 0 v, bit_and-bitwise 0 (v / 2))
bit_and_step (suc w) v =
    bit_and-bitwise (suc w) v
    ∙ bitwise-suc (λ d. 0) min w v
    ∙ ap (λ (t : ℕ). t * 2 + min (suc w % 2) (v % 2)) (sym (bit_and-bitwise (suc w / 2) (v / 2)))

pub bit_or_step : (w v : ℕ) → bit_or w v ≡ bit_or (w / 2) (v / 2) * 2 + max (w % 2) (v % 2)
bit_or_step zero v = omega (arith, bit_or-bitwise 0 v, bit_or-bitwise 0 (v / 2))
bit_or_step (suc w) v =
    bit_or-bitwise (suc w) v
    ∙ bitwise-suc (λ d. d) max w v
    ∙ ap (λ (t : ℕ). t * 2 + max (suc w % 2) (v % 2)) (sym (bit_or-bitwise (suc w / 2) (v / 2)))

-- Zero on the right, by the digits themselves.
and_digits_zero : (fuel x : ℕ) → digits (λ d. 0) min fuel x 0 ≡ 0
and_digits_zero zero x = refl
and_digits_zero (suc fuel) zero = refl
and_digits_zero (suc fuel) (suc x) = omega (arith, and_digits_zero fuel (suc x / 2))

pub bit_and-zero : (w : ℕ) → bit_and w 0 ≡ 0
bit_and-zero w = bit_and-bitwise w 0 ∙ and_digits_zero w w

or_digits_zero : (fuel x : ℕ) → x ≤ fuel → digits (λ d. d) max fuel x 0 ≡ x
or_digits_zero zero zero enough = refl
or_digits_zero zero (suc x) enough = elim enough [ ]
or_digits_zero (suc fuel) zero enough = refl
or_digits_zero (suc fuel) (suc x) enough =
    omega (arith, or_digits_zero fuel (suc x / 2) (omega arith))

pub bit_or-zero : (w : ℕ) → bit_or w 0 ≡ w
bit_or-zero w = bit_or-bitwise w 0 ∙ or_digits_zero w w (le_refl w)

-- The digit of `w` at position `j`.
pub bit : ℕ → ℕ → ℕ
bit w zero = w % 2
bit w (suc j) = bit (w / 2) j

pub bit-zero : (j : ℕ) → bit 0 j ≡ 0
unfolding bit
bit-zero zero = refl
bit-zero (suc j) = bit-zero j

halve : (j : ℕ) → 2 ^ suc j / 2 ≡ 2 ^ j
halve j = omega (arith, pow-suc 2 j)

-- `w & (1 << j)` is the digit in place.
pub bit_and-pow : (j w : ℕ) → bit_and w (2 ^ j) ≡ bit w j * 2 ^ j
unfolding bit
bit_and-pow zero w = omega (arith, bit_and_step w 1, bit_and-zero (w / 2))
bit_and-pow (suc j) w = omega (
  arith,
  pow-suc 2 j,
  bit_and_step w (2 ^ suc j),
  bit_and-pow j (w / 2),
  ap (λ (t : ℕ). bit_and (w / 2) t) (halve j),
  ap (λ (t : ℕ). bit (w / 2) j * t) (pow-suc 2 j),
)

-- `w & (1 << j) != 0` tests the digit.
pub bit_and-pow_zero : (j w : ℕ) → bit_and w (2 ^ j) ≡ 0 → bit w j ≡ 0
bit_and-pow_zero j w h = grind (arith, bit_and-pow j w, one-le-pow j 2)

pub bit_and-pow_ne : (j w : ℕ) → bit_and w (2 ^ j) ≢ 0 → bit w j ≢ 0
bit_and-pow_ne j w h e = h (grind (arith, bit_and-pow j w))

bit_or-pow_half : (i w : ℕ) → bit_or w (2 ^ suc i) / 2 ≡ bit_or (w / 2) (2 ^ i)
bit_or-pow_half i w =
    omega
      (arith, pow-suc 2 i, bit_or_step w (2 ^ suc i), ap (λ (t : ℕ). bit_or (w / 2) t) (halve i))

bit_or-one_half : (w : ℕ) → bit_or w 1 / 2 ≡ w / 2
bit_or-one_half w = omega (arith, bit_or_step w 1, bit_or-zero (w / 2))

-- `w | (1 << j)` sets the digit at `j` and keeps every other.
pub bit-bit_or_pow_self : (j w : ℕ) → bit (bit_or w (2 ^ j)) j ≡ 1
unfolding bit
bit-bit_or_pow_self zero w = omega (arith, bit_or_step w 1)
bit-bit_or_pow_self (suc j) w = rw (bit_or-pow_half j w) (bit-bit_or_pow_self j (w / 2))

pub bit-bit_or_pow_ne : (i j w : ℕ) → i ≢ j → bit (bit_or w (2 ^ i)) j ≡ bit w j
unfolding bit
bit-bit_or_pow_ne zero zero w h = absurd (h refl)
bit-bit_or_pow_ne zero (suc j) w h = rw (bit_or-one_half w)
bit-bit_or_pow_ne (suc i) zero w h = omega (arith, bit_or_step w (2 ^ suc i), pow-suc 2 i)
bit-bit_or_pow_ne (suc i) (suc j) w h =
    rw (bit_or-pow_half i w) (bit-bit_or_pow_ne i j (w / 2) (λ e. h (ap suc e)))

-- A mask of `k` low ones is the remainder by `2 ^ k`.
low_mask : (k q r : ℕ) → r < 2 ^ k → bit_and (q * 2 ^ k + r) (2 ^ k - 1) ≡ r
low_mask zero q r h = omega (arith, bit_and-zero (q * 1 + r))
low_mask (suc k) q r h = ground (
  arith,
  bit_and_step (q * 2 ^ suc k + r) (2 ^ suc k - 1),
  ap (λ (t : ℕ). q * t) (pow-suc 2 k),
  pow-suc 2 k,
  low_mask k q (r / 2) (omega (arith, pow-suc 2 k)),
)

pub bit_and_low : (k a : ℕ) → bit_and a (2 ^ k - 1) ≡ a % 2 ^ k
bit_and_low k a = ground (arith, one-le-pow k 2, low_mask k (a / 2 ^ k) (a % 2 ^ k))

-- A mask shifted left keeps the high part of the word.
pub bit_and_shifted :
    (k q r m : ℕ) → r < 2 ^ k → bit_and (q * 2 ^ k + r) (m * 2 ^ k) ≡ bit_and q m * 2 ^ k
bit_and_shifted zero q r m h = same ∙ omega arith
  where
    same : bit_and (q * 1 + r) (m * 1) ≡ bit_and q m
    same = ap₂ bit_and (omega arith) (omega arith)
bit_and_shifted (suc k) q r m h = ground (
  arith,
  bit_and_step (q * 2 ^ suc k + r) (m * 2 ^ suc k),
  ap (λ (t : ℕ). q * t) (pow-suc 2 k),
  ap (λ (t : ℕ). m * t) (pow-suc 2 k),
  ap (λ (t : ℕ). bit_and q m * t) (pow-suc 2 k),
  pow-suc 2 k,
  bit_and_shifted k q (r / 2) m (omega (arith, pow-suc 2 k)),
)
