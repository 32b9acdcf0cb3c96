-- ===== src/Base/Words.antt =====
-- Bytes, and the encodings of machine integers as bytes.
use Prim.Native.Nat.{ℕ, zero, suc, ◌+◌, ◌*◌, ◌/◌, ◌%◌, ◌^◌, ◌<◌, ◌≤◌}
use mathlib.Core.Path.{◌≡◌, refl, ap, ◌∙◌}
use mathlib.Core.List.{List, [], ◌∷◌}
use native.Mathlib.Nat.{pow-suc, mod-eq_of_lt, one-le-pow, div-div-eq-div-mul, div-add-mod'}
use native.Mathlib.Omega.{arith}
use usb_camera_over_tailscal.Base.Lists.{length, take}

-- Every element satisfies the predicate.
abbrev pub All {ℓ κ} : {A : Type ℓ} → (A → Type κ) → List A → Type κ
All P [] = Unit
All P (x ∷ xs) = P x × All P xs

abbrev pub IsBytes : List ℕ → Type 0
IsBytes p = All (λ b. b < 256) p

-- `u16::from_be_bytes`, `u32::from_be_bytes`.
abbrev pub u16_from_be : ℕ → ℕ → ℕ
u16_from_be a b = a * 256 + b

abbrev pub u32_from_be : ℕ → ℕ → ℕ → ℕ → ℕ
u32_from_be a b c d = ((a * 256 + b) * 256 + c) * 256 + d

-- `u16::to_be_bytes`, `u32::to_be_bytes`.
abbrev pub u16_to_be : ℕ → List ℕ
u16_to_be x = (x / 256 % 256) ∷ (x % 256) ∷ []

abbrev pub u32_to_be : ℕ → List ℕ
u32_to_be x = (x / 2 ^ 24 % 256) ∷ (x / 2 ^ 16 % 256) ∷ (x / 2 ^ 8 % 256) ∷ (x % 256) ∷ []

-- `to_le_bytes` of a `w`-byte integer, and `from_le_bytes`.
abbrev pub to_le : ℕ → ℕ → List ℕ
to_le zero x = []
to_le (suc w) x = (x % 256) ∷ to_le w (x / 256)

abbrev pub from_le : List ℕ → ℕ
from_le [] = 0
from_le (b ∷ bs) = b + 256 * from_le bs

-- `from_be_bytes` of an address's octets.
abbrev pub from_be : ℕ → List ℕ → ℕ
from_be acc [] = acc
from_be acc (b ∷ bs) = from_be (acc * 256 + b) bs

pub length-to_le : (w x : ℕ) → length (to_le w x) ≡ w
length-to_le zero x = refl
length-to_le (suc w) x = ap suc (length-to_le w (x / 256))

pub to_le-IsBytes : (w x : ℕ) → IsBytes (to_le w x)
to_le-IsBytes zero x = tt
to_le-IsBytes (suc w) x = (omega arith, to_le-IsBytes w (x / 256))

pub from_le-to_le : (w x : ℕ) → x < 256 ^ w → from_le (to_le w x) ≡ x
from_le-to_le zero x h = omega arith
from_le-to_le (suc w) x h =
    omega (arith, pow-suc 256 w, from_le-to_le w (x / 256) (omega (arith, pow-suc 256 w)))

-- The low bytes of an integer are those of its value at the smaller width.
pub take-to_le : (n w x : ℕ) → n ≤ w → take n (to_le w x) ≡ to_le n x
take-to_le zero w x h = refl
take-to_le (suc n) zero x h = absurd (omega arith)
take-to_le (suc n) (suc w) x h = ap (λ l. (x % 256) ∷ l) (take-to_le n w (x / 256) (omega arith))

-- The `w` octets of a number, most significant first.
abbrev pub to_be : ℕ → ℕ → List ℕ
to_be zero x = []
to_be (suc w) x = (x / 256 ^ w % 256) ∷ to_be w x

pub length-to_be : (w x : ℕ) → length (to_be w x) ≡ w
length-to_be zero x = refl
length-to_be (suc w) x = ap suc (length-to_be w x)

pub to_be-IsBytes : (w x : ℕ) → IsBytes (to_be w x)
to_be-IsBytes zero x = tt
to_be-IsBytes (suc w) x = (omega arith, to_be-IsBytes w x)

digit_split : (x m : ℕ) → 0 < m → x % (m * 256) ≡ x / m % 256 * m + x % m
digit_split x m h = omega (
  arith,
  div-add-mod' x (m * 256),
  ap (λ (t : ℕ). m * t) (div-div-eq-div-mul x m 256),
  ap (λ (t : ℕ). m * t) (div-add-mod' (x / m) 256),
  div-add-mod' x m,
)

from_be-to_be_acc : (w acc x : ℕ) → from_be acc (to_be w x) ≡ acc * 256 ^ w + x % 256 ^ w
from_be-to_be_acc zero acc x = omega arith
from_be-to_be_acc (suc w) acc x =
    from_be-to_be_acc w (acc * 256 + x / 256 ^ w % 256) x
    ∙ omega (
      arith,
      digit_split x (256 ^ w) (one-le-pow w 256 (omega arith)),
      ap (λ (t : ℕ). x % t) (pow-suc 256 w),
      ap (λ (t : ℕ). acc * t) (pow-suc 256 w),
    )

-- The octets of a number that fits give the number back.
pub from_be-to_be : (w x : ℕ) → x < 256 ^ w → from_be 0 (to_be w x) ≡ x
from_be-to_be w x h = omega (arith, from_be-to_be_acc w 0 x, mod-eq_of_lt h)
