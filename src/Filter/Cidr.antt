-- ===== src/Filter/Cidr.antt =====
-- What a CIDR test means: the addresses agree in their first `bits` bits.
use native.Mathlib.Nat.{one-le-pow, div-add-mod', mod-lt, mod-eq_of_lt, min-eq_left}
use native.Mathlib.Decide.{ℕ_discrete}
use usb_camera_over_tailscal.Base.{
  ℕ, zero, suc, ◌-◌, ◌*◌, ◌/◌, ◌%◌, ◌^◌, ◌≤◌, ◌<◌, ◌≡◌, refl, ◌∙◌, Bool, true, false, arith,
  if◌then◌else◌, ◌==◌, ==_iff, ==_refl, ne→==_false, bit_and, sym, ap,
}
use usb_camera_over_tailscal.Base.Bits.{bit_and_shifted, bit_and_low}
use usb_camera_over_tailscal.Ip.{IpAddr, v4, v6, IsAddr}
use usb_camera_over_tailscal.Filter.{prefix_mask, cidr_contains}
use usb_camera_over_tailscal.Filter.Compile.{max_bits}

-- The test passes at every prefix length up to `top`, found by running it.
passes_to : (ℕ → Bool) → ℕ → Bool
passes_to test zero = test 0
passes_to test (suc top) = let below = passes_to test top in if test (suc top) then below else false

passed :
    (test : ℕ → Bool) (top bits : ℕ) → bits ≤ top → passes_to test top ≡ true → test bits ≡ true
unfolding passes_to
passed test zero bits h ran = let e : bits ≡ 0 = omega arith in ap test e ∙ ran
passed test (suc top) bits h ran = elim (ℕ_discrete bits (suc top)) [
  | yes e ↦ rw e (ground arith)
  | no n ↦ passed test top bits (omega arith) (ground arith)
]

-- The mask has `bits` ones above `width - bits` zeros.
mask_ones : ℕ → ℕ → Bool
mask_ones width bits = prefix_mask width bits == (2 ^ bits - 1) * 2 ^ (width - bits)

table_v4 : passes_to (mask_ones 32) 32 ≡ true
unfolding passes_to mask_ones prefix_mask
table_v4 = refl

table_v6 : passes_to (mask_ones 128) 128 ≡ true
unfolding passes_to mask_ones prefix_mask
table_v6 = refl

mask_v4 : (bits : ℕ) → bits ≤ 32 → prefix_mask 32 bits ≡ (2 ^ bits - 1) * 2 ^ (32 - bits)
unfolding mask_ones
mask_v4 bits h = (==_iff _ _).0 (passed (mask_ones 32) 32 bits h table_v4)

mask_v6 : (bits : ℕ) → bits ≤ 128 → prefix_mask 128 bits ≡ (2 ^ bits - 1) * 2 ^ (128 - bits)
unfolding mask_ones
mask_v6 bits h = (==_iff _ _).0 (passed (mask_ones 128) 128 bits h table_v6)

-- Masking by `bits` ones above `k` zeros keeps the part above `2 ^ k`, if that has `bits` bits.
masked :
    (bits k a : ℕ) → a / 2 ^ k < 2 ^ bits → bit_and a ((2 ^ bits - 1) * 2 ^ k) ≡ a / 2 ^ k * 2 ^ k
masked bits k a h =
    ap (λ (t : ℕ). bit_and t ((2 ^ bits - 1) * 2 ^ k)) (sym (div-add-mod' a (2 ^ k)))
    ∙ bit_and_shifted k (a / 2 ^ k) (a % 2 ^ k) (2 ^ bits - 1)
        (mod-lt a (one-le-pow k 2 (omega arith)))
    ∙ ap (λ (t : ℕ). t * 2 ^ k) (bit_and_low bits (a / 2 ^ k) ∙ mod-eq_of_lt h)

scale_eq : (a b c : ℕ) → 0 < c → (a * c == b * c) ≡ (a == b)
scale_eq a b c h = elim (ℕ_discrete a b) [
  | yes e ↦ rw e (==_refl (b * c) ∙ sym (==_refl b))
  | no n ↦ ne→==_false (a * c) (b * c) (λ e. n (grind arith)) ∙ sym (ne→==_false a b n)
]

-- The two parts of a word of `width` bits.
split_width : ℕ → ℕ → Bool
split_width width bits = 2 ^ bits * 2 ^ (width - bits) == 2 ^ width

splits_v4 : passes_to (split_width 32) 32 ≡ true
unfolding passes_to split_width
splits_v4 = refl

splits_v6 : passes_to (split_width 128) 128 ≡ true
unfolding passes_to split_width
splits_v6 = refl

high_fits : (a c d : ℕ) → a < d * c → a / c < d
high_fits a c d h = grind arith

-- Comparing two words under the mask compares their first `bits` bits.
compare_masked :
    (width bits a b : ℕ)
    → prefix_mask width bits ≡ (2 ^ bits - 1) * 2 ^ (width - bits)
    → 2 ^ bits * 2 ^ (width - bits) ≡ 2 ^ width
    → a < 2 ^ width
    → b < 2 ^ width
    → (bit_and a (prefix_mask width bits) == bit_and b (prefix_mask width bits))
      ≡ (a / 2 ^ (width - bits) == b / 2 ^ (width - bits))
compare_masked width bits a b mask split ha hb =
    rw
      (
        mask,
        masked bits (width - bits) a (high_fits a (2 ^ (width - bits)) (2 ^ bits) (rw split ha)),
        masked bits (width - bits) b (high_fits b (2 ^ (width - bits)) (2 ^ bits) (rw split hb)),
      )
      (scale_eq (a / 2 ^ (width - bits)) (b / 2 ^ (width - bits)) (2 ^ (width - bits))
        (one-le-pow (width - bits) 2 (omega arith)))

-- Two addresses of one family agree in their first `bits` bits.
abbrev pub same_prefix : IpAddr → ℕ → IpAddr → Bool
same_prefix (v4 a) bits (v4 b) = a / 2 ^ (32 - bits) == b / 2 ^ (32 - bits)
same_prefix (v6 a) bits (v6 b) = a / 2 ^ (128 - bits) == b / 2 ^ (128 - bits)
same_prefix (v4 a) bits (v6 b) = false
same_prefix (v6 a) bits (v4 b) = false

-- For addresses that fit their types and a prefix length that fits the family, the masked
-- comparison of `cidr_contains` holds exactly when the network and the address are of one family
-- and agree in their first `bits` bits.
pub cidr_contains_prefix :
    (net : IpAddr) (bits : ℕ) (ip : IpAddr)
    → IsAddr net
    → IsAddr ip
    → bits ≤ max_bits net
    → cidr_contains net bits ip ≡ same_prefix net bits ip
unfolding cidr_contains split_width
cidr_contains_prefix (v4 a) bits (v4 b) ha hb h = rw (min-eq_left h) (
    compare_masked 32 bits a b (mask_v4 bits h)
      ((==_iff _ _).0 (passed (split_width 32) 32 bits h splits_v4)) ha hb)
cidr_contains_prefix (v6 a) bits (v6 b) ha hb h = rw (min-eq_left h) (
    compare_masked 128 bits a b (mask_v6 bits h)
      ((==_iff _ _).0 (passed (split_width 128) 128 bits h splits_v6)) ha hb)
cidr_contains_prefix (v4 a) bits (v6 b) ha hb h = refl
cidr_contains_prefix (v6 a) bits (v4 b) ha hb h = refl
