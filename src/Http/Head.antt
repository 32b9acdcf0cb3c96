-- ===== src/Http/Head.antt =====
-- The length of a head lies within the buffer.
use usb_camera_over_tailscal.Base.{
  ℕ, suc, ◌+◌, ◌≤◌, ◌≡◌, refl, ap, [], ◌∷◌, Option, none, some, Bool, true, false, if◌then◌else◌,
  arith, length, length-take, take,
}
use usb_camera_over_tailscal.Base.Text.{text_eq}
use usb_camera_over_tailscal.Crypto.{Bytes}
use usb_camera_over_tailscal.Http.{find_crlf, find_lf, or_try, head_len}

same_length : (a b : Bytes) → text_eq a b ≡ true → length a ≡ length b
same_length [] [] h = refl
same_length [] (y ∷ b) h = cc h
same_length (x ∷ a) [] h = cc h
same_length (x ∷ a) (y ∷ b) h = ap suc (same_length a b (ground (arith, h)))

starts : (k : ℕ) (a mark : Bytes) → length mark ≡ k → text_eq (take k a) mark ≡ true → k ≤ length a
starts k a mark size h = omega (arith, size, same_length (take k a) mark h, length-take k a)

bound_if :
    (c : Bool) (n m k : ℕ) (rest : Option ℕ)
    → (c ≡ true → m ≤ k)
    → (rest ≡ some n → n ≤ k)
    → (if c then some m else rest) ≡ some n
    → n ≤ k
bound_if true n m k rest h r e = omega (arith, h refl, same)
  where
    same : m ≡ n
    same = cc e
bound_if false n m k rest h r e = r e

find_crlf-bound : (i n : ℕ) (buf : Bytes) → find_crlf i buf ≡ some n → n ≤ i + length buf
unfolding find_crlf
find_crlf-bound i n [] e = cc e
find_crlf-bound i n (b ∷ bs) e =
    bound_if (text_eq (take 4 (b ∷ bs)) (13 ∷ 10 ∷ 13 ∷ 10 ∷ [])) n (i + 4) (i + length (b ∷ bs))
      (find_crlf (i + 1) bs) (λ h. omega (arith, starts 4 (b ∷ bs) (13 ∷ 10 ∷ 13 ∷ 10 ∷ []) refl h))
      (λ k. omega (arith, find_crlf-bound (i + 1) n bs k)) e

find_lf-bound : (i n : ℕ) (buf : Bytes) → find_lf i buf ≡ some n → n ≤ i + length buf
unfolding find_lf
find_lf-bound i n [] e = cc e
find_lf-bound i n (b ∷ bs) e =
    bound_if (text_eq (take 2 (b ∷ bs)) (10 ∷ 10 ∷ [])) n (i + 2) (i + length (b ∷ bs))
      (find_lf (i + 1) bs) (λ h. omega (arith, starts 2 (b ∷ bs) (10 ∷ 10 ∷ []) refl h))
      (λ k. omega (arith, find_lf-bound (i + 1) n bs k)) e

or_try-bound :
    (a b : Option ℕ) (n k : ℕ)
    → (a ≡ some n → n ≤ k)
    → (b ≡ some n → n ≤ k)
    → or_try a b ≡ some n
    → n ≤ k
unfolding or_try
or_try-bound none b n k h r e = r e
or_try-bound (some m) b n k h r e = h e

-- A head that is found ends within the buffer.
pub head_len-bound : (buf : Bytes) (n : ℕ) → head_len buf ≡ some n → n ≤ length buf
unfolding head_len
head_len-bound buf n =
    or_try-bound (find_crlf 0 buf) (find_lf 0 buf) n (length buf)
      (λ e. omega (arith, find_crlf-bound 0 n buf e)) (λ e. omega (arith, find_lf-bound 0 n buf e))
