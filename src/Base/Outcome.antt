-- ===== src/Base/Outcome.antt =====
-- The outcome of a piece of Rust: a value, an error value, or a panic (an index or a slice out of
-- range). `Option`-returning parsers use the error type `Unit`, whose one value stands for `None`.
use Prim.Native.Nat.{ℕ, zero, suc, ◌+◌, ◌-◌, ◌<◌, ◌≤◌}
use mathlib.Core.Path.{◌≡◌, refl, ap, ◌∙◌}
use mathlib.Core.List.{List, [], ◌∷◌, ◌++◌}
use mathlib.Core.Option.{Option, none, some}
use mathlib.Core.Bool.{Bool, true, false, ◌&&◌}
use native.Mathlib.Omega.{arith}
use usb_camera_over_tailscal.Base.Tests.{leb, le→leb, if◌then◌else◌}
use usb_camera_over_tailscal.Base.Lists.{
  length, get_elem?, get_or, take, drop, length-take, length-drop, length-append, take-append,
  drop-append, get_elem?-append,
}

pub data Exec {ℓ} (E : Type 0) (A : Type ℓ) : Type ℓ where
  ok : A → Exec E A
  err : E → Exec E A
  panic : Exec E A

infixl 5 ◌>>=◌ ◌>>◌
abbrev pub ◌>>=◌ {ℓ κ} :
    {E : Type 0} {A : Type ℓ} {B : Type κ} → Exec E A → (A → Exec E B) → Exec E B
ok a >>= f = f a
err e >>= f = err e
panic >>= f = panic

abbrev pub ◌>>◌ {ℓ} : {E : Type 0} {B : Type ℓ} → Exec E (Unit {0}) → Exec E B → Exec E B
m >> k = m >>= λ _. k

-- `if b { return Err(e) }`.
abbrev pub fail_if : {E : Type 0} → Bool → E → Exec E (Unit {0})
fail_if true e = err e
fail_if false e = ok tt

-- A parser that returns `Option`.
abbrev pub Parse {ℓ} : Type ℓ → Type ℓ
Parse A = Exec (Unit {0}) A

abbrev pub reject {ℓ} : {A : Type ℓ} → Parse A
reject = err tt

-- `o?` in a function that returns `Option`, and `o.ok_or(e)?` in one that returns `Result`.
abbrev pub try {ℓ} : {E : Type 0} {A : Type ℓ} → E → Option A → Exec E A
try e none = err e
try e (some a) = ok a

-- `p[i]`.
abbrev pub index : {E : Type 0} → List ℕ → ℕ → Exec E ℕ
index p i = elim (get_elem? p i) [ none ↦ panic | some b ↦ ok b ]

-- `p[lo..hi]`.
abbrev pub slice {ℓ} : {E : Type 0} {A : Type ℓ} → List A → ℕ → ℕ → Exec E (List A)
slice p lo hi = if leb lo hi && leb hi (length p) then ok (take (hi - lo) (drop lo p)) else panic

-- `p[lo..]`.
abbrev pub slice_from {ℓ} : {E : Type 0} {A : Type ℓ} → List A → ℕ → Exec E (List A)
slice_from p lo = if leb lo (length p) then ok (drop lo p) else panic

-- The outcome is a value or an error, never a panic.
abbrev pub NoPanic {ℓ} : {E : Type 0} {A : Type ℓ} → Exec E A → Type 0
NoPanic (ok a) = Unit
NoPanic (err e) = Unit
NoPanic panic = ⊥

module _ {E : Type 0} where
  pub index-ok : (p : List ℕ) (i : ℕ) → i < length p → index {E = E} p i ≡ ok (get_or p i 0)
  index-ok [] i h = absurd (omega arith)
  index-ok (x ∷ xs) zero h = refl
  index-ok (x ∷ xs) (suc i) h = index-ok xs i (omega arith)

  pub slice-ok {ℓ} :
      {A : Type ℓ} (p : List A) (lo hi : ℕ)
      → lo ≤ hi
      → hi ≤ length p
      → slice {E = E} p lo hi ≡ ok (take (hi - lo) (drop lo p))
  slice-ok p lo hi h k = rw (le→leb _ _ h, le→leb _ _ k)

  pub slice_from-ok {ℓ} :
      {A : Type ℓ} (p : List A) (lo : ℕ) → lo ≤ length p → slice_from {E = E} p lo ≡ ok (drop lo p)
  slice_from-ok p lo h = rw (le→leb _ _ h)

  -- A slice and an index of a buffer that is put together from parts.
  pub slice-append {ℓ} :
      {A : Type ℓ} (lo hi : ℕ) (xs ys zs : List A)
      → length xs ≡ lo
      → lo + length ys ≡ hi
      → slice {E = E} (xs ++ (ys ++ zs)) lo hi ≡ ok ys
  slice-append lo hi xs ys zs h k =
      slice-ok (xs ++ (ys ++ zs)) lo hi (omega arith)
        (omega (arith, length-append xs (ys ++ zs), length-append ys zs))
      ∙ ap ok (
          ap (λ l. take (hi - lo) l) (drop-append lo xs (ys ++ zs) h)
          ∙ take-append (hi - lo) ys zs (omega arith))

  -- The same, where the buffer is first brought into the form that shows the part.
  pub slice_part {ℓ} :
      {A : Type ℓ} (p : List A) (lo hi : ℕ) (xs ys zs : List A)
      → p ≡ xs ++ (ys ++ zs)
      → length xs ≡ lo
      → lo + length ys ≡ hi
      → slice {E = E} p lo hi ≡ ok ys
  slice_part p lo hi xs ys zs e h k = ap (λ l. slice l lo hi) e ∙ slice-append lo hi xs ys zs h k

  pub slice_from-append {ℓ} :
      {A : Type ℓ} (lo : ℕ) (xs ys : List A)
      → length xs ≡ lo
      → slice_from {E = E} (xs ++ ys) lo ≡ ok ys
  slice_from-append lo xs ys h =
      slice_from-ok (xs ++ ys) lo (omega (arith, length-append xs ys))
      ∙ ap ok (drop-append lo xs ys h)

  pub index-append :
      (n i : ℕ) (xs ys : List ℕ) → length xs ≡ n → index {E = E} (xs ++ ys) (n + i) ≡ index ys i
  index-append n i xs ys h = rw (get_elem?-append n i xs ys h, index)

  pub NoPanic->>= {ℓ κ} :
      {A : Type ℓ} {B : Type κ} (m : Exec E A) (f : A → Exec E B)
      → NoPanic m
      → ((a : A) → m ≡ ok a → NoPanic (f a))
      → NoPanic (m >>= f)
  NoPanic->>= (ok a) f h k = k a refl
  NoPanic->>= (err e) f h k = tt
  NoPanic->>= panic f h k = h

pub if-NoPanic :
    {E A : Type 0} (b : Bool) (x y : Exec E A)
    → (b ≡ true → NoPanic x)
    → (b ≡ false → NoPanic y)
    → NoPanic (if b then x else y)
if-NoPanic true x y h k = h refl
if-NoPanic false x y h k = k refl

-- Rules for the steps of a `do` block.
module _ {E : Type 0} {B : Type 0} where
  pub fail_if-NoPanic :
      (b : Bool) (e : E) (f : Unit {0} → Exec E B)
      → (b ≡ false → NoPanic (f tt))
      → NoPanic (fail_if b e >>= f)
  fail_if-NoPanic true e f k = tt
  fail_if-NoPanic false e f k = k refl

  pub try-NoPanic :
      {A : Type 0} (e : E) (o : Option A) (f : A → Exec E B)
      → ((a : A) → o ≡ some a → NoPanic (f a))
      → NoPanic (try e o >>= f)
  try-NoPanic e none f k = tt
  try-NoPanic e (some a) f k = k a refl

  pub index-NoPanic :
      (p : List ℕ) (i : ℕ) (f : ℕ → Exec E B)
      → i < length p
      → ((b : ℕ) → NoPanic (f b))
      → NoPanic (index p i >>= f)
  index-NoPanic p i f h k = rw (index-ok p i h) (k (get_or p i 0))

  pub slice-NoPanic :
      {A : Type 0} (p : List A) (lo hi : ℕ) (f : List A → Exec E B)
      → lo ≤ hi
      → hi ≤ length p
      → ((q : List A) → length q ≡ hi - lo → NoPanic (f q))
      → NoPanic (slice p lo hi >>= f)
  slice-NoPanic p lo hi f h h' k = rw (slice-ok p lo hi h h') (
      k (take (hi - lo) (drop lo p))
        (omega (arith, length-take (hi - lo) (drop lo p), length-drop lo p)))

  pub slice_from-NoPanic :
      {A : Type 0} (p : List A) (lo : ℕ) (f : List A → Exec E B)
      → lo ≤ length p
      → ((q : List A) → length q ≡ length p - lo → NoPanic (f q))
      → NoPanic (slice_from p lo >>= f)
  slice_from-NoPanic p lo f h k = rw (slice_from-ok p lo h) (k (drop lo p) (length-drop lo p))
