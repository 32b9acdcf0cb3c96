-- ===== src/Base/Utf8.antt =====
-- `std::str::from_utf8`: the code points of a text in UTF-8, with the well-formed sequences of the
-- Unicode standard, table 3-7.
use Prim.Native.Nat.{ℕ, zero, suc, ◌+◌, ◌-◌, ◌*◌}
use mathlib.Core.Bool.{◌&&◌}
use mathlib.Core.Path.{◌≡◌, refl}
use mathlib.Core.List.{List, [], ◌∷◌}
use mathlib.Core.Option.{Option, none, some}
use usb_camera_over_tailscal.Base.Tests.{ltb, leb, ◌==◌, if◌then◌else◌}
use usb_camera_over_tailscal.Base.Text.{Text}

-- What is read of a code point: how many bytes are to come, the bounds of the next one, and the bits so far.
pub record Reading : Type 0 where
  pub left : ℕ
  pub low : ℕ
  pub high : ℕ
  pub bits : ℕ

abbrev pub start : Reading
start = record { left = 0; low = 0; high = 0; bits = 0 }

abbrev lead : ℕ → ℕ → ℕ → ℕ → Option Reading
lead left low high bits = some (record { left = left; low = low; high = high; bits = bits })

unfoldable pub lead_byte : ℕ → Option Reading
lead_byte b =
    if ltb b 0x80
    then lead 0 0 0 b
    else if ltb b 0xc2
    then none
    else if leb b 0xdf
    then lead 1 0x80 0xbf (b - 0xc0)
    else if b == 0xe0
    then lead 2 0xa0 0xbf 0
    else if b == 0xed
    then lead 2 0x80 0x9f (b - 0xe0)
    else if leb b 0xef
    then lead 2 0x80 0xbf (b - 0xe0)
    else if b == 0xf0
    then lead 3 0x90 0xbf 0
    else if leb b 0xf3
    then lead 3 0x80 0xbf (b - 0xf0)
    else if b == 0xf4
    then lead 3 0x80 0x8f (b - 0xf0)
    else none

unfoldable pub next_byte : Reading → ℕ → Option Reading
next_byte r b = elim r.left [
  | zero ↦ lead_byte b
  | suc n ↦
      if leb r.low b && leb b r.high then lead n 0x80 0xbf (r.bits * 64 + (b - 0x80)) else none
]

-- A code point behind its last byte.
unfoldable pub put_point : Reading → Option Text → Option Text
put_point r none = none
put_point r (some t) = elim r.left [ zero ↦ some (r.bits ∷ t) | suc n ↦ some t ]

unfoldable pub from_utf8_at : Reading → List ℕ → Option Text
from_utf8_at r [] = elim r.left [ zero ↦ some [] | suc n ↦ none ]
from_utf8_at r (b ∷ bs) = elim (next_byte r b) [
  | none ↦ none
  | some q ↦ put_point q (from_utf8_at q bs)
]

unfoldable pub from_utf8 : List ℕ → Option Text
from_utf8 bs = from_utf8_at start bs

utf8_test :
    from_utf8 (0x41 ∷ 0xc3 ∷ 0xa4 ∷ 0xf0 ∷ 0x9f ∷ 0x94 ∷ 0x91 ∷ [])
    ≡ some (0x41 ∷ 0xe4 ∷ 0x1f511 ∷ [])
unfolding from_utf8 from_utf8_at put_point next_byte lead_byte
utf8_test = refl

overlong_test : from_utf8 (0xc0 ∷ 0x80 ∷ []) ≡ none
unfolding from_utf8 from_utf8_at put_point next_byte lead_byte
overlong_test = refl

-- A code point behind its last byte, in front of what follows.
abbrev emit : Reading → Text → Text
emit r t = elim r.left [ zero ↦ r.bits ∷ t | suc n ↦ t ]

-- `String::from_utf8_lossy`: each maximal part of a sequence that is not well-formed becomes one
-- U+FFFD; the byte that breaks it may begin the next one.
unfoldable pub lossy_at : Reading → List ℕ → Text
lossy_at r [] = elim r.left [ zero ↦ [] | suc n ↦ 0xfffd ∷ [] ]
lossy_at r (b ∷ bs) = elim (next_byte r b) [
  | some q ↦ emit q (lossy_at q bs)
  | none ↦ elim r.left [
    | zero ↦ 0xfffd ∷ lossy_at start bs
    | suc n ↦ elim (lead_byte b) [
      | none ↦ 0xfffd ∷ 0xfffd ∷ lossy_at start bs
      | some q ↦ 0xfffd ∷ emit q (lossy_at q bs)
    ]
  ]
]

unfoldable pub from_utf8_lossy : List ℕ → Text
from_utf8_lossy bs = lossy_at start bs

lossy_test :
    from_utf8_lossy (0x41 ∷ 0xff ∷ 0xe2 ∷ 0x82 ∷ 0x42 ∷ 0xc3 ∷ [])
    ≡ 0x41 ∷ 0xfffd ∷ 0xfffd ∷ 0x42 ∷ 0xfffd ∷ []
unfolding from_utf8_lossy lossy_at next_byte lead_byte
lossy_test = refl

emit-put_point :
    (q : Reading) (o : Option Text) (l t : Text)
    → ((u : Text) → o ≡ some u → l ≡ u)
    → put_point q o ≡ some t
    → emit q l ≡ t
unfolding put_point
emit-put_point q none l t ih e = cc e
emit-put_point q (some u) l t ih e = rw (ih u refl) (by_left q.left e)
  where
    by_left :
        (n : ℕ)
        → ◌≡◌ {A = Option Text} (elim n [ zero ↦ some (q.bits ∷ u) | suc m ↦ some u ]) (some t)
        → ◌≡◌ {A = Text} (elim n [ zero ↦ q.bits ∷ u | suc m ↦ u ]) t
    by_left zero e = cc e
    by_left (suc m) e = cc e

lossy_at-utf8 :
    (r : Reading) (bs : List ℕ) (t : Text) → from_utf8_at r bs ≡ some t → lossy_at r bs ≡ t
unfolding from_utf8_at lossy_at
lossy_at-utf8 r [] t e = by_left r.left e
  where
    by_left :
        (n : ℕ)
        → ◌≡◌ {A = Option Text} (elim n [ zero ↦ some [] | suc m ↦ none ]) (some t)
        → ◌≡◌ {A = Text} (elim n [ zero ↦ [] | suc m ↦ 0xfffd ∷ [] ]) t
    by_left zero e = cc e
    by_left (suc m) e = cc e
lossy_at-utf8 r (b ∷ bs) t e = by_next (λ q. lossy_at-utf8 q bs) (next_byte r b) refl e
  where
    by_next :
        ((q : Reading) (u : Text) → from_utf8_at q bs ≡ some u → lossy_at q bs ≡ u)
        → (o : Option Reading) → next_byte r b ≡ o
        → from_utf8_at r (b ∷ bs) ≡ some t
        → lossy_at r (b ∷ bs) ≡ t
    by_next ih none h = rw (h, from_utf8_at) (λ e. cc e)
    by_next ih (some q) h =
        rw (h, from_utf8_at, lossy_at)
          (emit-put_point q (from_utf8_at q bs) (lossy_at q bs) t (ih q))

-- Bytes that are the UTF-8 of a text are read as that text.
pub from_utf8_lossy-utf8 : (bs : List ℕ) (t : Text) → from_utf8 bs ≡ some t → from_utf8_lossy bs ≡ t
unfolding from_utf8 from_utf8_lossy
from_utf8_lossy-utf8 bs t e = lossy_at-utf8 start bs t e
