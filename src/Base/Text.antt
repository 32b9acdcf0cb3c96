-- ===== src/Base/Text.antt =====
-- What the program uses of Rust's `str`: a text is the list of its code points.
use Prim.Native.Nat.{ℕ, zero, suc, ◌/◌, ◌%◌, ◌+◌, ◌-◌, ◌*◌}
use Prim.Native.Char.{code}
use Prim.Native.String.{String}
use mathlib.Core.Path.{◌≡◌, refl}
use native.Mathlib.Omega.{arith}
use mathlib.Core.Bool.{Bool, true, false, ◌&&◌, ◌||◌}
use mathlib.Core.List.{List, [], ◌∷◌, ◌++◌, reverse}
use mathlib.Core.Option.{Option, none, some}
use usb_camera_over_tailscal.Base.Tests.{ltb, leb, ◌==◌, if◌then◌else◌}

abbrev pub Text : Type 0
Text = List ℕ

-- The code points of a literal.
abbrev pub chars : String → Text
chars String.[] = []
chars (String.◌∷◌ c s) = code c ∷ chars s

abbrev pub text_eq : Text → Text → Bool
text_eq [] [] = true
text_eq [] (d ∷ t) = false
text_eq (c ∷ s) [] = false
text_eq (c ∷ s) (d ∷ t) = c == d && text_eq s t

-- `char::is_whitespace`.
unfoldable pub is_whitespace : ℕ → Bool
is_whitespace c =
    (leb 9 c && leb c 13)
    || c == 0x20
    || c == 0x85
    || c == 0xa0
    || c == 0x1680
    || (leb 0x2000 c && leb c 0x200a)
    || c == 0x2028
    || c == 0x2029
    || c == 0x202f
    || c == 0x205f
    || c == 0x3000

unfoldable pub trim_start : Text → Text
trim_start [] = []
trim_start (c ∷ s) = if is_whitespace c then trim_start s else c ∷ s

unfoldable pub trim : Text → Text
unfolding trim_start is_whitespace
trim s = reverse (trim_start (reverse (trim_start s)))

-- `str::split_once` at a character.
unfoldable pub split_once : ℕ → Text → Option (Text × Text)
split_once d [] = none
split_once d (c ∷ s) =
    let rest = split_once d s in
    if c == d then some ([], s) else elim rest [ none ↦ none | some (a, b) ↦ some (c ∷ a, b) ]

-- The digits of an unsigned number, with the overflow checks of `from_str`.
unfoldable pub parse_digits : ℕ → ℕ → Text → Option ℕ
parse_digits limit acc [] = some acc
parse_digits limit acc (c ∷ s) =
    let rest = parse_digits limit (acc * 10 + (c - b'0')) s in
    if leb b'0' c && leb c b'9'
    then if ltb limit (acc * 10 + (c - b'0')) then none else rest
    else none

-- `str::parse` at an unsigned type with the given maximum: digits behind an optional `+`.
unfoldable pub parse_unsigned : ℕ → Text → Option ℕ
unfolding parse_digits
parse_unsigned limit [] = none
parse_unsigned limit (c ∷ []) = if c == b'+' then none else parse_digits limit 0 (c ∷ [])
parse_unsigned limit (c ∷ d ∷ s) =
    if c == b'+' then parse_digits limit 0 (d ∷ s) else parse_digits limit 0 (c ∷ d ∷ s)

-- `eq_ignore_ascii_case`.
unfoldable pub to_lower : ℕ → ℕ
to_lower c = if leb b'A' c && leb c b'Z' then c + 32 else c

unfoldable pub same_ignoring_case : Text → Text → Bool
unfolding to_lower
same_ignoring_case [] [] = true
same_ignoring_case [] (d ∷ t) = false
same_ignoring_case (c ∷ s) [] = false
same_ignoring_case (c ∷ s) (d ∷ t) = (to_lower c == to_lower d) && same_ignoring_case s t

-- `split_whitespace`.
unfoldable pub add_char : ℕ → List Text → List Text
add_char c [] = (c ∷ []) ∷ []
add_char c (w ∷ ws) = (c ∷ w) ∷ ws

-- The words of a text, the first of them empty if the text is, or begins with a space.
unfoldable pub pieces : Text → List Text
pieces [] = [] ∷ []
pieces (c ∷ s) = let rest = pieces s in if is_whitespace c then [] ∷ rest else add_char c rest

unfoldable pub nonempty : List Text → List Text
nonempty [] = []
nonempty (w ∷ ws) = if text_eq w [] then nonempty ws else w ∷ nonempty ws

unfoldable pub words : Text → List Text
words s = nonempty (pieces s)

-- The value of a digit to the base 16.
unfoldable pub hex_value : ℕ → Option ℕ
hex_value c =
    if leb b'0' c && leb c b'9'
    then some (c - b'0')
    else if leb b'a' c && leb c b'f'
    then some (c - b'a' + 10)
    else if leb b'A' c && leb c b'F'
    then some (c - b'A' + 10)
    else none

unfoldable pub hex_digits : ℕ → ℕ → Text → Option ℕ
hex_digits limit acc [] = some acc
hex_digits limit acc (c ∷ s) = elim (hex_value c) [
  | none ↦ none
  | some d ↦ if ltb limit (acc * 16 + d) then none else hex_digits limit (acc * 16 + d) s
]

-- `from_str_radix` to the base 16 at an unsigned type.
unfoldable pub parse_hex : ℕ → Text → Option ℕ
parse_hex limit [] = none
parse_hex limit (c ∷ []) = if c == b'+' then none else hex_digits limit 0 (c ∷ [])
parse_hex limit (c ∷ d ∷ s) =
    if c == b'+' then hex_digits limit 0 (d ∷ s) else hex_digits limit 0 (c ∷ d ∷ s)

-- The decimal digits of a number, with fuel for more of them than there are.
unfoldable pub decimal_digits : ℕ → ℕ → Text
decimal_digits zero n = []
decimal_digits (suc fuel) n =
    let rest = decimal_digits fuel (n / 10) in
    if n / 10 == 0 then (b'0' + n) ∷ [] else rest ++ ((b'0' + n % 10) ∷ [])

unfoldable pub decimal : ℕ → Text
decimal n = decimal_digits (n + 1) n

pub text_eq_self : (t : Text) → text_eq t t ≡ true
text_eq_self [] = refl
text_eq_self (c ∷ t) = ground (arith, text_eq_self t)
