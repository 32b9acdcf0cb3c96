-- ===== src/Http/Exchange.antt =====
-- The request that the node's HTTP client writes, read by the snapshot server.
use usb_camera_over_tailscal.Base.{
  ℕ, ◌<◌, ◌≤◌, ◌≡◌, ◌≢◌, refl, sym, ap, ◌∙◌, Bool, true, false, ◌&&◌, List, [], ◌∷◌, ◌++◌,
  append_assoc, some, arith, lt→ltb, leb, ◌==◌, ne→==_false, ==_refl, any, length,
}
use usb_camera_over_tailscal.Base.Text.{chars, text_eq, nonempty}
use usb_camera_over_tailscal.Base.Utf8.{
  Reading, from_utf8, from_utf8_at, put_point, next_byte, lead_byte,
}
use usb_camera_over_tailscal.Base.Words.{All}
use usb_camera_over_tailscal.Crypto.{Bytes}
use usb_camera_over_tailscal.Http1.{request_text, header_text}
use usb_camera_over_tailscal.Http.{
  before, put_first, split_at, trim_returns, is_uppercase, all_uppercase, starts_with, request_of,
  first_line, parse_line, parse_request,
}

abbrev pub IsAscii : Bytes → Type 0
IsAscii bs = All (λ b. b < 128) bs

abbrev pub Without : ℕ → Bytes → Type 0
Without d bs = All (λ b. b ≢ d) bs

pub IsAscii-any : (bs : Bytes) → any (λ b. leb 128 b) bs ≡ false → IsAscii bs
IsAscii-any [] h = tt
IsAscii-any (b ∷ bs) h = (ground (arith, h), IsAscii-any bs (ground (arith, h)))

abbrev point : ℕ → Reading
point b = record { left = 0; low = 0; high = 0; bits = b }

next_byte-ascii : (n b : ℕ) → b < 128 → next_byte (point n) b ≡ some (point b)
unfolding next_byte lead_byte
next_byte-ascii n b h = rw (lt→ltb b 128 h) refl

from_utf8_at-ascii : (n : ℕ) (bs : Bytes) → IsAscii bs → from_utf8_at (point n) bs ≡ some bs
unfolding from_utf8_at put_point
from_utf8_at-ascii n [] h = refl
from_utf8_at-ascii n (b ∷ bs) (h, hs) =
    rw (from_utf8_at, next_byte-ascii n b h, from_utf8_at-ascii b bs hs) refl

from_utf8-ascii : (bs : Bytes) → IsAscii bs → from_utf8 bs ≡ some bs
unfolding from_utf8
from_utf8-ascii bs h = from_utf8_at-ascii 0 bs h

and_false : (b : Bool) → (b && false) ≡ false
and_false true = refl
and_false false = refl

before-stop :
    (d : ℕ) (xs rest : Bytes) → Without d xs → before (λ b. b == d) (xs ++ (d ∷ rest)) ≡ xs
unfolding before
before-stop d [] rest h = rw (==_refl d) refl
before-stop d (x ∷ xs) rest (h, hs) =
    rw (ne→==_false x d h) (ap (λ l. x ∷ l) (before-stop d xs rest hs))

split_at-word :
    (d : ℕ) (xs rest : Bytes) → Without d xs → split_at d (xs ++ (d ∷ rest)) ≡ xs ∷ split_at d rest
unfolding split_at put_first
split_at-word d [] rest h = rw (==_refl d) refl
split_at-word d (x ∷ xs) rest (h, hs) = rw (ne→==_false x d h, split_at-word d xs rest hs) refl

split_at-last : (d : ℕ) (xs : Bytes) → Without d xs → split_at d xs ≡ xs ∷ []
unfolding split_at put_first
split_at-last d [] h = refl
split_at-last d (x ∷ xs) (h, hs) = rw (ne→==_false x d h, split_at-last d xs hs) refl

-- Carriage returns are only cut off behind the last other byte.
trim_returns-append :
    (xs : Bytes) (b : ℕ) (ys tail : Bytes)
    → trim_returns tail ≡ b ∷ ys
    → trim_returns (xs ++ tail) ≡ xs ++ (b ∷ ys)
unfolding trim_returns
trim_returns-append [] b ys tail e = e
trim_returns-append (x ∷ []) b ys tail e = rw (e, and_false (x == 13)) refl
trim_returns-append (x ∷ z ∷ xs) b ys tail e =
    rw (trim_returns-append (z ∷ xs) b ys tail e, and_false (x == 13)) refl

and_split : (a b : Bool) → (a && b) ≡ true → (a ≡ true) × (b ≡ true)
and_split true b h = (refl, h)
and_split false b h = absurd (cc h)

Without-uppercase :
    (d : ℕ) (m : Bytes) → is_uppercase d ≡ false → all_uppercase m ≡ true → Without d m
unfolding all_uppercase
Without-uppercase d [] other h = tt
Without-uppercase d (x ∷ m) other h =
    let (here, there) = and_split (is_uppercase x) (all_uppercase m) h in
    ((λ e. cc (here, other, ap is_uppercase e)), Without-uppercase d m other there)

Without-append : (d : ℕ) (xs ys : Bytes) → Without d xs → Without d ys → Without d (xs ++ ys)
Without-append d [] ys h k = k
Without-append d (x ∷ xs) ys (h, hs) k = (h, Without-append d xs ys hs k)

pub Without-any : (d : ℕ) (xs : Bytes) → any (λ b. b == d) xs ≡ false → Without d xs
Without-any d [] h = tt
Without-any d (x ∷ xs) h = (ground (arith, h), Without-any d xs (ground (arith, h)))

first_line-line :
    (line rest : Bytes) → Without 10 line → first_line (line ++ (10 ∷ rest)) ≡ some line
unfolding first_line
first_line-line [] rest h = ap some (before-stop 10 [] rest h)
first_line-line (x ∷ line) rest h = ap some (before-stop 10 (x ∷ line) rest h)

not_empty : (w : Bytes) → 1 ≤ length w → text_eq w [] ≡ false
not_empty [] h = absurd (omega arith)
not_empty (x ∷ w) h = refl

-- What the words of a request line are like.
pub record IsRequest (method path : Bytes) : Type 0 where
  pub some_method : 1 ≤ length method
  pub verb : all_uppercase method ≡ true
  pub some_path : 1 ≤ length path
  pub absolute : starts_with (chars "/") path ≡ true
  pub one_word : Without 32 path
  pub one_line : Without 10 path

abbrev words_of : Bytes → Bytes → Bytes → Bytes
words_of method path version = method ++ (32 ∷ (path ++ (32 ∷ version)))

parse_line-words :
    (method path : Bytes)
    → IsRequest method path
    → parse_line (some (words_of method path (chars "HTTP/1.1\r")))
      ≡ some (record { method = method; target = path })
unfolding parse_line request_of starts_with nonempty is_uppercase trim_returns
parse_line-words method path r =
    let regroup : words_of method path (chars "HTTP/1.1\r")
        ≡ (method ++ (32 ∷ path)) ++ chars " HTTP/1.1\r" =
      sym (append_assoc method (32 ∷ path) (chars " HTTP/1.1\r")) in
    let trimmed : trim_returns (words_of method path (chars "HTTP/1.1\r"))
        ≡ words_of method path (chars "HTTP/1.1") =
      ap trim_returns regroup
      ∙ trim_returns-append (method ++ (32 ∷ path)) 32 (chars "HTTP/1.1") (chars " HTTP/1.1\r") refl
      ∙ append_assoc method (32 ∷ path) (chars " HTTP/1.1") in
    let cut : split_at 32 (words_of method path (chars "HTTP/1.1"))
        ≡ method ∷ path ∷ chars "HTTP/1.1" ∷ [] =
      split_at-word 32 method (path ++ chars " HTTP/1.1") (Without-uppercase 32 method refl r.verb)
      ∙ ap (λ l. method ∷ l) (split_at-word 32 path (chars "HTTP/1.1") r.one_word)
      ∙ ap (λ l. method ∷ path ∷ l)
          (split_at-last 32 (chars "HTTP/1.1") (Without-any 32 (chars "HTTP/1.1") refl)) in
    ap (λ t. request_of (nonempty (split_at 32 t))) trimmed
    ∙ ap (λ l. request_of (nonempty l)) cut
    ∙ rw (not_empty method r.some_method, not_empty path r.some_path, r.verb, r.absolute) refl

-- What stands behind the first line of the client's request.
abbrev fields : Bytes → List (Bytes × Bytes) → Bytes
fields host extra =
    chars "Host: "
    ++ (host ++ (chars "\r\nUser-Agent: tsnode/0.1\r\n" ++ (header_text extra ++ chars "\r\n")))

request_text-line :
    (method path host : Bytes) (extra : List (Bytes × Bytes))
    → request_text method path host extra
      ≡ words_of method path (chars "HTTP/1.1\r") ++ (10 ∷ fields host extra)
unfolding request_text
request_text-line method path host extra = sym (
    append_assoc method (32 ∷ (path ++ chars " HTTP/1.1\r")) (10 ∷ fields host extra)
    ∙ ap (λ l. method ++ (32 ∷ l))
        (append_assoc path (chars " HTTP/1.1\r") (10 ∷ fields host extra)))

-- The server reads the method and the path out of a request that the client wrote, if the request is
-- ASCII, the method is of uppercase letters, and the path begins with a slash and has no space and no
-- line end.
pub parse_request-request_text :
    (method path host : Bytes) (extra : List (Bytes × Bytes))
    → IsRequest method path
    → IsAscii (request_text method path host extra)
    → parse_request (request_text method path host extra)
      ≡ some (record { method = method; target = path })
unfolding parse_request is_uppercase
parse_request-request_text method path host extra r ascii =
    let line = words_of method path (chars "HTTP/1.1\r") in
    let plain : Without 10 line =
      Without-append 10 method (32 ∷ (path ++ chars " HTTP/1.1\r"))
        (Without-uppercase 10 method refl r.verb)
        (
          (λ e. absurd (omega (arith, e))),
          Without-append 10 path (chars " HTTP/1.1\r") r.one_line
              (Without-any 10 (chars " HTTP/1.1\r") refl),
        ) in
    rw (parse_request, from_utf8-ascii (request_text method path host extra) ascii)
      (ap (λ t. parse_line (first_line t)) (request_text-line method path host extra)
        ∙ ap parse_line (first_line-line line (fields host extra) plain)
        ∙ parse_line-words method path r)
