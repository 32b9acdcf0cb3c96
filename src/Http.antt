-- ===== src/Http.antt =====
-- crates/adapter-core/src/http.rs: request heads, routing and query strings of the snapshot
-- server. Strings are their UTF-8 bytes, which the source cuts at ASCII characters only.
pub mod Query
pub mod Head
pub mod Exchange
mod Tests
use usb_camera_over_tailscal.Base.{
  ℕ, zero, suc, ◌+◌, ◌*◌, ◌-◌, Bool, true, false, not, ◌&&◌, ◌||◌, List, [], ◌∷◌, ◌++◌, map, Option,
  none, some, ltb, leb, ◌==◌, if◌then◌else◌, length, take,
}
use usb_camera_over_tailscal.Base.Text.{Text, chars, text_eq, split_once, nonempty, decimal}
use usb_camera_over_tailscal.Base.Utf8.{from_utf8, from_utf8_lossy}
use usb_camera_over_tailscal.Crypto.{Bytes}

pub record Request : Type 0 where
  pub method : Bytes
  pub target : Bytes

-- `MAX_HEAD`.
abbrev pub max_head : ℕ
max_head = 4096

-- The part of a text before the first byte that satisfies the test.
pub before : (ℕ → Bool) → Bytes → Bytes
before stop [] = []
before stop (b ∷ bs) = let rest = before stop bs in if stop b then [] else b ∷ rest

-- `Request::path`: up to `?` or `#`.
pub path : Request → Bytes
path r = before (λ b. (b == 0x3f) || (b == 0x23)) r.target

-- A digit of `from_str_radix` to the base 16.
pub hex_digit : ℕ → Option ℕ
hex_digit b =
    if leb 0x30 b && leb b 0x39
    then some (b - 0x30)
    else if leb 0x61 b && leb b 0x66
    then some (b - 0x61 + 10)
    else if leb 0x41 b && leb b 0x46
    then some (b - 0x41 + 10)
    else none

pub two_digits : Option ℕ → Option ℕ → Option ℕ
two_digits (some h) (some l) = some (16 * h + l)
two_digits none l = none
two_digits (some h) none = none

-- `u8::from_str_radix` of two bytes, which takes a sign `+` before the digits.
pub from_hex : ℕ → ℕ → Option ℕ
from_hex a b = if a == 0x2b then hex_digit b else two_digits (hex_digit a) (hex_digit b)

-- The byte that stands for itself, or for a space.
pub plain_byte : ℕ → ℕ
plain_byte b = if b == 0x2b then 0x20 else b

pub escaped_or : Option ℕ → Bytes → Bytes → Bytes
escaped_or none after next = 0x25 ∷ next
escaped_or (some v) after next = v ∷ after

-- The loop of `percent_decode`; an escape wants two bytes behind it.
pub decode_bytes : Bytes → Bytes
decode_bytes [] = []
decode_bytes (c ∷ []) = plain_byte c ∷ []
decode_bytes (c ∷ h ∷ []) = plain_byte c ∷ plain_byte h ∷ []
decode_bytes (c ∷ h ∷ l ∷ rest) =
    let after = decode_bytes rest in
    let next = decode_bytes (h ∷ l ∷ rest) in
    if c == 0x25 then escaped_or (from_hex h l) after next else plain_byte c ∷ next

-- `percent_decode`.
pub percent_decode : Bytes → Text
percent_decode s = from_utf8_lossy (decode_bytes s)

-- `head_len`: the place behind the first blank line.
pub find_crlf : ℕ → Bytes → Option ℕ
find_crlf i [] = none
find_crlf i (b ∷ bs) =
    let rest = find_crlf (i + 1) bs in
    if text_eq (take 4 (b ∷ bs)) (13 ∷ 10 ∷ 13 ∷ 10 ∷ []) then some (i + 4) else rest

pub find_lf : ℕ → Bytes → Option ℕ
find_lf i [] = none
find_lf i (b ∷ bs) =
    let rest = find_lf (i + 1) bs in
    if text_eq (take 2 (b ∷ bs)) (10 ∷ 10 ∷ []) then some (i + 2) else rest

pub or_try : Option ℕ → Option ℕ → Option ℕ
or_try none b = b
or_try (some n) b = some n

pub head_len : Bytes → Option ℕ
head_len buf = or_try (find_crlf 0 buf) (find_lf 0 buf)

pub data Route : Type 0 where
  snapshot : Bool → Route
  controls not_found method_not_allowed : Route

pub is_get : Bytes → Bool
is_get m = text_eq m (chars "GET")

pub is_head : Bytes → Bool
is_head m = text_eq m (chars "HEAD")

-- The match of `route`.
pub route_by : Bool → Bool → Bytes → Route
route_by is_snapshot is_controls m =
    if is_snapshot && is_get m
    then snapshot false
    else if is_snapshot && is_head m
    then snapshot true
    else if is_controls && (is_get m || is_head m)
    then controls
    else if not is_snapshot && not is_controls
    then not_found
    else method_not_allowed

pub route : Request → Route
route r =
    let p = path r in
    route_by
      (text_eq p (chars "/")
        || (text_eq p (chars "/snapshot.jpg") || text_eq p (chars "/index.html")))
      (text_eq p (chars "/controls")) r.method

-- `split` at a byte.
pub put_first : ℕ → List Bytes → List Bytes
put_first b [] = (b ∷ []) ∷ []
put_first b (p ∷ ps) = (b ∷ p) ∷ ps

pub split_at : ℕ → Bytes → List Bytes
split_at d [] = [] ∷ []
split_at d (b ∷ bs) = let rest = split_at d bs in if b == d then [] ∷ rest else put_first b rest

-- `Request::query`; the lossy conversion of what is decoded is left out.
pub parameter : Bytes → Bytes × Bytes
parameter p = elim (split_once b'=' p) [
  | none ↦ (percent_decode p, percent_decode [])
  | some (k, v) ↦ (percent_decode k, percent_decode v)
]

pub parameters : List Bytes → List (Bytes × Bytes)
parameters [] = []
parameters (p ∷ ps) = parameter p ∷ parameters ps

pub query : Request → List (Bytes × Bytes)
query r = elim (split_once b'?' r.target) [
  | none ↦ []
  | some (front, q) ↦ parameters (nonempty (split_at b'&' (before (λ b. b == b'#') q)))
]

-- `trim_end_matches('\r')`.
pub trim_returns : Bytes → Bytes
trim_returns [] = []
trim_returns (b ∷ bs) =
    let rest = trim_returns bs in if (b == 13) && text_eq rest [] then [] else b ∷ rest

pub is_uppercase : ℕ → Bool
is_uppercase b = leb b'A' b && leb b b'Z'

pub all_uppercase : Bytes → Bool
all_uppercase [] = true
all_uppercase (b ∷ bs) = is_uppercase b && all_uppercase bs

pub starts_with : Bytes → Bytes → Bool
starts_with mark bs = text_eq (take (length mark) bs) mark

-- The parts of the request line.
pub request_of : List Bytes → Option Request
request_of (method ∷ target ∷ version ∷ []) =
    if starts_with (chars "HTTP/1.") version
      && (all_uppercase method && starts_with (chars "/") target)
    then some (record { method = method; target = target })
    else none
request_of _ = none

-- `lines().next()`: a text without a line is empty.
pub first_line : Bytes → Option Bytes
first_line [] = none
first_line (b ∷ bs) = some (before (λ c. c == 10) (b ∷ bs))

pub parse_line : Option Bytes → Option Request
parse_line none = none
parse_line (some line) = request_of (nonempty (split_at 32 (trim_returns line)))

pub parse_request : Bytes → Option Request
parse_request head = elim (from_utf8 head) [
  | none ↦ none
  | some text ↦ parse_line (first_line head)
]

pub reason : ℕ → Bytes
reason status =
    if status == 200
    then chars "OK"
    else if status == 400
    then chars "Bad Request"
    else if status == 404
    then chars "Not Found"
    else if status == 405
    then chars "Method Not Allowed"
    else if status == 408
    then chars "Request Timeout"
    else if status == 431
    then chars "Request Header Fields Too Large"
    else if status == 503
    then chars "Service Unavailable"
    else if status == 504
    then chars "Gateway Timeout"
    else chars "Unknown"

pub allow_line : ℕ → Bytes
allow_line status = if status == 405 then chars "Allow: GET, HEAD\r\n" else []

pub response_head : ℕ → Bytes → ℕ → Bytes
response_head status content_type len =
    chars "HTTP/1.1 "
    ++ (decimal status
        ++ (32
            ∷ (reason status
                ++ (chars "\r\nContent-Type: "
                    ++ (content_type
                        ++ (chars "\r\nContent-Length: "
                            ++ (decimal len
                                ++ (chars "\r\nCache-Control: no-store\r\nConnection: close\r\n"
                                    ++ (allow_line status ++ chars "\r\n")))))))))

pub text_response : ℕ → Bytes → Bytes
text_response status body =
    response_head status (chars "text/plain; charset=utf-8") (length body + 1)
    ++ (body ++ (10 ∷ []))
