-- ===== src/Http1.antt =====
-- crates/tsnode/src/http1.rs: HTTP/1.1 heads and bodies. A stream is the list of what its reads will give.
pub mod Chunks
mod Tests
use usb_camera_over_tailscal.Base.{
  ℕ, zero, suc, ◌+◌, ◌-◌, ◌*◌, ◌%◌, ◌^◌, Bool, true, false, ◌&&◌, List, [], ◌∷◌, ◌++◌, Option, none,
  some, ltb, leb, ◌==◌, if◌then◌else◌, length, take, drop, get_elem?, Exec, ok, err, panic, ◌>>=◌,
  fail_if, try, slice, slice_from,
}
use usb_camera_over_tailscal.Base.Text.{
  Text, chars, text_eq, trim, words, split_once, parse_unsigned, parse_hex, same_ignoring_case,
}
use usb_camera_over_tailscal.Base.Utf8.{from_utf8}
use usb_camera_over_tailscal.Crypto.{Bytes}
use usb_camera_over_tailscal.Net.{
  ErrorKind, unexpected_eof, invalid_data, Read, got, failing, Conn, write_all,
}

pub record ResponseHead : Type 0 where
  pub status : ℕ
  pub headers : List (Text × Text)
  pub leftover : Bytes

pub find_header : Text → List (Text × Text) → Option Text
find_header name [] = none
find_header name ((k, v) ∷ hs) =
    let rest = find_header name hs in if same_ignoring_case k name then some v else rest

-- `ResponseHead::header`.
pub header : Text → ResponseHead → Option Text
header name head = find_header name head.headers

-- `windows(n).position(|w| w == mark)`, for a mark of n bytes.
pub find_mark : Bytes → ℕ → Bytes → Option ℕ
find_mark mark i [] = none
find_mark mark i (b ∷ bs) =
    let rest = find_mark mark (i + 1) bs in
    if text_eq (take (length mark) (b ∷ bs)) mark then some i else rest

pub find_head_end : Bytes → Option ℕ
find_head_end buf = find_mark (13 ∷ 10 ∷ 13 ∷ 10 ∷ []) 0 buf

abbrev pub max_head : ℕ
max_head = 16 * 1024

-- The loop that reads up to the blank line: what was read, and where the head ends.
pub fill_head : Bytes → List Read → Exec ErrorKind ((Bytes × ℕ) × List Read)
fill_head buf [] = err unexpected_eof
fill_head buf (failing e ∷ reads) = err e
fill_head buf (got [] ∷ reads) = err unexpected_eof
fill_head buf (got (b ∷ bs) ∷ reads) =
    let all = buf ++ (b ∷ bs) in
    let rest = fill_head all reads in
    elim (find_head_end all) [
      | some at ↦ ok ((all, at), reads)
      | none ↦ if ltb max_head (length all) then err invalid_data else rest
    ]

-- `split("\r\n")`.
pub put_char : ℕ → List Text → List Text
put_char c [] = (c ∷ []) ∷ []
put_char c (l ∷ ls) = (c ∷ l) ∷ ls

pub lines : Text → List Text
lines [] = [] ∷ []
lines (c ∷ []) = (c ∷ []) ∷ []
lines (c ∷ d ∷ s) =
    let behind = lines s in
    let rest = lines (d ∷ s) in if (c == 13) && (d == 10) then [] ∷ behind else put_char c rest

-- The second word of the status line.
pub status_of : List Text → Exec ErrorKind ℕ
status_of [] = err invalid_data
status_of (line ∷ lines) = do
  word ← try invalid_data (get_elem? (words line) 1)
  try invalid_data (parse_unsigned 65535 word)

pub header_lines : List Text → List (Text × Text)
header_lines [] = []
header_lines (l ∷ ls) =
    let rest = header_lines ls in
    elim (split_once b':' l) [ none ↦ rest | some (k, v) ↦ (trim k, trim v) ∷ rest ]

pub behind_first : List Text → List Text
behind_first [] = []
behind_first (l ∷ ls) = ls

-- `read_response_head`.
pub read_response_head : List Read → Exec ErrorKind (ResponseHead × List Read)
read_response_head reads = do
  ((buf, at), rest) ← fill_head [] reads
  raw ← slice buf 0 at
  text ← try invalid_data (from_utf8 raw)
  status ← status_of (lines text)
  leftover ← slice_from buf (at + 4)
  ok (
    record {
      status = status;
      headers = header_lines (behind_first (lines text));
      leftover = leftover;
    },
    rest,
  )

-- The loop that fills a body of known length; a stream that ends early leaves it short.
pub fill_body : ℕ → Bytes → List Read → Exec ErrorKind (Bytes × List Read)
fill_body len body [] = ok (take len body, [])
fill_body len body (r ∷ reads) =
    if ltb (length body) len
    then elim r [
      | failing e ↦ err e
      | got bs ↦ elim bs [
        | [] ↦ ok (take len body, reads)
        | b ∷ more ↦ fill_body len (body ++ (b ∷ more)) reads
      ]
    ]
    else ok (take len body, r ∷ reads)

-- The loop that reads up to the end of the stream, or up to the mark of the last chunk.
pub ends_with : Bytes → Bytes → Bool
ends_with mark bs = text_eq (drop (length bs - length mark) bs) mark

pub is_last : Bool → Bytes → Bool
is_last chunked body = chunked && ends_with (chars "0\r\n\r\n") body

pub fill_all : Bool → ℕ → Bytes → List Read → Exec ErrorKind (Bytes × List Read)
fill_all chunked max body [] = ok (body, [])
fill_all chunked max body (failing e ∷ reads) = err e
fill_all chunked max body (got [] ∷ reads) = ok (body, reads)
fill_all chunked max body (got (b ∷ bs) ∷ reads) =
    let all = body ++ (b ∷ bs) in
    let rest = fill_all chunked max all reads in
    if ltb max (length all)
    then err invalid_data
    else if is_last chunked all
    then ok (all, reads)
    else rest

pub before_semicolon : Text → Text
before_semicolon [] = []
before_semicolon (c ∷ s) = let rest = before_semicolon s in if c == b';' then [] else c ∷ rest

pub or_no_text : Option Text → Text
or_no_text none = []
or_no_text (some t) = t

-- The size in the line of a chunk.
pub chunk_size : Bytes → Option ℕ
chunk_size line = parse_hex (2 ^ 32 - 1) (trim (before_semicolon (or_no_text (from_utf8 line))))

-- The rest of a turn of the loop of `dechunk`, where `go` is the loop. The target's addresses have 32
-- bits, and the sum of a position and a size wraps.
pub take_chunk : (ℕ → Bytes → Exec ErrorKind Bytes) → Bytes → ℕ → ℕ → Bytes → Exec ErrorKind Bytes
take_chunk go raw pos size out =
    if size == 0
    then ok out
    else if ltb (length raw) ((pos + size) % 2 ^ 32)
    then err invalid_data
    else slice raw pos ((pos + size) % 2 ^ 32) >>= λ bytes.
        go ((pos + size + 2) % 2 ^ 32) (out ++ bytes)

-- The loop of `dechunk`, on fuel.
pub dechunk_from : ℕ → Bytes → ℕ → Bytes → Exec ErrorKind Bytes
dechunk_from zero raw pos out = err invalid_data
dechunk_from (suc fuel) raw pos out = do
  rest ← slice_from raw pos
  at ← try invalid_data (find_mark (13 ∷ 10 ∷ []) 0 rest)
  line ← slice raw pos (pos + at)
  size ← try invalid_data (chunk_size line)
  take_chunk (λ p o. dechunk_from fuel raw p o) raw (pos + at + 2) size out

-- `dechunk`: every turn but the last passes a line and its end.
pub dechunk : Bytes → Exec ErrorKind Bytes
dechunk raw = dechunk_from (length raw + 1) raw 0 []

pub is_chunked : Option Text → Bool
is_chunked none = false
is_chunked (some v) = same_ignoring_case v (chars "chunked")

pub sized_body : ℕ → ℕ → Bytes → List Read → Exec ErrorKind (Bytes × List Read)
sized_body max len body reads = if ltb max len then err invalid_data else fill_body len body reads

pub chunked_body : ℕ → Bytes → List Read → Exec ErrorKind (Bytes × List Read)
chunked_body max body reads = do
  (raw, rest) ← fill_all true max body reads
  bytes ← dechunk raw
  ok (bytes, rest)

pub number_of : Option Text → Option ℕ
number_of none = none
number_of (some v) = parse_unsigned (2 ^ 32 - 1) v

-- `read_body`.
pub read_body : ResponseHead → ℕ → List Read → Exec ErrorKind (Bytes × List Read)
read_body head max reads = elim (number_of (header (chars "content-length") head)) [
  | some len ↦ sized_body max len head.leftover reads
  | none ↦
      if is_chunked (header (chars "transfer-encoding") head)
      then chunked_body max head.leftover reads
      else fill_all false max head.leftover reads
]

unfoldable pub header_text : List (Bytes × Bytes) → Bytes
header_text [] = []
header_text ((k, v) ∷ hs) = k ++ (chars ": " ++ (v ++ (chars "\r\n" ++ header_text hs)))

-- The bytes of `write_request`.
unfoldable pub request_text : Bytes → Bytes → Bytes → List (Bytes × Bytes) → Bytes
request_text method path host extra =
    method
    ++ (32
        ∷ (path
            ++ (chars " HTTP/1.1\r\nHost: "
                ++ (host
                    ++ (chars "\r\nUser-Agent: tsnode/0.1\r\n"
                        ++ (header_text extra ++ chars "\r\n"))))))

pub write_request : Bytes → Bytes → Bytes → List (Bytes × Bytes) → Conn → Exec ErrorKind Conn
write_request method path host extra c = write_all (request_text method path host extra) c

pub get : Bytes → Bytes → List Read → Conn → Exec ErrorKind ((ℕ × Bytes) × (List Read × Conn))
get host path reads w = do
  written ←
      write_request (chars "GET") path host
        ((chars "Connection", chars "close") ∷ (chars "Accept", chars "*/*") ∷ []) w
  (head, rest) ← read_response_head reads
  (body, behind) ← read_body head (256 * 1024) rest
  ok ((head.status, body), (behind, written))
