-- ===== src/Http/Tests.antt =====
-- Heads, escapes and routes that the source's tests try.
use usb_camera_over_tailscal.Base.{◌≤◌, ◌≡◌, refl, [], ◌∷◌, ◌++◌, true, some, arith, length}
use usb_camera_over_tailscal.Base.Text.{chars, split_once, nonempty}
use usb_camera_over_tailscal.Crypto.{Bytes}
use usb_camera_over_tailscal.Http.{
  path, before, hex_digit, decode_bytes, percent_decode, from_hex, two_digits, escaped_or,
  find_crlf, or_try, head_len, route, route_by, is_get, is_head, snapshot,
}
use usb_camera_over_tailscal.Http1.{request_text, header_text}
use usb_camera_over_tailscal.Http.{
  parse_request, query, parameters, parameter, split_at, put_first, plain_byte, all_uppercase,
  is_uppercase, starts_with,
}
use usb_camera_over_tailscal.Http.Exchange.{
  IsRequest, IsAscii-any, Without-any, parse_request-request_text,
}
use usb_camera_over_tailscal.Http.Query.{percent_encode, percent_decode-percent_encode}
use usb_camera_over_tailscal.Base.Utf8.{
  from_utf8, from_utf8_at, put_point, from_utf8_lossy, lossy_at, next_byte, lead_byte,
}
use usb_camera_over_tailscal.Http.Head.{head_len-bound}

abbrev head : Bytes
head = chars "GET /" ++ (13 ∷ 10 ∷ 13 ∷ 10 ∷ 0x62 ∷ [])

head_len-bound_example : 9 ≤ length head
unfolding head_len find_crlf or_try
head_len-bound_example = head_len-bound head 9 refl

percent_decode-percent_encode_example :
    percent_decode (percent_encode (0x41 ∷ 0xc3 ∷ 0xa4 ∷ [])) ≡ 0x41 ∷ 0xe4 ∷ []
unfolding from_utf8 from_utf8_at put_point next_byte lead_byte
percent_decode-percent_encode_example =
    percent_decode-percent_encode (0x41 ∷ 0xc3 ∷ 0xa4 ∷ []) (0x41 ∷ 0xe4 ∷ [])
      (omega arith, (omega arith, (omega arith, tt))) refl

-- A byte that is not UTF-8 decodes to the replacement character.
replacement_test : percent_decode (chars "%ff") ≡ 0xfffd ∷ []
unfolding percent_decode decode_bytes from_hex two_digits escaped_or hex_digit from_utf8_lossy
    lossy_at next_byte lead_byte
replacement_test = refl

route_test :
    route (record { method = chars "HEAD"; target = chars "/snapshot.jpg?t=1" }) ≡ snapshot true
unfolding route route_by path before is_get is_head
route_test = refl

abbrev snapshot_path : Bytes
snapshot_path = chars "/?zoom=2"

snapshot-IsRequest : IsRequest (chars "GET") snapshot_path
unfolding all_uppercase is_uppercase starts_with
snapshot-IsRequest = record {
  some_method = omega arith;
  verb = refl;
  some_path = omega arith;
  absolute = refl;
  one_word = Without-any 32 snapshot_path refl;
  one_line = Without-any 10 snapshot_path refl;
}

parse_request-request_text_example :
    parse_request (request_text (chars "GET") snapshot_path (chars "cam") [])
    ≡ some (record { method = chars "GET"; target = snapshot_path })
unfolding request_text header_text
parse_request-request_text_example =
    parse_request-request_text (chars "GET") snapshot_path (chars "cam") [] snapshot-IsRequest
      (IsAscii-any (request_text (chars "GET") snapshot_path (chars "cam") []) refl)

query_test :
    query (record { method = chars "GET"; target = chars "/?zoom=2&&t#x" })
    ≡ (chars "zoom", chars "2") ∷ (chars "t", []) ∷ []
unfolding query parameters parameter split_at put_first split_once nonempty before decode_bytes
    plain_byte hex_digit percent_decode from_utf8_lossy lossy_at next_byte lead_byte
query_test = refl
