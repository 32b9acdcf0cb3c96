-- ===== src/Http1/Tests.antt =====
-- Responses as servers send them.
use usb_camera_over_tailscal.Base.{◌≡◌, refl, [], ◌∷◌, ◌++◌, ok, panic, arith}
use usb_camera_over_tailscal.Base.Text.{
  chars, trim_start, trim, is_whitespace, words, pieces, nonempty, add_char, parse_hex, hex_digits,
  hex_value, parse_digits, parse_unsigned, split_once,
}
use usb_camera_over_tailscal.Base.Utf8.{from_utf8, from_utf8_at, put_point, next_byte, lead_byte}
use usb_camera_over_tailscal.Net.{got}
use usb_camera_over_tailscal.Http1.{
  find_mark, find_head_end, fill_head, put_char, lines, status_of, header_lines, behind_first,
  read_response_head, chunk_size, before_semicolon, or_no_text, dechunk,
}
use usb_camera_over_tailscal.Http1.Chunks.{Chunk, IsChunk, chunked, dechunk-cut}

read_response_head_test :
    read_response_head (got (chars "HTTP/1.1 200 OK\r\nA: b \r\n") ∷ got (chars "\r\nxy") ∷ [])
    ≡ ok (record { status = 200; headers = (chars "A", chars "b") ∷ []; leftover = chars "xy" }, [])
unfolding read_response_head fill_head find_head_end find_mark from_utf8 from_utf8_at put_point
    next_byte lead_byte status_of lines put_char words pieces nonempty add_char is_whitespace
    parse_unsigned parse_digits header_lines behind_first split_once trim trim_start
read_response_head_test = refl

abbrev hello : Chunk
hello = record { line = chars "5;x=y"; bytes = chars "hello" }

hello-IsChunk : IsChunk hello
unfolding chunk_size before_semicolon or_no_text from_utf8 from_utf8_at put_point next_byte
    lead_byte trim trim_start is_whitespace parse_hex hex_digits hex_value
hello-IsChunk = record {
  plain = (omega arith, (omega arith, (omega arith, (omega arith, (omega arith, tt)))));
  size = refl;
  some_bytes = omega arith;
}

dechunk-cut_example :
    dechunk (chunked (hello ∷ []) ++ (chars "5;x=y" ++ (13 ∷ 10 ∷ (chars "hello" ++ chars "\r"))))
    ≡ panic
dechunk-cut_example =
    dechunk-cut (hello ∷ []) hello (chars "\r") (hello-IsChunk, tt) hello-IsChunk (omega arith)
      (omega arith)
