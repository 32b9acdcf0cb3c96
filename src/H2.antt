-- ===== src/H2.antt =====
-- crates/tsnode/src/h2.rs: the HTTP/2 client. Its constants and state; the children hold the
-- frames, the handler of received frames, and the requests.
pub mod Frame
pub mod Streams
pub mod Handle
mod Tests
use usb_camera_over_tailscal.Base.{
  ℕ, ◌+◌, ◌*◌, ◌/◌, ◌^◌, Bool, true, false, List, [], ◌∷◌, Option, none, some, Exec, ok, err, panic,
}
use usb_camera_over_tailscal.Base.Int.{ℤ, pos}

abbrev pub frame_data : ℕ
frame_data = 0

abbrev pub frame_headers : ℕ
frame_headers = 1

abbrev pub frame_priority : ℕ
frame_priority = 2

abbrev pub frame_rst_stream : ℕ
frame_rst_stream = 3

abbrev pub frame_settings : ℕ
frame_settings = 4

abbrev pub frame_push_promise : ℕ
frame_push_promise = 5

abbrev pub frame_ping : ℕ
frame_ping = 6

abbrev pub frame_goaway : ℕ
frame_goaway = 7

abbrev pub frame_window_update : ℕ
frame_window_update = 8

abbrev pub frame_continuation : ℕ
frame_continuation = 9

abbrev pub flag_end_stream : ℕ
flag_end_stream = 0x1

abbrev pub flag_ack : ℕ
flag_ack = 0x1

abbrev pub flag_end_headers : ℕ
flag_end_headers = 0x4

abbrev pub flag_padded : ℕ
flag_padded = 0x8

abbrev pub flag_priority : ℕ
flag_priority = 0x20

abbrev pub settings_initial_window_size : ℕ
settings_initial_window_size = 4

abbrev pub settings_max_frame_size : ℕ
settings_max_frame_size = 5

abbrev pub max_frame_size : ℕ
max_frame_size = 16384

abbrev pub max_header_block : ℕ
max_header_block = 64 * 1024

abbrev pub default_window : ℕ
default_window = 65535

abbrev pub our_window : ℕ
our_window = 256 * 1024

abbrev pub window_update_threshold : ℕ
window_update_threshold = our_window / 2

-- The kinds of `io::Error` that the client returns.
pub data IoError : Type 0 where
  invalid_data unexpected_eof timed_out not_found aborted broken_pipe : IoError
  connection_reset : ℕ → IoError

abbrev pub Bytes : Type 0
Bytes = List ℕ

pub record Stream : Type 0 where
  pub status : Option ℕ
  pub headers : List (Bytes × Bytes)
  pub header_block : Bytes
  pub headers_done : Bool
  pub body : Bytes
  pub end_stream : Bool
  pub reset : Option ℕ
  pub send_window : ℤ
  pub recv_consumed : ℕ

-- `Stream::default`.
abbrev pub default_stream : Stream
default_stream = record {
  status = none;
  headers = [];
  header_block = [];
  headers_done = false;
  body = [];
  end_stream = false;
  reset = none;
  send_window = pos 0;
  recv_consumed = 0;
}

-- The connection. `sent` is what was written to the transport, `writable` whether a write
-- succeeds, and `decoder` the state of the HPACK decoder.
pub record H2Conn (D : Type 0) : Type 0 where
  pub sent : Bytes
  pub writable : Bool
  pub inbuf : Bytes
  pub decoder : D
  pub next_stream_id : ℕ
  pub streams : List (ℕ × Stream)
  pub conn_send_window : ℤ
  pub conn_recv_consumed : ℕ
  pub peer_max_frame : ℕ
  pub peer_initial_window : ℕ
  pub goaway : Option (ℕ × Bytes)
