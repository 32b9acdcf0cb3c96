-- ===== src/H2/Tests.antt =====
-- Frames handled on a concrete connection, with a decoder that yields one status line.
use usb_camera_over_tailscal.Base.{
  ◌≡◌, refl, true, false, List, [], ◌∷◌, ◌++◌, none, some, arith, ok, Exec,
}
use Prim.Native.String.{String}
use mathlib.Core.Option
use usb_camera_over_tailscal.Base.Int.{pos}
use usb_camera_over_tailscal.Base.Text.{chars, parse_unsigned}
use usb_camera_over_tailscal.H2.{Bytes, Stream, default_stream, H2Conn}
use usb_camera_over_tailscal.H2.Frame.{
  Frame, frame_of, take_frame, take_frame-frame_bytes, strip_padding,
}
use usb_camera_over_tailscal.H2.Streams.{lookup, modify, modify_or_default}
use usb_camera_over_tailscal.H2.Handle.{
  handle_frame, handle_headers, handle_block, finish_headers, finish_stream, finish_decoded,
  apply_header, apply_headers, on_ok, headers_block, skip_priority, decoded_as, put_headers,
}
use usb_camera_over_tailscal.H2.Handle.Safe.{IsConn, Handled, handle_frame-Handled}
use usb_camera_over_tailscal.H2.Handle.Isolated.{handle_frame-Same}

abbrev status_line : String → Bytes × Bytes
status_line code = (chars ":status", chars code)

-- A decoder whose state is the status line of the next block.
abbrev decode : Bytes × Bytes → Bytes → (Bytes × Bytes) × Exec (Unit {0}) (List (Bytes × Bytes))
decode d block = (d, ok (d ∷ []))

abbrev fresh : String → H2Conn (Bytes × Bytes)
fresh code = record {
  sent = [];
  writable = true;
  inbuf = [];
  decoder = status_line code;
  next_stream_id = 5;
  streams = (1, default_stream) ∷ (3, default_stream) ∷ [];
  conn_send_window = pos 65535;
  conn_recv_consumed = 131071;
  peer_max_frame = 16384;
  peer_initial_window = 65535;
  goaway = none;
}

fresh-IsConn : IsConn (fresh "200")
fresh-IsConn = omega arith

abbrev hello : Frame
hello = record { typ = 0; flags = 1; sid = 3; payload = 104 ∷ 105 ∷ [] }

take_frame-frame_bytes_example : take_frame (frame_of hello ++ (7 ∷ [])) ≡ ok (some (hello, 7 ∷ []))
take_frame-frame_bytes_example =
    take_frame-frame_bytes hello (7 ∷ []) (record { small = omega arith; stream = omega arith })

handle_frame-Handled_example :
    Handled (handle_frame false decode 1 4 3 (104 ∷ 105 ∷ []) (fresh "200"))
handle_frame-Handled_example =
    handle_frame-Handled false decode (λ e d block. tt) 1 4 3 (104 ∷ 105 ∷ []) (fresh "200")
      fresh-IsConn

handle_frame-Same_example :
    lookup 1 (handle_frame false decode 3 0 3 (0 ∷ 0 ∷ 0 ∷ 8 ∷ []) (fresh "200")).0.streams
    ≡ lookup 1 (fresh "200").streams
handle_frame-Same_example =
    handle_frame-Same false decode 1 3 (omega arith) 3 0 (0 ∷ 0 ∷ 0 ∷ 8 ∷ []) (fresh "200")
      (omega arith)

-- A HEADERS frame that ends its headers leaves the status of the decoded block.
headers_status :
    Option.map
      (λ (s : Stream). s.status)
      (lookup 3 (handle_frame false decode 1 4 3 (1 ∷ 2 ∷ []) (fresh "204")).0.streams)
    ≡ some (some 204)
unfolding handle_frame on_ok headers_block skip_priority decoded_as put_headers handle_headers
    handle_block finish_headers finish_stream finish_decoded apply_headers apply_header
    parse_unsigned lookup strip_padding modify modify_or_default
headers_status = refl
