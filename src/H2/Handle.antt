-- ===== src/H2/Handle.antt =====
-- `handle_frame` with `finish_headers` and `maybe_window_update`: what a received frame does to
-- the connection. A function returns the new connection and the outcome; writes append to what
-- was sent, or fail if the transport does. The HPACK decoder is a parameter, which may fail or
-- panic; `unwinds` says whether the target unwinds, so that `catch_unwind` turns its panic into an
-- error. Machine integers wrap around, as in a release build. Header fields are kept as bytes.
pub mod Reads
pub mod Safe
pub mod Isolated
use usb_camera_over_tailscal.Base.{
  ℕ, zero, suc, ◌+◌, ◌-◌, ◌*◌, ◌/◌, ◌%◌, ◌^◌, Bool, true, false, not, ◌&&◌, ◌||◌, List, [], ◌∷◌,
  ◌++◌, Option, none, some, ltb, leb, ◌==◌, if◌then◌else◌, length, take, drop, get_or, bit_and, min,
  max, Exec, ok, err, panic, ◌>>=◌, ◌>>◌, fail_if, index, slice_from,
}
use usb_camera_over_tailscal.Base.Int.{ℤ, pos, ◌+ℤ◌, ◌-ℤ◌, wrap_i64}
use usb_camera_over_tailscal.Base.Text.{text_eq, chars, parse_unsigned}
use usb_camera_over_tailscal.Base.Words.{u16_from_be, u32_from_be, u32_to_be}
use usb_camera_over_tailscal.H2.{
  Bytes, IoError, invalid_data, broken_pipe, Stream, default_stream, H2Conn, frame_data,
  frame_headers, frame_priority, frame_rst_stream, frame_settings, frame_push_promise, frame_ping,
  frame_goaway, frame_window_update, frame_continuation, flag_end_stream, flag_ack,
  flag_end_headers, flag_padded, flag_priority, settings_initial_window_size,
  settings_max_frame_size, max_header_block, window_update_threshold,
}
use usb_camera_over_tailscal.H2.Frame.{frame_bytes, strip_padding}
use usb_camera_over_tailscal.H2.Streams.{Streams, lookup, modify, modify_or_default, modify_all}

-- `flags & flag != 0`.
abbrev pub has : ℕ → ℕ → Bool
has flags flag = not (bit_and flags flag == 0)

-- `u32::from_be_bytes` of the four bytes from `i` on.
unfoldable pub u32_at : Bytes → ℕ → Exec IoError ℕ
u32_at p i = do
  a ← index p i
  b ← index p (i + 1)
  c ← index p (i + 2)
  d ← index p (i + 3)
  ok (u32_from_be a b c d)

-- The code of a RST_STREAM frame.
unfoldable pub reset_code : Bytes → Exec IoError ℕ
reset_code payload = if leb 4 (length payload) then u32_at payload 0 else ok 0

-- The code and the debug data of a GOAWAY frame.
unfoldable pub goaway_code : Bytes → Exec IoError ℕ
goaway_code payload = if leb 8 (length payload) then u32_at payload 4 else ok 0

unfoldable pub goaway_debug : Bytes → Exec IoError Bytes
goaway_debug payload = if ltb 8 (length payload) then slice_from payload 8 else ok []

unfoldable pub goaway_of : Bytes → Exec IoError (ℕ × Bytes)
goaway_of payload = do code ← goaway_code payload; debug ← goaway_debug payload; ok (code, debug)

unfoldable pub skip_priority : Bool → Bytes → Exec IoError Bytes
skip_priority false block = ok block
skip_priority true block = do fail_if (ltb (length block) 5) invalid_data; slice_from block 5

-- The header block of a HEADERS frame, behind its padding and its priority.
unfoldable pub headers_block : ℕ → Bytes → Exec IoError Bytes
headers_block flags payload = do
  block ← strip_padding payload (has flags flag_padded)
  skip_priority (has flags flag_priority) block

-- What `finish_headers` makes of the outcome of the decoder.
unfoldable pub decoded_as :
    Bool → Exec (Unit {0}) (List (Bytes × Bytes)) → Exec IoError (List (Bytes × Bytes))
decoded_as unwinds (ok hs) = ok hs
decoded_as unwinds (err e) = err invalid_data
decoded_as unwinds panic = if unwinds then err invalid_data else panic

abbrev pub is_none : Option ℕ → Bool
is_none none = true
is_none (some c) = false

-- One decoded header field.
unfoldable pub apply_header : Stream → Bytes × Bytes → Stream
apply_header s (k, v) =
    if text_eq k (chars ":status")
    then elim (parse_unsigned 65535 v) [
      | some code ↦ if leb 200 code || is_none s.status then record s { status = some code } else s
      | none ↦ s
    ]
    else record s { headers = s.headers ++ ((k, v) ∷ []) }

unfoldable pub apply_headers : Stream → List (Bytes × Bytes) → Stream
apply_headers s [] = s
apply_headers s (h ∷ hs) = apply_headers (apply_header s h) hs

-- The changes of a stream.
abbrev pub take_block : Stream → Stream
take_block s = record s { header_block = [] }

abbrev pub add_block : Bytes → Bool → Stream → Stream
add_block block ends s = record s {
  header_block = s.header_block ++ block;
  end_stream = if ends then true else s.end_stream;
}

abbrev pub add_data : Bytes → Bool → ℕ → Stream → Stream
add_data bytes ends len s = record s {
  body = s.body ++ bytes;
  end_stream = if ends then true else s.end_stream;
  recv_consumed = (s.recv_consumed + len) % 2 ^ 32;
}

abbrev pub Outcome : Type 0 → Type 0
Outcome D = H2Conn D × Exec IoError (Unit {0})

module _ {D : Type 0} where
  -- `?` on a value that is computed without a change of the connection.
  unfoldable pub on_ok : {A : Type 0} → Exec IoError A → H2Conn D → (A → Outcome D) → Outcome D
  on_ok (ok a) c f = f a
  on_ok (err e) c f = (c, err e)
  on_ok panic c f = (c, panic)

  -- `write_all` and `flush`.
  unfoldable pub write : Bytes → H2Conn D → Outcome D
  write bytes c =
      if c.writable then (record c { sent = c.sent ++ bytes }, ok tt) else (c, err broken_pipe)

  -- The two halves of `maybe_window_update`: the frame to send, and the connection behind it.
  unfoldable pub conn_update : H2Conn D → Bytes × H2Conn D
  conn_update c =
      if leb window_update_threshold c.conn_recv_consumed
      then (
        frame_bytes frame_window_update 0 0 (u32_to_be c.conn_recv_consumed),
        record c { conn_recv_consumed = 0 },
      )
      else ([], c)

  unfoldable pub stream_update : ℕ → Option Stream → H2Conn D → Bytes × H2Conn D
  stream_update sid none c = ([], c)
  stream_update sid (some s) c =
      if leb window_update_threshold s.recv_consumed && not s.end_stream
      then (
        frame_bytes frame_window_update 0 sid (u32_to_be s.recv_consumed),
        record c { streams = modify sid (λ t. record t { recv_consumed = 0 }) c.streams },
      )
      else ([], c)

  unfoldable pub write_some : Bytes → H2Conn D → Outcome D
  write_some [] c = (c, ok tt)
  write_some (b ∷ bs) c = write (b ∷ bs) c

  unfoldable pub maybe_window_update : ℕ → H2Conn D → Outcome D
  maybe_window_update sid c =
      let (first, c') = conn_update c in
      let (second, c'') = stream_update sid (lookup sid c'.streams) c' in
      write_some (first ++ second) c''

  -- One setting of a SETTINGS frame.
  unfoldable pub apply_setting : ℕ → ℕ → H2Conn D → H2Conn D
  apply_setting id val c =
      if id == settings_max_frame_size
      then record c { peer_max_frame = min (max val 16384) (2 ^ 24) }
      else if id == settings_initial_window_size
      then record c {
        streams =
            modify_all
              (λ s. record s {
                send_window = wrap_i64 (s.send_window +ℤ (pos val -ℤ pos c.peer_initial_window));
              })
              c.streams;
        peer_initial_window = val;
      }
      else c

  -- `payload.as_chunks::<6>().0`: the settings, six bytes each; a shorter rest is dropped.
  unfoldable pub apply_settings : Bytes → H2Conn D → H2Conn D
  apply_settings (i ∷ j ∷ p ∷ q ∷ r ∷ s ∷ rest) c =
      apply_settings rest (apply_setting (u16_from_be i j) (u32_from_be p q r s) c)
  apply_settings _ c = c

  unfoldable pub handle_settings : ℕ → Bytes → H2Conn D → Outcome D
  handle_settings flags payload c =
      if has flags flag_ack
      then (c, ok tt)
      else write (frame_bytes frame_settings flag_ack 0 []) (apply_settings payload c)

  unfoldable pub handle_ping : ℕ → Bytes → H2Conn D → Outcome D
  handle_ping flags payload c =
      if has flags flag_ack then (c, ok tt) else write (frame_bytes frame_ping flag_ack 0 payload) c

  unfoldable pub handle_data : ℕ → ℕ → Bytes → H2Conn D → Outcome D
  handle_data flags sid payload c = on_ok (strip_padding payload (has flags flag_padded)) c λ bytes.
      maybe_window_update sid (record c {
        streams =
            modify sid (add_data bytes (has flags flag_end_stream) (length payload)) c.streams;
        conn_recv_consumed = (c.conn_recv_consumed + length payload) % 2 ^ 32;
      })

  unfoldable pub handle_rst_stream : ℕ → Bytes → H2Conn D → Outcome D
  handle_rst_stream sid payload c = on_ok (reset_code payload) c λ code.
      (record c { streams = modify sid (λ s. record s { reset = some code }) c.streams }, ok tt)

  -- The text of the error is the code and the debug bytes.
  unfoldable pub handle_goaway : Bytes → H2Conn D → Outcome D
  handle_goaway payload c = on_ok (goaway_of payload) c λ g. (record c { goaway = some g }, ok tt)

  unfoldable pub grant : ℕ → ℤ → H2Conn D → H2Conn D
  grant sid inc c =
      if sid == 0
      then record c { conn_send_window = wrap_i64 (c.conn_send_window +ℤ inc) }
      else record c {
        streams =
            modify sid (λ s. record s { send_window = wrap_i64 (s.send_window +ℤ inc) }) c.streams;
      }

  unfoldable pub handle_window_update : ℕ → Bytes → H2Conn D → Outcome D
  handle_window_update sid payload c =
      on_ok (u32_at payload 0) c λ v. (grant sid (pos (bit_and v 0x7fff_ffff)) c, ok tt)

  -- The decoded fields, given to the stream that `streams.get_mut(&sid).unwrap()` finds.
  unfoldable pub put_headers : ℕ → List (Bytes × Bytes) → Option Stream → H2Conn D → Outcome D
  put_headers sid hs none c = (c, panic)
  put_headers sid hs (some s) c = (
    record c {
      streams = modify sid (λ t. record (apply_headers t hs) { headers_done = true }) c.streams;
    },
    ok tt,
  )

  -- `finish_headers` behind the decoder.
  unfoldable pub finish_decoded : ℕ → D → Exec IoError (List (Bytes × Bytes)) → H2Conn D → Outcome D
  finish_decoded sid decoder r c =
      on_ok r (record c { decoder = decoder })
        λ hs. put_headers sid hs (lookup sid c.streams) (record c { decoder = decoder })

module _ {D : Type 0} (unwinds : Bool)
    (decode : D → Bytes → D × Exec (Unit {0}) (List (Bytes × Bytes))) where
  unfoldable pub finish_stream : ℕ → Option Stream → H2Conn D → Outcome D
  finish_stream sid none c = (c, ok tt)
  finish_stream sid (some s) c =
      let c' = record c { streams = modify sid take_block c.streams } in
      if ltb max_header_block (length s.header_block)
      then (c', err invalid_data)
      else (let (decoder, r) = decode c.decoder s.header_block in
          finish_decoded sid decoder (decoded_as unwinds r) c')

  -- `finish_headers`.
  unfoldable pub finish_headers : ℕ → H2Conn D → Outcome D
  finish_headers sid c = finish_stream sid (lookup sid c.streams) c

  -- Appends to the header block of a stream, and finishes the headers if the frame ends them.
  unfoldable pub handle_block : ℕ → ℕ → Bool → Bytes → H2Conn D → Outcome D
  handle_block flags sid ends block c =
      let c' = record c { streams = modify_or_default sid (add_block block ends) c.streams } in
      if has flags flag_end_headers then finish_headers sid c' else (c', ok tt)

  unfoldable pub handle_headers : ℕ → ℕ → Bytes → H2Conn D → Outcome D
  handle_headers flags sid payload c =
      on_ok (headers_block flags payload) c
        λ block. handle_block flags sid (has flags flag_end_stream) block c

  -- `handle_frame`.
  unfoldable pub handle_frame : ℕ → ℕ → ℕ → Bytes → H2Conn D → Outcome D
  handle_frame typ flags sid payload c =
      if typ == frame_data
      then handle_data flags sid payload c
      else if typ == frame_headers
      then handle_headers flags sid payload c
      else if typ == frame_continuation
      then handle_block flags sid false payload c
      else if typ == frame_priority
      then (c, ok tt)
      else if typ == frame_rst_stream
      then handle_rst_stream sid payload c
      else if typ == frame_settings
      then handle_settings flags payload c
      else if typ == frame_push_promise
      then (c, err invalid_data)
      else if typ == frame_ping
      then handle_ping flags payload c
      else if typ == frame_goaway
      then handle_goaway payload c
      else if typ == frame_window_update && leb 4 (length payload)
      then handle_window_update sid payload c
      else (c, ok tt)
