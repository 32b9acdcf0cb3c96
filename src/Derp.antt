-- ===== src/Derp.antt =====
-- crates/tsnode/src/derp.rs: the client of a relay. Random bytes and times are arguments; whether the
-- deadline of a read has passed is asked at each turn of its loop.
pub mod Frames
mod Tests
use usb_camera_over_tailscal.Base.{
  ℕ, zero, suc, ◌+◌, ◌*◌, ◌-◌, ◌/◌, ◌%◌, ◌^◌, Bool, true, false, not, ◌&&◌, ◌||◌, List, [], ◌∷◌,
  ◌++◌, Option, none, some, ltb, leb, ◌==◌, if◌then◌else◌, length, take, drop, replicate, Exec, ok,
  err, panic, ◌>>=◌, ◌>>◌, fail_if, try, index, slice, slice_from,
}
use usb_camera_over_tailscal.Base.Text.{chars, text_eq}
use usb_camera_over_tailscal.Base.Words.{u32_from_be, u32_to_be}
use usb_camera_over_tailscal.Crypto.{Bytes, KeyPair}
use usb_camera_over_tailscal.Disco.Packet.{NaclBox}
use usb_camera_over_tailscal.Net.{
  ErrorKind, timed_out, unexpected_eof, invalid_data, invalid_input, connection_refused,
  permission_denied, Read, got, failing, Conn, is_timeout, write_all,
}
use usb_camera_over_tailscal.Http1.{read_response_head, write_request}

abbrev pub magic : Bytes
magic = b'D' ∷ b'E' ∷ b'R' ∷ b'P' ∷ 0xf0 ∷ 0x9f ∷ 0x94 ∷ 0x91 ∷ []

abbrev pub max_packet : ℕ
max_packet = 64 * 1024

abbrev pub frame_header_len : ℕ
frame_header_len = 5

abbrev pub key_len : ℕ
key_len = 32

abbrev pub nonce_len : ℕ
nonce_len = 24

abbrev pub frame_server_key : ℕ
frame_server_key = 0x01

abbrev pub frame_client_info : ℕ
frame_client_info = 0x02

abbrev pub frame_server_info : ℕ
frame_server_info = 0x03

abbrev pub frame_send_packet : ℕ
frame_send_packet = 0x04

abbrev pub frame_recv_packet : ℕ
frame_recv_packet = 0x05

abbrev pub frame_note_preferred : ℕ
frame_note_preferred = 0x07

abbrev pub frame_peer_gone : ℕ
frame_peer_gone = 0x08

abbrev pub frame_ping : ℕ
frame_ping = 0x12

abbrev pub frame_pong : ℕ
frame_pong = 0x13

abbrev pub frame_health : ℕ
frame_health = 0x14

abbrev pub frame_restarting : ℕ
frame_restarting = 0x15

-- The text of `health` is kept as its bytes.
pub data Event : Type 0 where
  packet : Bytes → Bytes → Event
  peer_gone health pong : Bytes → Event
  restarting : Event

pub record DerpClient : Type 0 where
  pub conn : Conn
  pub inbuf : Bytes
  pub server_key : Bytes
  pub last_activity : ℕ
  pub last_ping_sent : Option ℕ

pub frame_bytes : ℕ → Bytes → Bytes
frame_bytes t payload = t ∷ (u32_to_be (length payload) ++ payload)

pub with_conn : DerpClient → Conn → DerpClient
with_conn c conn = record c { conn = conn }

pub write_frame : ℕ → Bytes → DerpClient → Exec ErrorKind DerpClient
write_frame t payload c = write_all (frame_bytes t payload) c.conn >>= λ conn. ok (with_conn c conn)

pub send_packet : Bytes → Bytes → DerpClient → Exec ErrorKind DerpClient
send_packet dst pkt c = do
  fail_if (ltb max_packet (length pkt)) invalid_input
  write_frame frame_send_packet (dst ++ pkt) c

pub note_preferred : Bool → DerpClient → Exec ErrorKind DerpClient
note_preferred preferred c = write_frame frame_note_preferred ((if preferred then 1 else 0) ∷ []) c

-- `ping`, with its random bytes and the time behind the write.
pub ping : Bytes → ℕ → DerpClient → Exec ErrorKind (Bytes × DerpClient)
ping bytes now c = do
  sent ← write_frame frame_ping bytes c
  ok (bytes, record sent { last_ping_sent = some now })

pub take_payload : Bytes → ℕ → ℕ → Exec ErrorKind (Option (ℕ × Bytes) × Bytes)
take_payload inbuf t len =
    if ltb (length inbuf) (frame_header_len + len)
    then ok (none, inbuf)
    else (slice inbuf frame_header_len (frame_header_len + len) >>= λ payload.
        ok (some (t, payload), drop (frame_header_len + len) inbuf))

pub take_long : Bytes → Exec ErrorKind (Option (ℕ × Bytes) × Bytes)
take_long inbuf = do
  t ← index inbuf 0
  a ← index inbuf 1
  b ← index inbuf 2
  c ← index inbuf 3
  d ← index inbuf 4
  fail_if (ltb (max_packet + key_len + 64) (u32_from_be a b c d)) invalid_data
  take_payload inbuf t (u32_from_be a b c d)

-- A frame that the buffer holds, and what is left of it.
pub take_frame : Bytes → Exec ErrorKind (Option (ℕ × Bytes) × Bytes)
take_frame inbuf = if ltb (length inbuf) frame_header_len then ok (none, inbuf) else take_long inbuf

pub with_reads : DerpClient → List Read → DerpClient
with_reads c reads = record c { conn = record (c.conn) { incoming = reads } }

-- `fill`: false on a timeout.
pub fill_by : List Read → DerpClient → Exec ErrorKind (Bool × DerpClient)
fill_by [] c = err unexpected_eof
fill_by (got [] ∷ reads) c = err unexpected_eof
fill_by (got (b ∷ bs) ∷ reads) c =
    ok (true, record (with_reads c reads) { inbuf = c.inbuf ++ (b ∷ bs) })
fill_by (failing e ∷ reads) c = if is_timeout e then ok (false, with_reads c reads) else err e

pub fill : DerpClient → Exec ErrorKind (Bool × DerpClient)
fill c = fill_by c.conn.incoming c

-- A turn of the loop of `read_frame`, where `more` fills the buffer and goes on.
pub frame_turn :
    (DerpClient → Exec ErrorKind (Option (ℕ × Bytes) × DerpClient))
    → Bool
    → DerpClient
    → Exec ErrorKind (Option (ℕ × Bytes) × DerpClient)
frame_turn more is_late c = do
  (frame, rest) ← take_frame c.inbuf
  elim frame [
    | some f ↦ ok (some f, record c { inbuf = rest })
    | none ↦ if is_late then ok (none, c) else more c
  ]

pub go_on_if :
    (DerpClient → Exec ErrorKind (Option (ℕ × Bytes) × DerpClient))
    → Bool × DerpClient
    → Exec ErrorKind (Option (ℕ × Bytes) × DerpClient)
go_on_if more (filled, c) = if filled then more c else ok (none, c)

-- The loop of `read_frame` over the reads to come, with the number of its turns.
pub frame_loop :
    (ℕ → Bool) → ℕ → List Read → DerpClient → Exec ErrorKind (Option (ℕ × Bytes) × DerpClient)
frame_loop late k [] c = frame_turn (λ d. err unexpected_eof) (late k) c
frame_loop late k (r ∷ reads) c =
    let more = frame_loop late (k + 1) reads in
    frame_turn (λ d. fill_by (r ∷ reads) d >>= λ filled. go_on_if more filled) (late k) c

pub read_frame : (ℕ → Bool) → DerpClient → Exec ErrorKind (Option (ℕ × Bytes) × DerpClient)
read_frame late c = frame_loop late 0 c.conn.incoming c

pub recv_packet : Bytes → DerpClient → Exec ErrorKind (Option Event × DerpClient)
recv_packet payload c = do
  fail_if (ltb (length payload) key_len) invalid_data
  src ← slice payload 0 key_len
  bytes ← slice_from payload key_len
  ok (some (packet src bytes), c)

pub answer_ping : Bytes → DerpClient → Exec ErrorKind (Option Event × DerpClient)
answer_ping payload c =
    if length payload == 8
    then (write_frame frame_pong payload c >>= λ sent. ok (none, sent))
    else ok (none, c)

pub recv_gone : Bytes → DerpClient → Exec ErrorKind (Option Event × DerpClient)
recv_gone payload c =
    if leb key_len (length payload)
    then (slice payload 0 key_len >>= λ key. ok (some (peer_gone key), c))
    else ok (none, c)

-- The match on the type of a frame. Keep-alives, `peer_present` and unknown types bring no event.
pub recv_frame : ℕ → Bytes → DerpClient → Exec ErrorKind (Option Event × DerpClient)
recv_frame t payload c =
    if t == frame_recv_packet
    then recv_packet payload c
    else if t == frame_ping
    then answer_ping payload c
    else if t == frame_pong
    then ok (some (pong (if length payload == 8 then payload else replicate 8 0)), c)
    else if t == frame_peer_gone
    then recv_gone payload c
    else if t == frame_health
    then ok (some (health payload), c)
    else if t == frame_restarting
    then ok (some restarting, c)
    else ok (none, c)

pub recv_by : ℕ → Option (ℕ × Bytes) × DerpClient → Exec ErrorKind (Option Event × DerpClient)
recv_by now (none, c) = ok (none, c)
recv_by now (some (t, payload), c) = recv_frame t payload (record c { last_activity = now })

pub recv : (ℕ → Bool) → ℕ → DerpClient → Exec ErrorKind (Option Event × DerpClient)
recv late now c = read_frame late c >>= λ frame. recv_by now frame

-- `read_frame` in the handshake, where a timeout is an error.
pub expect_frame : (ℕ → Bool) → DerpClient → Exec ErrorKind ((ℕ × Bytes) × DerpClient)
expect_frame late c = do (frame, c') ← read_frame late c; f ← try timed_out frame; ok (f, c')

-- `PrefixReader`: what was read before, in pieces of the 256 bytes of the buffer that it is read into.
pub prefix_reads : ℕ → Bytes → List Read
prefix_reads zero bs = []
prefix_reads (suc fuel) [] = []
prefix_reads (suc fuel) (b ∷ bs) = got (take 256 (b ∷ bs)) ∷ prefix_reads fuel (drop 256 (b ∷ bs))

-- The reads of the connection that are left. What is left of the prefix goes with its reader.
pub without_prefix : List Read → List Read → List Read
without_prefix incoming rest = drop (length rest - length incoming) rest

-- Without a fast start the server answers with a head first, of which some was read already.
pub skip_head : DerpClient → Exec ErrorKind DerpClient
skip_head c =
    if text_eq (take 5 c.inbuf) (chars "HTTP/")
    then (read_response_head (prefix_reads (length c.inbuf) c.inbuf ++ c.conn.incoming)
        >>= λ (head, rest).
            fail_if (not (head.status == 101)) connection_refused
            >> ok (record (with_reads c (without_prefix c.conn.incoming rest)) {
              inbuf = head.leftover;
            }))
    else ok c

-- The `server_key` frame.
pub greeting : ℕ → Bytes → Exec ErrorKind Bytes
greeting t payload = do
  fail_if
      (not (t == frame_server_key)
        || (ltb (length payload) (8 + key_len) || not (text_eq (take 8 payload) magic)))
      invalid_data
  slice payload 8 (8 + key_len)

module _ (box : NaclBox) where
  open box use {box_seal, box_open}

  pub client_info : KeyPair → Bytes → Bytes → Bytes
  client_info ours server_key nonce =
      ours.public ++ (nonce ++ box_seal ours.secret server_key nonce (chars "{\"version\":2}"))

  pub check_info : KeyPair → Bytes → ℕ → Bytes → Exec ErrorKind Bytes
  check_info ours server_key t payload = do
    fail_if (not (t == frame_server_info) || ltb (length payload) nonce_len) invalid_data
    nonce ← slice payload 0 nonce_len
    sealed ← slice_from payload nonce_len
    try permission_denied (box_open ours.secret server_key nonce sealed)

  -- `connect`, from the connection that was dialled on.
  pub connect : (ℕ → Bool) → Conn → Bytes → KeyPair → Bytes → ℕ → Exec ErrorKind DerpClient
  connect late conn host ours nonce now = do
    asked ←
        write_request (chars "GET") (chars "/derp") host
          ((chars "Upgrade", chars "DERP")
            ∷ (chars "Connection", chars "Upgrade")
            ∷ (chars "Derp-Fast-Start", chars "1")
            ∷ [])
          conn
    (some_bytes, filled) ← fill record {
      conn = asked;
      inbuf = [];
      server_key = replicate 32 0;
      last_activity = now;
      last_ping_sent = none;
    }
    started ← skip_head filled
    ((t, payload), greeted) ← expect_frame late started
    server_key ← greeting t payload
    told ←
        write_frame frame_client_info (client_info ours server_key nonce)
          (record greeted { server_key = server_key })
    ((u, body), informed) ← expect_frame late told
    info ← check_info ours server_key u body
    ok (record informed { last_activity = now })
