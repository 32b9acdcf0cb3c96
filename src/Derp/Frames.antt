-- ===== src/Derp/Frames.antt =====
-- Frames and packets that a relay passes on.
use usb_camera_over_tailscal.Base.{
  ℕ, ◌+◌, ◌/◌, ◌%◌, ◌^◌, ◌≤◌, ◌<◌, ◌≡◌, refl, ap, ◌∙◌, sym, Bool, false, none, inl, inr, Bool-cases,
  lt→ltb, ltb→lt, ltb_false→le, List, [], ◌∷◌, ◌++◌, append_assoc, some, arith, ltb, not_ltb,
  length, length-append, drop, drop-append, ok, slice, slice-append, slice_from-append,
}
use usb_camera_over_tailscal.Base.Words.{u32_from_be, u32_to_be}
use usb_camera_over_tailscal.Crypto.{Bytes}
use usb_camera_over_tailscal.Net.{ErrorKind, Read, got, failing}
use usb_camera_over_tailscal.Control.Records.Stream.{flat, IsSteady, split_of}
use usb_camera_over_tailscal.Derp.{
  max_packet, key_len, frame_header_len, frame_recv_packet, packet, DerpClient, frame_bytes,
  take_payload, take_long, take_frame, frame_turn, frame_loop, fill_by, go_on_if, with_reads,
  read_frame, recv_packet, recv_frame, recv_by, recv,
}

-- A frame of a size that is accepted is cut out of the buffer as it was written, whatever follows it.
take_frame-frame_bytes :
    (t : ℕ) (payload rest : Bytes)
    → length payload ≤ max_packet + key_len + 64
    → take_frame (frame_bytes t payload ++ rest) ≡ ok (some (t, payload), rest)
unfolding take_frame take_long take_payload frame_bytes
take_frame-frame_bytes t payload rest small =
    let n = length payload in
    let size : length (payload ++ rest) ≡ n + length rest = length-append payload rest in
    let long : ltb (length (t ∷ (u32_to_be n ++ (payload ++ rest)))) frame_header_len ≡ false =
      not_ltb _ _ (omega arith) in
    let number : u32_from_be (n / 2 ^ 24 % 256) (n / 2 ^ 16 % 256) (n / 2 ^ 8 % 256) (n % 256) ≡ n =
      omega (arith, small) in
    let fits : ltb (max_packet + key_len + 64) n ≡ false = not_ltb _ _ small in
    let whole : ltb (length (t ∷ (u32_to_be n ++ (payload ++ rest)))) (frame_header_len + n)
        ≡ false =
      not_ltb _ _ (omega (arith, size)) in
    let cut : slice {E = ErrorKind} (t ∷ (u32_to_be n ++ (payload ++ rest))) frame_header_len
          (frame_header_len + n)
        ≡ ok payload =
      slice-append frame_header_len (frame_header_len + n) (t ∷ u32_to_be n) payload rest refl
        refl in
    let left : drop (frame_header_len + n) (t ∷ (u32_to_be n ++ (payload ++ rest))) ≡ rest =
      ap (λ l. drop (frame_header_len + n) l) (sym (append_assoc (t ∷ u32_to_be n) payload rest))
      ∙ drop-append (frame_header_len + n) ((t ∷ u32_to_be n) ++ payload) rest (omega arith) in
    rw (long, number, fits, whole, cut, left) refl

-- A loop whose buffer holds a frame ends with it, without a read.
frame_loop-held :
    (late : ℕ → Bool) (k : ℕ) (reads : List Read) (c : DerpClient) (f : ℕ × Bytes) (rest : Bytes)
    → take_frame c.inbuf ≡ ok (some f, rest)
    → frame_loop late k reads c ≡ ok (some f, record c { inbuf = rest })
unfolding frame_loop frame_turn
frame_loop-held late k [] c f rest e = rw e refl
frame_loop-held late k (r ∷ reads) c f rest e = rw e refl

recv_packet-packet :
    (src pkt : Bytes) (c : DerpClient)
    → length src ≡ key_len
    → recv_packet (src ++ pkt) c ≡ ok (some (packet src pkt), c)
unfolding recv_packet
recv_packet-packet src pkt c size =
    let long : ltb (length (src ++ pkt)) key_len ≡ false =
      not_ltb _ _ (omega (arith, size, length-append src pkt)) in
    rw
      (
        long,
        slice-append {E = ErrorKind} 0 key_len [] src pkt refl (omega (arith, size)),
        slice_from-append {E = ErrorKind} key_len src pkt size,
      )
      refl

-- A part of a frame is not yet cut out.
take_frame-part :
    (t : ℕ) (payload inbuf z : Bytes)
    → length payload ≤ max_packet + key_len + 64
    → frame_bytes t payload ≡ inbuf ++ z
    → length inbuf < 5 + length payload
    → take_frame inbuf ≡ ok (none, inbuf)
unfolding take_frame take_long take_payload frame_bytes
take_frame-part t payload [] z small e part = refl
take_frame-part t payload (x0 ∷ []) z small e part = refl
take_frame-part t payload (x0 ∷ x1 ∷ []) z small e part = refl
take_frame-part t payload (x0 ∷ x1 ∷ x2 ∷ []) z small e part = refl
take_frame-part t payload (x0 ∷ x1 ∷ x2 ∷ x3 ∷ []) z small e part = refl
take_frame-part t payload (x0 ∷ x1 ∷ x2 ∷ x3 ∷ x4 ∷ tail) z small e part =
    let n = length payload in
    let e1 : x1 ≡ n / 2 ^ 24 % 256 = cc e in
    let e2 : x2 ≡ n / 2 ^ 16 % 256 = cc e in
    let e3 : x3 ≡ n / 2 ^ 8 % 256 = cc e in
    let e4 : x4 ≡ n % 256 = cc e in
    let number : u32_from_be x1 x2 x3 x4 ≡ n = omega (arith, small, e1, e2, e3, e4) in
    let size = length (x0 ∷ x1 ∷ x2 ∷ x3 ∷ x4 ∷ tail) in
    rw
      (
        not_ltb size 5 (omega arith),
        number,
        not_ltb (max_packet + key_len + 64) n small,
        lt→ltb size (5 + n) part,
      )
      refl

-- The loop found a frame, these bytes are still to be read, and nothing else has changed.
record Looped (late : ℕ → Bool) (k : ℕ) (reads : List Read) (c : DerpClient) (f : ℕ × Bytes)
    (rest : Bytes) : Type 0 where
  pub client : DerpClient
  pub result : frame_loop late k reads c ≡ ok (some f, client)
  pub behind : client.inbuf ++ flat client.conn.incoming ≡ rest
  pub kept : client ≡ record c {
    conn = record (c.conn) { incoming = client.conn.incoming };
    inbuf = client.inbuf;
  }

module _ (late : ℕ → Bool) (in_time : (k : ℕ) → late k ≡ false) (t : ℕ) (payload rest : Bytes)
    (small : length payload ≤ max_packet + key_len + 64) where
  -- A buffer that holds the whole frame.
  frame_loop-whole :
      (k : ℕ) (reads : List Read) (c : DerpClient)
      → c.conn.incoming ≡ reads
      → c.inbuf ++ flat reads ≡ frame_bytes t payload ++ rest
      → length (frame_bytes t payload) ≤ length c.inbuf
      → Looped late k reads c (t, payload) rest
  frame_loop-whole k reads c same whole long =
      let left = drop (length (frame_bytes t payload)) c.inbuf in
      let (front, back) =
        split_of (frame_bytes t payload) rest c.inbuf (flat reads) (sym whole) long in
      record {
        client = record c { inbuf = left };
        result =
            frame_loop-held late k reads c (t, payload) left
              (ap take_frame front ∙ take_frame-frame_bytes t payload left small);
        behind = ap (λ r. left ++ flat r) same ∙ sym back;
        kept = refl;
      }

  -- A buffer that holds a part of it is filled by the next read.
  frame_loop-part :
      (k b : ℕ) (bs : Bytes) (reads : List Read) (c : DerpClient)
      → take_frame c.inbuf ≡ ok (none, c.inbuf)
      → Looped late
          (k + 1)
          reads
          (record (with_reads c reads) { inbuf = c.inbuf ++ (b ∷ bs) })
          (t, payload)
          rest
      → Looped late k (got (b ∷ bs) ∷ reads) c (t, payload) rest
  unfolding frame_loop frame_turn go_on_if fill_by with_reads
  frame_loop-part k b bs reads c e l = record {
    client = l.client;
    result = rw (e, in_time k) l.result;
    behind = l.behind;
    kept = l.kept;
  }

  frame_loop-Looped :
      (k : ℕ) (reads : List Read) (c : DerpClient)
      → IsSteady reads
      → c.conn.incoming ≡ reads
      → c.inbuf ++ flat reads ≡ frame_bytes t payload ++ rest
      → Looped late k reads c (t, payload) rest
  unfolding with_reads frame_bytes
  frame_loop-Looped k [] c steady same whole = frame_loop-whole k [] c same whole (
      omega (
        arith,
        length-append c.inbuf [],
        length-append (frame_bytes t payload) rest,
        ap (λ (l : Bytes). length l) whole,
      ))
  frame_loop-Looped k (failing e ∷ reads) c steady same whole = absurd steady
  frame_loop-Looped k (got [] ∷ reads) c steady same whole = absurd steady
  frame_loop-Looped k (got (b ∷ bs) ∷ reads) c steady same whole =
      let rest_of =
        frame_loop-Looped (k + 1) reads
          (record (with_reads c reads) { inbuf = c.inbuf ++ (b ∷ bs) }) steady refl
          (append_assoc c.inbuf (b ∷ bs) (flat reads) ∙ whole) in
      elim (Bool-cases (ltb (length c.inbuf) (length (frame_bytes t payload)))) [
        | inl part ↦
            let less = ltb→lt (length c.inbuf) (length (frame_bytes t payload)) part in
            let (front, back) =
              split_of c.inbuf (flat (got (b ∷ bs) ∷ reads)) (frame_bytes t payload) rest whole
                (omega (arith, less)) in
            frame_loop-part k b bs reads c
              (take_frame-part t payload c.inbuf _ small front (omega (arith, less))) rest_of
        | inr long ↦
            frame_loop-whole k (got (b ∷ bs) ∷ reads) c same whole
              (ltb_false→le (length c.inbuf) (length (frame_bytes t payload)) long)
      ]

-- A packet is received: the bytes behind its frame are still to be read, from the buffer and the
-- connection, and nothing else of the client has changed but the time of its last activity.
pub record Received (late : ℕ → Bool) (now : ℕ) (c : DerpClient) (src pkt rest : Bytes)
    : Type 0 where
  pub client : DerpClient
  pub result : recv late now c ≡ ok (some (packet src pkt), client)
  pub behind : client.inbuf ++ flat client.conn.incoming ≡ rest
  pub kept : client ≡ record c {
    conn = record (c.conn) { incoming = client.conn.incoming };
    inbuf = client.inbuf;
    last_activity = now;
  }

-- A packet of at most 65536 bytes, which the relay passes on with the 32 bytes of its sender's key
-- in front, is received as it was sent, and the bytes behind its frame are still to be read, however
-- the frame is cut between the receive buffer and the reads of the connection: if each read brings
-- something and the deadline does not pass.
pub recv-frame_bytes :
    (late : ℕ → Bool) (now : ℕ) (src pkt rest : Bytes) (c : DerpClient)
    → ((k : ℕ) → late k ≡ false)
    → length src ≡ key_len
    → length pkt ≤ max_packet
    → IsSteady c.conn.incoming
    → c.inbuf ++ flat c.conn.incoming ≡ frame_bytes frame_recv_packet (src ++ pkt) ++ rest
    → Received late now c src pkt rest
unfolding recv recv_by recv_frame read_frame
recv-frame_bytes late now src pkt rest c in_time size small steady whole =
    let l =
      frame_loop-Looped late in_time frame_recv_packet (src ++ pkt) rest
        (omega (arith, size, small, length-append src pkt)) 0 c.conn.incoming c steady refl whole in
    record {
      client = record (l.client) { last_activity = now };
      result =
          rw l.result (recv_packet-packet src pkt (record (l.client) { last_activity = now }) size);
      behind = l.behind;
      kept = ap (λ (d : DerpClient). record d { last_activity = now }) l.kept;
    }
