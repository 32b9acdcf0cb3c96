-- ===== src/H2/Handle/Isolated.antt =====
-- A frame of one stream leaves the other streams alone.

use usb_camera_over_tailscal.Base.{
  ℕ, ◌≡◌, ◌≢◌, refl, ◌∙◌, Bool, false, not, ◌&&◌, List, [], ◌∷◌, Option, none, some, ltb, leb, ◌==◌,
  length, Exec, ok, err, panic, ne→==_false, if_intro,
}
use usb_camera_over_tailscal.Base.Int.{ℤ}
use usb_camera_over_tailscal.H2.{
  Bytes, IoError, Stream, H2Conn, flag_ack, flag_end_headers, flag_end_stream, max_header_block,
  window_update_threshold, frame_settings,
}
use usb_camera_over_tailscal.H2.Streams.{
  lookup, modify_or_default, lookup-modify_ne, lookup-modify_or_default_ne,
}
use usb_camera_over_tailscal.H2.Handle.{
  has, write, write_some, conn_update, stream_update, maybe_window_update, handle_ping, handle_data,
  handle_rst_stream, handle_goaway, handle_window_update, finish_decoded, finish_stream,
  finish_headers, handle_block, handle_headers, handle_frame, take_block, add_block, on_ok, grant,
  put_headers,
}

module _ {D : Type 0} (unwinds : Bool)
    (decode : D → Bytes → D × Exec (Unit {0}) (List (Bytes × Bytes))) (j sid : ℕ)
    (other : j ≢ sid) where
  -- The stream `j` is in the outcome what it was in `c`.
  abbrev Same : H2Conn D → H2Conn D × Exec IoError (Unit {0}) → Type 0
  Same c o = lookup j o.0.streams ≡ lookup j c.streams

  on_ok-Same :
      {A : Type 0} (m : Exec IoError A) (c c' : H2Conn D)
      (f : A → H2Conn D × Exec IoError (Unit {0}))
      → lookup j c'.streams ≡ lookup j c.streams
      → ((a : A) → Same c (f a))
      → Same c (on_ok m c' f)
  unfolding on_ok
  on_ok-Same (ok a) c c' f h k = k a
  on_ok-Same (err e) c c' f h k = h
  on_ok-Same panic c c' f h k = h

  write-Same : (b : Bytes) (c : H2Conn D) → Same c (write b c)
  unfolding write
  write-Same b c = if_intro (Same c) c.writable _ _ refl refl

  write_some-Same : (b : Bytes) (c : H2Conn D) → Same c (write_some b c)
  unfolding write_some
  write_some-Same [] c = refl
  write_some-Same (b ∷ bs) c = write-Same (b ∷ bs) c

  conn_update-Same : (c : H2Conn D) → lookup j (conn_update c).1.streams ≡ lookup j c.streams
  unfolding conn_update
  conn_update-Same c =
      if_intro (λ (p : Bytes × H2Conn D). lookup j p.1.streams ≡ lookup j c.streams)
        (leb window_update_threshold c.conn_recv_consumed) _ _ refl refl

  stream_update-Same :
      (s : Option Stream) (c : H2Conn D)
      → lookup j (stream_update sid s c).1.streams ≡ lookup j c.streams
  unfolding stream_update
  stream_update-Same none c = refl
  stream_update-Same (some s) c =
      if_intro (λ (p : Bytes × H2Conn D). lookup j p.1.streams ≡ lookup j c.streams)
        (leb window_update_threshold s.recv_consumed && not s.end_stream) _ _
        (lookup-modify_ne sid (λ t. record t { recv_consumed = 0 }) j c.streams other) refl

  maybe_window_update-Same : (c : H2Conn D) → Same c (maybe_window_update sid c)
  unfolding maybe_window_update
  maybe_window_update-Same c =
      write_some-Same _ _
      ∙ stream_update-Same (lookup sid (conn_update c).1.streams) (conn_update c).1
      ∙ conn_update-Same c

  handle_data-Same :
      (flags : ℕ) (payload : Bytes) (c : H2Conn D) → Same c (handle_data flags sid payload c)
  unfolding handle_data
  handle_data-Same flags payload c =
      on_ok-Same _ c c _ refl
        λ bytes. maybe_window_update-Same _ ∙ lookup-modify_ne sid _ j c.streams other

  handle_rst_stream-Same :
      (payload : Bytes) (c : H2Conn D) → Same c (handle_rst_stream sid payload c)
  unfolding handle_rst_stream
  handle_rst_stream-Same payload c =
      on_ok-Same _ c c _ refl λ code. lookup-modify_ne sid _ j c.streams other

  handle_goaway-Same : (payload : Bytes) (c : H2Conn D) → Same c (handle_goaway payload c)
  unfolding handle_goaway
  handle_goaway-Same payload c = on_ok-Same _ c c _ refl λ g. refl

  grant-Same : (inc : ℤ) (c : H2Conn D) → lookup j (grant sid inc c).streams ≡ lookup j c.streams
  unfolding grant
  grant-Same inc c =
      if_intro (λ (d : H2Conn D). lookup j d.streams ≡ lookup j c.streams) (sid == 0) _ _ refl
        (lookup-modify_ne sid _ j c.streams other)

  handle_window_update-Same :
      (payload : Bytes) (c : H2Conn D) → Same c (handle_window_update sid payload c)
  unfolding handle_window_update
  handle_window_update-Same payload c = on_ok-Same _ c c _ refl λ v. grant-Same _ c

  put_headers-Same :
      (hs : List (Bytes × Bytes)) (o : Option Stream) (c : H2Conn D)
      → Same c (put_headers sid hs o c)
  unfolding put_headers
  put_headers-Same hs none c = refl
  put_headers-Same hs (some s) c = lookup-modify_ne sid _ j c.streams other

  finish_decoded-Same :
      (decoder : D) (r : Exec IoError (List (Bytes × Bytes))) (c : H2Conn D)
      → Same c (finish_decoded sid decoder r c)
  unfolding finish_decoded
  finish_decoded-Same decoder r c =
      on_ok-Same r c _ _ refl λ hs. put_headers-Same hs _ (record c { decoder = decoder })

  finish_stream-Same :
      (s : Option Stream) (c : H2Conn D) → Same c (finish_stream unwinds decode sid s c)
  unfolding finish_stream
  finish_stream-Same none c = refl
  finish_stream-Same (some s) c =
      if_intro (Same c) (ltb max_header_block (length s.header_block)) _ _
        (lookup-modify_ne sid take_block j c.streams other)
        (finish_decoded-Same _ _ _ ∙ lookup-modify_ne sid take_block j c.streams other)

  handle_block-Same :
      (flags : ℕ) (ends : Bool) (block : Bytes) (c : H2Conn D)
      → Same c (handle_block unwinds decode flags sid ends block c)
  unfolding handle_block finish_headers
  handle_block-Same flags ends block c =
      if_intro (Same c) (has flags flag_end_headers) _ _ (finish_stream-Same _ _ ∙ added) added
    where
      added : lookup j (modify_or_default sid (add_block block ends) c.streams) ≡ lookup j c.streams
      added = lookup-modify_or_default_ne sid (add_block block ends) j c.streams other

  handle_headers-Same :
      (flags : ℕ) (payload : Bytes) (c : H2Conn D)
      → Same c (handle_headers unwinds decode flags sid payload c)
  unfolding handle_headers
  handle_headers-Same flags payload c =
      on_ok-Same _ c c _ refl λ block. handle_block-Same flags (has flags flag_end_stream) block c

  handle_ping-Same :
      (flags : ℕ) (payload : Bytes) (c : H2Conn D) → Same c (handle_ping flags payload c)
  unfolding handle_ping
  handle_ping-Same flags payload c =
      if_intro (Same c) (has flags flag_ack) _ _ refl (write-Same _ _)

  -- A frame other than SETTINGS changes no stream but the one that it names, in every outcome.
  pub handle_frame-Same :
      (typ flags : ℕ) (payload : Bytes) (c : H2Conn D)
      → typ ≢ frame_settings
      → lookup j (handle_frame unwinds decode typ flags sid payload c).0.streams
        ≡ lookup j c.streams
  unfolding handle_frame
  handle_frame-Same typ flags payload c h =
      if_intro (Same c) (typ == 0) _ _ (handle_data-Same flags payload c) (
        if_intro (Same c) (typ == 1) _ _ (handle_headers-Same flags payload c) (
          if_intro (Same c) (typ == 9) _ _ (handle_block-Same flags false payload c) (
            if_intro (Same c) (typ == 2) _ _ refl (
              if_intro (Same c) (typ == 3) _ _ (handle_rst_stream-Same payload c) (
                rw (ne→==_false typ 4 h) (
                  if_intro (Same c) (typ == 5) _ _ refl (
                    if_intro (Same c) (typ == 6) _ _ (handle_ping-Same flags payload c) (
                      if_intro (Same c) (typ == 7) _ _ (handle_goaway-Same payload c) (
                        if_intro (Same c) (typ == 8 && leb 4 (length payload)) _ _
                          (handle_window_update-Same payload c) refl)))))))))
