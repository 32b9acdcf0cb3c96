-- ===== src/H2/Handle/Safe.antt =====
-- No received frame makes the handler panic, and every one keeps the bounds of the connection.
use usb_camera_over_tailscal.Base.{
  ℕ, ◌^◌, ◌≤◌, ◌<◌, ◌≡◌, refl, ap, ◌∙◌, Bool, true, false, not, ◌&&◌, List, [], ◌∷◌, Option, none,
  some, arith, ltb, leb, ◌==◌, length, Exec, ok, err, panic, NoPanic, Bool-cases, if_intro, inl,
  inr,
}
use mathlib.Core.Option
use usb_camera_over_tailscal.Base.Int.{ℤ}
use usb_camera_over_tailscal.Base.Words.{u16_from_be, u32_from_be}
use usb_camera_over_tailscal.H2.{
  Bytes, IoError, Stream, H2Conn, flag_padded, flag_ack, flag_end_headers, flag_end_stream,
  max_header_block, window_update_threshold,
}
use usb_camera_over_tailscal.H2.Frame.{strip_padding-NoPanic}
use usb_camera_over_tailscal.H2.Streams.{lookup, lookup-modify}
use usb_camera_over_tailscal.H2.Handle.Reads.{
  u32_at-NoPanic, reset_code-NoPanic, goaway_of-NoPanic, headers_block-NoPanic,
}
use usb_camera_over_tailscal.H2.Handle.{
  has, write, write_some, conn_update, stream_update, maybe_window_update, apply_setting,
  apply_settings, handle_settings, handle_ping, handle_data, handle_rst_stream, handle_goaway,
  handle_window_update, finish_decoded, finish_stream, finish_headers, handle_block, handle_headers,
  handle_frame, decoded_as, on_ok, grant, put_headers, take_block,
}

-- The size of the frames that the client may send is one that the handler of SETTINGS clamps to,
-- and less than the threshold of received bytes is not yet granted back to the peer.
pub record IsConn {D : Type 0} (c : H2Conn D) : Type 0 where
  pub frame_low : 16384 ≤ c.peer_max_frame
  pub frame_high : c.peer_max_frame ≤ 2 ^ 24
  pub granted : c.conn_recv_consumed < window_update_threshold

-- The outcome of handling a frame: no panic, and the bounds again.
pub record Handled {D : Type 0} (o : H2Conn D × Exec IoError (Unit {0})) : Type 0 where
  pub safe : NoPanic o.1
  pub conn : IsConn o.0

module _ {D : Type 0} where
  on_ok-Handled :
      {A : Type 0} (m : Exec IoError A) (c : H2Conn D) (f : A → H2Conn D × Exec IoError (Unit {0}))
      → NoPanic m
      → IsConn c
      → ((a : A) → Handled (f a))
      → Handled (on_ok m c f)
  unfolding on_ok
  on_ok-Handled (ok a) c f safe h k = k a
  on_ok-Handled (err e) c f safe h k = record { safe = tt; conn = h }
  on_ok-Handled panic c f safe h k = absurd safe

  write-Handled : (b : Bytes) (c : H2Conn D) → IsConn c → Handled (write b c)
  unfolding write
  write-Handled b c h = elim (Bool-cases c.writable) [
    | inl works ↦ rw works (record { safe = tt; conn = omega arith })
    | inr broken ↦ rw broken (record { safe = tt; conn = omega arith })
  ]

  write_some-Handled : (b : Bytes) (c : H2Conn D) → IsConn c → Handled (write_some b c)
  unfolding write_some
  write_some-Handled [] c h = record { safe = tt; conn = h }
  write_some-Handled (b ∷ bs) c h = write-Handled (b ∷ bs) c h

  -- A connection at its threshold is granted its window at once.
  conn_update-IsConn :
      (c : H2Conn D)
      → 16384 ≤ c.peer_max_frame
      → c.peer_max_frame ≤ 2 ^ 24
      → IsConn (conn_update c).1
  unfolding conn_update
  conn_update-IsConn c lo hi =
      elim (Bool-cases (leb window_update_threshold c.conn_recv_consumed)) [
        | inl full ↦ rw full (omega arith)
        | inr room ↦ rw room (record { frame_low = lo; frame_high = hi; granted = ground arith })
      ]

  stream_update-IsConn :
      (sid : ℕ) (s : Option Stream) (c : H2Conn D) → IsConn c → IsConn (stream_update sid s c).1
  unfolding stream_update
  stream_update-IsConn sid none c h = h
  stream_update-IsConn sid (some s) c h =
      elim (Bool-cases (leb window_update_threshold s.recv_consumed && not s.end_stream)) [
        | inl full ↦ rw full (omega arith)
        | inr room ↦ rw room h
      ]

  maybe_window_update-Handled :
      (sid : ℕ) (c : H2Conn D)
      → 16384 ≤ c.peer_max_frame
      → c.peer_max_frame ≤ 2 ^ 24
      → Handled (maybe_window_update sid c)
  unfolding maybe_window_update
  maybe_window_update-Handled sid c lo hi = write_some-Handled _ _ (
      stream_update-IsConn sid (lookup sid (conn_update c).1.streams) (conn_update c).1
        (conn_update-IsConn c lo hi))

  handle_data-Handled :
      (flags sid : ℕ) (payload : Bytes) (c : H2Conn D)
      → IsConn c
      → Handled (handle_data flags sid payload c)
  unfolding handle_data
  handle_data-Handled flags sid payload c h =
      on_ok-Handled _ c _ (strip_padding-NoPanic payload (has flags flag_padded)) h
        λ bytes. maybe_window_update-Handled sid _ h.frame_low h.frame_high

  apply_setting-IsConn : (id val : ℕ) (c : H2Conn D) → IsConn c → IsConn (apply_setting id val c)
  unfolding apply_setting
  apply_setting-IsConn id val c h = elim (Bool-cases (id == 5)) [
    | inl frame ↦ rw frame (omega arith)
    | inr other ↦ elim (Bool-cases (id == 4)) [
      | inl window ↦ rw (other, window) (omega arith)
      | inr unknown ↦ rw (other, unknown) h
    ]
  ]

  apply_settings-IsConn : (p : Bytes) (c : H2Conn D) → IsConn c → IsConn (apply_settings p c)
  unfolding apply_settings
  apply_settings-IsConn (i ∷ j ∷ p ∷ q ∷ r ∷ s ∷ rest) c h =
      apply_settings-IsConn rest _
        (apply_setting-IsConn (u16_from_be i j) (u32_from_be p q r s) c h)
  apply_settings-IsConn _ c h = h

  handle_settings-Handled :
      (flags : ℕ) (payload : Bytes) (c : H2Conn D)
      → IsConn c
      → Handled (handle_settings flags payload c)
  unfolding handle_settings
  handle_settings-Handled flags payload c h = elim (Bool-cases (has flags flag_ack)) [
    | inl ack ↦ rw ack (record { safe = tt; conn = h })
    | inr set ↦ rw set (write-Handled _ _ (apply_settings-IsConn payload c h))
  ]

  handle_ping-Handled :
      (flags : ℕ) (payload : Bytes) (c : H2Conn D)
      → IsConn c
      → Handled (handle_ping flags payload c)
  unfolding handle_ping
  handle_ping-Handled flags payload c h = elim (Bool-cases (has flags flag_ack)) [
    | inl ack ↦ rw ack (record { safe = tt; conn = h })
    | inr ping ↦ rw ping (write-Handled _ _ h)
  ]

  grant-IsConn : (sid : ℕ) (inc : ℤ) (c : H2Conn D) → IsConn c → IsConn (grant sid inc c)
  unfolding grant
  grant-IsConn sid inc c h =
      if_intro IsConn (sid == 0) _ _
        (record { frame_low = h.frame_low; frame_high = h.frame_high; granted = h.granted })
        (record { frame_low = h.frame_low; frame_high = h.frame_high; granted = h.granted })

  -- A frame that is long enough for its increment, as `handle_frame` tests.
  handle_window_update-Handled :
      (sid : ℕ) (payload : Bytes) (c : H2Conn D)
      → 4 ≤ length payload
      → IsConn c
      → Handled (handle_window_update sid payload c)
  unfolding handle_window_update
  handle_window_update-Handled sid payload c long h =
      on_ok-Handled _ c _ (u32_at-NoPanic payload 0 (omega (arith, long))) h
        λ v. record { safe = tt; conn = grant-IsConn sid _ c h }

  handle_rst_stream-Handled :
      (sid : ℕ) (payload : Bytes) (c : H2Conn D)
      → IsConn c
      → Handled (handle_rst_stream sid payload c)
  unfolding handle_rst_stream
  handle_rst_stream-Handled sid payload c h =
      on_ok-Handled _ c _ (reset_code-NoPanic payload) h
        λ code. record { safe = tt; conn = omega arith }

  handle_goaway-Handled :
      (payload : Bytes) (c : H2Conn D) → IsConn c → Handled (handle_goaway payload c)
  unfolding handle_goaway
  handle_goaway-Handled payload c h =
      on_ok-Handled _ c _ (goaway_of-NoPanic payload) h
        λ g. record { safe = tt; conn = omega arith }

  -- The stream whose headers were decoded is still there.
  finish_decoded-Handled :
      (sid : ℕ) (decoder : D) (r : Exec IoError (List (Bytes × Bytes))) (s : Stream) (c : H2Conn D)
      → lookup sid c.streams ≡ some s
      → NoPanic r
      → IsConn c
      → Handled (finish_decoded sid decoder r c)
  unfolding finish_decoded put_headers
  finish_decoded-Handled sid decoder r s c there safe h =
      on_ok-Handled r _ _ safe (omega arith)
        λ hs. rw there (record { safe = tt; conn = omega arith })

module _ {D : Type 0} (unwinds : Bool)
    (decode : D → Bytes → D × Exec (Unit {0}) (List (Bytes × Bytes)))
    (caught : (unwinds ≡ false) → (d : D) (block : Bytes) → NoPanic (decode d block).1) where
  decoded_as-NoPanic : (d : D) (block : Bytes) → NoPanic (decoded_as unwinds (decode d block).1)
  unfolding decoded_as
  decoded_as-NoPanic d block = by_outcome unwinds (decode d block).1 (λ e. caught e d block)
    where
      by_outcome :
          (u : Bool) (r : Exec (Unit {0}) (List (Bytes × Bytes)))
          → (u ≡ false → NoPanic r)
          → NoPanic (decoded_as u r)
      by_outcome u (ok hs) k = tt
      by_outcome u (err e) k = tt
      by_outcome true panic k = tt
      by_outcome false panic k = k refl

  finish_stream-Handled :
      (sid : ℕ) (o : Option Stream) (c : H2Conn D)
      → lookup sid c.streams ≡ o
      → IsConn c
      → Handled (finish_stream unwinds decode sid o c)
  unfolding finish_stream
  finish_stream-Handled sid none c there h = record { safe = tt; conn = h }
  finish_stream-Handled sid (some s) c there h =
      if_intro Handled (ltb max_header_block (length s.header_block)) _ _
        (record { safe = tt; conn = omega arith })
        (finish_decoded-Handled sid _ _ (take_block s) _
          (lookup-modify sid take_block c.streams ∙ ap (Option.map take_block) there)
          (decoded_as-NoPanic c.decoder s.header_block) (omega arith))

  handle_block-Handled :
      (flags sid : ℕ) (ends : Bool) (block : Bytes) (c : H2Conn D)
      → IsConn c
      → Handled (handle_block unwinds decode flags sid ends block c)
  unfolding handle_block finish_headers
  handle_block-Handled flags sid ends block c h = elim (Bool-cases (has flags flag_end_headers)) [
    | inl last ↦ rw last (finish_stream-Handled sid _ _ refl (omega arith))
    | inr more ↦ rw more (record { safe = tt; conn = omega arith })
  ]

  handle_headers-Handled :
      (flags sid : ℕ) (payload : Bytes) (c : H2Conn D)
      → IsConn c
      → Handled (handle_headers unwinds decode flags sid payload c)
  unfolding handle_headers
  handle_headers-Handled flags sid payload c h =
      on_ok-Handled _ c _ (headers_block-NoPanic flags payload) h
        λ block. handle_block-Handled flags sid (has flags flag_end_stream) block c h

  -- Whatever the frame and its payload, handling it does not panic, if the target unwinds or the
  -- HPACK decoder does not panic itself; and from a connection within its bounds, the frame size that the client may send stays between 16384 and
  -- 2 ^ 24, and less than the threshold of received bytes stays not granted back to the peer, also
  -- where handling ends in an error.
  pub handle_frame-Handled :
      (typ flags sid : ℕ) (payload : Bytes) (c : H2Conn D)
      → IsConn c
      → Handled (handle_frame unwinds decode typ flags sid payload c)
  unfolding handle_frame
  handle_frame-Handled typ flags sid payload c h =
      if_intro Handled (typ == 0) _ _ (handle_data-Handled flags sid payload c h) (
        if_intro Handled (typ == 1) _ _ (handle_headers-Handled flags sid payload c h) (
          if_intro Handled (typ == 9) _ _ (handle_block-Handled flags sid false payload c h) (
            if_intro Handled (typ == 2) _ _ nothing (
              if_intro Handled (typ == 3) _ _ (handle_rst_stream-Handled sid payload c h) (
                if_intro Handled (typ == 4) _ _ (handle_settings-Handled flags payload c h) (
                  if_intro Handled (typ == 5) _ _ (record { safe = tt; conn = h })
                    (if_intro Handled (typ == 6) _ _ (handle_ping-Handled flags payload c h) (
                      if_intro Handled (typ == 7) _ _ (handle_goaway-Handled payload c h)
                        (elim (Bool-cases (typ == 8 && leb 4 (length payload))) [
                          | inl update ↦
                              rw update
                                (handle_window_update-Handled sid payload c (ground arith) h)
                          | inr other ↦ rw other nothing
                        ])))))))))
    where
      nothing : Handled (c, ok tt)
      nothing = record { safe = tt; conn = h }
