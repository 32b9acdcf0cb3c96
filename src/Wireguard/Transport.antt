-- ===== src/Wireguard/Transport.antt =====
-- The data path of a tunnel: `seal`, `encapsulate`, `flush_queue`, `consume_response`,
-- `consume_transport`, `tick`, `message_type`, `receiver_index`. An error leaves the tunnel as it was.
pub mod Deliver
pub mod Quiet
pub mod Again
mod Tests
use usb_camera_over_tailscal.Base.{
  ℕ, ◌+◌, ◌-◌, ◌*◌, ◌/◌, ◌%◌, ◌^◌, Bool, true, false, not, ◌&&◌, ◌||◌, List, [], ◌∷◌, ◌++◌, Option,
  none, some, ltb, leb, ◌==◌, if◌then◌else◌, length, take, replicate, get_or, Exec, ok, err, panic,
  ◌>>=◌, ◌>>◌, fail_if, try, index, slice, slice_from,
}
use usb_camera_over_tailscal.Base.Words.{to_le, from_le}
use usb_camera_over_tailscal.Crypto.{Bytes, Primitives, tag_len}
use usb_camera_over_tailscal.Wireguard.Replay.{ReplayWindow, check_and_update}
use usb_camera_over_tailscal.Wireguard.Tunnel.{
  WgError, bad_length, bad_type, auth_failed, no_session, replayed, msg_initiation, msg_response,
  msg_cookie_reply, msg_transport, initiation_len, response_len, transport_header_len,
  rekey_after_time, reject_after_time, keepalive_timeout, rekey_after_messages, Session,
  PendingInitiation, Tunn, Fresh, queue, ip_packet_len,
}
use usb_camera_over_tailscal.Wireguard.Handshake.{
  new_initiation, initiate_if_needed, finish_handshake,
}

-- `(plaintext.len() + 15) & !15`.
pub padded_len : ℕ → ℕ
padded_len n = (n + 15) / 16 * 16

pub pad : Bytes → Bytes
pad plaintext = plaintext ++ replicate (padded_len (length plaintext) - length plaintext) 0

pub is_some : {A : Type 0} → Option A → Bool
is_some none = false
is_some (some a) = true

pub to_list : Option Bytes → List Bytes
to_list none = []
to_list (some m) = m ∷ []

-- The session with this receiver index.
pub named : ℕ → Option Session → Option Session
named receiver none = none
named receiver (some s) = if s.local_index == receiver then some s else none

-- The session that a receiver index picks, and whether it is the current one.
pub session_slot : Option Session → Option Session → Exec WgError (Session × Bool)
session_slot (some s) previous = ok (s, true)
session_slot none (some s) = ok (s, false)
session_slot none none = err no_session

pub put_slot : Bool → Session → Tunn → Tunn
put_slot true s t = record t { current = some s; previous = none }
put_slot false s t = record t { previous = some s }

-- `ip_packet_len(&pt).unwrap_or(pt.len()).min(pt.len())`.
pub clip : Bytes → Option ℕ → Bytes
clip pt none = pt
clip pt (some n) = if leb n (length pt) then take n pt else pt

-- What the caller gets of a decrypted text: nothing for a keepalive.
pub deliver : Bytes → Tunn → Exec WgError (Option Bytes × Tunn)
deliver [] t = ok (none, t)
deliver (b ∷ pt) t = do
  len ← ip_packet_len (b ∷ pt)
  ok (some (clip (b ∷ pt) len), record t { need_keepalive = true })

-- The session, if it is not yet too old at this time.
pub unless_expired : ℕ → Option Session → Option Session
unless_expired now none = none
unless_expired now (some s) = if leb reject_after_time (now - s.created) then none else some s

pub is_empty : {A : Type 0} → List A → Bool
is_empty [] = true
is_empty (x ∷ xs) = false

-- `message_type`.
pub is_message : ℕ → ℕ → Bool
is_message typ size =
    ((typ == msg_initiation) && (size == initiation_len))
    || (((typ == msg_response) && (size == response_len))
        || (((typ == msg_cookie_reply) && (size == 64))
            || ((typ == msg_transport) && leb (transport_header_len + tag_len) size)))

pub message_type : Bytes → Option ℕ
message_type (typ ∷ b1 ∷ b2 ∷ b3 ∷ rest) =
    if (b1 == 0) && ((b2 == 0) && (b3 == 0))
    then if is_message typ (4 + length rest) then some typ else none
    else none
message_type _ = none

-- `receiver_index`.
pub receiver_of : Bytes → Option ℕ → Exec (Unit {0}) ℕ
receiver_of pkt none = err tt
receiver_of pkt (some typ) =
    if typ == msg_response
    then (slice pkt 8 12 >>= λ b. ok (from_le b))
    else if (typ == msg_transport) || (typ == msg_cookie_reply)
    then (slice pkt 4 8 >>= λ b. ok (from_le b))
    else err tt

pub receiver_index : Bytes → Exec (Unit {0}) ℕ
receiver_index pkt = receiver_of pkt (message_type pkt)

-- `consume_transport` behind its decryption.
pub receive : Session → Bool → ℕ → Bytes → ℕ → Tunn → Exec WgError (Option Bytes × Tunn)
receive s is_current counter pt now t = do
  let (replay, fresh) = check_and_update s.replay counter
  fail_if (not fresh) replayed
  let s' = record s { replay = replay; confirmed = true }
  deliver pt (put_slot is_current s' (record t { last_received = some now }))

-- The expiry in `tick`.
pub expire : ℕ → Tunn → Tunn
expire now t = record t {
  current = unless_expired now t.current;
  previous = unless_expired now t.previous;
}

-- `since_send >= KEEPALIVE_TIMEOUT`, where a tunnel that never sent has waited longest.
pub sent_long_ago : ℕ → Option ℕ → Bool
sent_long_ago now none = true
sent_long_ago now (some at) = leb keepalive_timeout (now - at)

module _ (p : Primitives) where
  open p use {aead_encrypt, aead_decrypt}

  -- `Tunn::seal`: the message, and the session with its counter moved on.
  pub seal : Bytes → Session → Bytes × Session
  seal plaintext s =
      let ct = aead_encrypt s.send_key s.send_counter (pad plaintext) [] in
      (
        (msg_transport ∷ 0 ∷ 0 ∷ 0 ∷ [])
            ++ (to_le 4 s.remote_index ++ (to_le 8 s.send_counter ++ ct)),
        record s { send_counter = (s.send_counter + 1) % 2 ^ 64 },
      )

  pub seal_all : List Bytes → Session → List Bytes × Session
  seal_all [] s = ([], s)
  seal_all (pkt ∷ pkts) s =
      let (msg, s') = seal pkt s in let (msgs, s'') = seal_all pkts s' in (msg ∷ msgs, s'')

  -- `flush_queue`.
  pub flush_by : Option Session → ℕ → Tunn → List Bytes × Tunn
  flush_by none now t = ([], record t { queued = [] })
  flush_by (some s) now t =
      let (msgs, s') = seal_all t.queued s in
      (
        msgs,
        record t {
          queued = [];
          current = some s';
          last_sent = if is_empty msgs then t.last_sent else some now;
        },
      )

  pub flush_queue : ℕ → Tunn → List Bytes × Tunn
  flush_queue now t = flush_by t.current now t

  -- `consume_response`.
  pub consume_response : Bytes → ℕ → Tunn → Exec WgError (List Bytes × Tunn)
  consume_response msg now t = finish_handshake p msg now t >>= λ t'. ok (flush_queue now t')

  -- Queues a packet and starts a handshake for it.
  pub queue_and_initiate : Fresh → Bytes → ℕ → Tunn → Exec WgError (List Bytes × Tunn)
  queue_and_initiate fresh pkt now t = do
    (init, t') ← initiate_if_needed p fresh now (queue pkt t)
    ok (to_list init, t')

  -- The initiator renews a session that is old or much used, unless it is doing so already.
  pub rekey_due : ℕ → Session → Option PendingInitiation → Bool
  rekey_due now s pending =
      s.is_initiator
      && ((leb rekey_after_time (now - s.created) || leb rekey_after_messages s.send_counter)
          && not (is_some pending))

  pub encapsulate_with : Session → Fresh → Bytes → ℕ → Tunn → Exec WgError (List Bytes × Tunn)
  encapsulate_with s fresh pkt now t =
      let (msg, s') = seal pkt s in
      let t' = record t { current = some s'; last_sent = some now; need_keepalive = false } in
      if rekey_due now s' t.pending
      then (new_initiation p fresh now t' >>= λ r. ok (msg ∷ r.0 ∷ [], r.1))
      else ok (msg ∷ [], t')

  -- `encapsulate`.
  pub encapsulate_by : Option Session → Fresh → Bytes → ℕ → Tunn → Exec WgError (List Bytes × Tunn)
  encapsulate_by none fresh pkt now t = queue_and_initiate fresh pkt now t
  encapsulate_by (some s) fresh pkt now t =
      if leb reject_after_time (now - s.created)
      then queue_and_initiate fresh pkt now (record t { current = none })
      else encapsulate_with s fresh pkt now t

  pub encapsulate : Fresh → Bytes → ℕ → Tunn → Exec WgError (List Bytes × Tunn)
  encapsulate fresh pkt now t = encapsulate_by t.current fresh pkt now t

  -- `consume_transport`.
  pub consume_transport : Bytes → ℕ → Tunn → Exec WgError (Option Bytes × Tunn)
  consume_transport msg now t = do
    fail_if (ltb (length msg) (transport_header_len + tag_len)) bad_length
    typ ← index msg 0
    fail_if (not (typ == msg_transport)) bad_type
    receiver ← slice msg 4 8
    counter ← slice msg 8 16
    (s, is_current) ←
        session_slot (named (from_le receiver) t.current) (named (from_le receiver) t.previous)
    fail_if (leb reject_after_time (now - s.created)) no_session
    ct ← slice_from msg 16
    pt ← try auth_failed (aead_decrypt s.recv_key (from_le counter) ct [])
    receive s is_current (from_le counter) pt now t

  -- The handshake in `tick`.
  pub tick_handshake : Fresh → ℕ → Tunn → Exec WgError (List Bytes × Tunn)
  tick_handshake fresh now t =
      if is_some t.pending || (not (is_empty t.queued) && not (is_some t.current))
      then (initiate_if_needed p fresh now t >>= λ r. ok (to_list r.0, r.1))
      else ok ([], t)

  pub keepalive_by : Option ℕ → Option Session → ℕ → Tunn → List Bytes × Tunn
  keepalive_by (some rx) (some s) now t =
      if ltb (now - rx) (keepalive_timeout * 2) && sent_long_ago now t.last_sent
      then (let (msg, s') = seal [] s in
          (msg ∷ [], record t { current = some s'; last_sent = some now; need_keepalive = false }))
      else ([], t)
  keepalive_by _ _ now t = ([], t)

  pub keepalive : ℕ → Tunn → List Bytes × Tunn
  keepalive now t =
      if t.need_keepalive then keepalive_by t.last_received t.current now t else ([], t)

  -- `tick`.
  pub tick : Fresh → ℕ → Tunn → Exec WgError (List Bytes × Tunn)
  tick fresh now t = do
    (out, t') ← tick_handshake fresh now (expire now t)
    let (more, t'') = keepalive now t'
    ok (out ++ more, t'')
