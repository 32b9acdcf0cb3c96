-- ===== src/Wireguard/Transport/Tests.antt =====
-- A packet under a new session, and the same again.
use usb_camera_over_tailscal.Base.{none}
use usb_camera_over_tailscal.Base.{
  ◌≡◌, refl, true, false, some, [], ◌∷◌, arith, ok, err, ◌>>=◌, replicate,
}
use usb_camera_over_tailscal.Crypto.{Bytes}
use usb_camera_over_tailscal.Crypto.Example.{plain, plain-IsSound}
use usb_camera_over_tailscal.Wireguard.Replay
use usb_camera_over_tailscal.Wireguard.Replay.{check_and_update}
use usb_camera_over_tailscal.Wireguard.Replay.Refine.{new-Tracks}
use usb_camera_over_tailscal.Wireguard.Replay.Spec.{nothing}
use usb_camera_over_tailscal.Wireguard.Tunnel.{
  Session, PendingInitiation, ConsumedInitiation, Fresh, Tunn, replayed, new_tunn, ip_packet_len,
  packet_len_by, length_field,
}
use usb_camera_over_tailscal.Wireguard.Transport.{seal, consume_transport}
use usb_camera_over_tailscal.Wireguard.Handshake.{accept_initiation}
use usb_camera_over_tailscal.Wireguard.Transport.Quiet.{tick_queue, accept_initiation-tick}
use usb_camera_over_tailscal.Wireguard.Transport.Deliver.{after_packet, consume_transport-seal}
use usb_camera_over_tailscal.Wireguard.Transport.Again.{arrivals, consume_transport-seal_again}

abbrev sender : Session
sender = record {
  local_index = 7;
  remote_index = 9;
  send_key = replicate 32 5;
  recv_key = replicate 32 6;
  send_counter = 3;
  replay = Replay.new;
  created = 100;
  is_initiator = true;
  confirmed = true;
}

abbrev receiver : Session
receiver = record {
  local_index = 9;
  remote_index = 7;
  send_key = replicate 32 6;
  recv_key = replicate 32 5;
  send_counter = 0;
  replay = Replay.new;
  created = 101;
  is_initiator = false;
  confirmed = false;
}

abbrev tunnel : Tunn
tunnel = record (new_tunn (record { secret = []; public = [] }) []) { current = some receiver }

-- An IPv4 packet of 21 bytes.
abbrev packet : Bytes
packet = 0x45 ∷ 0 ∷ 0 ∷ 21 ∷ replicate 17 1

consume_transport-seal_example :
    consume_transport plain (seal plain packet sender).0 150 tunnel
    ≡ ok (some packet, after_packet receiver 3 150 tunnel)
unfolding check_and_update ip_packet_len packet_len_by length_field new_tunn
consume_transport-seal_example =
    consume_transport-seal plain plain-IsSound packet sender receiver 150 tunnel refl (omega arith)
      (omega arith) refl refl (omega arith) refl refl

-- The next packet of the same sender.
abbrev other : Bytes
other = (seal plain packet (record sender { send_counter = 4 })).0

consume_transport-seal_again_example :
    (consume_transport plain (seal plain packet sender).0 150 tunnel >>= λ q.
    consume_transport plain
      (seal plain packet sender).0
      160
      (arrivals plain ((other, 151) ∷ ((4 ∷ []), 152) ∷ []) q.1))
    ≡ err replayed
unfolding check_and_update ip_packet_len packet_len_by length_field new_tunn
consume_transport-seal_again_example =
    consume_transport-seal_again plain plain-IsSound packet sender receiver 150 tunnel refl
      (omega arith) (omega arith) refl refl (omega arith) refl refl nothing
      ((other, 151) ∷ ((4 ∷ []), 152) ∷ []) 160 new-Tracks (omega arith)

abbrev waiting : PendingInitiation
waiting = record {
  local_index = 11;
  ephemeral_secret = replicate 32 1;
  state = record { h = []; ck = []; k = none };
  sent_at = 130;
  attempts = 1;
}

abbrev fresh : Fresh
fresh = record { ephemeral = replicate 32 8; index = 12; timestamp = replicate 12 1 }

abbrev consumed : ConsumedInitiation
consumed = record {
  peer_public = replicate 32 9;
  remote_index = 13;
  remote_ephemeral = replicate 32 10;
  state = record { h = []; ck = []; k = none };
  timestamp = replicate 12 1;
}

abbrev queueing : Tunn
queueing = record (new_tunn (record { secret = []; public = [] }) (replicate 32 9)) {
  queued = packet ∷ [];
}

accept_initiation-tick_example :
    (accept_initiation plain consumed fresh 20 queueing >>= λ r. tick_queue plain fresh 30 r.1)
    ≡ ok ([], packet ∷ [])
unfolding new_tunn
accept_initiation-tick_example =
    accept_initiation-tick plain consumed fresh fresh 20 30 queueing refl refl refl (omega arith)
      plain-IsSound
