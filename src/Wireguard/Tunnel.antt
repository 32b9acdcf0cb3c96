-- ===== src/Wireguard/Tunnel.antt =====
-- The state of a tunnel: `Session`, `PendingInitiation`, `Tunn`, and the operations that need no
-- cryptography. Times are numbers, and `duration_since` is 0 for a later time, as is `-`.
pub mod PacketLen
use usb_camera_over_tailscal.Base.{
  ℕ, ◌+◌, ◌-◌, ◌*◌, ◌/◌, ◌≡◌, Bool, true, false, List, [], ◌∷◌, ◌++◌, Option, none, some, ltb, leb,
  ◌==◌, if◌then◌else◌, length, drop, replicate, Exec, ok, ◌>>=◌, index,
}
use usb_camera_over_tailscal.Base.Words.{u16_from_be, from_le}
use usb_camera_over_tailscal.Crypto.{Bytes, KeyPair, Primitives}
use usb_camera_over_tailscal.Noise.{SymmetricState}
use usb_camera_over_tailscal.Wireguard.Replay.{ReplayWindow}

pub data WgError : Type 0 where
  bad_length bad_type bad_mac bad_receiver auth_failed no_session replayed unknown_peer : WgError

abbrev pub msg_initiation : ℕ
msg_initiation = 1

abbrev pub msg_response : ℕ
msg_response = 2

abbrev pub msg_cookie_reply : ℕ
msg_cookie_reply = 3

abbrev pub msg_transport : ℕ
msg_transport = 4

abbrev pub initiation_len : ℕ
initiation_len = 148

abbrev pub response_len : ℕ
response_len = 92

abbrev pub transport_header_len : ℕ
transport_header_len = 16

-- Durations in seconds.
abbrev pub rekey_after_time : ℕ
rekey_after_time = 120

abbrev pub reject_after_time : ℕ
reject_after_time = 180

abbrev pub rekey_timeout : ℕ
rekey_timeout = 5

abbrev pub keepalive_timeout : ℕ
keepalive_timeout = 10

abbrev pub rekey_after_messages : ℕ
rekey_after_messages = 1152921504606846976

abbrev pub max_handshake_attempts : ℕ
max_handshake_attempts = 18

pub record Session : Type 0 where
  pub local_index : ℕ
  pub remote_index : ℕ
  pub send_key : Bytes
  pub recv_key : Bytes
  pub send_counter : ℕ
  pub replay : ReplayWindow
  pub created : ℕ
  pub is_initiator : Bool
  pub confirmed : Bool

pub record PendingInitiation : Type 0 where
  pub local_index : ℕ
  pub ephemeral_secret : Bytes
  pub state : SymmetricState
  pub sent_at : ℕ
  pub attempts : ℕ

-- The two MAC keys are those of the public keys, computed where they are used.
pub record Tunn : Type 0 where
  pub local : KeyPair
  pub peer_public : Bytes
  pub pending : Option PendingInitiation
  pub current : Option Session
  pub previous : Option Session
  pub last_initiation_ts : Bytes
  pub last_sent : Option ℕ
  pub last_received : Option ℕ
  pub need_keepalive : Bool
  pub queued : List Bytes

-- What `consume_initiation` finds.
pub record ConsumedInitiation : Type 0 where
  pub peer_public : Bytes
  pub remote_index : ℕ
  pub remote_ephemeral : Bytes
  pub state : SymmetricState
  pub timestamp : Bytes

-- The random values and the timestamp that an initiation or a response takes.
pub record Fresh : Type 0 where
  pub ephemeral : Bytes
  pub index : ℕ
  pub timestamp : Bytes

-- `Tunn::new`.
unfoldable pub new_tunn : KeyPair → Bytes → Tunn
new_tunn local peer_public = record {
  local = local;
  peer_public = peer_public;
  pending = none;
  current = none;
  previous = none;
  last_initiation_ts = replicate 12 0;
  last_sent = none;
  last_received = none;
  need_keepalive = false;
  queued = [];
}

-- `queue`: the oldest packet gives way when eight wait.
pub queue : Bytes → Tunn → Tunn
queue pkt t = record t {
  queued = (if leb 8 (length t.queued) then drop 1 t.queued else t.queued) ++ (pkt ∷ []);
}

-- `reset`.
pub reset : Tunn → Tunn
reset t = record t { pending = none; current = none; previous = none; queued = [] }

-- `a <= b` of two timestamps, compared byte by byte.
abbrev pub bytes_le : Bytes → Bytes → Bool
bytes_le [] b = true
bytes_le (x ∷ a) [] = false
bytes_le (x ∷ a) (y ∷ b) = if ltb x y then true else if x == y then bytes_le a b else false

-- `ip_packet_len`: the length that the IP header states.
-- `u16::from_be_bytes([pkt[i], pkt[i + 1]])` behind a fixed length.
unfoldable pub length_field : ℕ → ℕ → Bytes → Exec WgError (Option ℕ)
length_field fixed i pkt = do
  hi ← index pkt i
  lo ← index pkt (i + 1)
  ok (some (fixed + u16_from_be hi lo))

unfoldable pub packet_len_by : ℕ → Bytes → Exec WgError (Option ℕ)
packet_len_by version pkt =
    if version == 4
    then if leb 20 (length pkt) then length_field 0 2 pkt else ok none
    else if version == 6
    then if leb 40 (length pkt) then length_field 40 4 pkt else ok none
    else ok none

unfoldable pub ip_packet_len : Bytes → Exec WgError (Option ℕ)
ip_packet_len [] = ok none
ip_packet_len (b ∷ rest) = packet_len_by (b / 16) (b ∷ rest)

-- `local_indices`.
abbrev index_of : Option Session → List ℕ
index_of none = []
index_of (some s) = s.local_index ∷ []

abbrev pending_index : Option PendingInitiation → List ℕ
pending_index none = []
pending_index (some p) = p.local_index ∷ []

pub local_indices : Tunn → List ℕ
local_indices t = pending_index t.pending ++ (index_of t.current ++ index_of t.previous)
