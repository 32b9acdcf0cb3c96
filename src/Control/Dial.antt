-- ===== src/Control/Dial.antt =====
-- `dial`: the handshake inside an HTTP upgrade. The base64 engine is a parameter.
use usb_camera_over_tailscal.Base.{
  ℕ, ◌-◌, Bool, false, not, List, [], ◌∷◌, ◌++◌, Option, none, some, ◌==◌, if◌then◌else◌, length,
  take, drop, Exec, ok, err, panic, ◌>>=◌, ◌>>◌, fail_if, index,
}
use usb_camera_over_tailscal.Base.Text.{Text, chars, same_ignoring_case}
use usb_camera_over_tailscal.Crypto.{Bytes, Primitives}
use usb_camera_over_tailscal.Net.{
  ErrorKind, invalid_data, connection_refused, permission_denied, Read, Conn,
}
use usb_camera_over_tailscal.Http1.{ResponseHead, read_response_head, read_body, write_request}
use usb_camera_over_tailscal.Http1
use usb_camera_over_tailscal.Control.{msg_error, header_len, response_len}
use usb_camera_over_tailscal.Control.Handshake.{ClientHandshake, finish}
use usb_camera_over_tailscal.Control.Handshake
use usb_camera_over_tailscal.Control.Records.{NoiseConn, read_exact}
use usb_camera_over_tailscal.Control.Records

abbrev pub upgrade_value : Text
upgrade_value = chars "tailscale-control-protocol"

abbrev pub handshake_header : Text
handshake_header = chars "X-Tailscale-Handshake"

abbrev pub upgrade_path : Text
upgrade_path = chars "/ts2021"

-- The headers of the request.
pub upgrade_headers : Bytes → List (Bytes × Bytes)
upgrade_headers b64 =
    (chars "Upgrade", upgrade_value)
    ∷ (chars "Connection", chars "upgrade")
    ∷ (handshake_header, b64)
    ∷ []

-- A body that cannot be read is left out of the error, but a panic is none.
pub refused : {A B : Type 0} → Exec ErrorKind A → Exec ErrorKind B
refused (ok body) = err connection_refused
refused (err e) = err connection_refused
refused panic = panic

pub is_upgrade : Option Text → Bool
is_upgrade none = false
is_upgrade (some v) = same_ignoring_case v upgrade_value

pub check_head : ResponseHead → List Read → Exec ErrorKind (Unit {0})
check_head head reads =
    if not (head.status == 101)
    then refused (read_body head 4096 reads)
    else fail_if (not (is_upgrade (Http1.header (chars "upgrade") head))) invalid_data

-- Reads of a response, up to some of its bytes.
pub read_up_to : ℕ → Bytes → List Read → Exec ErrorKind (Bytes × List Read)
read_up_to n have reads =
    let (r, rest) = read_exact (n - length have) reads in r >>= λ more. ok (have ++ more, rest)

-- The response behind the head: its header first, since an error of the server has no more.
pub read_response : Bytes → List Read → Exec ErrorKind (Bytes × List Read)
read_response have reads = do
  (front, rest) ← read_up_to header_len have reads
  typ ← index front 0
  fail_if (typ == msg_error) permission_denied
  read_up_to response_len front rest

module _ (p : Primitives) (base64 : Bytes → Bytes) where
  pub dial : Conn → Bytes → Bytes → Bytes → ℕ → Bytes → Exec ErrorKind NoiseConn
  dial conn host machine_secret control_pub version ephemeral_secret = do
    hs ← Handshake.new p machine_secret control_pub version ephemeral_secret
    asked ←
        write_request (chars "POST") upgrade_path host (upgrade_headers (base64 hs.initiation)) conn
    (head, reads) ← read_response_head asked.incoming
    check_head head reads
    (response, rest) ← read_response (take response_len head.leftover) reads
    keys ← finish p response hs
    ok (Records.new (record asked { incoming = rest }) keys (drop response_len head.leftover))
