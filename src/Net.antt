-- ===== src/Net.antt =====
-- crates/tsnode/src/net.rs: byte streams. A connection is what its reads will give, one after the other, and
-- what was written to it; behind the last read the peer has closed it.
use usb_camera_over_tailscal.Base.{Bool, true, false, List, ◌++◌, Exec, ok, err, if◌then◌else◌}
use usb_camera_over_tailscal.Crypto.{Bytes}

pub data ErrorKind : Type 0 where
  would_block timed_out unexpected_eof invalid_data invalid_input connection_refused
        permission_denied broken other :
      ErrorKind

-- A read gives bytes, not more than the buffer holds, and none of them if the stream has ended, or it fails.
pub data Read : Type 0 where
  got : Bytes → Read
  failing : ErrorKind → Read

pub record Conn : Type 0 where
  pub incoming : List Read
  pub sent : Bytes
  pub writable : Bool

unfoldable pub is_timeout : ErrorKind → Bool
is_timeout would_block = true
is_timeout timed_out = true
is_timeout _ = false

-- `write_all` and `flush`.
unfoldable pub write_all : Bytes → Conn → Exec ErrorKind Conn
write_all bytes c = if c.writable then ok (record c { sent = c.sent ++ bytes }) else err broken
