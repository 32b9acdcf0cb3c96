-- ===== src/Ip.antt =====
-- The addresses of `std::net` that the node passes around: an address is the number of its
-- octets, most significant first.
use usb_camera_over_tailscal.Base.{ℕ, ◌<◌, ◌^◌, Bool, true, false}

-- `IpAddr`: a `u32` or a `u128`.
pub data IpAddr : Type 0 where
  v4 : ℕ → IpAddr
  v6 : ℕ → IpAddr

abbrev pub is_ipv4 : IpAddr → Bool
is_ipv4 (v4 a) = true
is_ipv4 (v6 a) = false

-- `SocketAddr::new`.
pub record SocketAddr : Type 0 where
  pub ip : IpAddr
  pub port : ℕ

-- The numbers fit their types.
abbrev pub IsAddr : IpAddr → Type 0
IsAddr (v4 a) = a < 2 ^ 32
IsAddr (v6 a) = a < 2 ^ 128
