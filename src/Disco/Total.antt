-- ===== src/Disco/Total.antt =====
-- Reading a disco message never indexes or slices out of range.
use usb_camera_over_tailscal.Base.{
  ℕ, zero, suc, ◌*◌, ◌/◌, ◌%◌, ◌≤◌, not, ◌||◌, List, arith, ltb, ◌==◌, Bool-cases, inl, inr, length,
  take, drop, length-take, length-drop, NoPanic, fail_if-NoPanic, index-NoPanic, slice-NoPanic,
  slice_from-NoPanic, NoPanic->>=,
}
use usb_camera_over_tailscal.Disco.{
  version, get_endpoint, get_endpoints, get_key, parse_ping, parse_pong, parse_call_me_maybe, parse,
}

get_endpoint-NoPanic : (c : List ℕ) → 18 ≤ length c → NoPanic (get_endpoint c)
unfolding get_endpoint
get_endpoint-NoPanic c h =
    slice-NoPanic c 0 16 _ (omega arith) (omega arith)
      λ a e. index-NoPanic c 16 _ (omega arith) λ hi. index-NoPanic c 17 _ (omega arith) λ lo. tt

get_endpoints-NoPanic : (n : ℕ) (d : List ℕ) → n * 18 ≤ length d → NoPanic (get_endpoints n d)
unfolding get_endpoints
get_endpoints-NoPanic zero d h = tt
get_endpoints-NoPanic (suc n) d h =
    let rest = get_endpoints-NoPanic n (drop 18 d) (omega (arith, length-drop 18 d)) in
    NoPanic->>= (get_endpoint (take 18 d)) _
      (get_endpoint-NoPanic (take 18 d) (omega (arith, length-take 18 d)))
      λ e p. NoPanic->>= (get_endpoints n (drop 18 d)) _ rest λ es q. tt

get_key-NoPanic : (d : List ℕ) → NoPanic (get_key d)
unfolding get_key
get_key-NoPanic d = elim (Bool-cases (ltb (length d) 44)) [
  | inl short ↦ rw short tt
  | inr long ↦ rw long (slice-NoPanic d 12 44 _ (omega arith) (ground arith) λ k e. tt)
]

parse_ping-NoPanic : (d : List ℕ) → NoPanic (parse_ping d)
unfolding parse_ping
parse_ping-NoPanic d = fail_if-NoPanic (ltb (length d) 12) tt _ λ long.
    slice-NoPanic d 0 12 _ (omega arith) (ground arith)
      λ txid e. NoPanic->>= (get_key d) _ (get_key-NoPanic d) λ k p. tt

parse_pong-NoPanic : (d : List ℕ) → NoPanic (parse_pong d)
unfolding parse_pong
parse_pong-NoPanic d = fail_if-NoPanic (ltb (length d) 30) tt _ λ long.
    slice-NoPanic d 0 12 _ (omega arith) (ground arith) λ txid e.
      slice-NoPanic d 12 28 _ (omega arith) (ground arith) λ a e'.
        index-NoPanic d 28 _ (ground arith) λ hi. index-NoPanic d 29 _ (ground arith) λ lo. tt

parse_call_me_maybe-NoPanic : (d : List ℕ) → NoPanic (parse_call_me_maybe d)
unfolding parse_call_me_maybe
parse_call_me_maybe-NoPanic d =
    fail_if-NoPanic (length d == 0 || not (length d % 18 == 0)) tt _ λ whole.
      NoPanic->>= (get_endpoints (length d / 18) d) _
        (get_endpoints-NoPanic (length d / 18) d (omega arith)) λ es p. tt

-- Reading a message never indexes or slices out of range, whatever its bytes.
pub parse-NoPanic : (p : List ℕ) → NoPanic (parse p)
unfolding parse
parse-NoPanic p = fail_if-NoPanic (ltb (length p) 2) tt _ λ long.
    index-NoPanic p 0 _ (ground arith) λ t. index-NoPanic p 1 _ (ground arith) λ ver.
      slice_from-NoPanic p 2 _ (ground arith) λ d e.
        fail_if-NoPanic (not (ver == version)) tt _ λ known.
          ground (arith, parse_ping-NoPanic d, parse_pong-NoPanic d, parse_call_me_maybe-NoPanic d)
