-- ===== src/Control/Records/Timeout.antt =====
-- A read that fails between two parts of a record.
use usb_camera_over_tailscal.Base.{
  ℕ, ◌-◌, ◌≤◌, ◌<◌, ◌≡◌, refl, false, List, [], ◌∷◌, arith, ltb, le→leb, ◌==◌, length, err,
}
use usb_camera_over_tailscal.Crypto.{Bytes, Primitives}
use usb_camera_over_tailscal.Net.{ErrorKind, Read, got, failing}
use usb_camera_over_tailscal.Control.{header_len}
use usb_camera_over_tailscal.Control.Records.{
  NoiseConn, read_exact, put_incoming, read_raw_exact, read_record, read_if_spent, read,
}

read_exact-failing :
    (n b : ℕ) (bs : Bytes) (e : ErrorKind) (reads : List Read)
    → length (b ∷ bs) < n
    → read_exact n (got (b ∷ bs) ∷ failing e ∷ reads) ≡ (err e, reads)
unfolding read_exact
read_exact-failing n b bs e reads less =
    let some : (n == 0) ≡ false = ground arith in
    let all : ltb n (length (b ∷ bs)) ≡ false = ground arith in
    let more : ((n - length (b ∷ bs)) == 0) ≡ false = ground arith in rw (some, all, more) refl

-- When a read of the stream fails, by a timeout for instance, after it brought a part of a header, `read`
-- fails in the same way, and the part is lost: the next header is read from what follows it.
pub read-failing :
    (p : Primitives) (n b : ℕ) (bs : Bytes) (e : ErrorKind) (reads : List Read) (c : NoiseConn)
    → length c.plain_pending ≤ c.plain_pos
    → c.raw_pending ≡ []
    → c.inner.incoming ≡ got (b ∷ bs) ∷ failing e ∷ reads
    → length (b ∷ bs) < header_len
    → read p n c ≡ (err e, record c { inner = record (c.inner) { incoming = reads } })
unfolding read read_if_spent read_record read_raw_exact put_incoming
read-failing p n b bs e reads c spent none whole less =
    rw (le→leb (length c.plain_pending) c.plain_pos spent)
      (simp (none, whole, read_exact-failing header_len b bs e reads less) refl)
