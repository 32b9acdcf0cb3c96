-- ===== src/Control/Records.antt =====
-- `NoiseConn`: records over a byte stream. An operation leaves the connection changed also where it
-- fails. A read takes at most what it asks for of what the stream has.
pub mod Stream
pub mod RoundTrip
pub mod Timeout
mod Tests
use usb_camera_over_tailscal.Base.{
  ℕ, zero, suc, ◌+◌, ◌-◌, ◌%◌, ◌^◌, Bool, true, false, not, ◌&&◌, List, [], ◌∷◌, ◌++◌, ltb, leb,
  ◌==◌, if◌then◌else◌, length, take, drop, min, Exec, ok, err, panic, try, index, slice_from,
}
use usb_camera_over_tailscal.Base.Words.{u16_from_be}
use usb_camera_over_tailscal.Crypto.{Bytes, Primitives, tag_len}
use usb_camera_over_tailscal.Net.{
  ErrorKind, unexpected_eof, invalid_data, other, Read, got, failing, Conn, write_all,
}
use usb_camera_over_tailscal.Control.{
  msg_error, msg_record, header_len, max_ciphertext, max_plaintext, header, aead_encrypt_be,
  aead_decrypt_be, SessionKeys,
}

pub record NoiseConn : Type 0 where
  pub inner : Conn
  pub tx_key : Bytes
  pub tx_n : ℕ
  pub rx_key : Bytes
  pub rx_n : ℕ
  pub raw_pending : Bytes
  pub plain_pending : Bytes
  pub plain_pos : ℕ

-- `NoiseConn::new`.
pub new : Conn → SessionKeys → Bytes → NoiseConn
new inner keys leftover = record {
  inner = inner;
  tx_key = keys.tx;
  tx_n = 0;
  rx_key = keys.rx;
  rx_n = 0;
  raw_pending = leftover;
  plain_pending = [];
  plain_pos = 0;
}

abbrev pub Io : Type 0 → Type 0
Io A = NoiseConn → Exec ErrorKind A × NoiseConn

abbrev pub bind_io :
    {A B : Type 0} → Exec ErrorKind A × NoiseConn → (A → Io B) → Exec ErrorKind B × NoiseConn
bind_io (ok a, c) f = f a c
bind_io (err e, c) f = (err e, c)
bind_io (panic, c) f = (panic, c)

infixl 5 ◌>>=◌
abbrev pub ◌>>=◌ : {A B : Type 0} → Io A → (A → Io B) → Io B
◌>>=◌ m f c = bind_io (m c) f

abbrev pub lift : {A : Type 0} → Exec ErrorKind A → Io A
lift r c = (r, c)

abbrev pub prepend : Bytes → Exec ErrorKind Bytes × List Read → Exec ErrorKind Bytes × List Read
prepend bs (ok more, reads) = (ok (bs ++ more), reads)
prepend bs (err e, reads) = (err e, reads)
prepend bs (panic, reads) = (panic, reads)

-- `read_exact`: reads until it has all of the bytes; where a read fails, those before it are lost.
pub read_exact : ℕ → List Read → Exec ErrorKind Bytes × List Read
read_exact n [] = if n == 0 then (ok [], []) else (err unexpected_eof, [])
read_exact n (failing e ∷ reads) = if n == 0 then (ok [], failing e ∷ reads) else (err e, reads)
read_exact n (got [] ∷ reads) =
    if n == 0 then (ok [], got [] ∷ reads) else (err unexpected_eof, reads)
read_exact n (got (b ∷ bs) ∷ reads) =
    let rest = read_exact (n - length (b ∷ bs)) reads in
    if n == 0
    then (ok [], got (b ∷ bs) ∷ reads)
    else if ltb n (length (b ∷ bs))
    then (ok (take n (b ∷ bs)), got (drop n (b ∷ bs)) ∷ reads)
    else prepend (b ∷ bs) rest

pub put_incoming : NoiseConn → Exec ErrorKind Bytes × List Read → Exec ErrorKind Bytes × NoiseConn
put_incoming c (r, reads) = (r, record c { inner = record (c.inner) { incoming = reads } })

-- `read_raw_exact`: first of what is pending.
pub read_raw_exact : ℕ → Io Bytes
read_raw_exact n c =
    if leb n (length c.raw_pending)
    then (ok (take n c.raw_pending), record c { raw_pending = drop n c.raw_pending })
    else put_incoming (record c { raw_pending = [] })
        (prepend c.raw_pending (read_exact (n - length c.raw_pending) c.inner.incoming))

module _ (p : Primitives) where
  pub store_plain : Bytes → Io (Unit {0})
  store_plain pt c =
      (ok tt, record c { rx_n = (c.rx_n + 1) % 2 ^ 64; plain_pending = pt; plain_pos = 0 })

  pub open_record : Bytes → Io (Unit {0})
  open_record ct c =
      bind_io (try invalid_data (aead_decrypt_be p c.rx_key c.rx_n ct), c) (λ pt. store_plain pt)

  -- What stands behind the header.
  pub read_rest : ℕ → ℕ → Io (Unit {0})
  read_rest typ len =
      if typ == msg_error
      then (read_raw_exact len >>= λ message. lift (err other))
      else if not (typ == msg_record)
      then lift (err invalid_data)
      else if not (leb tag_len len && leb len max_ciphertext)
      then lift (err invalid_data)
      else (read_raw_exact len >>= λ ct. open_record ct)

  pub read_record : Io (Unit {0})
  read_record = do
    hdr ← read_raw_exact header_len
    typ ← lift (index hdr 0)
    hi ← lift (index hdr 1)
    lo ← lift (index hdr 2)
    read_rest typ (u16_from_be hi lo)

  -- At most `n` bytes of the record that was opened last.
  pub read_plain : ℕ → Io Bytes
  read_plain n c =
      bind_io (slice_from c.plain_pending c.plain_pos, c)
        λ avail c'.
          (ok (take n avail), record c' { plain_pos = c'.plain_pos + min (length avail) n })

  pub read_if_spent : Io (Unit {0})
  read_if_spent c = if leb (length c.plain_pending) c.plain_pos then read_record c else (ok tt, c)

  -- `read` into a buffer of `n` bytes.
  pub read : ℕ → Io Bytes
  read n = read_if_spent >>= λ _. read_plain n

  -- A record, from its header on.
  pub record_bytes : Bytes → ℕ → Bytes → Bytes
  record_bytes key n text =
      let ct = aead_encrypt_be p key n text in header msg_record (length ct) ++ ct

  -- The loop over `chunks(MAX_PLAINTEXT)`, on fuel: the records, and the next counter.
  pub seal_chunks : ℕ → Bytes → ℕ → Bytes → Bytes × ℕ
  seal_chunks zero key n buf = ([], n)
  seal_chunks (suc fuel) key n [] = ([], n)
  seal_chunks (suc fuel) key n (b ∷ bs) =
      let rest = seal_chunks fuel key ((n + 1) % 2 ^ 64) (drop max_plaintext (b ∷ bs)) in
      (record_bytes key n (take max_plaintext (b ∷ bs)) ++ rest.0, rest.1)

  pub written : ℕ → NoiseConn → Exec ErrorKind Conn → Exec ErrorKind ℕ × NoiseConn
  written n c (ok inner) = (ok n, record c { inner = inner })
  written n c (err e) = (err e, c)
  written n c panic = (panic, c)

  -- `write`: each chunk has a byte at least, so that there are no more chunks than bytes.
  pub write : Bytes → Io ℕ
  write buf c =
      let out = seal_chunks (length buf) c.tx_key c.tx_n buf in
      written (length buf) (record c { tx_n = out.1 }) (write_all out.0 c.inner)
