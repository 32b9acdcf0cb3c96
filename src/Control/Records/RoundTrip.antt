-- ===== src/Control/Records/RoundTrip.antt =====
-- What one end writes, the other end reads.
use usb_camera_over_tailscal.Base.{
  ℕ, zero, suc, ◌+◌, ◌-◌, ◌%◌, ◌^◌, ◌≤◌, ◌≡◌, refl, sym, ap, ◌∙◌, true, false, [], ◌∷◌, ◌++◌, inl,
  inr, arith, leb, Bool-cases, length, length-drop, take, drop, take-append, ok,
}
use usb_camera_over_tailscal.Crypto.{Bytes, Primitives, IsSound}
use usb_camera_over_tailscal.Net.{Conn}
use usb_camera_over_tailscal.Control.{max_plaintext, max_message}
use usb_camera_over_tailscal.Control.Records.{
  NoiseConn, Io, ◌>>=◌, lift, read_exact, put_incoming, read_raw_exact, read_record, read,
  seal_chunks,
}
use usb_camera_over_tailscal.Control.Records.Stream.{
  flat, IsSteady, split_of, Took, read_exact-flat,
}

-- The bytes that are still to come to a connection.
abbrev pub coming : NoiseConn → Bytes
coming c = c.raw_pending ++ flat c.inner.incoming

-- A raw read found its bytes and left the others.
pub record RawRead (n : ℕ) (c : NoiseConn) (xs ys : Bytes) : Type 0 where
  pub raw : Bytes
  pub inner : Conn
  pub reads : read_raw_exact n c ≡ (ok xs, record c { raw_pending = raw; inner = inner })
  pub steady : IsSteady inner.incoming
  pub behind : raw ++ flat inner.incoming ≡ ys

raw_part :
    (n : ℕ) (c : NoiseConn) (xs ys : Bytes)
    → leb n (length c.raw_pending) ≡ true
    → IsSteady c.inner.incoming
    → length xs ≡ n
    → (c.raw_pending ≡ xs ++ drop (length xs) c.raw_pending)
      × (ys ≡ drop (length xs) c.raw_pending ++ flat c.inner.incoming)
    → RawRead n c xs ys
unfolding read_raw_exact
raw_part n c xs ys enough steady size (front, back) =
    let taken : take n c.raw_pending ≡ xs =
      ap (λ l. take n l) front ∙ take-append n xs (drop (length xs) c.raw_pending) size in
    record {
      raw = drop n c.raw_pending;
      inner = c.inner;
      reads = rw (enough, taken) refl;
      steady = steady;
      behind = sym (back ∙ ap (λ k. drop k c.raw_pending ++ flat c.inner.incoming) size);
    }

raw_all :
    (n : ℕ) (c : NoiseConn) (xs more ys : Bytes)
    → leb n (length c.raw_pending) ≡ false
    → xs ≡ c.raw_pending ++ more
    → Took (read_exact (n - length c.raw_pending) c.inner.incoming) more ys
    → RawRead n c xs ys
unfolding read_raw_exact put_incoming
raw_all n c xs more ys short whole t = record {
  raw = [];
  inner = record (c.inner) { incoming = t.rest };
  reads = rw (short, t.reads, whole) refl;
  steady = t.steady;
  behind = t.behind;
}

pub read_raw_exact-coming :
    (n : ℕ) (c : NoiseConn) (xs ys : Bytes)
    → IsSteady c.inner.incoming
    → coming c ≡ xs ++ ys
    → length xs ≡ n
    → RawRead n c xs ys
read_raw_exact-coming n c xs ys steady whole size =
    elim (Bool-cases (leb n (length c.raw_pending))) [
      | inl enough ↦
          raw_part n c xs ys enough steady size
            (split_of xs ys c.raw_pending (flat c.inner.incoming) (sym whole) (ground arith))
      | inr short ↦
          let (front, back) =
            split_of c.raw_pending (flat c.inner.incoming) xs ys whole (ground arith) in
          raw_all n c xs (drop (length c.raw_pending) xs) ys short front (
            read_exact-flat (n - length c.raw_pending) c.inner.incoming
              (drop (length c.raw_pending) xs) ys steady back
              (omega (arith, length-drop (length c.raw_pending) xs)))
    ]

-- A connection that has opened a record.
abbrev pub opened : NoiseConn → Bytes → Conn → Bytes → NoiseConn
opened c raw inner text = record c {
  raw_pending = raw;
  inner = inner;
  rx_n = (c.rx_n + 1) % 2 ^ 64;
  plain_pending = text;
  plain_pos = 0;
}

module _ (p : Primitives) (sound : IsSound p) where
  pub record Opened (c : NoiseConn) (text ys : Bytes) : Type 0 where
    pub raw : Bytes
    pub inner : Conn
    pub reads : read_record p c ≡ (ok tt, opened c raw inner text)
    pub steady : IsSteady inner.incoming
    pub behind : raw ++ flat inner.incoming ≡ ys

  -- A read of a record that fits the buffer.
  pub record Arrived (c : NoiseConn) (text ys : Bytes) : Type 0 where
    pub after : NoiseConn
    pub reads : read p max_message c ≡ (ok text, after)
    pub key : after.rx_key ≡ c.rx_key
    pub counter : after.rx_n ≡ (c.rx_n + 1) % 2 ^ 64
    pub spent : length after.plain_pending ≤ after.plain_pos
    pub steady : IsSteady after.inner.incoming
    pub behind : coming after ≡ ys

module _ (p : Primitives) where
  -- `k` reads, one after the other, each into a buffer that takes a whole record.
  pub receive : ℕ → Io Bytes
  receive zero = λ c. (ok [], c)
  receive (suc k) = do bytes ← read p max_message; more ← receive k; lift (ok (bytes ++ more))

-- The number of the records of a buffer.
pub chunk_count : ℕ → Bytes → ℕ
chunk_count zero buf = 0
chunk_count (suc fuel) [] = 0
chunk_count (suc fuel) (b ∷ bs) = suc (chunk_count fuel (drop max_plaintext (b ∷ bs)))

module _ (p : Primitives) (sound : IsSound p) where
  -- The text was received, and the receiver is ready for what stands behind it.
  pub record Received (k : ℕ) (c : NoiseConn) (text : Bytes) (next : ℕ) (ys : Bytes) : Type 0 where
    pub after : NoiseConn
    pub reads : receive p k c ≡ (ok text, after)
    pub counter : after.rx_n ≡ next
    pub behind : coming after ≡ ys

  abbrev sent_by : NoiseConn → Bytes → NoiseConn
  sent_by a buf =
      let out = seal_chunks p (length buf) a.tx_key a.tx_n buf in
      record a { tx_n = out.1; inner = record (a.inner) { sent = a.inner.sent ++ out.0 } }
