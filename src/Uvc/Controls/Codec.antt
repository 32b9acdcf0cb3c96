-- ===== src/Uvc/Controls/Codec.antt =====
-- A value that is written into a control's data is read back, and the other values stay.
use usb_camera_over_tailscal.Base.{
  ℕ, ◌+◌, ◌-◌, ◌≤◌, ◌≡◌, refl, ◌∙◌, sym, ap, Bool, true, false, ◌++◌, ◌⊎◌, inl, inr, le→leb, arith,
  length, length-append, length-take, length-drop, take, drop, take-append, drop-append,
  take-append_le, drop-append_le, drop-drop, take-append-drop, ok, ◌>>=◌,
}
use usb_camera_over_tailscal.Base.Int.{ℤ, pos, negsuc, ◌≤ℤ◌}
use usb_camera_over_tailscal.Base.Words.{to_le, from_le, length-to_le, take-to_le}
use usb_camera_over_tailscal.Crypto.{Bytes}
use usb_camera_over_tailscal.Uvc.Controls.{
  ControlDef, lowest, highest, to_u64, to_i64, value_of, decode, encode,
}

-- The value fits a control of `len` bytes.
abbrev pub InRange : Bool → ℕ → ℤ → Type 0
InRange signed len v = (lowest signed len ≤ℤ v) × (v ≤ℤ highest signed len)

-- The sizes that the table has.
abbrev pub IsSize : ℕ → Type 0
IsSize n = (n ≡ 1) ⊎ ((n ≡ 2) ⊎ (n ≡ 4))

-- The bytes of a value give it back.
Reads : ℕ → Type 0
Reads n =
    (signed : Bool) (v : ℤ)
    → InRange signed n v
    → value_of signed n (from_le (to_le n (to_u64 v))) ≡ v

Reads-one : Reads 1
unfolding Reads value_of to_u64 to_i64
Reads-one true (pos k) h = ground arith
Reads-one true (negsuc k) h = ground arith
Reads-one false (pos k) h = ground arith
Reads-one false (negsuc k) h = ground arith

Reads-two : Reads 2
unfolding Reads value_of to_u64 to_i64
Reads-two true (pos k) h = ground arith
Reads-two true (negsuc k) h = ground arith
Reads-two false (pos k) h = ground arith
Reads-two false (negsuc k) h = ground arith

Reads-four : Reads 4
unfolding Reads value_of to_u64 to_i64
Reads-four true (pos k) h = ground arith
Reads-four true (negsuc k) h = ground arith
Reads-four false (pos k) h = ground arith
Reads-four false (negsuc k) h = ground arith

Reads-size : (n : ℕ) → IsSize n → Reads n
Reads-size n (inl e) = rw e Reads-one
Reads-size n (inr (inl e)) = rw e Reads-two
Reads-size n (inr (inr e)) = rw e Reads-four

size_bound : (n : ℕ) → IsSize n → n ≤ 8
size_bound n (inl e) = omega arith
size_bound n (inr (inl e)) = omega arith
size_bound n (inr (inr e)) = omega arith

-- The bytes `lo .. lo + n`.
window : ℕ → ℕ → Bytes → Bytes
window lo n bytes = take n (drop lo bytes)

module _ (lo n : ℕ) (bytes new : Bytes) (fits : lo + n ≤ length bytes) (size : length new ≡ n) where
  abbrev written : Bytes
  written = take lo bytes ++ (new ++ drop (lo + n) bytes)

  before_size : length (take lo bytes) ≡ lo
  before_size = omega (arith, length-take lo bytes)

  length-written : length written ≡ length bytes
  length-written = omega (
    arith,
    before_size,
    length-append (take lo bytes) (new ++ drop (lo + n) bytes),
    length-append new (drop (lo + n) bytes),
    length-drop (lo + n) bytes,
  )

  window-written : window lo n written ≡ new
  unfolding window
  window-written =
      ap (λ l. take n l) (drop-append lo (take lo bytes) (new ++ drop (lo + n) bytes) before_size)
      ∙ take-append n new (drop (lo + n) bytes) size

  -- A window below the bytes that are written, or above them, shows what it showed.
  window_below : (at k : ℕ) → at + k ≤ lo → window at k written ≡ window at k bytes
  unfolding window
  window_below at k below =
      ap (λ l. take k l)
        (drop-append_le at (take lo bytes) (new ++ drop (lo + n) bytes)
          (omega (arith, before_size)))
      ∙ take-append_le k (drop at (take lo bytes)) (new ++ drop (lo + n) bytes)
          (omega (arith, before_size, length-drop at (take lo bytes)))
      ∙ sym (
          ap (λ l. take k (drop at l)) (sym (take-append-drop lo bytes))
          ∙ ap (λ l. take k l)
              (drop-append_le at (take lo bytes) (drop lo bytes) (omega (arith, before_size)))
          ∙ take-append_le k (drop at (take lo bytes)) (drop lo bytes)
              (omega (arith, before_size, length-drop at (take lo bytes))))

  drop-written : (k : ℕ) → drop (lo + n + k) written ≡ drop (lo + n + k) bytes
  drop-written k =
      sym (drop-drop k (lo + n) written)
      ∙ ap (λ l. drop k l)
          (sym (drop-drop n lo written)
            ∙ ap (λ l. drop n l)
                (drop-append lo (take lo bytes) (new ++ drop (lo + n) bytes) before_size)
            ∙ drop-append n new (drop (lo + n) bytes) size)
      ∙ drop-drop k (lo + n) bytes

  window_above : (at k : ℕ) → lo + n ≤ at → window at k written ≡ window at k bytes
  unfolding window
  window_above at k above =
      let e : at ≡ lo + n + (at - (lo + n)) = omega arith in
      ap (λ j. take k (drop j written)) e
      ∙ ap (λ l. take k l) (drop-written (at - (lo + n)))
      ∙ ap (λ j. take k (drop j bytes)) (sym e)

abbrev bytes_of : ControlDef → ℤ → Bytes
bytes_of def v = take def.len (to_le 8 (to_u64 v))

module _ (def : ControlDef) (size : IsSize def.len) (v : ℤ) (bytes : Bytes)
    (fits : def.offset + def.len ≤ length bytes) where
  bytes_of-to_le : bytes_of def v ≡ to_le def.len (to_u64 v)
  bytes_of-to_le = take-to_le def.len 8 (to_u64 v) (size_bound def.len size)

  length-bytes_of : length (bytes_of def v) ≡ def.len
  length-bytes_of = ap length bytes_of-to_le ∙ length-to_le def.len (to_u64 v)

  encode-written :
      {E : Type 0}
      → encode {E = E} def v bytes
        ≡ ok (written def.offset def.len bytes (bytes_of def v) fits length-bytes_of)
  unfolding encode
  encode-written =
      rw
        (
          le→leb (def.offset + def.len) (length bytes) fits,
          le→leb def.len 8 (size_bound def.len size),
        )
        refl

decode-window :
    (def : ControlDef) (bytes : Bytes)
    → IsSize def.len
    → def.offset + def.len ≤ length bytes
    → decode def bytes
      ≡ ok (value_of def.signed def.len (from_le (window def.offset def.len bytes)))
unfolding decode window
decode-window def bytes size fits =
    rw
      (
        le→leb (def.offset + def.len) (length bytes) fits,
        le→leb def.len 8 (size_bound def.len size),
      )
      refl

module _ (def : ControlDef) (size : IsSize def.len) (v : ℤ) (bytes : Bytes)
    (fits : def.offset + def.len ≤ length bytes) where
  abbrev result : Bytes
  result =
      written def.offset def.len bytes (bytes_of def v) fits (length-bytes_of def size v bytes fits)

  result_size : length result ≡ length bytes
  result_size =
      length-written def.offset def.len bytes (bytes_of def v) fits
        (length-bytes_of def size v bytes fits)

  -- A value within the range of a control of one, two or four bytes is read back from data that is
  -- long enough.
  pub decode-encode :
      InRange def.signed def.len v → (encode def v bytes >>= λ b. decode def b) ≡ ok v
  unfolding Reads
  decode-encode range = rw (encode-written def size v bytes fits) (
      decode-window def result size (omega (arith, result_size, fits))
      ∙ ap (λ b. ok (value_of def.signed def.len (from_le b)))
          (window-written def.offset def.len bytes (bytes_of def v) fits
              (length-bytes_of def size v bytes fits)
            ∙ bytes_of-to_le def size v bytes fits)
      ∙ ap ok (Reads-size def.len size def.signed v range))

  window_other :
      (other : ControlDef)
      → (other.offset + other.len ≤ def.offset) ⊎ (def.offset + def.len ≤ other.offset)
      → window other.offset other.len result ≡ window other.offset other.len bytes
  window_other other (inl below) =
      window_below def.offset def.len bytes (bytes_of def v) fits
        (length-bytes_of def size v bytes fits) other.offset other.len below
  window_other other (inr above) =
      window_above def.offset def.len bytes (bytes_of def v) fits
        (length-bytes_of def size v bytes fits) other.offset other.len above

  -- Writing one control leaves every control of one, two or four bytes that lies beside it in the same
  -- data as it was.
  pub decode-encode_other :
      (other : ControlDef)
      → IsSize other.len
      → other.offset + other.len ≤ length bytes
      → (other.offset + other.len ≤ def.offset) ⊎ (def.offset + def.len ≤ other.offset)
      → (encode def v bytes >>= λ b. decode other b) ≡ decode other bytes
  decode-encode_other other other_size other_fits beside =
      rw (encode-written def size v bytes fits) (
        decode-window other result other_size (omega (arith, result_size, other_fits))
        ∙ ap (λ b. ok (value_of other.signed other.len (from_le b))) (window_other other beside)
        ∙ sym (decode-window other bytes other_size other_fits))
