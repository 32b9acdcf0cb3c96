-- ===== src/Control/Records/Stream.antt =====
-- Exact reads from a stream, however the network cuts it.
use usb_camera_over_tailscal.Base.{
  ℕ, ◌-◌, ◌≤◌, ◌≡◌, refl, sym, ap, ◌∙◌, true, false, List, [], ◌∷◌, ◌++◌, inl, inr, arith, ltb,
  ◌==◌, Bool-cases, length, length-drop, take, drop, take-append, drop-append, take-append_le,
  drop-append_le, take-append-drop, Exec, ok,
}
use usb_camera_over_tailscal.Crypto.{Bytes}
use usb_camera_over_tailscal.Net.{ErrorKind, Read, got, failing}
use usb_camera_over_tailscal.Control.Records.{read_exact}

-- What the reads of a stream bring up to the first that fails.
abbrev pub flat : List Read → Bytes
flat [] = []
flat (got bs ∷ reads) = bs ++ flat reads
flat (failing e ∷ reads) = []

-- Every read brings something.
abbrev pub IsSteady : List Read → Type 0
IsSteady [] = Unit
IsSteady (got [] ∷ reads) = ⊥
IsSteady (got (b ∷ bs) ∷ reads) = IsSteady reads
IsSteady (failing e ∷ reads) = ⊥

pub split_of :
    (a b xs ys : Bytes)
    → a ++ b ≡ xs ++ ys
    → length a ≤ length xs
    → (xs ≡ a ++ drop (length a) xs) × (b ≡ drop (length a) xs ++ ys)
split_of a b xs ys e h =
    let front : take (length a) xs ≡ a =
      sym (take-append_le (length a) xs ys h)
      ∙ ap (λ l. take (length a) l) (sym e)
      ∙ take-append (length a) a b refl in
    (
      sym (ap (λ l. l ++ drop (length a) xs) (sym front) ∙ take-append-drop (length a) xs),
      sym (drop-append (length a) a b refl)
          ∙ ap (λ l. drop (length a) l) e
          ∙ drop-append_le (length a) xs ys h,
    )

IsSteady-cut :
    (bs : Bytes) (reads : List Read) → 1 ≤ length bs → IsSteady reads → IsSteady (got bs ∷ reads)
IsSteady-cut [] reads h k = absurd (omega arith)
IsSteady-cut (b ∷ bs) reads h k = k

-- An exact read found its bytes, and these stand behind them.
pub record Took (r : Exec ErrorKind Bytes × List Read) (xs ys : Bytes) : Type 0 where
  pub rest : List Read
  pub reads : r ≡ (ok xs, rest)
  pub steady : IsSteady rest
  pub behind : flat rest ≡ ys

empty : (xs : Bytes) → length xs ≡ 0 → xs ≡ []
empty [] h = refl
empty (x ∷ xs) h = absurd (omega arith)

read_on :
    (n b : ℕ) (bs : Bytes) (reads : List Read) (xs more ys : Bytes)
    → (n == 0) ≡ false
    → ltb n (length (b ∷ bs)) ≡ false
    → xs ≡ (b ∷ bs) ++ more
    → Took (read_exact (n - length (b ∷ bs)) reads) more ys
    → Took (read_exact n (got (b ∷ bs) ∷ reads)) xs ys
unfolding read_exact
read_on n b bs reads xs more ys some all whole t = record {
  rest = t.rest;
  reads = rw (some, all, t.reads, whole) refl;
  steady = t.steady;
  behind = t.behind;
}

read_part :
    (n b : ℕ) (bs : Bytes) (reads : List Read) (xs ys : Bytes)
    → (n == 0) ≡ false
    → ltb n (length (b ∷ bs)) ≡ true
    → length xs ≡ n
    → IsSteady reads
    → (b ∷ bs ≡ xs ++ drop (length xs) (b ∷ bs)) × (ys ≡ drop (length xs) (b ∷ bs) ++ flat reads)
    → Took (read_exact n (got (b ∷ bs) ∷ reads)) xs ys
unfolding read_exact
read_part n b bs reads xs ys some less size steady (front, back) =
    let taken : take n (b ∷ bs) ≡ xs =
      ap (λ l. take n l) front ∙ take-append n xs (drop (length xs) (b ∷ bs)) size in
    record {
      rest = got (drop n (b ∷ bs)) ∷ reads;
      reads = rw (some, less, taken) refl;
      steady =
          IsSteady-cut (drop n (b ∷ bs)) reads (ground (arith, less, length-drop n (b ∷ bs)))
            steady;
      behind = sym (back ∙ ap (λ k. drop k (b ∷ bs) ++ flat reads) size);
    }

pub read_exact-flat :
    (n : ℕ) (reads : List Read) (xs ys : Bytes)
    → IsSteady reads
    → flat reads ≡ xs ++ ys
    → length xs ≡ n
    → Took (read_exact n reads) xs ys
unfolding read_exact
read_exact-flat n [] [] ys steady whole size = record {
  rest = [];
  reads = rw (sym size) refl;
  steady = tt;
  behind = whole;
}
read_exact-flat n [] (x ∷ xs) ys steady whole size = absurd (cc whole)
read_exact-flat n (failing e ∷ reads) xs ys steady whole size = absurd steady
read_exact-flat n (got [] ∷ reads) xs ys steady whole size = absurd steady
read_exact-flat n (got (b ∷ bs) ∷ reads) xs ys steady whole size = elim (Bool-cases (n == 0)) [
  | inl none ↦
      let e : xs ≡ [] = empty xs (ground arith) in
      record {
        rest = got (b ∷ bs) ∷ reads;
        reads = rw (none, e) refl;
        steady = steady;
        behind = whole ∙ ap (λ l. l ++ ys) e;
      }
  | inr more ↦ elim (Bool-cases (ltb n (length (b ∷ bs)))) [
    | inl less ↦
        read_part n b bs reads xs ys more less size steady
          (split_of xs ys (b ∷ bs) (flat reads) (sym whole) (ground arith))
    | inr all ↦
        let (front, back) = split_of (b ∷ bs) (flat reads) xs ys whole (ground arith) in
        read_on n b bs reads xs (drop (length (b ∷ bs)) xs) ys more all front (
          read_exact-flat (n - length (b ∷ bs)) reads (drop (length (b ∷ bs)) xs) ys steady back
            (omega (arith, length-drop (length (b ∷ bs)) xs)))
  ]
]
