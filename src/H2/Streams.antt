-- ===== src/H2/Streams.antt =====
-- The map of the streams, as an association list: what the handler reads and writes of it.
use usb_camera_over_tailscal.Base.{
  ℕ, ◌≡◌, ◌≢◌, refl, List, [], ◌∷◌, Option, none, some, arith, ◌==◌, ==_iff, ne→==_false,
  if◌then◌else◌, Bool-cases, inl, inr,
}
use mathlib.Core.Option
use usb_camera_over_tailscal.H2.{Stream, default_stream}

abbrev pub Streams : Type 0
Streams = List (ℕ × Stream)

-- `streams.get(&k)`.
unfoldable pub lookup : ℕ → Streams → Option Stream
lookup k [] = none
lookup k ((j, s) ∷ m) = if j == k then some s else lookup k m

-- `if let Some(s) = streams.get_mut(&k)` with a change of the stream.
unfoldable pub modify : ℕ → (Stream → Stream) → Streams → Streams
modify k f [] = []
modify k f ((j, s) ∷ m) = if j == k then (j, f s) ∷ m else (j, s) ∷ modify k f m

-- `streams.entry(k).or_default()` with a change of the stream; also `insert`.
unfoldable pub modify_or_default : ℕ → (Stream → Stream) → Streams → Streams
modify_or_default k f [] = (k, f default_stream) ∷ []
modify_or_default k f ((j, s) ∷ m) =
    if j == k then (j, f s) ∷ m else (j, s) ∷ modify_or_default k f m

-- `for s in streams.values_mut()`.
unfoldable pub modify_all : (Stream → Stream) → Streams → Streams
modify_all f [] = []
modify_all f ((j, s) ∷ m) = (j, f s) ∷ modify_all f m

module _ (k : ℕ) (f : Stream → Stream) where
  pub lookup-modify : (m : Streams) → lookup k (modify k f m) ≡ Option.map f (lookup k m)
  unfolding lookup modify
  lookup-modify [] = refl
  lookup-modify ((j, s) ∷ m) = elim (Bool-cases (j == k)) [
    | inl here ↦ rw (here, here) refl
    | inr there ↦ rw (there, there) (lookup-modify m)
  ]

  pub lookup-modify_ne : (j : ℕ) (m : Streams) → j ≢ k → lookup j (modify k f m) ≡ lookup j m
  unfolding lookup modify
  lookup-modify_ne j [] h = refl
  lookup-modify_ne j ((i, s) ∷ m) h = ground (arith, lookup-modify_ne j m h, ==_iff i j, ==_iff i k)

  pub lookup-modify_or_default_ne :
      (j : ℕ) (m : Streams) → j ≢ k → lookup j (modify_or_default k f m) ≡ lookup j m
  unfolding lookup modify_or_default
  lookup-modify_or_default_ne j [] h = rw (ne→==_false k j (λ e. absurd (h (omega arith))))
  lookup-modify_or_default_ne j ((i, s) ∷ m) h =
      ground (arith, lookup-modify_or_default_ne j m h, ==_iff i j, ==_iff i k)

pub lookup-modify_all :
    (f : Stream → Stream) (j : ℕ) (m : Streams)
    → lookup j (modify_all f m) ≡ Option.map f (lookup j m)
unfolding lookup modify_all
lookup-modify_all f j [] = refl
lookup-modify_all f j ((i, s) ∷ m) = elim (Bool-cases (i == j)) [
  | inl here ↦ rw here refl
  | inr there ↦ rw there (lookup-modify_all f j m)
]
