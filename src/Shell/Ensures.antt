-- ===== src/Shell/Ensures.antt =====
-- What a piece of the shell leaves behind, however it ends: an invariant of the device, and a fact
-- about its result, with a rule for each way of putting pieces together.
use usb_camera_over_tailscal.Base.{◌≡◌, refl, Bool, true, false, if◌then◌else◌}
use usb_camera_over_tailscal.Shell.{
  Message, Shell, Run, done, waiting, rebooted, spent, M, bind_run, ◌>>=◌, pure, say, act, look,
  reboot,
}

abbrev pub Post {ℓ} : {D A : Type 0} → (D → Type ℓ) → (A → Type ℓ) → Run D A → Type ℓ
Post P Q (done a s) = P s.device × Q a
Post P Q (waiting s) = P s.device
Post P Q (rebooted s) = P s.device
Post P Q (spent s) = P s.device

unfoldable pub Ensures {ℓ} : {D A : Type 0} → (D → Type ℓ) → (A → Type ℓ) → M D A → Type ℓ
Ensures P Q m = (s : Shell _) → P s.device → Post P Q (m s)

-- Nothing is said of the result.
abbrev pub Any : {A : Type 0} → A → Type 0
Any a = Unit

module _ {D : Type 0} (P : D → Type 0) where
  pub Ensures-run :
      {A : Type 0} (Q : A → Type 0) (m : M D A) (s : Shell D)
      → Ensures P Q m
      → P s.device
      → Post P Q (m s)
  unfolding Ensures
  Ensures-run Q m s h start = h s start

  pub Ensures-by :
      {A : Type 0} (Q : A → Type 0) (m : M D A)
      → ((s : Shell D) → P s.device → Post P Q (m s))
      → Ensures P Q m
  unfolding Ensures
  Ensures-by Q m h = h

  Post-bind :
      {A B : Type 0} (Q : A → Type 0) (R : B → Type 0) (r : Run D A) (f : A → M D B)
      → Post P Q r
      → ((a : A) → Q a → Ensures P R (f a))
      → Post P R (bind_run r f)
  unfolding Ensures
  Post-bind Q R (done a s) f (h, q) k = k a q s h
  Post-bind Q R (waiting s) f h k = h
  Post-bind Q R (rebooted s) f h k = h
  Post-bind Q R (spent s) f h k = h

  pub Ensures->>= :
      {A B : Type 0} (Q : A → Type 0) (R : B → Type 0) (m : M D A) (f : A → M D B)
      → Ensures P Q m
      → ((a : A) → Q a → Ensures P R (f a))
      → Ensures P R (m >>= f)
  unfolding Ensures
  Ensures->>= Q R m f h k s start = Post-bind Q R (m s) f (h s start) k

  -- The rule for a step of which nothing is needed but that it keeps the invariant.
  pub Ensures-then :
      {A B : Type 0} (R : B → Type 0) (m : M D A) (f : A → M D B)
      → Ensures P Any m
      → ((a : A) → Ensures P R (f a))
      → Ensures P R (m >>= f)
  Ensures-then R m f h k = Ensures->>= Any R m f h (λ a _. k a)

  pub Ensures-pure : {A : Type 0} (Q : A → Type 0) (a : A) → Q a → Ensures P Q (pure a)
  unfolding Ensures
  Ensures-pure Q a q s h = (h, q)

  pub Ensures-say : (m : Message) → Ensures P Any (say m)
  unfolding Ensures say
  Ensures-say m s h = (h, tt)

  pub Ensures-look : {A : Type 0} (f : D → A) → Ensures P Any (look f)
  unfolding Ensures look
  Ensures-look f s h = (h, tt)

  -- An observation that the invariant speaks of.
  pub Ensures-look_at :
      {A : Type 0} (Q : A → Type 0) (f : D → A) → ((d : D) → P d → Q (f d)) → Ensures P Q (look f)
  unfolding Ensures look
  Ensures-look_at Q f k s h = (h, k s.device h)

  pub Ensures-act :
      {A : Type 0} (f : D → A × D) → ((d : D) → P d → P (f d).1) → Ensures P Any (act f)
  unfolding Ensures act
  Ensures-act f keep s h = (keep s.device h, tt)

  pub Ensures-reboot : {A : Type 0} (Q : A → Type 0) → Ensures P Q (reboot {A = A})
  unfolding Ensures reboot
  Ensures-reboot Q s h = h

  pub Ensures-waiting : {A : Type 0} (Q : A → Type 0) → Ensures {A = A} P Q (λ s. waiting s)
  unfolding Ensures
  Ensures-waiting Q s h = h

  pub Ensures-spent : {A : Type 0} (Q : A → Type 0) → Ensures {A = A} P Q (λ s. spent s)
  unfolding Ensures
  Ensures-spent Q s h = h

  pub Ensures-if :
      {A : Type 0} (Q : A → Type 0) (b : Bool) (m n : M D A)
      → (b ≡ true → Ensures P Q m)
      → (b ≡ false → Ensures P Q n)
      → Ensures P Q (if b then m else n)
  Ensures-if Q true m n h k = h refl
  Ensures-if Q false m n h k = k refl
