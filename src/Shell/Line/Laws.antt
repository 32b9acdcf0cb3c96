-- ===== src/Shell/Line/Laws.antt =====
-- Reading a line leaves the device alone, keeps to the length, and hides what is typed blindly.
use usb_camera_over_tailscal.Base.{ℕ, Bool, List, [], ◌∷◌, ◌++◌, Option, none, some, if_intro, ◌==◌}
use usb_camera_over_tailscal.Base.Text.{Text}
use usb_camera_over_tailscal.Base.Words.{All}
use usb_camera_over_tailscal.Shell.{
  Message, echoed, Poll, Shell, Run, done, waiting, rebooted, spent, say,
}
use usb_camera_over_tailscal.Shell.Ensures.{
  Post, Ensures, Any, Ensures-then, Ensures-say, Ensures-pure,
}
use usb_camera_over_tailscal.Shell.Line.{
  Pressed, go_on, finish, key, expired, pressed, poll_by, read_loop, read_line, or_empty, ask,
}

module _ {D : Type 0} (P : D → Type 0) where
  pressed-Post :
      (go : Text → Shell D → Run D (Option Text)) (rest : List Poll) (s : Shell D) (k : Pressed)
      → ((t : Text) (s' : Shell D) → P s'.device → Post P Any (go t s'))
      → P s.device
      → Post P Any (pressed go rest s k)
  unfolding pressed
  pressed-Post go rest s (go_on t out) next h = next t (record s { output = s.output ++ out }) h
  pressed-Post go rest s (finish t out) next h = (h, tt)

  poll_by-Post :
      (go : Text → Shell D → Run D (Option Text)) (echo : Bool) (t : Text) (rest : List Poll)
      (s : Shell D) (b : Option ℕ)
      → ((t : Text) (s' : Shell D) → P s'.device → Post P Any (go t s'))
      → P s.device
      → Post P Any (poll_by go echo t rest s b)
  unfolding poll_by
  poll_by-Post go echo t rest s none next h = next t s h
  poll_by-Post go echo t rest s (some b) next h =
      pressed-Post go rest (record s { swallow_lf = b == 13 }) (key echo t s.swallow_lf b) next h

  read_loop-Post :
      (echo : Bool) (deadline : Option ℕ) (es : List Poll) (t : Text) (s : Shell D)
      → P s.device
      → Post P Any (read_loop echo deadline t es s)
  unfolding read_loop
  read_loop-Post echo deadline [] t s h = h
  read_loop-Post echo deadline (e ∷ es) t s h =
      if_intro (λ r. Post P Any r) (expired deadline t e.now)
        (done none (record s { input = e ∷ es })) _ (h, tt)
        (poll_by-Post (λ u s'. read_loop echo deadline u es s') echo t es s e.byte
          (λ u s' k. read_loop-Post echo deadline es u s' k) h)

  pub read_line-Ensures :
      (echo : Bool) (idle : Option ℕ) → Ensures {D = D} P Any (read_line echo idle)
  unfolding Ensures read_line
  read_line-Ensures echo idle s h = read_loop-Post echo _ s.input [] s h

  pub ask-Ensures : (m : Message) (echo : Bool) → Ensures {D = D} P Any (ask m echo)
  unfolding ask
  ask-Ensures m echo = Ensures-then P Any (say m) _ (Ensures-say P m) λ _.
      Ensures-then P Any (read_line echo none) _ (read_line-Ensures echo none)
        λ o. Ensures-pure P Any (or_empty o) tt

-- Text that shows a key.
abbrev pub IsHidden : Message → Type 0
IsHidden (echoed b) = ⊥
IsHidden _ = Unit

abbrev pub HidesKeys : List Message → Type 0
HidesKeys l = All IsHidden l

abbrev shown_by : Pressed → List Message
shown_by (go_on t out) = out
shown_by (finish t out) = out

abbrev pub state_of : {D A : Type 0} → Run D A → Shell D
state_of (done a s) = s
state_of (waiting s) = s
state_of (rebooted s) = s
state_of (spent s) = s
