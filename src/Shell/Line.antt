-- ===== src/Shell/Line.antt =====
-- `read_line` and `ask`: line editing with the polls of the console.
pub mod Laws
use usb_camera_over_tailscal.Base.{
  ℕ, ◌+◌, Bool, true, false, not, ◌&&◌, ◌||◌, List, [], ◌∷◌, ◌++◌, Option, none, some, ltb, leb,
  ◌==◌, if◌then◌else◌, length,
}
use usb_camera_over_tailscal.Base.Text.{Text, trim}
use usb_camera_over_tailscal.Shell.{
  Message, echoed, masked, erased, newline, cancelled, Poll, Shell, Run, done, waiting, M, ◌>>=◌,
  ◌>>◌, pure, say,
}

abbrev pub max_line : ℕ
max_line = 200

-- What a key does: it goes on with a line, or it ends with one.
pub data Pressed : Type 0 where
  go_on : Text → List Message → Pressed
  finish : Text → List Message → Pressed

-- The line without its last character.
pub without_last : Text → Text
without_last [] = []
without_last (c ∷ []) = []
without_last (c ∷ d ∷ s) = c ∷ without_last (d ∷ s)

pub erase : Bool → Text → Pressed
erase echo [] = go_on [] []
erase echo (c ∷ s) = go_on (without_last (c ∷ s)) (if echo then erased ∷ [] else [])

-- The match on the byte.
pub press : Bool → Text → ℕ → Pressed
press echo text b =
    if (b == 13) || (b == 10)
    then finish (trim text) (newline ∷ [])
    else if (b == 8) || (b == 0x7f)
    then erase echo text
    else if b == 3
    then finish [] (cancelled ∷ [])
    else if (leb 0x20 b && leb b 0x7e) && ltb (length text) max_line
    then go_on (text ++ (b ∷ [])) ((if echo then echoed b else masked) ∷ [])
    else go_on text []

-- A byte before the match: the line feed behind a carriage return is passed over.
pub key : Bool → Text → Bool → ℕ → Pressed
key echo text swallow b = if (b == 10) && swallow then go_on text [] else press echo text b

pub expired : Option ℕ → Text → ℕ → Bool
expired (some deadline) [] now = leb deadline now
expired (some deadline) (c ∷ s) now = false
expired none text now = false

pub or_empty : Option Text → Text
or_empty none = []
or_empty (some t) = t

-- The deadline counts from the first look at the clock.
pub deadline_of : Option ℕ → List Poll → Option ℕ
deadline_of (some idle) (e ∷ es) = some (e.now + idle)
deadline_of (some idle) [] = none
deadline_of none polls = none

module _ {D : Type 0} where
  pub pressed :
      (Text → Shell D → Run D (Option Text)) → List Poll → Shell D → Pressed → Run D (Option Text)
  pressed go rest s (go_on text out) = go text (record s { output = s.output ++ out })
  pressed go rest s (finish text out) =
      done (some text) (record s { output = s.output ++ out; input = rest })

  pub poll_by :
      (Text → Shell D → Run D (Option Text))
      → Bool
      → Text
      → List Poll
      → Shell D
      → Option ℕ
      → Run D (Option Text)
  poll_by go echo text rest s none = go text s
  poll_by go echo text rest s (some b) =
      pressed go rest (record s { swallow_lf = b == 13 }) (key echo text s.swallow_lf b)

  -- The loop of `read_line`: a time out counts only while the line is empty.
  pub read_loop : Bool → Option ℕ → Text → List Poll → Shell D → Run D (Option Text)
  read_loop echo deadline text [] s = waiting (record s { input = [] })
  read_loop echo deadline text (e ∷ es) s =
      let rest = poll_by (λ t s'. read_loop echo deadline t es s') echo text es s e.byte in
      if expired deadline text e.now then done none (record s { input = e ∷ es }) else rest

  pub read_line : Bool → Option ℕ → M D (Option Text)
  read_line echo idle s = read_loop echo (deadline_of idle s.input) [] s.input s

  pub ask : Message → Bool → M D Text
  ask prompt echo = do say prompt; answer ← read_line echo none; pure (or_empty answer)
