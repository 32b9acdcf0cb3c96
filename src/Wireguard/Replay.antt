-- ===== src/Wireguard/Replay.antt =====
-- The anti-replay window of crates/tsnode/src/wireguard.rs (`ReplayWindow`), a bitmap of 32 words
-- of 64 bits that is reused round and round as the newest counter moves up.
pub mod Spec
mod Slide
pub mod Refine
pub mod Once
mod Tests
use usb_camera_over_tailscal.Base.{
  ℕ, zero, suc, ◌+◌, ◌-◌, ◌*◌, ◌/◌, ◌%◌, ◌^◌, Bool, true, false, not, List, [], ◌∷◌, ltb, leb, ◌==◌,
  if◌then◌else◌, replicate, set, get_or, bit_and, bit_or,
}

-- `REPLAY_WORDS` and `REPLAY_BITS`.
abbrev pub replay_words : ℕ
replay_words = 32

abbrev pub replay_bits : ℕ
replay_bits = (replay_words - 1) * 64

pub record ReplayWindow : Type 0 where
  pub last : ℕ
  pub bitmap : List ℕ

-- `ReplayWindow::new`.
abbrev pub new : ReplayWindow
new = record { last = 0; bitmap = replicate replay_words 0 }

-- The word and the mask of `slot`. The word is below `REPLAY_WORDS`, so no index is out of range.
abbrev pub slot_word : ℕ → ℕ
slot_word counter = counter / 64 % replay_words

abbrev pub slot_bit : ℕ → ℕ
slot_bit counter = 2 ^ (counter % 64)

pub mark : List ℕ → ℕ → List ℕ
mark bitmap counter =
    set bitmap (slot_word counter) (bit_or (get_or bitmap (slot_word counter) 0) (slot_bit counter))

-- The loop `while w <= counter / 64`, on fuel.
pub clear_words : ℕ → ℕ → ℕ → List ℕ → List ℕ
clear_words zero w limit bitmap = bitmap
clear_words (suc fuel) w limit bitmap =
    let rest = clear_words fuel (w + 1) limit (set bitmap (w % replay_words) 0) in
    if leb w limit then rest else bitmap

-- What `check_and_update` does to the bitmap before it marks a counter above `last`.
pub slide : ℕ → ℕ → List ℕ → List ℕ
slide last counter bitmap =
    if leb replay_bits (counter - last)
    then replicate replay_words 0
    else clear_words (counter / 64 - last / 64 + 1) (last / 64 + 1) (counter / 64) bitmap

-- `check_and_update`: the new window, and whether the counter is accepted.
unfoldable pub check_and_update : ReplayWindow → ℕ → ReplayWindow × Bool
check_and_update r counter =
    if ltb r.last counter
    then (record { last = counter; bitmap = mark (slide r.last counter r.bitmap) counter }, true)
    else if leb replay_bits (r.last - counter)
    then (r, false)
    else if not (bit_and (get_or r.bitmap (slot_word counter) 0) (slot_bit counter) == 0)
    then (r, false)
    else (record r { bitmap = mark r.bitmap counter }, true)

-- A run over the counters of the packets that arrive, with the verdict on each.
pub run : ReplayWindow → List ℕ → List Bool
run r [] = []
run r (c ∷ cs) = let (r', verdict) = check_and_update r c in verdict ∷ run r' cs

-- The counters that the window lets through, in the order of their arrival.
pub delivered : ReplayWindow → List ℕ → List ℕ
delivered r [] = []
delivered r (c ∷ cs) =
    let (r', verdict) = check_and_update r c in
    let rest = delivered r' cs in if verdict then c ∷ rest else rest
