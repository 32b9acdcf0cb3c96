-- ===== src/Wireguard/Transport/Again.antt =====
-- A transport message is not delivered a second time, whatever arrives in between.
use usb_camera_over_tailscal.Base.{
  ℕ, ◌-◌, ◌<◌, ◌^◌, ◌≡◌, refl, ap, ◌∙◌, sym, ◌⊎◌, Bool, true, false, not, ltb, leb, ◌==◌,
  Bool-cases, inl, inr, List, [], ◌∷◌, Option, none, some, length, Exec, ok, err, panic, ◌>>=◌,
  fail_if, try, index, slice, slice_from,
}
use usb_camera_over_tailscal.Base.Words.{from_le}
use usb_camera_over_tailscal.Crypto.{Bytes, Primitives, IsSound}
use usb_camera_over_tailscal.Wireguard.Replay.{replay_bits, check_and_update}
use usb_camera_over_tailscal.Wireguard.Replay.Refine.{Tracks, check_and_update-Agree}
use usb_camera_over_tailscal.Wireguard.Replay.Spec
use usb_camera_over_tailscal.Wireguard.Replay.Spec.{Seen, was_seen}
use usb_camera_over_tailscal.Wireguard.Replay.Once.{step-was_seen, step-accepted, step_old}
use usb_camera_over_tailscal.Wireguard.Tunnel.{
  WgError, bad_length, bad_type, no_session, auth_failed, replayed, Session, Tunn, ip_packet_len,
}
use usb_camera_over_tailscal.Wireguard.Transport.{
  named, session_slot, put_slot, deliver, seal, receive, consume_transport,
}
use usb_camera_over_tailscal.Wireguard.Transport.Deliver.{
  consume_transport-seal_receive, consume_transport-seal, after_packet, picked,
}

-- The current session is `r` but for its replay window, which has accepted the counter.
record Refuses (r : Session) (counter : ℕ) (t : Tunn) : Type 0 where
  pub session : Session
  pub history : Seen
  pub current : t.current ≡ some session
  pub local_index : session.local_index ≡ r.local_index
  pub created : session.created ≡ r.created
  pub recv_key : session.recv_key ≡ r.recv_key
  pub tracks : Tracks session.replay history
  pub known : was_seen counter history.accepted ≡ true

-- What holds of the tunnel that an outcome leaves, if it is a success.
Leaves : (Tunn → Type 0) → Exec WgError (Option Bytes × Tunn) → Type 0
Leaves P (ok q) = P q.1
Leaves P (err e) = Unit
Leaves P panic = Unit

Leaves->>= :
    (P : Tunn → Type 0) {A : Type 0} (m : Exec WgError A)
    (f : A → Exec WgError (Option Bytes × Tunn))
    → ((a : A) → m ≡ ok a → Leaves P (f a))
    → Leaves P (m >>= f)
unfolding Leaves
Leaves->>= P (ok a) f k = k a refl
Leaves->>= P (err e) f k = tt
Leaves->>= P panic f k = tt

-- A transport message as it arrives: an error leaves the tunnel as it was.
after : Tunn → Exec WgError (Option Bytes × Tunn) → Tunn
after t (ok q) = q.1
after t (err e) = t
after t panic = t

-- The tunnel behind a sequence of messages, each with the time it comes.
pub arrivals : Primitives → List (Bytes × ℕ) → Tunn → Tunn
unfolding after
arrivals p [] t = t
arrivals p ((msg, now) ∷ msgs) t = arrivals p msgs (after t (consume_transport p msg now t))

-- The session that is picked is the current one, or the one before it is.
slot_of_current :
    (i : ℕ) (q : Session) (b : Option Session) (x : Session × Bool)
    → session_slot (named i (some q)) b ≡ ok x
    → ((x.0 ≡ q) × (x.1 ≡ true)) ⊎ (x.1 ≡ false)
unfolding named session_slot
slot_of_current i q b x = elim (Bool-cases (q.local_index == i)) [
  | inl this ↦ rw this (λ e. inl (cc e, cc e))
  | inr other ↦ rw other (by_previous b)
]
  where
    by_previous :
        (b : Option Session)
        → session_slot none b ≡ ok x
        → ((x.0 ≡ q) × (x.1 ≡ true)) ⊎ (x.1 ≡ false)
    by_previous none e = cc e
    by_previous (some s) e = inr (cc e)

module _ (r : Session) (c : ℕ) where
  deliver-Refuses : (pt : Bytes) (t : Tunn) → Refuses r c t → Leaves (Refuses r c) (deliver pt t)
  unfolding deliver Leaves
  deliver-Refuses [] t h = h
  deliver-Refuses (b ∷ pt) t h = Leaves->>= (Refuses r c) (ip_packet_len (b ∷ pt)) _ λ len e.
      record {
        session = h.session;
        history = h.history;
        current = h.current;
        local_index = h.local_index;
        created = h.created;
        recv_key = h.recv_key;
        tracks = h.tracks;
        known = h.known;
      }

  -- Behind a packet the window of the current session still knows the counter.
  put_slot-Refuses :
      (d now : ℕ) (t : Tunn) (h : Refuses r c t) (x : Session × Bool)
      → ((x.0 ≡ h.session) × (x.1 ≡ true)) ⊎ (x.1 ≡ false)
      → Refuses r c (
          put_slot x.1
            (record (x.0) { replay = (check_and_update x.0.replay d).0; confirmed = true })
            (record t { last_received = some now }))
  unfolding put_slot
  put_slot-Refuses d now t h (s, cur) (inl (e, e')) =
      rw (e, e')
        (record {
          session = record (h.session) {
            replay = (check_and_update h.session.replay d).0;
            confirmed = true;
          };
          history = (Spec.step replay_bits h.history d).0;
          current = refl;
          local_index = h.local_index;
          created = h.created;
          recv_key = h.recv_key;
          tracks = (check_and_update-Agree h.session.replay h.history d h.tracks).0;
          known = step-was_seen h.history d c h.known;
        })
  put_slot-Refuses d now t h (s, false) (inr e) = record {
    session = h.session;
    history = h.history;
    current = h.current;
    local_index = h.local_index;
    created = h.created;
    recv_key = h.recv_key;
    tracks = h.tracks;
    known = h.known;
  }
  put_slot-Refuses d now t h (s, true) (inr e) = cc e

  module _ (p : Primitives) where
    consume_transport-Refuses :
        (msg : Bytes) (now : ℕ) (t : Tunn)
        → Refuses r c t
        → Leaves (Refuses r c) (consume_transport p msg now t)
    unfolding consume_transport receive
    consume_transport-Refuses msg now t h =
        let P = Refuses r c in
        Leaves->>= P (fail_if (ltb (length msg) 32) bad_length) _ λ _ _.
          Leaves->>= P (index msg 0) _ λ typ _.
            Leaves->>= P (fail_if (not (typ == 4)) bad_type) _ λ _ _.
              Leaves->>= P (slice msg 4 8) _ λ i _. Leaves->>= P (slice msg 8 16) _ λ count _.
                Leaves->>= P
                  (session_slot (named (from_le i) t.current) (named (from_le i) t.previous)) _
                  λ x e. Leaves->>= P (fail_if (leb 180 (now - x.0.created)) no_session) _ λ _ _.
                    Leaves->>= P (slice_from msg 16) _ λ ct _.
                      Leaves->>= P
                        (try auth_failed (p.aead_decrypt x.0.recv_key (from_le count) ct [])) _
                        λ pt _.
                          Leaves->>= P
                            (fail_if (not (check_and_update x.0.replay (from_le count)).1) replayed)
                            _
                            λ _ _. deliver-Refuses pt _ (
                              put_slot-Refuses (from_le count) now t h x (
                                slot_of_current (from_le i) h.session (named (from_le i) t.previous)
                                  x
                                  (sym (
                                      ap
                                        (λ o.
                                          session_slot (named (from_le i) o)
                                            (named (from_le i) t.previous))
                                        h.current)
                                    ∙ e)))

    after-Refuses :
        (t : Tunn) (m : Exec WgError (Option Bytes × Tunn))
        → Refuses r c t
        → Leaves (Refuses r c) m
        → Refuses r c (after t m)
    unfolding after Leaves
    after-Refuses t (ok q) h k = k
    after-Refuses t (err e) h k = h
    after-Refuses t panic h k = h

    arrivals-Refuses :
        (msgs : List (Bytes × ℕ)) (t : Tunn) → Refuses r c t → Refuses r c (arrivals p msgs t)
    unfolding arrivals
    arrivals-Refuses [] t h = h
    arrivals-Refuses ((msg, now) ∷ msgs) t h =
        arrivals-Refuses msgs _ (
          after-Refuses t (consume_transport p msg now t) h (consume_transport-Refuses msg now t h))

module _ (p : Primitives) (sound : IsSound p) (pkt : Bytes) (s r : Session) (now : ℕ) (t : Tunn)
    (keys : s.send_key ≡ r.recv_key) (index_fits : s.remote_index < 256 ^ 4)
    (counter_fits : s.send_counter < 256 ^ 8) (current : t.current ≡ some r)
    (names : r.local_index ≡ s.remote_index) (young : now - r.created < 180)
    (unseen : (check_and_update r.replay s.send_counter).1 ≡ true)
    (packet : ip_packet_len pkt ≡ ok (some (length pkt))) where
  after_packet-Refuses :
      (seen : Seen)
      → Tracks r.replay seen
      → Refuses r s.send_counter (after_packet r s.send_counter now t)
  after_packet-Refuses seen tracks =
      let (next, same) = check_and_update-Agree r.replay seen s.send_counter tracks in
      record {
        session = record r {
          replay = (check_and_update r.replay s.send_counter).0;
          confirmed = true;
        };
        history = (Spec.step replay_bits seen s.send_counter).0;
        current = refl;
        local_index = refl;
        created = refl;
        recv_key = refl;
        tracks = next;
        known = step-accepted seen s.send_counter s.send_counter (sym same ∙ unseen);
      }

  -- A tunnel that knows the counter refuses the packet.
  Refuses-refused :
      (later : ℕ) (t' : Tunn)
      → Refuses r s.send_counter t'
      → later - r.created < 180
      → consume_transport p (seal p pkt s).0 later t' ≡ err replayed
  unfolding receive
  Refuses-refused later t' h still_young =
      let q = h.session in
      consume_transport-seal_receive p sound pkt s q true later t' (keys ∙ sym h.recv_key)
        index_fits counter_fits (picked s.remote_index q t' h.current (h.local_index ∙ names))
        (rw h.created still_young)
      ∙ rw
          ((check_and_update-Agree q.replay h.history s.send_counter h.tracks).1
            ∙ step_old q.replay h.history s.send_counter h.tracks h.known)
          refl

  -- When a packet as in `consume_transport-seal` comes again, it is refused as a replay, whatever
  -- transport messages arrive in between and at whatever times: if the replay window stands for
  -- the counters that it accepted, and the session is still less than 180 seconds old.
  pub consume_transport-seal_again :
      (seen : Seen) (between : List (Bytes × ℕ)) (later : ℕ)
      → Tracks r.replay seen
      → later - r.created < 180
      → (consume_transport p (seal p pkt s).0 now t >>= λ q.
          consume_transport p (seal p pkt s).0 later (arrivals p between q.1))
        ≡ err replayed
  consume_transport-seal_again seen between later tracks still_young =
      ap (λ m. m >>= λ q. consume_transport p (seal p pkt s).0 later (arrivals p between q.1))
        (consume_transport-seal p sound pkt s r now t keys index_fits counter_fits current names
          young unseen packet)
      ∙ Refuses-refused later (arrivals p between (after_packet r s.send_counter now t))
          (arrivals-Refuses r s.send_counter p between _ (after_packet-Refuses seen tracks))
          still_young
