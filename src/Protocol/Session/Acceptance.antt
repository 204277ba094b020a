-- ===== src/Protocol/Session/Acceptance.antt =====
-- `read_message` of crates/broker-protocol/src/codec.rs: which frames a session accepts.
use undelete_master.Base.{
  ℕ, zero, suc, ◌≡◌, ◌↔◌, ap, inl, inr, Option, some, List, [], ◌∷◌, Result, ok, err, Result-cases,
  arith, checked_add,
}
use undelete_master.Protocol.Errors.{ProtocolError}
use undelete_master.Protocol.Frame.{Frame}
use undelete_master.Protocol.Frame.Read.{read_frame}
use undelete_master.Protocol.Transport.{ReadEvent}
use undelete_master.Protocol.Session.{SessionCodec, read_message}

-- A session accepts a frame exactly when the reader finds it and its number is the one that is due.
-- The reader then stands behind the frame and the next number is due, or none where this one is the
-- last that a `u64` holds; nothing else about the session changes.
pub read_message_iff :
    (c c' : SessionCodec) (events rest : List ReadEvent) (f : Frame)
    → (read_message c events ≡ (ok f, c', rest)) ↔ (
        (read_frame events ≡ (ok f, rest))
        × (c.next_inbound ≡ some f.sequence)
        × (c' ≡ record c { next_inbound = checked_add f.sequence 1 }))
unfolding read_message
read_message_iff c c' events rest f =
    ((λ e. (ground arith, ground arith, ground arith)), (λ (r, n, same). ground arith))

-- A refusal leaves the session as it was.
read_message-err :
    (c : SessionCodec) (events : List ReadEvent) (e : ProtocolError)
    → (read_message c events).0 ≡ err e
    → (read_message c events).1 ≡ c
unfolding read_message
read_message-err c events e h = ground arith

abbrev taken : Result ProtocolError Frame → List Frame → List Frame
taken (err _) frames = frames
taken (ok f) frames = f ∷ frames

-- The frames that so many reads accept, where the session goes on after a refusal.
abbrev pub accepted : ℕ → SessionCodec → List ReadEvent → List Frame
accepted zero c events = []
accepted (suc n) c events =
    let (r, c', rest) = read_message c events in taken r (accepted n c' rest)

-- The numbers of the frames start at the one that is due and go up by one.
abbrev pub IsNumbered : Option ℕ → List Frame → Type 0
IsNumbered due [] = Unit {0}
IsNumbered due (f ∷ frames) = (due ≡ some f.sequence) × IsNumbered (checked_add f.sequence 1) frames

-- However a peer or the transport behaves, and however often a session that has refused frames goes
-- on to read, the frames that it accepts have the numbers from the one that was due on, each exactly
-- once and in order: no frame is taken twice, none is left out, and none is taken before its turn.
pub read_message-IsNumbered :
    (n : ℕ) (c : SessionCodec) (events : List ReadEvent)
    → IsNumbered c.next_inbound (accepted n c events)
read_message-IsNumbered zero c events = tt
read_message-IsNumbered (suc n) c events =
    let c' = (read_message c events).1 in
    let rest = (read_message c events).2 in
    let later = read_message-IsNumbered n c' rest in
    elim (Result-cases ((read_message c events).0)) [
      | inr (e, h) ↦
          let due : c'.next_inbound ≡ c.next_inbound =
            ap (λ d. d.next_inbound) (read_message-err c events e h) in
          rw h (rw due at later)
      | inl (f, h) ↦
          let (_, due, next) = (read_message_iff c c' events rest f).0 (cc) in
          let number : c'.next_inbound ≡ checked_add f.sequence 1 = ap (λ d. d.next_inbound) next in
          rw h (due, rw number at later)
    ]
