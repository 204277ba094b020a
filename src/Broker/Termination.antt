-- ===== src/Broker/Termination.antt =====
-- The session ends on every stream of bytes, and acts on nothing but well-formed messages.
use undelete_master.Base.{
  ℕ, zero, suc, ◌<◌, ◌≡◌, refl, ap, none, some, List, length, ◌==◌, Result, ok, err, arith,
  Result-cases, Bool-cases, ◌⊎◌, inl, inr, All, All-split, length-append,
}
use undelete_master.Base.Words.{IsByte}
use undelete_master.Protocol.Message.{Message, opcode}
use undelete_master.Protocol.Payload.Layout.{layout}
use undelete_master.Protocol.Frame.{Frame, header_bytes}
use undelete_master.Protocol.Frame.Read.{read_frame}
use undelete_master.Protocol.Frame.Delivery.{frame_bytes, length-header_bytes}
use undelete_master.Protocol.Frame.Canonical.{read_frame_taken}
use undelete_master.Protocol.Transport.{ReadEvent, Writer}
use undelete_master.Protocol.Transport.Chunks.{contents}
use undelete_master.Protocol.Session.{SessionCodec, read_message}
use undelete_master.Protocol.Session
use undelete_master.Protocol.Session.Acceptance.{read_message_iff}
use undelete_master.Protocol.Session.Lockstep.{IsSendable}
use undelete_master.Broker.{
  SourceOps, handle, Serving, Step, SessionError, turn, serve_loop, serve_session, authenticate,
}

Step-cases :
    (s : Step) → ((r : Result SessionError (Unit {0})) × (s ≡ Step.return r)) ⊎ (s ≡ Step.go_on)
Step-cases Step.go_on = inr refl
Step-cases (Step.return r) = inl (r, refl)

-- A message that was read took its frame off the stream.
read_message_shorter :
    (c : SessionCodec) (events : List ReadEvent) (f : Frame)
    → All IsByte (contents events)
    → (read_message c events).0 ≡ ok f
    → IsSendable f.message
      × All IsByte (contents (read_message c events).2)
      × (length (contents (read_message c events).2) < length (contents events))
read_message_shorter c events f b e =
    let (read, n, c') =
      (read_message_iff c (read_message c events).1 events (read_message c events).2 f).0 (cc) in
    let r : (read_frame events).0 ≡ ok f = cc in
    let rest : (read_message c events).2 ≡ (read_frame events).1 = cc in
    let (t, a, h, w, q) = read_frame_taken events f b r in
    let left = contents (read_frame events).1 in
    let bytes = frame_bytes f.sequence f.message in
    let typed = (All-split IsByte bytes left (rw q at b)).1 in
    let size : length left < length (contents events) = omega (
      arith,
      ap length q,
      length-append bytes left,
      length-append (header_bytes (opcode f.message) f.sequence (length (layout f.message)))
          (layout f.message),
      length-header_bytes f.message f.sequence (length (layout f.message)),
    ) in
    ((t, a), rw rest typed, rw rest size)

module _ {S F : Type 0} (ops : SourceOps S F) (handle_id : ℕ) where
  pub turn_shorter :
      (st : Serving S F)
      → All IsByte (contents st.incoming)
      → (turn ops handle_id st).0 ≡ Step.go_on
      → All IsByte (contents (turn ops handle_id st).1.incoming)
        × (length (contents (turn ops handle_id st).1.incoming) < length (contents st.incoming))
  unfolding turn
  turn_shorter st b e = elim (Result-cases ((read_message st.codec st.incoming).0)) [
    | inl (f, r) ↦
        let (s, typed, size) = read_message_shorter st.codec st.incoming f b r in
        let kept : (turn ops handle_id st).1.incoming ≡ (read_message st.codec st.incoming).2 =
          ground (arith, r) in
        rw kept (typed, size)
    | inr (x, r) ↦ absurd (ground (arith, r))
  ]

  serve_loop_total :
      (fuel : ℕ) (st : Serving S F)
      → All IsByte (contents st.incoming)
      → length (contents st.incoming) < fuel
      → (r : Result SessionError (Unit {0})) × ((serve_loop ops handle_id fuel st).0 ≡ some r)
  unfolding serve_loop
  serve_loop_total zero st b h = absurd (omega arith)
  serve_loop_total (suc fuel) st b h = elim (Step-cases ((turn ops handle_id st).0)) [
    | inl (r, e) ↦ (r, ground (arith, e))
    | inr e ↦
        let (typed, size) = turn_shorter st b e in
        let (r, done) =
          serve_loop_total fuel (turn ops handle_id st).1 typed (omega (arith, size)) in
        (r, ground (arith, e, done))
  ]

  authenticate_shorter :
      (st : Serving S F)
      → All IsByte (contents st.incoming)
      → (authenticate ops handle_id st).0 ≡ Step.go_on
      → All IsByte (contents (authenticate ops handle_id st).1.incoming)
        × (length (contents (authenticate ops handle_id st).1.incoming)
            < length (contents st.incoming))
  unfolding authenticate
  authenticate_shorter st b e = elim (Result-cases ((read_message st.codec st.incoming).0)) [
    | inl (f, r) ↦
        let (s, typed, size) = read_message_shorter st.codec st.incoming f b r in
        let kept : (authenticate ops handle_id st).1.incoming
            ≡ (read_message st.codec st.incoming).2 =
          ground (arith, r) in
        rw kept (typed, size)
    | inr (x, r) ↦ absurd (ground (arith, r))
  ]

  -- Whatever bytes the peer sends, in finitely many chunks and faults, the session comes to an end:
  -- the fuel that `serve_session` gives its loop is never spent.
  pub serve_session_total :
      (incoming : List ReadEvent) (outgoing : Writer) (factory : F)
      → All IsByte (contents incoming)
      → (r : Result SessionError (Unit {0})) × ((serve_session ops handle_id incoming outgoing
            factory).0
          ≡ some r)
  unfolding serve_session
  serve_session_total incoming outgoing factory b =
      let st : Serving S F = record {
        codec = Session.new;
        incoming = incoming;
        outgoing = outgoing;
        factory = factory;
        opened = none;
      } in
      elim (Bool-cases (handle_id == 0)) [
        | inl z ↦ (err SessionError.invalid_handle_id, ground (arith, z))
        | inr nz ↦ elim (Step-cases ((authenticate ops handle_id st).0)) [
          | inl (r, e) ↦ (r, ground (arith, e, nz))
          | inr e ↦
              let (typed, size) = authenticate_shorter st b e in
              let (r, done) =
                serve_loop_total (suc (length (contents incoming)))
                  (authenticate ops handle_id st).1 typed (omega (arith, size)) in
              (r, ground (arith, e, done, nz))
        ]
      ]

  -- Whatever bytes the peer sends, a turn of the loop acts only on a message that is within the
  -- bounds of the protocol: the factory and the open source that it leaves are those that `handle`
  -- decides on such a message, or those that were there before.
  pub turn_acts :
      (st : Serving S F)
      → All IsByte (contents st.incoming)
      → (((turn ops handle_id st).1.opened ≡ st.opened)
          × ((turn ops handle_id st).1.factory ≡ st.factory))
        ⊎ ((m : Message) × IsSendable m
            × ((turn ops handle_id st).1.factory ≡ (handle ops handle_id st.factory st.opened m).1)
            × ((turn ops handle_id st).1.opened ≡ (handle ops handle_id st.factory st.opened m).2))
  unfolding turn
  turn_acts st b = elim (Result-cases ((read_message st.codec st.incoming).0)) [
    | inl (f, r) ↦
        let (s, typed, size) = read_message_shorter st.codec st.incoming f b r in
        inr (f.message, s, ground (arith, r), ground (arith, r))
    | inr (x, r) ↦ inl (ground (arith, r), ground (arith, r))
  ]
