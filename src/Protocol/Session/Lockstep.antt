-- ===== src/Protocol/Session/Lockstep.antt =====
-- Two codecs that start at the same number stay in step over any number of messages.
use undelete_master.Base.{
  ℕ, zero, suc, ◌+◌, ◌≤◌, ◌≡◌, ◌≢◌, refl, List, [], ◌∷◌, ◌++◌, length, some, Result, ok, err, arith,
  u64_max, All, append_assoc, append-nil, append_cancel, sym, ap, ◌∙◌,
}
use undelete_master.Protocol.Errors.{ProtocolError}
use undelete_master.Protocol.Message.{Message}
use undelete_master.Protocol.Message.Bounds.{IsAllowed}
use undelete_master.Protocol.Payload.Layout.{IsTyped}
use undelete_master.Protocol.Frame.{write_frame}
use undelete_master.Protocol.Frame.Read.{read_frame}
use undelete_master.Protocol.Frame.Delivery.{frame_bytes, encode_frame_lem, read_frame_steady}
use undelete_master.Protocol.Transport.{ReadEvent, Writer, write_all}
use undelete_master.Protocol.Transport.Chunks.{contents, IsSteady}
use undelete_master.Protocol.Session.{SessionCodec, read_message, write_message}

-- A message that can be sent.
abbrev pub IsSendable : Message → Type 0
IsSendable m = IsTyped m × IsAllowed m

-- All of `messages`, in order, each by `write_message`; the first failure ends it.
unfoldable pub send_all :
    SessionCodec → List Message → Writer → Result ProtocolError (Unit {0}) × SessionCodec × Writer
send_all c [] w = (ok tt, c, w)
send_all c (m ∷ messages) w =
    let (r, c', w') = write_message c m w in
    let later = send_all c' messages w' in elim r [ err e ↦ (err e, c', w') | ok n ↦ later ]

-- `count` messages by `read_message`.
unfoldable pub receive_all :
    ℕ
    → SessionCodec
    → List ReadEvent
    → Result ProtocolError (List Message) × SessionCodec × List ReadEvent
receive_all zero c events = (ok [], c, events)
receive_all (suc count) c events =
    let (r, c', events') = read_message c events in
    let (rs, c'', events'') = receive_all count c' events' in
    elim r [
      | err e ↦ (err e, c', events')
      | ok f ↦ elim rs [
        | err e ↦ (err e, c'', events'')
        | ok ms ↦ (ok (f.message ∷ ms), c'', events'')
      ]
    ]

-- The bytes of a run of messages, numbered from `n` on.
abbrev pub stream : ℕ → List Message → List ℕ
stream n [] = []
stream n (m ∷ messages) = frame_bytes n m ++ stream (n + 1) messages

pub write_message_ok :
    (c : SessionCodec) (m : Message) (n : ℕ) (w : Writer)
    → IsSendable m
    → n ≢ 0
    → n + 1 ≤ u64_max
    → c.next_outbound ≡ some n
    → w.outcomes ≡ []
    → write_message c m w ≡ (
      ok n,
      record c { next_outbound = some (n + 1) },
      record w { written = w.written ++ frame_bytes n m },
    )
unfolding write_message write_frame write_all
write_message_ok c m n w s h l e o = ground (arith, encode_frame_lem n m s.0 s.1 h)

send_all-stream :
    (c : SessionCodec) (messages : List Message) (n : ℕ) (w : Writer)
    → All IsSendable messages
    → n ≢ 0
    → n + length messages ≤ u64_max
    → c.next_outbound ≡ some n
    → w.outcomes ≡ []
    → send_all c messages w ≡ (
      ok tt,
      record c { next_outbound = some (n + length messages) },
      record w { written = w.written ++ stream n messages },
    )
unfolding send_all
send_all-stream c [] n w s h l e o = ground (arith, append-nil w.written)
send_all-stream c (m ∷ messages) n w s h l e o = ground (
  arith,
  write_message_ok c m n w s.0,
  send_all-stream (record c { next_outbound = some (n + 1) }) messages (n + 1)
      (record w { written = w.written ++ frame_bytes n m }) s.1 (omega arith) (omega arith) refl o,
  append_assoc w.written (frame_bytes n m) (stream (n + 1) messages),
)

-- One message that is due is accepted.
pub read_message_due :
    (c : SessionCodec) (m : Message) (n : ℕ) (events : List ReadEvent) (rest : List ℕ)
    → IsSendable m
    → n ≢ 0
    → n + 1 ≤ u64_max
    → c.next_inbound ≡ some n
    → IsSteady events
    → contents events ≡ frame_bytes n m ++ rest
    → (events' : List ReadEvent) × (read_message c events ≡ (
      ok (record { sequence = n; message = m }),
      record c { next_inbound = some (n + 1) },
      events',
    ))
      × (contents events' ≡ rest)
      × IsSteady events'
unfolding read_message
read_message_due c m n events rest s h l e st q =
    let d = read_frame_steady n m events rest s.0 s.1 h (omega arith) st q in
    ((read_frame events).1, ground (arith, d.result), d.rest, d.steady)

receive_all-stream :
    (c : SessionCodec) (messages : List Message) (n : ℕ) (events : List ReadEvent) (rest : List ℕ)
    → All IsSendable messages
    → n ≢ 0
    → n + length messages ≤ u64_max
    → c.next_inbound ≡ some n
    → IsSteady events
    → contents events ≡ stream n messages ++ rest
    → (events' : List ReadEvent) × (receive_all (length messages) c events
        ≡ (ok messages, record c { next_inbound = some (n + length messages) }, events'))
      × (contents events' ≡ rest)
unfolding receive_all
receive_all-stream c [] n events rest s h l e st q = (events, ground arith, q)
receive_all-stream c (m ∷ messages) n events rest s h l e st q =
    let (events1, r1, q1, st1) =
      read_message_due c m n events (stream (n + 1) messages ++ rest) s.0 h (omega arith) e st
        (q ∙ append_assoc (frame_bytes n m) (stream (n + 1) messages) rest) in
    let (events2, r2, q2) =
      receive_all-stream (record c { next_inbound = some (n + 1) }) messages (n + 1) events1 rest
        s.1 (omega arith) (omega arith) refl st1 q1 in
    (events2, ground (arith, r1, r2), q2)

-- Two codecs whose next numbers agree on a number that is not 0: every run of messages that can be
-- sent, so many that their numbers fit 64 bits, written to a transport that accepts it, arrives
-- complete, once and in order at a reader that gets those bytes, in any chunks and without a fault,
-- before others; the next numbers agree again and the other bytes are left.
pub receive_all-send_all :
    (a b : SessionCodec) (messages : List Message) (n : ℕ) (w : Writer) (sent : List ℕ)
    (events : List ReadEvent) (rest : List ℕ)
    → All IsSendable messages
    → n ≢ 0
    → n + length messages ≤ u64_max
    → a.next_outbound ≡ some n
    → b.next_inbound ≡ some n
    → w.outcomes ≡ []
    → (send_all a messages w).2.written ≡ w.written ++ sent
    → IsSteady events
    → contents events ≡ sent ++ rest
    → ((send_all a messages w).0 ≡ ok tt)
      × ((receive_all (length messages) b events).0 ≡ ok messages)
      × ((send_all a messages w).1.next_outbound
          ≡ (receive_all (length messages) b events).1.next_inbound)
      × (contents (receive_all (length messages) b events).2 ≡ rest)
receive_all-send_all a b messages n w sent events rest s h l ea eb o p st q =
    let out = send_all-stream a messages n w s h l ea o in
    let same : sent ≡ stream n messages =
      append_cancel w.written sent (stream n messages) (sym p ∙ ap (λ x. x.2.written) out) in
    let (events', r, q') =
      receive_all-stream b messages n events rest s h l eb st (q ∙ ap (λ xs. xs ++ rest) same) in
    (ap (λ x. x.0) out, ap (λ x. x.0) r, ground (arith, out, r), ap (λ x. contents x.2) r ∙ q')
