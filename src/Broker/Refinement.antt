-- ===== src/Broker/Refinement.antt =====
-- The session over the transport does what `handle` decides, message by message.
use undelete_master.Base.{
  ℕ, ◌+◌, ◌≤◌, ◌≡◌, ◌≢◌, refl, Option, some, List, [], ◌∷◌, ◌++◌, ok, u64_max, arith, ◌⊎◌, inl, inr,
}
use undelete_master.Protocol.Message.{Message}
use undelete_master.Protocol.Frame.Delivery.{frame_bytes}
use undelete_master.Protocol.Transport.{ReadEvent, Writer, flush}
use undelete_master.Protocol.Transport.Chunks.{contents, IsSteady}
use undelete_master.Protocol.Session.{SessionCodec}
use undelete_master.Protocol.Session.Lockstep.{IsSendable, write_message_ok, read_message_due}
use undelete_master.Broker.{
  SourceOps, OpenSource, Action, handle, Serving, Step, turn, send_message,
}

-- The session as a machine on messages: the replies to a run of requests, up to a shutdown.
module _ {S F : Type 0} (ops : SourceOps S F) (handle_id : ℕ) where
  abbrev pub answers : F → Option (OpenSource S) → List Message → List Message
  answers factory opened [] = []
  answers factory opened (m ∷ messages) =
      let (action, factory', opened') = handle ops handle_id factory opened m in
      let later = answers factory' opened' messages in
      elim action [ Action.stop ↦ [] | Action.reply r ↦ r ∷ later ]

pub send_message_ok :
    (c : SessionCodec) (m : Message) (n : ℕ) (w : Writer)
    → IsSendable m
    → n ≢ 0
    → n + 1 ≤ u64_max
    → c.next_outbound ≡ some n
    → w.outcomes ≡ []
    → send_message c m w ≡ (
      ok tt,
      record c { next_outbound = some (n + 1) },
      record w { written = w.written ++ frame_bytes n m },
    )
unfolding send_message flush
send_message_ok c m n w s h l e o = ground (arith, write_message_ok c m n w s h l e o)

pub Action-cases : (a : Action) → (a ≡ Action.stop) ⊎ ((r : Message) × (a ≡ Action.reply r))
Action-cases Action.stop = inl refl
Action-cases (Action.reply r) = inr (r, refl)

module _ {S F : Type 0} (ops : SourceOps S F) (handle_id : ℕ) where
  -- What a turn leaves behind that has read one message and sent one reply.
  abbrev pub behind : Serving S F → SessionCodec → List ReadEvent → Writer → Message → Serving S F
  behind st codec incoming outgoing m = record {
    codec = codec;
    incoming = incoming;
    outgoing = outgoing;
    factory = (handle ops handle_id st.factory st.opened m).1;
    opened = (handle ops handle_id st.factory st.opened m).2;
  }

  pub turn_stop :
      (st : Serving S F) (m : Message) (k : ℕ) (rest : List ℕ)
      → IsSendable m
      → k ≢ 0
      → k + 1 ≤ u64_max
      → st.codec.next_inbound ≡ some k
      → IsSteady st.incoming
      → contents st.incoming ≡ frame_bytes k m ++ rest
      → (handle ops handle_id st.factory st.opened m).0 ≡ Action.stop
      → ((turn ops handle_id st).0 ≡ Step.return (ok tt))
        × ((turn ops handle_id st).1.outgoing ≡ st.outgoing)
        × ((turn ops handle_id st).1.opened ≡ (handle ops handle_id st.factory st.opened m).2)
  unfolding turn
  turn_stop st m k rest s h l e steady q a =
      let (events, r, q', steady') =
        read_message_due st.codec m k st.incoming rest s h l e steady q in
      (ground (arith, r), ground (arith, r), ground (arith, r))

  pub turn_reply :
      (st : Serving S F) (m answer : Message) (k n : ℕ) (rest : List ℕ)
      → IsSendable m
      → IsSendable answer
      → k ≢ 0
      → k + 1 ≤ u64_max
      → n ≢ 0
      → n + 1 ≤ u64_max
      → st.codec.next_inbound ≡ some k
      → st.codec.next_outbound ≡ some n
      → st.outgoing.outcomes ≡ []
      → IsSteady st.incoming
      → contents st.incoming ≡ frame_bytes k m ++ rest
      → (handle ops handle_id st.factory st.opened m).0 ≡ Action.reply answer
      → (events : List ReadEvent) × (contents events ≡ rest)
        × IsSteady events
        × (turn ops handle_id st ≡ (
          Step.go_on,
          behind st
              (record { next_inbound = some (k + 1); next_outbound = some (n + 1) })
              events
              (record st.outgoing { written = st.outgoing.written ++ frame_bytes n answer })
              m,
        ))
  unfolding turn
  turn_reply st m answer k n rest s t h l h' l' e e' o steady q a =
      let (events, r, q', steady') =
        read_message_due st.codec m k st.incoming rest s h l e steady q in
      let c = record st.codec { next_inbound = some (k + 1) } in
      let sent = send_message_ok c answer n st.outgoing t h' l' e' o in
      (events, q', steady', ground (arith, r, sent))
