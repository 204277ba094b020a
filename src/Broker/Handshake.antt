-- ===== src/Broker/Handshake.antt =====
-- The handshake, and the whole session from the bytes that arrive to the bytes that are sent.
use undelete_master.Base.{
  ℕ, suc, ◌+◌, ◌≤◌, ◌<◌, ◌≡◌, ◌≢◌, refl, ap, ◌∙◌, none, some, List, [], ◌∷◌, ◌++◌, length, ok, err,
  u64_max, arith, All, append_assoc, length-append,
}
use undelete_master.Base.Words.{IsU64}
use undelete_master.Protocol.Message.{Message, BrokerErrorCode, opcode}
use undelete_master.Protocol.Payload.Layout.{layout}
use undelete_master.Protocol.Frame.{header_bytes}
use undelete_master.Protocol.Frame.Delivery.{frame_bytes}
use undelete_master.Protocol.Transport.{ReadEvent, Writer}
use undelete_master.Protocol.Transport.Chunks.{contents, IsSteady}
use undelete_master.Protocol.Session.{SessionCodec, read_message, write_message}
use undelete_master.Protocol.Session
use undelete_master.Protocol.Session.Lockstep.{IsSendable, stream, read_message_due}
use undelete_master.Broker.{
  SourceOps, Serving, Step, SessionError, serve_loop, serve_session, authenticate,
  accepted_challenge,
}
use undelete_master.Broker.Replies.{IsTypedSource}
use undelete_master.Broker.Loop.{serve_loop_answers}
use undelete_master.Protocol.Frame.Delivery.{length-header_bytes}
use undelete_master.Broker.Refinement.{answers, send_message_ok}

module _ {S F : Type 0} (ops : SourceOps S F) (handle_id : ℕ) where
  authenticate_ok :
      (st : Serving S F) (m : Message) (challenge rest : List ℕ)
      → IsSendable m
      → accepted_challenge m ≡ some challenge
      → IsSendable (Message.hello_ack challenge)
      → st.codec ≡ Session.new
      → st.outgoing.outcomes ≡ []
      → IsSteady st.incoming
      → contents st.incoming ≡ frame_bytes 1 m ++ rest
      → (events : List ReadEvent) × (contents events ≡ rest)
        × IsSteady events
        × (authenticate ops handle_id st ≡ (
          Step.go_on,
          record st {
            codec = record { next_outbound = some 2; next_inbound = some 2 };
            incoming = events;
            outgoing = record st.outgoing {
              written = st.outgoing.written ++ frame_bytes 1 (Message.hello_ack challenge);
            };
          },
        ))
  unfolding authenticate Session.new
  authenticate_ok st m challenge rest s a t new o steady q =
      let (events, r, q', steady') =
        read_message_due st.codec m 1 st.incoming rest s (omega arith) (omega arith)
          (ap (λ c. c.next_inbound) new) steady q in
      let c = record st.codec { next_inbound = some 2 } in
      let sent =
        send_message_ok c (Message.hello_ack challenge) 1 st.outgoing t (omega arith) (omega arith)
          (ap (λ c. c.next_outbound) new) o in
      (events, q', steady', ground (arith, r, sent, a, new))

  authenticate_rejects :
      (st : Serving S F) (m : Message) (rest : List ℕ)
      → IsSendable m
      → accepted_challenge m ≡ none
      → st.codec ≡ Session.new
      → st.outgoing.outcomes ≡ []
      → IsSteady st.incoming
      → contents st.incoming ≡ frame_bytes 1 m ++ rest
      → ((authenticate ops handle_id st).0 ≡ Step.return (err SessionError.authentication_failed))
        × ((authenticate ops handle_id st).1.outgoing.written
            ≡ st.outgoing.written
              ++ frame_bytes 1 (Message.error BrokerErrorCode.authentication_failed))
        × ((authenticate ops handle_id st).1.factory ≡ st.factory)
        × ((authenticate ops handle_id st).1.opened ≡ st.opened)
  unfolding authenticate Session.new
  authenticate_rejects st m rest s a new o steady q =
      let (events, r, q', steady') =
        read_message_due st.codec m 1 st.incoming rest s (omega arith) (omega arith)
          (ap (λ c. c.next_inbound) new) steady q in
      let c = record st.codec { next_inbound = some 2 } in
      let sent =
        send_message_ok c (Message.error BrokerErrorCode.authentication_failed) 1 st.outgoing
          (tt, tt) (omega arith) (omega arith) (ap (λ c. c.next_outbound) new) o in
      (
        ground (arith, r, sent, a, new),
        ground (arith, r, sent, a, new),
        ground (arith, r, sent, a, new),
        ground (arith, r, sent, a, new),
      )

  -- For a session handle that is not 0 and a transport that does not fail: a peer whose first
  -- message, within the bounds of the protocol, is not a challenge other than zeros gets one frame,
  -- the error of a failed authentication; the session ends with that error, and the factory is as
  -- it was.
  pub serve_session_rejects :
      (incoming : List ReadEvent) (outgoing : Writer) (factory : F) (m : Message) (rest : List ℕ)
      → handle_id ≢ 0
      → IsSendable m
      → accepted_challenge m ≡ none
      → outgoing.outcomes ≡ []
      → IsSteady incoming
      → contents incoming ≡ frame_bytes 1 m ++ rest
      → let (r, st) = serve_session ops handle_id incoming outgoing factory in
        (r ≡ some (err SessionError.authentication_failed))
        × (st.outgoing.written
            ≡ outgoing.written
              ++ frame_bytes 1 (Message.error BrokerErrorCode.authentication_failed))
        × (st.factory ≡ factory)
        × (st.opened ≡ none)
  unfolding serve_session
  serve_session_rejects incoming outgoing factory m rest h s a o steady q =
      let st : Serving S F = record {
        codec = Session.new;
        incoming = incoming;
        outgoing = outgoing;
        factory = factory;
        opened = none;
      } in
      let (r, w, f, n) = authenticate_rejects st m rest s a refl o steady q in
      (ground (arith, r), ground (arith, r, w), ground (arith, r, f), ground (arith, r, n))

  serve_session_next :
      (incoming : List ReadEvent) (outgoing : Writer) (factory : F) (st' : Serving S F)
      → handle_id ≢ 0
      → authenticate ops handle_id (record {
        codec = Session.new;
        incoming = incoming;
        outgoing = outgoing;
        factory = factory;
        opened = none;
      })
        ≡ (Step.go_on, st')
      → serve_session ops handle_id incoming outgoing factory
        ≡ serve_loop ops handle_id (suc (length (contents incoming))) st'
  unfolding serve_session
  serve_session_next incoming outgoing factory st' h r = ground (arith, r)

length-stream : (n : ℕ) (messages : List Message) → length messages ≤ length (stream n messages)
length-stream n [] = omega arith
length-stream n (m ∷ messages) = omega (
  arith,
  length-append (frame_bytes n m) (stream (n + 1) messages),
  length-append (header_bytes (opcode m) n (length (layout m))) (layout m),
  length-header_bytes m n (length (layout m)),
  length-stream (n + 1) messages,
)

module _ {S F : Type 0} (ops : SourceOps S F) (handle_id : ℕ) where
  -- For a session handle of 64 bits that is not 0, a source whose methods keep to their types, and
  -- a transport that does not fail: where a peer sends a challenge other than zeros, requests within
  -- the bounds of the protocol, so many that their numbers fit 64 bits, and a shutdown, in whatever
  -- chunks they arrive, the session ends well; the other side gets the challenge back and then, in
  -- order, the answers that `handle` gives to the requests, and no source stays open.
  pub serve_session-answers :
      (challenge : List ℕ) (messages : List Message) (incoming : List ReadEvent) (outgoing : Writer)
      (factory : F) (rest : List ℕ)
      → IsTypedSource ops
      → IsU64 handle_id
      → handle_id ≢ 0
      → IsSendable (Message.hello challenge)
      → accepted_challenge (Message.hello challenge) ≡ some challenge
      → All IsSendable messages
      → length messages + 3 ≤ u64_max
      → outgoing.outcomes ≡ []
      → IsSteady incoming
      → contents incoming
        ≡ stream 1 (Message.hello challenge ∷ messages ++ Message.shutdown ∷ []) ++ rest
      → let (r, st) = serve_session ops handle_id incoming outgoing factory in
        (r ≡ some (ok tt))
        × (st.outgoing.written
            ≡ outgoing.written
              ++ stream 1
                  (Message.hello_ack challenge ∷ answers ops handle_id factory none messages))
        × (st.opened ≡ none)
  serve_session-answers challenge messages incoming outgoing factory rest typed w h s a all l o
        steady q =
      let st : Serving S F = record {
        codec = Session.new;
        incoming = incoming;
        outgoing = outgoing;
        factory = factory;
        opened = none;
      } in
      let first = frame_bytes 1 (Message.hello challenge) in
      let others = stream 2 (messages ++ Message.shutdown ∷ []) in
      let q' = q ∙ append_assoc first others rest in
      let (events, q'', steady', r) =
        authenticate_ok ops handle_id st (Message.hello challenge) challenge _ s a s refl o steady
          q' in
      let ack = frame_bytes 1 (Message.hello_ack challenge) in
      let later = stream 2 (answers ops handle_id factory none messages) in
      let fuel : length messages < suc (length (contents incoming)) = omega (
        arith,
        ap length q',
        length-append first (others ++ rest),
        length-append others rest,
        length-stream 2 (messages ++ Message.shutdown ∷ []),
        length-append messages (Message.shutdown ∷ []),
      ) in
      let done =
        serve_loop_answers ops handle_id typed w messages (suc (length (contents incoming))) 2 2 _
          rest all (omega arith) (omega arith) (omega arith) (omega arith) refl refl o steady' q''
          fuel in
      rw (serve_session_next ops handle_id incoming outgoing factory _ h r)
        (done.0, done.1 ∙ append_assoc outgoing.written ack later, done.2)
