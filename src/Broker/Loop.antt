-- ===== src/Broker/Loop.antt =====
-- The whole session, from the bytes that arrive to the bytes that are sent.
use undelete_master.Base.{
  ℕ, zero, suc, ◌+◌, ◌≤◌, ◌<◌, ◌≡◌, ◌≢◌, refl, ap, ◌∙◌, Option, none, some, List, [], ◌∷◌, ◌++◌,
  length, ok, u64_max, arith, inl, inr, All, append_assoc, append-nil,
}
use undelete_master.Base.Words.{IsU64}
use undelete_master.Protocol.Message.{Message}
use mathlib.Core.Path.{subst}
use undelete_master.Protocol.Frame.Delivery.{frame_bytes}
use undelete_master.Protocol.Transport.Chunks.{contents, IsSteady}
use undelete_master.Protocol.Session.Lockstep.{IsSendable, stream}
use undelete_master.Broker.{SourceOps, OpenSource, Action, handle, Serving, Step, turn, serve_loop}
use undelete_master.Broker.Replies.{IsTypedSource, IsSendableAction, handle_sendable}
use undelete_master.Broker.Refinement.{answers, turn_stop, turn_reply, Action-cases}

module _ {S F : Type 0} (ops : SourceOps S F) (handle_id : ℕ) where
  handle_stop :
      (factory : F) (opened : Option (OpenSource S)) (m : Message)
      → (handle ops handle_id factory opened m).0 ≡ Action.stop
      → (handle ops handle_id factory opened m).2 ≡ none
  unfolding handle
  handle_stop factory none (Message.open_source source_id) e = ground arith
  handle_stop factory (some o) (Message.open_source source_id) e = ground arith
  handle_stop factory none (Message.read_at requested offset len) e = ground arith
  handle_stop factory (some o) (Message.read_at requested offset len) e = ground arith
  handle_stop factory none (Message.close_source requested) e = ground arith
  handle_stop factory (some o) (Message.close_source requested) e = ground arith
  handle_stop factory opened Message.shutdown e = refl
  handle_stop factory opened _ e = ground arith

  handle_shutdown :
      (factory : F) (opened : Option (OpenSource S))
      → (handle ops handle_id factory opened Message.shutdown).0 ≡ Action.stop
  unfolding handle
  handle_shutdown factory opened = refl

  -- What the loop comes to on a run of requests that ends with a shutdown.
  abbrev pub Serves : ℕ → Serving S F → ℕ → List Message → Type 0
  Serves fuel st n messages =
      ((serve_loop ops handle_id fuel st).0 ≡ some (ok tt))
      × ((serve_loop ops handle_id fuel st).1.outgoing.written
          ≡ st.outgoing.written ++ stream n (answers ops handle_id st.factory st.opened messages))
      × ((serve_loop ops handle_id fuel st).1.opened ≡ none)

  Serves-stop :
      (fuel n : ℕ) (st : Serving S F) (m : Message) (messages : List Message)
      → (handle ops handle_id st.factory st.opened m).0 ≡ Action.stop
      → answers ops handle_id st.factory st.opened messages ≡ []
      → ((turn ops handle_id st).0 ≡ Step.return (ok tt))
        × ((turn ops handle_id st).1.outgoing ≡ st.outgoing)
        × ((turn ops handle_id st).1.opened ≡ (handle ops handle_id st.factory st.opened m).2)
      → Serves (suc fuel) st n messages
  unfolding serve_loop
  Serves-stop fuel n st m messages a none_left (t, w, o) =
      let closed = handle_stop st.factory st.opened m a in
      let kept = ap (λ x. x.written) w in
      (
        ground (arith, t),
        rw none_left (ground (arith, t, kept, append-nil st.outgoing.written)),
        ground (arith, t, o, closed),
      )

  serve_loop_next :
      (fuel : ℕ) (st st' : Serving S F)
      → turn ops handle_id st ≡ (Step.go_on, st')
      → serve_loop ops handle_id (suc fuel) st ≡ serve_loop ops handle_id fuel st'
  unfolding serve_loop
  serve_loop_next fuel st st' t = ground (arith, t)

  answers_stop :
      (factory : F) (opened : Option (OpenSource S)) (m : Message) (messages : List Message)
      → (handle ops handle_id factory opened m).0 ≡ Action.stop
      → answers ops handle_id factory opened (m ∷ messages) ≡ []
  answers_stop factory opened m messages a = rw (a, answers) refl

  answers_reply :
      (factory : F) (opened : Option (OpenSource S)) (m answer : Message) (messages : List Message)
      → (handle ops handle_id factory opened m).0 ≡ Action.reply answer
      → answers ops handle_id factory opened (m ∷ messages)
        ≡ answer
          ∷ answers ops handle_id
              (handle ops handle_id factory opened m).1
              (handle ops handle_id factory opened m).2
              messages
  answers_reply factory opened m answer messages a = rw (a, answers) refl

  Serves-reply :
      (fuel n : ℕ) (st st' : Serving S F) (m answer : Message) (messages : List Message)
      → (handle ops handle_id st.factory st.opened m).0 ≡ Action.reply answer
      → turn ops handle_id st ≡ (Step.go_on, st')
      → st'.factory ≡ (handle ops handle_id st.factory st.opened m).1
      → st'.opened ≡ (handle ops handle_id st.factory st.opened m).2
      → st'.outgoing.written ≡ st.outgoing.written ++ frame_bytes n answer
      → Serves fuel st' (n + 1) messages
      → Serves (suc fuel) st n (m ∷ messages)
  unfolding serve_loop
  Serves-reply fuel n st st' m answer messages a t f o w s =
      let next = serve_loop_next fuel st st' t in
      (
        rw next s.0,
        rw (next, answers_reply st.factory st.opened m answer messages a, ← f, ← o)
            (s.1
              ∙ ap (λ x. x ++ later) w
              ∙ append_assoc st.outgoing.written (frame_bytes n answer) later),
        rw next s.2,
      )
    where
      later : List ℕ
      later = stream (n + 1) (answers ops handle_id st'.factory st'.opened messages)

  pub serve_loop_answers :
      IsTypedSource ops
      → IsU64 handle_id
      → (messages : List Message) (fuel k n : ℕ) (st : Serving S F) (rest : List ℕ)
      → All IsSendable messages
      → k ≢ 0
      → k + length messages + 1 ≤ u64_max
      → n ≢ 0
      → n + length messages + 1 ≤ u64_max
      → st.codec.next_inbound ≡ some k
      → st.codec.next_outbound ≡ some n
      → st.outgoing.outcomes ≡ []
      → IsSteady st.incoming
      → contents st.incoming ≡ stream k (messages ++ Message.shutdown ∷ []) ++ rest
      → length messages < fuel
      → Serves fuel st n messages
  serve_loop_answers typed w messages zero k n st rest s h l h' l' e e' o steady q f =
      absurd (omega arith)
  serve_loop_answers typed w [] (suc fuel) k n st rest s h l h' l' e e' o steady q f =
      let a = handle_shutdown st.factory st.opened in
      let q' = q ∙ append_assoc (frame_bytes k Message.shutdown) [] rest in
      Serves-stop fuel n st Message.shutdown [] a refl
        (turn_stop ops handle_id st Message.shutdown k _ (tt, tt) h (omega arith) e steady q' a)
  serve_loop_answers typed w (m ∷ messages) (suc fuel) k n st rest s h l h' l' e e' o steady q f =
      let q' =
        q
        ∙ append_assoc (frame_bytes k m) (stream (k + 1) (messages ++ Message.shutdown ∷ []))
            rest in
      elim (Action-cases ((handle ops handle_id st.factory st.opened m).0)) [
        | inl a ↦
            Serves-stop fuel n st m (m ∷ messages) a
              (answers_stop st.factory st.opened m messages a)
              (turn_stop ops handle_id st m k _ s.0 h (omega arith) e steady q' a)
        | inr (answer, a) ↦
            let t : IsSendable answer =
              subst IsSendableAction a
                (handle_sendable ops typed handle_id st.factory st.opened m w s.0) in
            let (events, rest', steady', r) =
              turn_reply ops handle_id st m answer k n _ s.0 t h (omega arith) h' (omega arith) e e'
                o steady q' a in
            Serves-reply fuel n st _ m answer messages a r refl refl refl (
              serve_loop_answers typed w messages fuel (k + 1) (n + 1) _ rest s.1 (omega arith)
                (omega arith) (omega arith) (omega arith) refl refl o steady' rest' (omega arith))
      ]
