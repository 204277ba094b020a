-- ===== src/Broker/Tests.antt =====
-- A source of 4096 bytes that reads as sevens, and the theorems on a session with it.
use undelete_master.Base.{
  ap, ◌∙◌, ℕ, zero, suc, ◌+◌, ◌-◌, ◌<◌, ◌≡◌, ◌⊎◌, refl, Option, none, some, List, [], ◌∷◌, ◌++◌,
  length, All, replicate, Result, ok, err, arith, length-replicate, ok-injective,
}
use mathlib.Core.Path.{subst}
use undelete_master.Base.Words.{IsByte, all_IsByte}
use undelete_master.Base.Powers.{is_power_of_two}
use undelete_master.Protocol.Message.{
  opcode, opcode_code, Message, BrokerErrorCode, validate, valid_sector_size, is_identifier_byte,
}
use undelete_master.Base.Utf8.{is_utf8}
use undelete_master.Protocol.Payload.Layout.{layout}
use undelete_master.Protocol.Frame.{header_bytes}
use undelete_master.Protocol.Frame.Delivery.{frame_bytes}
use undelete_master.Protocol.Transport.{chunk, Writer}
use undelete_master.Protocol.Session.Lockstep.{IsSendable, stream}
use undelete_master.Broker.{
  Step, SourceOps, OpenSource, Action, SessionError, Serving, handle, opened_message, serve_session,
  turn, accepted_challenge, source_identity_failure,
}
use undelete_master.Broker.Reads.{handle_read_data, handle_identity_failure, handle_authority}
use undelete_master.Broker.Replies.{IsTypedSource, IsSendableAction, handle_sendable}
use undelete_master.Broker.Refinement.{answers, turn_reply}
use undelete_master.Broker.Handshake.{serve_session-answers, serve_session_rejects}
use undelete_master.Broker.Reachable.{start, after, reached_handle}
use undelete_master.Broker.Termination.{serve_session_total, turn_acts}

-- A source is the number of reads that it stands before it fails.
abbrev demo : SourceOps ℕ ℕ
demo = record {
  geometry = λ s. record {
    size = 4096;
    logical_sector = 512;
    physical_sector = 512;
    physical_disk_number = 1;
  };
  revalidate =
      λ s. elim s [ zero ↦ (err BrokerErrorCode.source_changed, zero) | suc n ↦ (ok tt, suc n) ];
  read_exact_at = λ s offset len. (ok (replicate len 7), s - 1);
  open_source = λ f source_id. (ok 2, f + 1);
}

sevens : (n : ℕ) → All IsByte (replicate n 7)
sevens zero = tt
sevens (suc n) = (omega arith, sevens n)

demo-IsTypedSource : IsTypedSource demo
demo-IsTypedSource = record {
  size = λ s. omega arith;
  sectors = λ s. (omega arith, omega arith, omega arith);
  filled = λ s offset len bytes e.
      subst (λ bs. (length bs ≡ len) × All IsByte bs) (ok-injective e)
        (length-replicate len 7, sevens len);
}

abbrev ready : Option (OpenSource ℕ)
ready = some (record { handle_id = 5; source = 2 })

abbrev spent : Option (OpenSource ℕ)
spent = some (record { handle_id = 5; source = 0 })

handle_read_data_example :
    (handle demo 5 0 ready (Message.read_at 5 100 4)).0
    ≡ Action.reply (Message.read_data (7 ∷ 7 ∷ 7 ∷ 7 ∷ []))
handle_read_data_example =
    (handle_read_data demo 5 0 ready 5 100 4 (7 ∷ 7 ∷ 7 ∷ 7 ∷ [])).1
      (record { handle_id = 5; source = 2 }, refl, refl, omega arith, omega arith, refl, refl)

handle_identity_failure_example : (handle demo 5 0 spent (Message.read_at 5 100 4)).2 ≡ none
handle_identity_failure_example =
    handle_identity_failure demo 5 0 spent (Message.read_at 5 100 4) BrokerErrorCode.source_changed
      (unfold handle in refl) (unfold source_identity_failure in refl)

abbrev read_once : OpenSource ℕ
read_once = record { handle_id = 5; source = 1 }

abbrev demo_factory : ℕ
demo_factory = 0

handle_authority_example :
    ((o : OpenSource ℕ) × (ready ≡ some o)
      × (demo_factory ≡ 0)
      × ((some read_once ≡ none)
          ⊎ ((o' : OpenSource ℕ) × (some read_once ≡ some o') × (o'.handle_id ≡ o.handle_id))))
    ⊎ (((ready ≡ none) × (demo_factory ≡ 0) × (some read_once ≡ none))
        ⊎ ((source_id : List ℕ) × (ready ≡ none)
            × (Message.read_at 5 100 4 ≡ Message.open_source source_id)
            × (demo_factory ≡ (demo.open_source 0 source_id).1)
            × ((some read_once ≡ none)
                ⊎ ((o' : OpenSource ℕ) × (some read_once ≡ some o')
                    × (o'.handle_id ≡ 5)
                    × ((demo.open_source 0 source_id).0 ≡ ok o'.source)
                    × (validate (opened_message demo 5 o'.source) ≡ ok tt)))))
unfolding handle
handle_authority_example = handle_authority demo 5 demo_factory ready (Message.read_at 5 100 4)

-- Requests: open a source, read four bytes of it.
abbrev requests : List Message
requests = Message.open_source (b'd' ∷ b'0' ∷ []) ∷ Message.read_at 5 100 4 ∷ []

abbrev challenge : List ℕ
challenge = replicate 32 1

abbrev conversation : List Message
conversation = Message.hello challenge ∷ requests ++ Message.shutdown ∷ []

abbrev idle : Writer
idle = record { written = []; outcomes = [] }

requests-IsSendable : All IsSendable requests
unfolding is_identifier_byte is_utf8
requests-IsSendable = (
  ((all_IsByte (b'd' ∷ b'0' ∷ []) refl, refl), (omega arith, omega arith, (refl, (refl, tt)))),
  (
    ((omega arith, omega arith, omega arith), (omega arith, omega arith, omega arith, omega arith)),
    tt,
  ),
)

handle_sendable_example : IsSendableAction (handle demo 5 0 ready (Message.read_at 5 100 4)).0
handle_sendable_example =
    handle_sendable demo demo-IsTypedSource 5 0 ready (Message.read_at 5 100 4) (omega arith)
      requests-IsSendable.1.0

frames_some : 0 < length (stream 1 conversation)
unfolding layout header_bytes
frames_some = omega arith

-- The answers, as they are computed.
conversation_answers :
    answers demo 5 0 none requests
    ≡ Message.opened 5 4096 512 512 1 ∷ Message.read_data (7 ∷ 7 ∷ 7 ∷ 7 ∷ []) ∷ []
unfolding handle validate is_power_of_two valid_sector_size
conversation_answers = refl

serve_session-answers_example :
    let (r, st) = serve_session demo 5 (chunk (stream 1 conversation) ∷ []) idle 0 in
    (r ≡ some (ok tt))
    × (st.outgoing.written
        ≡ stream 1 (Message.hello_ack challenge ∷ answers demo 5 0 none requests))
    × (st.opened ≡ none)
serve_session-answers_example =
    serve_session-answers demo 5 challenge requests (chunk (stream 1 conversation) ∷ []) idle 0 []
      demo-IsTypedSource (omega arith) (omega arith) ((refl, all_IsByte challenge refl), tt)
      (unfold accepted_challenge in refl) requests-IsSendable (omega arith) refl (frames_some, tt)
      refl

reject_some : 0 < length (frame_bytes 1 Message.shutdown)
unfolding layout header_bytes
reject_some = omega arith

serve_session_rejects_example :
    let (r, st) = serve_session demo 5 (chunk (frame_bytes 1 Message.shutdown) ∷ []) idle 0 in
    (r ≡ some (err SessionError.authentication_failed))
    × (st.outgoing.written ≡ frame_bytes 1 (Message.error BrokerErrorCode.authentication_failed))
    × (st.factory ≡ 0)
    × (st.opened ≡ none)
serve_session_rejects_example =
    serve_session_rejects demo 5 (chunk (frame_bytes 1 Message.shutdown) ∷ []) idle 0
      Message.shutdown [] (omega arith) (tt, tt) (unfold accepted_challenge in refl) refl
      (reject_some, tt) refl

serve_session_total_example :
    (r : Result SessionError (Unit {0})) × ((serve_session demo 5
        (chunk (1 ∷ 2 ∷ []) ∷ [])
        idle
        0).0
      ≡ some r)
serve_session_total_example =
    serve_session_total demo 5 (chunk (1 ∷ 2 ∷ []) ∷ []) idle 0 (all_IsByte (1 ∷ 2 ∷ []) refl)

abbrev waiting : Serving ℕ ℕ
waiting = record {
  codec = record { next_outbound = some 2; next_inbound = some 2 };
  incoming = chunk (1 ∷ 2 ∷ []) ∷ [];
  outgoing = idle;
  factory = 0;
  opened = ready;
}

turn_acts_run :
    (((turn demo 5 waiting).1.opened ≡ ready) × ((turn demo 5 waiting).1.factory ≡ 0))
    ⊎ ((m : Message) × IsSendable m
        × ((turn demo 5 waiting).1.factory ≡ (handle demo 5 0 ready m).1)
        × ((turn demo 5 waiting).1.opened ≡ (handle demo 5 0 ready m).2))
turn_acts_run = turn_acts demo 5 waiting (all_IsByte (1 ∷ 2 ∷ []) refl)

abbrev asked : Message
asked = Message.open_source (b'd' ∷ b'0' ∷ [])

abbrev opening : Serving ℕ ℕ
opening = record {
  codec = record { next_outbound = some 2; next_inbound = some 2 };
  incoming = chunk (frame_bytes 2 asked) ∷ [];
  outgoing = idle;
  factory = 0;
  opened = none;
}

asked_some : 0 < length (frame_bytes 2 asked)
unfolding layout header_bytes
asked_some = omega arith

asked_bytes : All IsByte (frame_bytes 2 asked ++ [])
unfolding layout header_bytes opcode opcode_code
asked_bytes = all_IsByte (frame_bytes 2 asked ++ []) refl

demo_opened : IsSendable (Message.opened 5 4096 512 512 1)
demo_opened = (
  (omega arith, omega arith, omega arith, omega arith, omega arith),
  (
    omega arith,
    omega arith,
    (9, omega arith, omega arith, refl),
    (9, omega arith, omega arith, refl),
    omega arith,
    refl,
  ),
)

opening-turn :
    ((turn demo 5 opening).0 ≡ Step.go_on)
    × ((turn demo 5 opening).1.opened ≡ (handle demo 5 0 none asked).2)
opening-turn =
    let (events, rest, steady, e) =
      turn_reply demo 5 opening asked (Message.opened 5 4096 512 512 1) 2 2 [] requests-IsSendable.0
        demo_opened (omega arith) (omega arith) (omega arith) (omega arith) refl refl refl
        (asked_some, tt) refl (unfold handle validate is_power_of_two valid_sector_size in refl) in
    (ap (λ x. x.0) e, ap (λ x. x.1.opened) e)

opens_ready : (handle demo 5 0 none asked).2 ≡ ready
unfolding handle validate is_power_of_two valid_sector_size
opens_ready = refl

abbrev demo_source : OpenSource ℕ
demo_source = record { handle_id = 5; source = 2 }

reached_handle_example : demo_source.handle_id ≡ 5
reached_handle_example =
    reached_handle demo 5 opening (turn demo 5 opening).1 demo_source asked_bytes refl
      (after start opening-turn.0) (opening-turn.1 ∙ opens_ready)
