-- ===== src/Broker.antt =====
-- crates/elevated-broker/src/lib.rs: the session that the elevated process serves. The traits of
-- the source and its factory are the record `SourceOps`; one turn of the loop is `turn`, and its
-- decision on a message, without the transport, is `handle`. What a `Drop` releases is not state
-- of the model: a dropped source is one that no later turn can name.
pub mod Reads
pub mod Replies
pub mod Refinement
pub mod Loop
pub mod Handshake
pub mod Termination
pub mod Reachable
mod Tests
use undelete_master.Base.{
  ℕ, zero, suc, ◌+◌, Bool, true, false, not, ◌&&◌, Option, none, some, List, [], ◌∷◌, length, ltb,
  leb, ◌==◌, if◌then◌else◌, Result, ok, err, checked_add, replicate, bytes_eq,
}
use undelete_master.Protocol.Errors.{ProtocolError, ErrorKind}
use undelete_master.Protocol.Message.{Message, BrokerErrorCode, validate}
use undelete_master.Protocol.Frame.{Frame}
use undelete_master.Protocol.Transport.{ReadEvent, Writer, flush}
use undelete_master.Protocol.Transport.Chunks.{contents}
use undelete_master.Protocol.Session.{SessionCodec, read_message, write_message}
use undelete_master.Protocol.Session

pub record BrokerSourceGeometry : Type 0 where
  pub size : ℕ
  pub logical_sector : ℕ
  pub physical_sector : ℕ
  pub physical_disk_number : ℕ

-- The traits `ReadOnlyBrokerSource` and `ReadOnlySourceFactory`: a method that takes `&mut self`
-- returns the source or the factory behind it. `read_exact_at` fills a buffer of the given size.
pub record SourceOps (S F : Type 0) : Type 0 where
  pub geometry : S → BrokerSourceGeometry
  pub revalidate : S → Result BrokerErrorCode (Unit {0}) × S
  pub read_exact_at : S → ℕ → ℕ → Result BrokerErrorCode (List ℕ) × S
  pub open_source : F → List ℕ → Result BrokerErrorCode S × F

pub data SessionError : Type 0 where
  authentication_failed invalid_handle_id transport_failure protocol_failure : SessionError

unfoldable pub protocol_error : ProtocolError → SessionError
protocol_error (ProtocolError.io kind) = SessionError.transport_failure
protocol_error _ = SessionError.protocol_failure

pub record OpenSource (S : Type 0) : Type 0 where
  pub handle_id : ℕ
  pub source : S

unfoldable pub source_identity_failure : BrokerErrorCode → Bool
source_identity_failure BrokerErrorCode.source_not_found = true
source_identity_failure BrokerErrorCode.source_identity_mismatch = true
source_identity_failure BrokerErrorCode.source_unavailable = true
source_identity_failure BrokerErrorCode.source_changed = true
source_identity_failure _ = false

unfoldable pub send_message :
    SessionCodec → Message → Writer → Result SessionError (Unit {0}) × SessionCodec × Writer
unfolding protocol_error
send_message codec message writer =
    let (r, codec', writer') = write_message codec message writer in
    elim r [
      | err e ↦ (err (protocol_error e), codec', writer')
      | ok _ ↦ elim ((flush writer').0) [
        | err _ ↦ (err SessionError.transport_failure, codec', (flush writer').1)
        | ok _ ↦ (ok tt, codec', (flush writer').1)
      ]
    ]

-- What a turn does with a message: it sends a reply and goes on, or the session ends.
pub data Action : Type 0 where
  reply : Message → Action
  stop : Action

abbrev pub broker_error : BrokerErrorCode → Action
broker_error code = reply (Message.error code)

module _ {S F : Type 0} (ops : SourceOps S F) where
  abbrev pub opened_message : ℕ → S → Message
  opened_message handle_id source =
      let g = ops.geometry source in
      Message.opened handle_id g.size g.logical_sector g.physical_sector g.physical_disk_number

  -- `Message::OpenSource`
  unfoldable pub handle_open :
      ℕ → F → Option (OpenSource S) → List ℕ → Action × F × Option (OpenSource S)
  handle_open handle_id factory (some o) source_id =
      (broker_error BrokerErrorCode.invalid_request, factory, some o)
  handle_open handle_id factory none source_id =
      let (r, factory') = ops.open_source factory source_id in
      elim r [
        | err code ↦ (broker_error code, factory', none)
        | ok source ↦ elim (validate (opened_message handle_id source)) [
          | err _ ↦ (broker_error BrokerErrorCode.source_identity_mismatch, factory', none)
          | ok _ ↦ (
            reply (opened_message handle_id source),
            factory',
            some (record { handle_id = handle_id; source = source }),
          )
        ]
      ]

  -- A failing source: it is given up where the code says that its identity is in doubt.
  unfoldable pub fail : OpenSource S → S → BrokerErrorCode → Action × Option (OpenSource S)
  unfolding source_identity_failure
  fail o source code = (
    broker_error code,
    if source_identity_failure code then none else some (record o { source = source }),
  )

  -- `Message::ReadAt`
  unfoldable pub handle_read : Option (OpenSource S) → ℕ → ℕ → ℕ → Action × Option (OpenSource S)
  unfolding fail
  handle_read none requested offset len = (broker_error BrokerErrorCode.invalid_handle, none)
  handle_read (some o) requested offset len =
      if not (requested == o.handle_id)
      then (broker_error BrokerErrorCode.invalid_handle, some o)
      else elim (checked_add offset len) [
        | none ↦ (broker_error BrokerErrorCode.read_out_of_range, some o)
        | some finish ↦
            if ltb (ops.geometry o.source).size finish
            then (broker_error BrokerErrorCode.read_out_of_range, some o)
            else elim ((ops.revalidate o.source).0) [
              | err code ↦ fail o (ops.revalidate o.source).1 code
              | ok _ ↦
                  let current = (ops.revalidate o.source).1 in
                  elim ((ops.read_exact_at current offset len).0) [
                    | err code ↦ fail o (ops.read_exact_at current offset len).1 code
                    | ok bytes ↦ (
                      reply (Message.read_data bytes),
                      some (record o { source = (ops.read_exact_at current offset len).1 }),
                    )
                  ]
            ]
      ]

  -- `Message::CloseSource`
  unfoldable pub handle_close : Option (OpenSource S) → ℕ → Action × Option (OpenSource S)
  handle_close none requested = (broker_error BrokerErrorCode.invalid_handle, none)
  handle_close (some o) requested =
      if o.handle_id == requested
      then (reply (Message.closed requested), none)
      else (broker_error BrokerErrorCode.invalid_handle, some o)

  unfoldable pub handle :
      ℕ → F → Option (OpenSource S) → Message → Action × F × Option (OpenSource S)
  unfolding handle_open handle_read handle_close
  handle handle_id factory opened (Message.open_source source_id) =
      handle_open handle_id factory opened source_id
  handle handle_id factory opened (Message.read_at requested offset len) =
      let (action, opened') = handle_read opened requested offset len in (action, factory, opened')
  handle handle_id factory opened (Message.close_source requested) =
      let (action, opened') = handle_close opened requested in (action, factory, opened')
  handle handle_id factory opened Message.shutdown = (stop, factory, none)
  handle handle_id factory opened _ =
      (broker_error BrokerErrorCode.invalid_request, factory, opened)

-- The variables of the loop, with the two halves of the transport.
pub record Serving (S F : Type 0) : Type 0 where
  pub codec : SessionCodec
  pub incoming : List ReadEvent
  pub outgoing : Writer
  pub factory : F
  pub opened : Option (OpenSource S)

pub data Step : Type 0 where
  go_on : Step
  return : Result SessionError (Unit {0}) → Step

module _ {S F : Type 0} (ops : SourceOps S F) (handle_id : ℕ) where
  -- One turn of the loop.
  unfoldable pub turn : Serving S F → Step × Serving S F
  turn st =
      let (r, codec, incoming) = read_message st.codec st.incoming in
      elim r [
        | err e ↦
            (return (err (protocol_error e)), record st { codec = codec; incoming = incoming })
        | ok frame ↦
            let (action, factory, opened) =
              handle ops handle_id st.factory st.opened frame.message in
            elim action [
              | stop ↦ (
                return (ok tt),
                record {
                  codec = codec;
                  incoming = incoming;
                  outgoing = st.outgoing;
                  factory = factory;
                  opened = opened;
                },
              )
              | reply message ↦
                  let (sent, codec', outgoing) = send_message codec message st.outgoing in
                  let st' : Serving S F = record {
                    codec = codec';
                    incoming = incoming;
                    outgoing = outgoing;
                    factory = factory;
                    opened = opened;
                  } in
                  elim sent [ err e ↦ (return (err e), st') | ok _ ↦ (go_on, st') ]
            ]
      ]

  -- The loop, none when the fuel is spent.
  unfoldable pub serve_loop :
      ℕ → Serving S F → Option (Result SessionError (Unit {0})) × Serving S F
  serve_loop zero st = (none, st)
  serve_loop (suc fuel) st = elim ((turn st).0) [
    | return r ↦ (some r, (turn st).1)
    | go_on ↦ serve_loop fuel (turn st).1
  ]

-- `challenge != [0_u8; 32]`, and the first message that opens a session.
unfoldable pub accepted_challenge : Message → Option (List ℕ)
accepted_challenge (Message.hello challenge) =
    if not (bytes_eq challenge (replicate 32 0)) then some challenge else none
accepted_challenge _ = none

module _ {S F : Type 0} (ops : SourceOps S F) (handle_id : ℕ) where
  -- The handshake: the challenge goes back, or the session ends.
  unfoldable pub authenticate : Serving S F → Step × Serving S F
  authenticate st =
      let (r, codec, incoming) = read_message st.codec st.incoming in
      elim r [
        | err e ↦
            (return (err (protocol_error e)), record st { codec = codec; incoming = incoming })
        | ok frame ↦ elim (accepted_challenge frame.message) [
          | none ↦
              let (sent, codec', outgoing) =
                send_message codec (Message.error BrokerErrorCode.authentication_failed)
                  st.outgoing in
              let st' = record st { codec = codec'; incoming = incoming; outgoing = outgoing } in
              elim sent [
                | err e ↦ (return (err e), st')
                | ok _ ↦ (return (err SessionError.authentication_failed), st')
              ]
          | some challenge ↦
              let (sent, codec', outgoing) =
                send_message codec (Message.hello_ack challenge) st.outgoing in
              let st' = record st { codec = codec'; incoming = incoming; outgoing = outgoing } in
              elim sent [ err e ↦ (return (err e), st') | ok _ ↦ (go_on, st') ]
        ]
      ]

  -- The whole session; every turn takes a frame, so the bytes that are left are fuel enough.
  unfoldable pub serve_session :
      List ReadEvent → Writer → F → Option (Result SessionError (Unit {0})) × Serving S F
  serve_session incoming outgoing factory =
      let st : Serving S F = record {
        codec = Session.new;
        incoming = incoming;
        outgoing = outgoing;
        factory = factory;
        opened = none;
      } in
      if handle_id == 0
      then (some (err SessionError.invalid_handle_id), st)
      else elim ((authenticate st).0) [
        | return r ↦ (some r, (authenticate st).1)
        | go_on ↦ serve_loop ops handle_id (suc (length (contents incoming))) (authenticate st).1
      ]
