-- ===== src/Broker/Replies.antt =====
-- The replies of the broker keep the bounds of the protocol, so that every one of them can be sent.
use undelete_master.Base.{
  ℕ, ◌≤◌, ◌≡◌, ◌≢◌, Option, none, some, List, length, ok, arith, Result-cases, inl, inr, All,
}
use undelete_master.Base.Words.{IsByte, IsU32, IsU64}
use undelete_master.Protocol.Message.{Message, validate, max_read_len}
use undelete_master.Protocol.Message.Bounds.{validate_iff}
use undelete_master.Protocol.Session.Lockstep.{IsSendable}
use undelete_master.Broker.{
  SourceOps, OpenSource, opened_message, Action, handle, handle_read, handle_open, handle_close,
}

-- What the types of the source's methods say: the widths of the geometry, and a buffer that is
-- filled keeps its size.
pub record IsTypedSource {S F : Type 0} (ops : SourceOps S F) : Type 0 where
  pub size : (s : S) → IsU64 (ops.geometry s).size
  pub sectors :
      (s : S)
      → IsU32 (ops.geometry s).logical_sector
        × IsU32 (ops.geometry s).physical_sector
        × IsU32 (ops.geometry s).physical_disk_number
  pub filled :
      (s : S) (offset len : ℕ) (bytes : List ℕ)
      → (ops.read_exact_at s offset len).0 ≡ ok bytes
      → (length bytes ≡ len) × All IsByte bytes

-- An action whose reply can be sent.
abbrev pub IsSendableAction : Action → Type 0
IsSendableAction (Action.reply m) = IsSendable m
IsSendableAction Action.stop = Unit

module _ {S F : Type 0} (ops : SourceOps S F) (typed : IsTypedSource ops) where
  opened-IsSendable :
      (handle_id : ℕ) (source : S)
      → IsU64 handle_id
      → validate (opened_message ops handle_id source) ≡ ok tt
      → IsSendable (opened_message ops handle_id source)
  opened-IsSendable handle_id source w v = (
    (
      w,
      typed.size source,
      (typed.sectors source).0,
      (typed.sectors source).1,
      (typed.sectors source).2,
    ),
    (validate_iff (opened_message ops handle_id source)).0 v,
  )

  open_sendable :
      (handle_id : ℕ) (factory : F) (opened : Option (OpenSource S)) (source_id : List ℕ)
      → IsU64 handle_id
      → IsSendableAction (handle_open ops handle_id factory opened source_id).0
  unfolding handle_open
  open_sendable handle_id factory (some o) source_id w = (tt, tt)
  open_sendable handle_id factory none source_id w =
      elim (Result-cases ((ops.open_source factory source_id).0)) [
        | inl (source, e) ↦ elim (Result-cases (validate (opened_message ops handle_id source))) [
          | inl (u, v) ↦ rw (e, v, handle_open) (opened-IsSendable handle_id source w v)
          | inr (x, v) ↦ rw (e, v, handle_open) (tt, tt)
        ]
        | inr (code, e) ↦ rw (e, handle_open) (tt, tt)
      ]

  read_sendable :
      (opened : Option (OpenSource S)) (requested offset len : ℕ)
      → len ≤ max_read_len
      → IsSendableAction (handle_read ops opened requested offset len).0
  unfolding handle_read
  read_sendable none requested offset len h = (tt, tt)
  read_sendable (some o) requested offset len h =
      elim (Result-cases ((ops.read_exact_at (ops.revalidate o.source).1 offset len).0)) [
        | inl (bytes, e) ↦
            ground (arith, typed.filled (ops.revalidate o.source).1 offset len bytes e)
        | inr (code, e) ↦ ground arith
      ]

  close_sendable :
      (opened : Option (OpenSource S)) (requested : ℕ)
      → IsU64 requested
      → requested ≢ 0
      → IsSendableAction (handle_close ops opened requested).0
  unfolding handle_close
  close_sendable none requested w h = (tt, tt)
  close_sendable (some o) requested w h = ground arith

  -- For a source whose methods keep to their types and a session handle of 64 bits: whatever the
  -- broker answers to a message within the bounds of the protocol is within them too, so that it can
  -- be sent.
  pub handle_sendable :
      (handle_id : ℕ) (factory : F) (opened : Option (OpenSource S)) (m : Message)
      → IsU64 handle_id
      → IsSendable m
      → IsSendableAction (handle ops handle_id factory opened m).0
  unfolding handle
  handle_sendable handle_id factory opened (Message.open_source source_id) w s =
      open_sendable handle_id factory opened source_id w
  handle_sendable handle_id factory opened (Message.read_at requested offset len) w s =
      read_sendable opened requested offset len s.1.2
  handle_sendable handle_id factory opened (Message.close_source requested) w s =
      close_sendable opened requested s.0 s.1
  handle_sendable handle_id factory opened Message.shutdown w s = tt
  handle_sendable handle_id factory opened _ w s = (tt, tt)
