-- ===== src/Broker/Reads.antt =====
-- What the broker reads for its peer, and when it gives a source up.
use undelete_master.Base.{
  ℕ, ◌+◌, ◌≤◌, ◌≡◌, refl, ◌↔◌, true, Option, none, some, List, ok, u64_max, arith, ◌⊎◌, inl, inr,
  Option-cases,
}
use undelete_master.Protocol.Message.{Message, BrokerErrorCode, validate}
use undelete_master.Broker.{
  SourceOps, OpenSource, opened_message, Action, broker_error, handle, source_identity_failure,
}

module _ {S F : Type 0} (ops : SourceOps S F) (handle_id : ℕ) where
  -- A read request is answered with data exactly when a source is open under the handle that was
  -- named, the range neither wraps nor leaves the source, the identity of the source has been
  -- proved anew and the source then reads that range; the data is what it read.
  pub handle_read_data :
      (factory : F) (opened : Option (OpenSource S)) (requested offset len : ℕ) (bytes : List ℕ)
      → ((handle ops handle_id factory opened (Message.read_at requested offset len)).0
          ≡ Action.reply (Message.read_data bytes))
        ↔ ((o : OpenSource S) × (opened ≡ some o)
            × (requested ≡ o.handle_id)
            × (offset + len ≤ u64_max)
            × (offset + len ≤ (ops.geometry o.source).size)
            × ((ops.revalidate o.source).0 ≡ ok tt)
            × ((ops.read_exact_at (ops.revalidate o.source).1 offset len).0 ≡ ok bytes))
  unfolding handle
  handle_read_data factory none requested offset len bytes = ((λ e. absurd (cc)), λ h. ground arith)
  handle_read_data factory (some o) requested offset len bytes = (
    (λ e. (o, refl, ground arith, ground arith, ground arith, ground arith, ground arith)),
    λ h. ground arith,
  )

  -- A turn that answers with an error code which puts the identity of the source in doubt leaves
  -- no source open, whatever was open before.
  pub handle_identity_failure :
      (factory : F) (opened : Option (OpenSource S)) (m : Message) (code : BrokerErrorCode)
      → (handle ops handle_id factory opened m).0 ≡ broker_error code
      → source_identity_failure code ≡ true
      → (handle ops handle_id factory opened m).2 ≡ none
  unfolding handle
  handle_identity_failure factory none (Message.open_source source_id) code e f = ground arith
  handle_identity_failure factory (some o) (Message.open_source source_id) code e f = ground arith
  handle_identity_failure factory none (Message.read_at requested offset len) code e f =
      ground arith
  handle_identity_failure factory (some o) (Message.read_at requested offset len) code e f =
      ground arith
  handle_identity_failure factory none (Message.close_source requested) code e f = ground arith
  handle_identity_failure factory (some o) (Message.close_source requested) code e f = ground arith
  handle_identity_failure factory opened Message.shutdown code e f = refl
  handle_identity_failure factory opened _ code e f = ground arith

  -- Where a source is open after a message: it was before, or the message was a request to open it.
  pub handle_opened :
      (factory : F) (opened : Option (OpenSource S)) (m : Message) (o' : OpenSource S)
      → (handle ops handle_id factory opened m).2 ≡ some o'
      → ((o : OpenSource S) × (opened ≡ some o)
          × (o'.handle_id ≡ o.handle_id)
          × ((handle ops handle_id factory opened m).1 ≡ factory))
        ⊎ ((source_id : List ℕ) × (opened ≡ none)
            × (m ≡ Message.open_source source_id)
            × (o'.handle_id ≡ handle_id)
            × ((ops.open_source factory source_id).0 ≡ ok o'.source)
            × (validate (opened_message ops handle_id o'.source) ≡ ok tt))
  unfolding handle
  handle_opened factory none (Message.open_source source_id) o' e =
      inr (source_id, refl, refl, ground arith, ground arith, ground arith)
  handle_opened factory (some o) (Message.open_source source_id) o' e =
      inl (o, refl, ground arith, ground arith)
  handle_opened factory none (Message.read_at requested offset len) o' e = absurd (ground arith)
  handle_opened factory (some o) (Message.read_at requested offset len) o' e =
      inl (o, refl, ground arith, ground arith)
  handle_opened factory none (Message.close_source requested) o' e = absurd (ground arith)
  handle_opened factory (some o) (Message.close_source requested) o' e =
      inl (o, refl, ground arith, ground arith)
  handle_opened factory opened Message.shutdown o' e = absurd (ground arith)
  handle_opened factory none _ o' e = absurd (ground arith)
  handle_opened factory (some o) _ o' e = inl (o, refl, ground arith, ground arith)

  factory_kept :
      (factory : F) (o : OpenSource S) (m : Message)
      → (handle ops handle_id factory (some o) m).1 ≡ factory
  unfolding handle
  factory_kept factory o (Message.open_source source_id) = refl
  factory_kept factory o (Message.read_at requested offset len) = refl
  factory_kept factory o (Message.close_source requested) = refl
  factory_kept factory o Message.shutdown = refl
  factory_kept factory o _ = refl

  open_kept :
      (factory : F) (o : OpenSource S) (m : Message)
      → ((handle ops handle_id factory (some o) m).2 ≡ none)
        ⊎ ((o' : OpenSource S) × ((handle ops handle_id factory (some o) m).2 ≡ some o')
            × (o'.handle_id ≡ o.handle_id))
  open_kept factory o m = elim (Option-cases ((handle ops handle_id factory (some o) m).2)) [
    | inl e ↦ inl e
    | inr (o', e) ↦ elim (handle_opened factory (some o) m o' e) [
      | inl (before, was, same, _) ↦ inr (o', e, cc)
      | inr (_, closed, _, _, _, _) ↦ absurd (cc)
    ]
  ]

  opened_by :
      (factory : F) (source_id : List ℕ)
      → let (_, _, opened') = handle ops handle_id factory none (Message.open_source source_id) in
        (opened' ≡ none)
        ⊎ ((o' : OpenSource S) × (opened' ≡ some o')
            × (o'.handle_id ≡ handle_id)
            × ((ops.open_source factory source_id).0 ≡ ok o'.source)
            × (validate (opened_message ops handle_id o'.source) ≡ ok tt))
  unfolding handle
  opened_by factory source_id =
      elim (Option-cases ((handle ops handle_id factory none (Message.open_source source_id)).2)) [
        | inl e ↦ inl e
        | inr (o', e) ↦ inr (o', e, ground arith, ground arith, ground arith)
      ]

  -- The factory is only asked where no source is open, and only by a request to open one: while a
  -- source is open, no message reaches the factory, and what is open afterwards is nothing or has the
  -- handle of that source; while none is open, no other message opens one. A source that is opened is
  -- the one that the factory gave, under the handle of the session, and the message that describes it
  -- has passed the bounds of the protocol.
  pub handle_authority :
      (factory : F) (opened : Option (OpenSource S)) (m : Message)
      → let (_, factory', opened') = handle ops handle_id factory opened m in
        ((o : OpenSource S) × (opened ≡ some o)
          × (factory' ≡ factory)
          × ((opened' ≡ none)
              ⊎ ((o' : OpenSource S) × (opened' ≡ some o') × (o'.handle_id ≡ o.handle_id))))
        ⊎ (((opened ≡ none) × (factory' ≡ factory) × (opened' ≡ none))
            ⊎ ((source_id : List ℕ) × (opened ≡ none)
                × (m ≡ Message.open_source source_id)
                × (factory' ≡ (ops.open_source factory source_id).1)
                × ((opened' ≡ none)
                    ⊎ ((o' : OpenSource S) × (opened' ≡ some o')
                        × (o'.handle_id ≡ handle_id)
                        × ((ops.open_source factory source_id).0 ≡ ok o'.source)
                        × (validate (opened_message ops handle_id o'.source) ≡ ok tt)))))
  unfolding handle
  handle_authority factory (some o) m =
      inl (o, refl, factory_kept factory o m, open_kept factory o m)
  handle_authority factory none (Message.open_source source_id) =
      inr (inr (source_id, refl, refl, ground arith, opened_by factory source_id))
  handle_authority factory none (Message.read_at requested offset len) =
      inr (inl (refl, refl, refl))
  handle_authority factory none (Message.close_source requested) = inr (inl (refl, refl, refl))
  handle_authority factory none Message.shutdown = inr (inl (refl, refl, refl))
  handle_authority factory none _ = inr (inl (refl, refl, refl))
