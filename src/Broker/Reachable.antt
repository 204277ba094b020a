-- ===== src/Broker/Reachable.antt =====
-- The states that the loop comes through, turn by turn.
use undelete_master.Base.{◌≡◌, sym, ◌∙◌, inl, inr, none, some, All, ℕ, arith}
use undelete_master.Base.Words.{IsByte}
use undelete_master.Protocol.Transport.Chunks.{contents}
use undelete_master.Broker.{SourceOps, OpenSource, Serving, Step, turn}
use undelete_master.Broker.Reads.{handle_opened}
use undelete_master.Broker.Termination.{turn_acts, turn_shorter}

-- `Reaches st st'`: some turns that go on lead from `st` to `st'`.
pub data Reaches {S F : Type 0} (ops : SourceOps S F) (handle_id : ℕ) (first : Serving S F)
    : Serving S F → Type 0 where
  start : Reaches ops handle_id first first
  after :
      {st : Serving S F}
      → Reaches ops handle_id first st
      → (turn ops handle_id st).0 ≡ Step.go_on
      → Reaches ops handle_id first ((turn ops handle_id st).1)

module _ {S F : Type 0} (ops : SourceOps S F) (handle_id : ℕ) where
  abbrev HoldsOwn : Serving S F → Type 0
  HoldsOwn st = (o : OpenSource S) → st.opened ≡ some o → o.handle_id ≡ handle_id

  turn-HoldsOwn :
      (st : Serving S F)
      → All IsByte (contents st.incoming)
      → HoldsOwn st
      → HoldsOwn (turn ops handle_id st).1
  turn-HoldsOwn st b h o e = elim (turn_acts ops handle_id st b) [
    | inl (kept, f) ↦ h o (sym kept ∙ e)
    | inr (m, s, f, decided) ↦
        elim (handle_opened ops handle_id st.factory st.opened m o (sym decided ∙ e)) [
          | inl (before, was, same, g) ↦ same ∙ h before was
          | inr (source_id, was, asked, own, found, fits) ↦ own
        ]
  ]

  reached :
      (first st : Serving S F)
      → All IsByte (contents first.incoming)
      → HoldsOwn first
      → Reaches ops handle_id first st
      → All IsByte (contents st.incoming) × HoldsOwn st
  reached first _ b h start = (b, h)
  reached first _ b h (after r e) =
      let (b', h') = reached first _ b h r in
      ((turn_shorter ops handle_id _ b' e).0, turn-HoldsOwn _ b' h')

  -- From a state with no source open, and for any bytes that arrive, every source that the loop ever
  -- holds is held under the handle of the session.
  pub reached_handle :
      (first st : Serving S F) (o : OpenSource S)
      → All IsByte (contents first.incoming)
      → first.opened ≡ none
      → Reaches ops handle_id first st
      → st.opened ≡ some o
      → o.handle_id ≡ handle_id
  reached_handle first st o b n r e =
      (reached first st b (λ o' e'. absurd (ground (arith, n, e'))) r).1 o e
