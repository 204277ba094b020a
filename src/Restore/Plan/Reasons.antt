-- ===== src/Restore/Plan/Reasons.antt =====
-- The reasons of crates/restore/src/plan.rs: the test for equality finds what is equal.
use undelete_master.Base.{ℕ, zero, suc, ◌∙◌, ap, ◌≡◌, refl, true, arith, sym}
use undelete_master.Restore.Errors.{ZeroFillReason, same_reason, reason_index}

reason_at : ℕ → ZeroFillReason
reason_at zero = ZeroFillReason.sparse
reason_at (suc zero) = ZeroFillReason.missing_extent
reason_at (suc (suc zero)) = ZeroFillReason.currently_allocated
reason_at (suc (suc (suc zero))) = ZeroFillReason.out_of_volume
reason_at (suc (suc (suc (suc zero)))) = ZeroFillReason.previously_read_failed
reason_at (suc (suc (suc (suc (suc zero))))) = ZeroFillReason.zeroed
reason_at (suc (suc (suc (suc (suc (suc n)))))) = ZeroFillReason.unknown_availability

reason_at-reason_index : (r : ZeroFillReason) → reason_at (reason_index r) ≡ r
unfolding reason_at reason_index
reason_at-reason_index ZeroFillReason.sparse = refl
reason_at-reason_index ZeroFillReason.missing_extent = refl
reason_at-reason_index ZeroFillReason.currently_allocated = refl
reason_at-reason_index ZeroFillReason.out_of_volume = refl
reason_at-reason_index ZeroFillReason.previously_read_failed = refl
reason_at-reason_index ZeroFillReason.zeroed = refl
reason_at-reason_index ZeroFillReason.unknown_availability = refl

pub same_reason_sound : (a b : ZeroFillReason) → same_reason a b ≡ true → a ≡ b
unfolding same_reason
same_reason_sound a b h =
    let same : reason_index a ≡ reason_index b = ground arith in
    sym (reason_at-reason_index a) ∙ ap reason_at same ∙ reason_at-reason_index b
