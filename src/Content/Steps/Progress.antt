-- ===== src/Content/Steps/Progress.antt =====
-- When a job that has not ended can be taken up again.
use roam_content_engine.Prelude.{
  ℕ, ◌≤◌, true, false, Option, none, ◌≡◌, refl, ◌||◌, ◌&&◌, coalesce, holds, leb, is_some, arith,
}
use roam_content_engine.Content.Types.{ContentJobRow, ContentJobStatus, same_status}
use roam_content_engine.Content.Statements.{is_free}
use roam_content_engine.Content.Source.{is_candidate, is_due, is_stale}
use roam_content_engine.Content.Steps.Shape.{IsWellFormed, Shape}
use roam_content_engine.Content.Steps.Status.{is_terminal}

-- the date that a job in this status waits for
unfoldable pub ready_at : ContentJobStatus → ContentJobRow → ℕ
ready_at ContentJobStatus.processing r = coalesce r.lease_expires_at 0
ready_at ContentJobStatus.retrying r = coalesce r.next_attempt_at 0
ready_at _ r = 0

reached :
    (o : Option ℕ) (now : ℕ)
    → is_some o ≡ true
    → coalesce o 0 ≤ now
    → holds (λ t. leb t now) o ≡ true
reached o now s h = ground arith

by_status :
    (r : ContentJobRow) (now : ℕ) (st : ContentJobStatus)
    → Shape st r
    → is_terminal st ≡ false
    → ready_at st r ≤ now
    → ((is_due now st r && is_free now r)
        || (same_status st ContentJobStatus.processing
            && holds (λ t. leb t now) r.lease_expires_at))
      ≡ true
unfolding is_due is_terminal ready_at same_status
by_status r now ContentJobStatus.queued shape e h = rw (shape.0.1) refl
by_status r now ContentJobStatus.processing shape e h = reached r.lease_expires_at now shape.0.1 h
by_status r now ContentJobStatus.retrying shape e h =
    rw (reached r.next_attempt_at now shape.2 h, shape.0.1) refl
by_status r now ContentJobStatus.completed shape e h = cc
by_status r now ContentJobStatus.failed shape e h = cc
by_status r now ContentJobStatus.cancelled shape e h = cc

-- From the date on that it waits for, a well-formed content job that has not ended is due for a worker,
-- or its worker's lease is stale and the recovery takes it up.
pub ready_job :
    (r : ContentJobRow) (now : ℕ)
    → IsWellFormed r
    → is_terminal r.status ≡ false
    → ready_at r.status r ≤ now
    → (is_candidate now r || is_stale now r) ≡ true
unfolding is_candidate is_due is_terminal ready_at same_status
ready_job r now shape open_ h = by_status r now r.status shape open_ h

-- without a date of its next attempt a job that is to be retried is never taken up
pub undated_never_ready :
    (r : ContentJobRow) (now : ℕ)
    → r.status ≡ ContentJobStatus.retrying
    → r.next_attempt_at ≡ none
    → (is_candidate now r || is_stale now r) ≡ false
unfolding is_candidate is_due same_status
undated_never_ready r now e n = rw (e, n) refl
