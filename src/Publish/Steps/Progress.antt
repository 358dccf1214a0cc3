-- ===== src/Publish/Steps/Progress.antt =====
-- No job is stuck: when a well-formed job that has not ended can be taken up again.
use roam_content_engine.Prelude.{
  ℕ, ◌≤◌, true, false, Option, ◌≡◌, refl, ◌||◌, ◌&&◌, coalesce, holds, leb, is_some, is_none, arith,
}
use roam_content_engine.Publish.Types.{PublishJob, PublishJobStatus, same_status}
use roam_content_engine.Publish.Repository.Recovery.{is_stale}
use roam_content_engine.Publish.Source.{is_candidate, is_due}
use roam_content_engine.Publish.Statements.{is_free}
use roam_content_engine.Publish.Steps.Shape.{IsWellFormed, Shape}
use roam_content_engine.Publish.Steps.Status.{is_terminal}

-- the date that a job in this status waits for
unfoldable pub ready_at : PublishJobStatus → PublishJob → ℕ
ready_at PublishJobStatus.processing r = coalesce r.lease_expires_at 0
ready_at PublishJobStatus.waiting r = coalesce r.next_poll_at 0
ready_at PublishJobStatus.retrying r = coalesce r.next_attempt_at 0
ready_at _ r = 0

reached :
    (o : Option ℕ) (now : ℕ)
    → is_some o ≡ true
    → coalesce o 0 ≤ now
    → holds (λ t. leb t now) o ≡ true
reached o now s h = ground arith

unleased :
    (o : Option ℕ) (now : ℕ) → is_none o ≡ true → (is_none o || holds (λ t. leb t now) o) ≡ true
unleased o now n = rw n refl

by_status :
    (r : PublishJob) (now : ℕ) (st : PublishJobStatus)
    → Shape st r
    → is_terminal st ≡ false
    → ready_at st r ≤ now
    → ((is_due now st r && is_free now r)
        || (same_status st PublishJobStatus.processing
            && holds (λ t. leb t now) r.lease_expires_at))
      ≡ true
unfolding is_due is_terminal ready_at same_status
by_status r now PublishJobStatus.queued shape e h =
    rw (unleased r.lease_expires_at now shape.0.1) refl
by_status r now PublishJobStatus.processing shape e h = reached r.lease_expires_at now shape.0.1 h
by_status r now PublishJobStatus.waiting shape e h =
    rw (reached r.next_poll_at now shape.2 h, unleased r.lease_expires_at now shape.0.1) refl
by_status r now PublishJobStatus.retrying shape e h =
    rw (reached r.next_attempt_at now shape.2 h, unleased r.lease_expires_at now shape.0.1) refl
by_status r now PublishJobStatus.completed shape e h = cc
by_status r now PublishJobStatus.failed shape e h = cc
by_status r now PublishJobStatus.cancelled shape e h = cc

-- From the date on that it waits for, a well-formed job that has not ended is due for a worker, or
-- its worker's lease is stale and the recovery takes it up.
pub ready_lem :
    (r : PublishJob) (now : ℕ)
    → IsWellFormed r
    → is_terminal r.status ≡ false
    → ready_at r.status r ≤ now
    → (is_candidate now r || is_stale now r) ≡ true
unfolding is_candidate is_due is_terminal ready_at same_status
ready_lem r now shape open_ h = by_status r now r.status shape open_ h
