-- ===== src/Publish/Steps/Shape.antt =====
-- The well-formedness of a row: which of its columns are set in which status.
use roam_content_engine.Prelude.{ℕ, String, true, ◌≡◌, arith, is_some, is_none}
use roam_content_engine.Publish.Types.{PublishJob, PublishJobStatus, same_status}
use roam_content_engine.Publish.Repository.Leases.{is_open}
use roam_content_engine.Publish.Steps.{
  RowStep, is_leased_by, stays, claims, renews, stages, submits, waits, retries, completes, fails,
  calls_off, cancels, recovers,
}
use roam_content_engine.Publish.Steps.Status.{worked-processing, leased-processing}

abbrev HasLease : PublishJob → Type 0
HasLease r =
    (is_some r.lease_owner ≡ true)
    × (is_some r.lease_expires_at ≡ true)
    × (is_some r.heartbeat_at ≡ true)

abbrev NoLease : PublishJob → Type 0
NoLease r =
    (is_none r.lease_owner ≡ true)
    × (is_none r.lease_expires_at ≡ true)
    × (is_none r.heartbeat_at ≡ true)

abbrev NotEnded : PublishJob → Type 0
NotEnded r = (is_none r.completed_at ≡ true) × (is_none r.cancelled_at ≡ true)

abbrev NotScheduled : PublishJob → Type 0
NotScheduled r = (is_none r.next_attempt_at ≡ true) × (is_none r.next_poll_at ≡ true)

-- A lease exactly while the job is processed; a date to go on while it waits or is to be retried;
-- the date of its end, and no further date, once it has ended.
abbrev pub Shape : PublishJobStatus → PublishJob → Type 0
Shape PublishJobStatus.queued r = NoLease r × NotEnded r
Shape PublishJobStatus.processing r = HasLease r × NotEnded r
Shape PublishJobStatus.waiting r = NoLease r × NotEnded r × (is_some r.next_poll_at ≡ true)
Shape PublishJobStatus.retrying r = NoLease r × NotEnded r × (is_some r.next_attempt_at ≡ true)
Shape PublishJobStatus.completed r = NoLease r × NotScheduled r × (is_some r.completed_at ≡ true)
Shape PublishJobStatus.failed r = NoLease r × NotScheduled r × (is_some r.completed_at ≡ true)
Shape PublishJobStatus.cancelled r = NoLease r × NotScheduled r × (is_some r.cancelled_at ≡ true)

abbrev pub IsWellFormed : PublishJob → Type 0
IsWellFormed r = Shape r.status r

open-NotEnded : (r : PublishJob) → is_open r.status ≡ true → IsWellFormed r → NoLease r × NotEnded r
unfolding is_open
open-NotEnded r o f = ground arith

processing-Shape :
    (r : PublishJob)
    → r.status ≡ PublishJobStatus.processing
    → IsWellFormed r
    → HasLease r × NotEnded r
processing-Shape r e f = ground arith

leased-Shape :
    (now : ℕ) (w : String) (r : PublishJob)
    → is_leased_by now w r ≡ true
    → IsWellFormed r
    → HasLease r × NotEnded r
leased-Shape now w r h f = processing-Shape r (leased-processing now w r h) f

-- Every step keeps a row well-formed.
pub RowStep-IsWellFormed :
    {now : ℕ} {who : String} {r r' : PublishJob}
    → RowStep now who r r'
    → IsWellFormed r
    → IsWellFormed r'
unfolding same_status
RowStep-IsWellFormed stays f = f
RowStep-IsWellFormed {now} {who} {r} (claims d o h) f = ground (arith, open-NotEnded r o f)
RowStep-IsWellFormed {now} {who} {r} (renews d h) f =
    ground (arith, worked-processing who r h, processing-Shape r (worked-processing who r h) f)
RowStep-IsWellFormed {now} {who} {r} (stages stage h) f =
    ground (arith, worked-processing who r h, processing-Shape r (worked-processing who r h) f)
RowStep-IsWellFormed {now} {who} {r} (submits _ _ _ _ _ h) f =
    ground (arith, leased-Shape now who r h f)
RowStep-IsWellFormed {now} {who} {r} (waits _ _ _ _ h) f =
    ground (arith, leased-Shape now who r h f)
RowStep-IsWellFormed {now} {who} {r} (retries _ _ _ h) f =
    ground (arith, leased-Shape now who r h f)
RowStep-IsWellFormed {now} {who} {r} (completes _ _ _ _ h) f =
    ground (arith, leased-Shape now who r h f)
RowStep-IsWellFormed {now} {who} {r} (fails _ _ _ _ _ h) f =
    ground (arith, leased-Shape now who r h f)
RowStep-IsWellFormed {now} {who} {r} (calls_off _ _ _ h) f =
    ground (arith, leased-Shape now who r h f)
RowStep-IsWellFormed (cancels o) f = ground arith
RowStep-IsWellFormed {now} {who} {r} (recovers stale max delay h) f = ground arith
