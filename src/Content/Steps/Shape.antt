-- ===== src/Content/Steps/Shape.antt =====
-- The well-formedness of a row: which of its columns are set in which status.
use roam_content_engine.Prelude.{ℕ, String, true, ◌≡◌, arith, is_some, is_none}
use roam_content_engine.Content.Types.{ContentJobRow, ContentJobStatus, same_status}
use roam_content_engine.Content.Repository.{is_waiting}
use roam_content_engine.Content.Steps.{
  RowStep, is_leased_by, stays, acquires, renews, stages, completes, retries, fails, recovers,
  cancels,
}
use roam_content_engine.Content.Steps.Status.{leased-processing}

abbrev HasLease : ContentJobRow → Type 0
HasLease r =
    (is_some r.lease_owner ≡ true)
    × (is_some r.lease_expires_at ≡ true)
    × (is_some r.heartbeat_at ≡ true)

abbrev NoLease : ContentJobRow → Type 0
NoLease r =
    (is_none r.lease_owner ≡ true)
    × (is_none r.lease_expires_at ≡ true)
    × (is_none r.heartbeat_at ≡ true)

-- A lease exactly while the job is processed, from which on it has a date of its start; a date to go
-- on while it is to be retried; the date of its end once it has ended, and only then; and an error
-- exactly if it is known to have failed.
abbrev pub Shape : ContentJobStatus → ContentJobRow → Type 0
Shape ContentJobStatus.queued r = NoLease r × (is_none r.completed_at ≡ true)
Shape ContentJobStatus.processing r =
    HasLease r × (is_none r.completed_at ≡ true) × (is_some r.started_at ≡ true)
Shape ContentJobStatus.retrying r =
    NoLease r
    × (is_none r.completed_at ≡ true)
    × (is_some r.next_attempt_at ≡ true)
    × (is_some r.error_code ≡ true)
Shape ContentJobStatus.completed r =
    NoLease r
    × (is_some r.completed_at ≡ true)
    × (is_none r.next_attempt_at ≡ true)
    × (is_none r.error_code ≡ true)
Shape ContentJobStatus.failed r =
    NoLease r
    × (is_some r.completed_at ≡ true)
    × (is_none r.next_attempt_at ≡ true)
    × (is_some r.error_code ≡ true)
Shape ContentJobStatus.cancelled r = NoLease r × (is_some r.completed_at ≡ true)

abbrev pub IsWellFormed : ContentJobRow → Type 0
IsWellFormed r = Shape r.status r

abbrev Processing : ContentJobRow → Type 0
Processing r = HasLease r × (is_none r.completed_at ≡ true) × (is_some r.started_at ≡ true)

waiting-Shape :
    (r : ContentJobRow)
    → is_waiting r.status ≡ true
    → IsWellFormed r
    → NoLease r × (is_none r.completed_at ≡ true)
unfolding is_waiting
waiting-Shape r o f = ground arith

processing-Shape :
    (r : ContentJobRow) → r.status ≡ ContentJobStatus.processing → IsWellFormed r → Processing r
processing-Shape r e f = ground arith

leased-Shape :
    (now : ℕ) (w : String) (r : ContentJobRow)
    → is_leased_by now w r ≡ true
    → IsWellFormed r
    → Processing r
leased-Shape now w r h f = processing-Shape r (leased-processing now w r h) f

-- Every step keeps a row well-formed.
pub RowStep-IsWellFormed :
    {now : ℕ} {who : String} {r r' : ContentJobRow}
    → RowStep now who r r'
    → IsWellFormed r
    → IsWellFormed r'
unfolding same_status
RowStep-IsWellFormed stays f = f
RowStep-IsWellFormed {now} {who} {r} (acquires d o) f = ground (arith, waiting-Shape r o f)
RowStep-IsWellFormed {now} {who} {r} (renews d h) f =
    ground (arith, leased-processing now who r h, leased-Shape now who r h f)
RowStep-IsWellFormed {now} {who} {r} (stages stage h) f =
    ground (arith, leased-processing now who r h, leased-Shape now who r h f)
RowStep-IsWellFormed (completes _ h) f = ground arith
RowStep-IsWellFormed (retries _ _ _ h) f = ground arith
RowStep-IsWellFormed (fails _ _ h) f = ground arith
RowStep-IsWellFormed (recovers exhausted _ h) f = ground arith
RowStep-IsWellFormed {now} {who} {r} (cancels _ _ o) f = ground (arith, waiting-Shape r o f)
