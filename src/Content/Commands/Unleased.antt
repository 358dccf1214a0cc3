-- ===== src/Content/Commands/Unleased.antt =====
-- The methods of the repository that name no worker, as commands: what they do to a job's status.
use roam_content_engine.Prelude.{ℕ, String, true, false, none, ◌≡◌, ◌||◌, Pairwise}
use roam_content_engine.Json.{Json}
use roam_content_engine.Db.{Db, Session, ◌>>=◌, pure}
use roam_content_engine.Db.Moves.{Moves, Moves-before, Quiet-pure}
use roam_content_engine.Db.Rows.{Pairwise-map}
use roam_content_engine.Content.Types.{ContentJobRow, ContentJobStatus, ContentJobStage, Tables}
use roam_content_engine.Content.Results.{Externals}
use roam_content_engine.Content.Repository.{
  claim, mark_stage, complete, schedule_retry, fail, cancel,
}
use roam_content_engine.Content.Steps.{
  FreeStep, keeps, claims, moves_on, ends_well, ends_badly, puts_off, calls_off,
}
use roam_content_engine.Content.Source.{is_candidate, is_stale}
use roam_content_engine.Content.Steps.Progress.{undated_never_ready}
use roam_content_engine.Content.Steps.Within.{Within}
use roam_content_engine.Content.Steps.Status.{
  Allowed, is_terminal, FreeStep-Allowed, FreeStep-terminal,
}
use roam_content_engine.Content.Steps.Refinement.Repository.{
  claim-Within, mark_stage-Within, complete-Within, schedule_retry-Within, fail-Within,
  cancel-Within,
}

pub data Call : Type 0 where
  claiming cancelling : Call
  staging : ContentJobStage → Call
  completing : Json → Call
  retrying failing : (code message : String) → Call

answered {ℓ} : {A : Type ℓ} → Db Tables A → Db Tables (Unit {0})
answered m = m >>= λ _. pure tt

unfoldable pub call : Externals → (tenant_id job_id : String) → Call → Db Tables (Unit {0})
unfolding answered
call x tenant_id job_id claiming = answered (claim x tenant_id job_id)
call x tenant_id job_id cancelling = answered (cancel x tenant_id job_id)
call x tenant_id job_id (staging stage) = answered (mark_stage x tenant_id job_id stage)
call x tenant_id job_id (completing result) = answered (complete x tenant_id job_id result)
call x tenant_id job_id (retrying code message) =
    answered (schedule_retry x tenant_id job_id code message)
call x tenant_id job_id (failing code message) = answered (fail x tenant_id job_id code message)

answered-Moves {ℓ} :
    {A : Type ℓ} (m : Db Tables A)
    → Moves (Within FreeStep) m
    → Moves (Within FreeStep) (answered m)
unfolding answered
answered-Moves m k = Moves-before (Within FreeStep) m _ k (λ _. Quiet-pure tt)

call-FreeStep :
    (x : Externals) (tenant_id job_id : String) (c : Call)
    → Moves (Within FreeStep) (call x tenant_id job_id c)
unfolding call
call-FreeStep x tenant_id job_id claiming = answered-Moves _ (claim-Within x tenant_id job_id)
call-FreeStep x tenant_id job_id cancelling = answered-Moves _ (
    cancel-Within x tenant_id job_id FreeStep (λ r. keeps) (λ ended_at at r. calls_off ended_at at))
call-FreeStep x tenant_id job_id (staging stage) =
    answered-Moves _ (mark_stage-Within x tenant_id job_id stage)
call-FreeStep x tenant_id job_id (completing result) =
    answered-Moves _ (complete-Within x tenant_id job_id result)
call-FreeStep x tenant_id job_id (retrying code message) =
    answered-Moves _ (schedule_retry-Within x tenant_id job_id code message)
call-FreeStep x tenant_id job_id (failing code message) =
    answered-Moves _ (fail-Within x tenant_id job_id code message)

-- No call of claim, markStage, complete, scheduleRetry, fail or cancel of the repository changes a
-- content job's status but as the transition policy allows, none changes an ended job, and none adds
-- or removes a job, whatever the database reports.
pub call-Allowed :
    (x : Externals) (tenant_id job_id : String) (c : Call) (s : Session Tables)
    → Pairwise
        (λ r r'. Allowed r.status r'.status × (is_terminal r.status ≡ true → r' ≡ r))
        s.tables.content_jobs
        (call x tenant_id job_id c s).1.tables.content_jobs
call-Allowed x tenant_id job_id c s =
    Pairwise-map _ _ (λ r r' st. (FreeStep-Allowed st, FreeStep-terminal st))
      ((call-FreeStep x tenant_id job_id c).at s)

undated_step :
    {r r' : ContentJobRow}
    → FreeStep r r'
    → r.status ≡ ContentJobStatus.processing
    → r'.status ≡ ContentJobStatus.retrying
    → r.next_attempt_at ≡ none
    → r'.next_attempt_at ≡ none
undated_step keeps p q n = n
undated_step (claims at h) p q n = cc
undated_step (moves_on stage at h) p q n = n
undated_step (ends_well _ _ _ h) p q n = cc
undated_step (ends_badly _ _ _ _ h) p q n = cc
undated_step (puts_off _ _ _ h) p q n = n
undated_step (calls_off _ _ h) p q n = cc

-- A content job in process that has no date of a next attempt, and that a call of one of these methods
-- puts off to be retried, is left as a row that is, at no time, due for a worker or stale: as long as
-- nothing else changes it, no worker of the source is offered it and no recovery takes it up.
pub put_off_never_ready :
    (x : Externals) (tenant_id job_id : String) (c : Call) (s : Session Tables)
    → Pairwise
        (λ r r'.
          r.status ≡ ContentJobStatus.processing
          → r.next_attempt_at ≡ none
          → r'.status ≡ ContentJobStatus.retrying
          → (now : ℕ) → (is_candidate now r' || is_stale now r') ≡ false)
        s.tables.content_jobs
        (call x tenant_id job_id c s).1.tables.content_jobs
put_off_never_ready x tenant_id job_id c s =
    Pairwise-map _ _ (λ r r' st p n q now. undated_never_ready r' now q (undated_step st p q n))
      ((call-FreeStep x tenant_id job_id c).at s)
