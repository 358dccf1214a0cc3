-- ===== src/Publish/Steps/Refinement/Settle.antt =====
-- The methods by which a worker gives a job up.
use roam_content_engine.Prelude.{ℕ, String, Option, trim}
use roam_content_engine.Db.Moves.{Moves}
use roam_content_engine.Publish.Types.{PublishDownloadMetadata}
use roam_content_engine.Publish.Statements.{Caller}
use roam_content_engine.Publish.Repository.Settle.{
  record_submission, record_remote_waiting, record_retry, complete, fail, mark_remote_cancelled,
}
use roam_content_engine.Publish.Steps.{submits, waits, retries, completes, fails, calls_off}
use roam_content_engine.Publish.Steps.Rows.{SameJobs-insert_event, SameJobs-then}
use roam_content_engine.Publish.Steps.Within.{
  Within, Within-ensure, Within-translating, Within-lease,
}

module _ (c : Caller) where
  pub record_submission-Within :
      (job_id state : String) (correlation : Option String) (at poll_at : ℕ)
      → Moves
          (Within c.now (trim c.worker_id))
          (record_submission c job_id state correlation at poll_at)
  unfolding record_submission
  record_submission-Within job_id state correlation at poll_at = Within-ensure c.now _ _ _ _ (
      Within-translating c.now _ _ _ (
        Within-ensure c.now _ _ _ _ (
          Within-ensure c.now _ _ _ _ (
            Within-lease c (trim c.worker_id) _ _ (λ r. submits _ _ _ _ _)
              (λ r.
                SameJobs-then _ _ (SameJobs-insert_event _ _ _ _ _ _)
                  (λ _. SameJobs-insert_event _ _ _ _ _ _))))))

  pub record_remote_waiting-Within :
      (state : String) (correlation : Option String) (polled_at poll_at : ℕ)
      → Moves
          (Within c.now (trim c.worker_id))
          (record_remote_waiting c state correlation polled_at poll_at)
  unfolding record_remote_waiting
  record_remote_waiting-Within state correlation polled_at poll_at = Within-ensure c.now _ _ _ _ (
      Within-translating c.now _ _ _ (
        Within-ensure c.now _ _ _ _ (
          Within-lease c (trim c.worker_id) _ _ (λ r. waits _ _ _ _)
            (λ r. SameJobs-insert_event _ _ _ _ _ _))))

  pub record_retry-Within :
      (code message : String) (attempt_at : ℕ)
      → Moves (Within c.now (trim c.worker_id)) (record_retry c code message attempt_at)
  unfolding record_retry
  record_retry-Within code message attempt_at = Within-ensure c.now _ _ _ _ (
      Within-translating c.now _ _ _ (
        Within-ensure c.now _ _ _ _ (
          Within-ensure c.now _ _ _ _ (
            Within-lease c (trim c.worker_id) _ _ (λ r. retries _ _ _)
              (λ r. SameJobs-insert_event _ _ _ _ _ _)))))

  pub complete-Within :
      (state : String) (correlation : Option String) (polled_at : Option ℕ)
      (download : PublishDownloadMetadata)
      → Moves (Within c.now (trim c.worker_id)) (complete c state correlation polled_at download)
  unfolding complete
  complete-Within state correlation polled_at download = Within-ensure c.now _ _ _ _ (
      Within-translating c.now _ _ _ (
        Within-ensure c.now _ _ _ _ (
          Within-lease c (trim c.worker_id) _ _ (λ r. completes _ _ _ _)
            (λ r. SameJobs-insert_event _ _ _ _ _ _))))

  pub fail-Within :
      (code message : String) (state correlation : Option String) (polled_at : Option ℕ)
      → Moves (Within c.now (trim c.worker_id)) (fail c code message state correlation polled_at)
  unfolding fail
  fail-Within code message state correlation polled_at = Within-ensure c.now _ _ _ _ (
      Within-translating c.now _ _ _ (
        Within-ensure c.now _ _ _ _ (
          Within-ensure c.now _ _ _ _ (
            Within-lease c (trim c.worker_id) _ _ (λ r. fails _ _ _ _ _)
              (λ r. SameJobs-insert_event _ _ _ _ _ _)))))

  pub mark_remote_cancelled-Within :
      (state : String) (correlation : Option String) (polled_at : Option ℕ)
      → Moves
          (Within c.now (trim c.worker_id))
          (mark_remote_cancelled c state correlation polled_at)
  unfolding mark_remote_cancelled
  mark_remote_cancelled-Within state correlation polled_at = Within-ensure c.now _ _ _ _ (
      Within-translating c.now _ _ _ (
        Within-ensure c.now _ _ _ _ (
          Within-lease c (trim c.worker_id) _ _ (λ r. calls_off _ _ _)
            (λ r. SameJobs-insert_event _ _ _ _ _ _))))
