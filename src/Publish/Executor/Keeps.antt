-- ===== src/Publish/Executor/Keeps.antt =====
-- What the executor keeps of the tables: any relation that composes, that each step of a row keeps,
-- and that the engine's calls keep (while one is awaited, other workers may write).
use roam_content_engine.Prelude.{
  ℕ, zero, suc, String, Bool, true, false, Option, none, some, ◌≡◌, refl, inl, inr, Bool-cases, ◌+◌,
  leb, is_some, if◌then◌else◌, ◌||◌,
}
use roam_content_engine.Errors.{Thrown}
use roam_content_engine.Db.{Db, Result, ok, thrown, crashed, Session, pure, ◌>>=◌}
use roam_content_engine.Db.Moves.{
  Moves, Moves-Quiet, Moves-bind, Quiet, Quiet-pure, Quiet-throw, Quiet-query, Quiet-bind,
  Moves-translating, Moves-catching,
}
use roam_content_engine.Publish.Types.{
  RenderOptions, StoredRenderOptions, PublishJob, Tables, PublishJobMode, is_tenant_id,
  PublicationMetadata,
}
use roam_content_engine.Publish.Steps.Within.{Within}
use roam_content_engine.Publish.Steps.Refinement
use roam_content_engine.Publish.Repository.Leases.{get_by_id, validate_tenant_id}
use roam_content_engine.Publish.Repository.Recovery.{is_truthy}
use roam_content_engine.Publish.Source.{ClaimedPublishJob}
use roam_content_engine.Publish.Classifier.{
  PublishFailurePhase, submission, poll, classify_publish_orchestration_failure,
}
use roam_content_engine.Publish.Artifact.Quiet.{
  Quiet-now, Quiet-tested, Quiet-source_of, Quiet-sanitize_download,
}
use roam_content_engine.Publish.Artifact.{StyledHtmlSource}
use roam_content_engine.Publish.Engine.{
  PublishEngineClient, SubmitRequest, RequestOptions, PublishEngineJob, PublishEngineJobState,
}
use roam_content_engine.Publish.Heartbeat.{
  Dependencies, unhandled, heartbeats, with_heartbeat, caller,
}
use roam_content_engine.Publish.Executor.{
  Outcome, outcome_of, handle_failure, recover_from, submit_operation, persisted_or_lost,
  submit_remote_job, parse_render_options, polled, still_running, poll_remote_job, advance,
  execute_current, execute, is_held_by,
}

-- The engine's calls keep the relation.
pub record IsKeptBy {κ} (R : Tables → Tables → Type κ) (client : PublishEngineClient) : Type κ where
  pub submit : (q : SubmitRequest) (o : RequestOptions) → Moves R (client.submit_render q o)
  pub submit_cta : (q : SubmitRequest) (o : RequestOptions) → Moves R (client.submit_cta_render q o)
  pub get_job : (id : String) (o : RequestOptions) → Moves R (client.get_job id o)
  pub get_download : (id : String) (o : RequestOptions) → Moves R (client.get_download id o)

Quiet-get_by_id : (tenant_id job_id : String) → Quiet (get_by_id tenant_id job_id)
unfolding get_by_id validate_tenant_id
Quiet-get_by_id tenant_id job_id =
    Quiet-bind _ _ (Quiet-tested (is_tenant_id tenant_id) _ _ (Quiet-pure tt) (Quiet-throw _))
      (λ _. Moves-translating ◌≡◌ (λ t. refl) _ _ (Quiet-query _))

module _ {κ} (R : Tables → Tables → Type κ) (same : (t : Tables) → R t t)
    (comp : (x y z : Tables) → R x y → R y z → R x z)
    (step : (at : ℕ) (who : String) (t u : Tables) → Within at who t u → R t u) where
  quiet {ℓ} : {A : Type ℓ} (m : Db Tables A) → Quiet m → Moves R m
  quiet = Moves-Quiet R same

  chain {ℓ μ} :
      {A : Type ℓ} {B : Type μ} (m : Db Tables A) (f : A → Db Tables B)
      → Moves R m
      → ((a : A) → Moves R (f a))
      → Moves R (m >>= f)
  chain = Moves-bind R R R (λ x y r. r) comp

  tested {ℓ} :
      {A : Type ℓ} (b : Bool) (x y : Db Tables A)
      → Moves R x
      → Moves R y
      → Moves R (if b then x else y)
  tested true x y p q = p
  tested false x y p q = q

  stepped {ℓ} :
      {A : Type ℓ} (at : ℕ) (who : String) (m : Db Tables A) → Moves (Within at who) m → Moves R m
  stepped at who m k = record { at = λ s. step at who _ _ (k.at s) }

  unhandled_at {ℓ} :
      {A : Type ℓ} (t : Tables) (x : Result A × Session Tables)
      → R t x.1.tables
      → R t (unhandled x).1.tables
  unfolding unhandled
  unhandled_at t (ok a, s) r = r
  unhandled_at t (thrown e, s) r = r
  unhandled_at t (crashed, s) r = r

  module _ (deps : Dependencies) (kept : IsKeptBy R deps.client) where
    heartbeats-Moves : (n : ℕ) (job : PublishJob) → Moves R (heartbeats deps n job)
    unfolding heartbeats
    heartbeats-Moves zero job = quiet _ (Quiet-pure false)
    heartbeats-Moves (suc n) job = chain _ _ (quiet _ Quiet-now) (λ at.
        chain _ _
          (record {
            at = λ s. unhandled_at s.tables _ (
                (stepped at _ _
                    (Refinement.renew_lease-Within (caller job at) deps.lease_duration_ms)).at
                  s);
          })
          (λ r. tested (is_some r) _ _ (heartbeats-Moves n job) (quiet _ (Quiet-pure true))))

    with_heartbeat-Moves {ℓ} :
        {A : Type ℓ} (job : PublishJob) (aborted : Bool) (op : Bool → Db Tables A)
        → ((b : Bool) → Moves R (op b))
        → Moves R (with_heartbeat deps job aborted op)
    unfolding with_heartbeat
    with_heartbeat-Moves job aborted op k = chain _ _ (heartbeats-Moves _ job) (λ lost.
        chain _ _ (k (aborted || lost))
          (λ r. tested lost _ _ (quiet _ (Quiet-throw _)) (quiet _ (Quiet-pure r))))

    ended :
        (o : Outcome) (at : ℕ) (who : String) (m : Db Tables (Option PublishJob))
        → Moves (Within at who) m
        → Moves R (m >>= λ r. pure (outcome_of o r))
    ended o at who m k = chain _ _ (stepped at who m k) (λ r. quiet _ (Quiet-pure (outcome_of o r)))

    handle_failure-Moves :
        (job : PublishJob) (phase : PublishFailurePhase) (error : Thrown)
        → Moves R (handle_failure deps job phase error)
    unfolding handle_failure
    handle_failure-Moves job phase error = chain _ _ (quiet _ Quiet-now) (λ at.
        elim (Bool-cases (classify_publish_orchestration_failure error phase false).retryable) [
          | inr e ↦
              rw e (ended Outcome.failed at _ _ (Refinement.fail-Within (caller job at) _ _ _ _ _))
          | inl e ↦
              elim (Bool-cases
                (leb deps.max_consecutive_failures (job.consecutive_failure_count + 1))) [
                  | inl f ↦
                      rw (e, f)
                        (ended Outcome.failed at _ _
                          (Refinement.fail-Within (caller job at) _ _ _ _ _))
                  | inr f ↦
                      rw (e, f)
                        (ended Outcome.retry_scheduled at _ _
                          (Refinement.record_retry-Within (caller job at) _ _ _))
                ]
        ])

    recover_from-Moves :
        (job : PublishJob) (phase : PublishFailurePhase) (error : Thrown)
        → Moves R (recover_from deps job phase error)
    unfolding recover_from
    recover_from-Moves job phase Thrown.lease_lost = quiet _ (Quiet-pure _)
    recover_from-Moves job phase error = handle_failure-Moves job phase error

    submit_operation-Moves :
        (job : PublishJob) (source : StyledHtmlSource) (o : Option RenderOptions)
        (mode : PublishJobMode) (metadata : Option PublicationMetadata) (aborted : Bool)
        → Moves R (submit_operation deps job source o mode metadata aborted)
    unfolding submit_operation
    submit_operation-Moves job source o PublishJobMode.cta_guide none aborted =
        quiet _ (Quiet-throw _)
    submit_operation-Moves job source o PublishJobMode.cta_guide (some m) aborted =
        kept.submit_cta _ _
    submit_operation-Moves job source o PublishJobMode.standard none aborted = kept.submit _ _
    submit_operation-Moves job source o PublishJobMode.standard (some m) aborted = kept.submit _ _

    parse_render_options-Moves :
        (o : Option StoredRenderOptions) → Moves R (parse_render_options deps o)
    unfolding parse_render_options
    parse_render_options-Moves none = quiet _ (Quiet-pure _)
    parse_render_options-Moves (some (StoredRenderOptions.accepted o)) = quiet _ (Quiet-pure _)
    parse_render_options-Moves (some StoredRenderOptions.malformed) = quiet _ (Quiet-throw _)

    persisted_or_lost-Moves : (r : Option PublishJob) → Moves R (persisted_or_lost deps r)
    unfolding persisted_or_lost
    persisted_or_lost-Moves none = quiet _ (Quiet-throw _)
    persisted_or_lost-Moves (some r) = quiet _ (Quiet-pure _)

    submit_remote_job-Moves :
        (job : PublishJob) (aborted : Bool) → Moves R (submit_remote_job deps job aborted)
    unfolding submit_remote_job
    submit_remote_job-Moves job aborted = chain _ _ (quiet _ Quiet-now) (λ staged_at.
        chain _ _ (stepped staged_at _ _ (Refinement.set_stage-Within (caller job staged_at) _))
          (λ _.
            Moves-catching R comp _ _
              (chain _ _ (quiet _ (Quiet-source_of deps.externals job.source_artifact_snapshot))
                (λ source. chain _ _ (parse_render_options-Moves job.render_options) (λ o.
                  chain _ _
                    (with_heartbeat-Moves job aborted _ (submit_operation-Moves job source o _ _))
                    (λ remote. chain _ _ (quiet _ Quiet-now) (λ at.
                      chain _ _
                        (stepped at _ _
                          (Refinement.record_submission-Within (caller job at) _ _ _ _ _))
                        persisted_or_lost-Moves)))))
              (recover_from-Moves job submission)))

    polled-Moves :
        (job : PublishJob) (aborted : Bool) (remote_id : String) (at : ℕ)
        (remote : PublishEngineJob) (state : PublishEngineJobState)
        → Moves R (polled deps job aborted remote_id at remote state)
    unfolding polled still_running
    polled-Moves job aborted remote_id at remote PublishEngineJobState.failed =
        ended Outcome.failed at _ _ (Refinement.fail-Within (caller job at) _ _ _ _ _)
    polled-Moves job aborted remote_id at remote PublishEngineJobState.cancelled =
        ended Outcome.cancelled at _ _
          (Refinement.mark_remote_cancelled-Within (caller job at) _ _ _)
    polled-Moves job aborted remote_id at remote PublishEngineJobState.succeeded =
        chain _ _ (stepped at _ _ (Refinement.set_stage-Within (caller job at) _)) (λ _.
          chain _ _ (with_heartbeat-Moves job aborted _ (λ b. kept.get_download _ _)) (λ download.
            chain _ _ (quiet _ (Quiet-sanitize_download deps.externals download)) (λ metadata.
              chain _ _ (quiet _ Quiet-now) (λ done_at.
                ended Outcome.completed done_at _ _
                  (Refinement.complete-Within (caller job done_at) _ _ _ _)))))
    polled-Moves job aborted remote_id at remote _ =
        ended Outcome.waiting at _ _
          (Refinement.record_remote_waiting-Within (caller job at) _ _ _ _)

    poll_remote_job-Moves :
        (job : PublishJob) (aborted : Bool) (remote_id : String)
        → Moves R (poll_remote_job deps job aborted remote_id)
    unfolding poll_remote_job
    poll_remote_job-Moves job aborted remote_id = chain _ _ (quiet _ Quiet-now) (λ staged_at.
        chain _ _ (stepped staged_at _ _ (Refinement.set_stage-Within (caller job staged_at) _))
          (λ _.
            Moves-catching R comp _ _
              (chain _ _ (with_heartbeat-Moves job aborted _ (λ b. kept.get_job _ _)) (λ remote.
                chain _ _ (quiet _ Quiet-now)
                  (λ at. polled-Moves job aborted remote_id at remote remote.state)))
              (recover_from-Moves job poll)))

    advance-Moves :
        (job : PublishJob) (aborted : Bool) (remote_id : Option String)
        → Moves R (advance deps job aborted remote_id)
    unfolding advance
    advance-Moves job aborted none = submit_remote_job-Moves job aborted
    advance-Moves job aborted (some id) =
        tested (is_truthy (some id)) _ _ (poll_remote_job-Moves job aborted id)
          (submit_remote_job-Moves job aborted)

    execute_current-Moves :
        (worker_id : String) (aborted : Bool) (current : Option PublishJob)
        → Moves R (execute_current deps worker_id aborted current)
    unfolding execute_current
    execute_current-Moves worker_id aborted none = quiet _ (Quiet-pure _)
    execute_current-Moves worker_id aborted (some job) =
        tested (is_held_by deps worker_id job) _ _ (advance-Moves job aborted job.remote_job_id)
          (quiet _ (Quiet-pure _))

    pub execute-Moves :
        (claim : ClaimedPublishJob) (aborted : Bool) → Moves R (execute deps claim aborted)
    unfolding execute
    execute-Moves claim aborted =
        chain _ _ (quiet _ (Quiet-get_by_id _ _)) (execute_current-Moves claim.worker_id aborted)
