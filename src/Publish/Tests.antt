-- ===== src/Publish/Tests.antt =====
-- The theorems on publish jobs, applied to concrete data.
mod Data
mod Repository
use roam_content_engine.Prelude.{◌∷◌}
use roam_content_engine.Publish.Types.{PublishJobEvent, PublishJobEventType}
use roam_content_engine.Publish.Repository.Events.{list_events, IsEventOf, list_events-IsEventOf}
use roam_content_engine.Errors.{not_found, conflict}
use roam_content_engine.Publish.Statements.{names_job}
use roam_content_engine.Publish.Repository.Leases.{is_open}
use roam_content_engine.Publish.Types.{PublishJob}
use roam_content_engine.Publish.Repository.Cancel.{cancel, cancelled_by_request}
use roam_content_engine.Publish.Repository.Cancel.Cases.{cancel_lem}
use roam_content_engine.Prelude.{◌||◌, arith, true}
use roam_content_engine.Publish.Source.Returns.{acquire_next_returns}
use roam_content_engine.Publish.Steps.Progress.{ready_at, ready_lem}
use roam_content_engine.Publish.Repository.Recovery.{is_stale}
use roam_content_engine.Publish.Tests.Data.{
  digest, snapshot, queued_job, leased_job, cancelled_job, session, worker_a, commands,
  quiet_session, claim_b, remote_job, client, dependencies, claim_a, padded,
}
use roam_content_engine.Prelude.{
  is_empty, slice_to, ◌+◌, String, true, false, none, some, List, [], ◌∷◌, ◌≡◌, ◌≢◌, refl, ap, ◌⊎◌,
  All, Pairwise, ◌&&◌, not, str_eq, ◌↔◌, ◌≤◌, utf16_length, trim,
}
use roam_content_engine.Db.{
  Session, ok, thrown, pure, throw, statement, query, draw, translating, catching, transaction,
  rolled_back, ◌>>=◌, update_where, returning, order_by, now, find_first, ensure_non_empty,
}
use roam_content_engine.Db.Moves.{Moves-Quiet, Quiet-pure, Quiet-throw}
use roam_content_engine.Db.Order.{First}
use roam_content_engine.Errors.{Thrown, validation}
use roam_content_engine.Publish.Types.{
  PublishJob, PublishJobStatus, PublishJobStage, PublishJobMode, OutputFormat,
  SourceArtifactSnapshot, Tables, same_status, is_tenant_id,
}
use roam_content_engine.Publish.Statements.{Caller, update_jobs, logged, insert_event}
use roam_content_engine.Publish.Steps.Shape.{IsWellFormed}
use roam_content_engine.Publish.Commands.{Command, perform, perform-Within}
use roam_content_engine.Publish.Commands.Histories.{
  run, run-IsWellFormed, run_terminal, run-Grows, perform_leased, perform-Allowed, Grows, Settled,
  Settled-refl, Grows-refl,
}
use roam_content_engine.Publish.Steps.{RowStep, is_leased_by}
use roam_content_engine.Publish.Steps.Rows.{Rows, Pairwise-refl}
use roam_content_engine.Publish.Steps.Status.{Allowed, is_terminal}
use roam_content_engine.Publish.Source.{
  ClaimedPublishJob, renew_lease, acquire_next, is_candidate, is_due, due_order, next_candidate,
  claim_of, claim_found,
}
use roam_content_engine.Publish.Source.Queue.{next_candidate-First}
use roam_content_engine.Publish.Source.Claim.{IsClaim, acquire_next-IsClaim}
use roam_content_engine.Publish.Repository.Leases.{
  claim_candidate, get_by_id, validate_tenant_id, set_stage, stage_current,
}
use roam_content_engine.Publish.Classifier.{
  sanitize_error_message, submission, poll, classify_publish_orchestration_failure,
}
use roam_content_engine.Publish.Classifier.Messages.{error_message_bounded}
use roam_content_engine.Publish.Engine.{
  PublishEngineClient, PublishEngineJob, PublishEngineJobState, state_text,
}
use roam_content_engine.Publish.Heartbeat.{Dependencies, with_heartbeat, heartbeats}
use roam_content_engine.Publish.Executor.{
  handle_failure, Outcome, execute, execute_current, advance, submit_remote_job, submit_operation,
  persisted_or_lost,
}
use roam_content_engine.Publish.Executor.Settled.{Has, is_left_as}
use roam_content_engine.Publish.Executor.Unrecorded.{handle_failure_unrecorded}
use roam_content_engine.Publish.Executor.Truth.{execute_truthful}
use roam_content_engine.Publish.Artifact.{
  source_of, parse_snapshot, validate_source, is_snapshot, is_source, is_checksum,
}
use roam_content_engine.Publish.Repository.Settle.{record_submission}
use roam_content_engine.Publish.Executor.Keeps.{IsKeptBy}
use roam_content_engine.Publish.Executor.Invariants.{
  KeepsForm, execute-IsWellFormed, execute-Settled,
}

session-IsWellFormed : All IsWellFormed session.tables.publish_jobs
session-IsWellFormed = (
  ((refl, refl, refl), (refl, refl)),
  (((refl, refl, refl), (refl, refl)), (((refl, refl, refl), (refl, refl), refl), tt)),
)

run-IsWellFormed_example : All IsWellFormed (run commands session).tables.publish_jobs
run-IsWellFormed_example = run-IsWellFormed commands session session-IsWellFormed

perform-Allowed_example :
    Pairwise
      (λ r r'. Allowed r.status r'.status)
      session.tables.publish_jobs
      (perform (Command.acquiring "worker-b" 50 20) session).1.tables.publish_jobs
perform-Allowed_example = perform-Allowed (Command.acquiring "worker-b" 50 20) session

other_worker : ◌≢◌ {A = String} "worker-b" "worker-a"
other_worker e = let h : false ≡ true = ap (λ w. str_eq w "worker-a") e in cc

perform_leased_example :
    Pairwise
      (λ r r'. is_leased_by 20 "worker-a" r ≡ true → r' ≡ r)
      session.tables.publish_jobs
      (perform (Command.acquiring "worker-b" 50 20) session).1.tables.publish_jobs
perform_leased_example =
    perform_leased (Command.acquiring "worker-b" 50 20) "worker-a" "" session other_worker

run_terminal_example :
    Pairwise
      (λ r r'. is_terminal r.status ≡ true → r' ≡ r)
      session.tables.publish_jobs
      (run commands session).tables.publish_jobs
run_terminal_example = run_terminal commands session

run-Grows_example :
    Pairwise Grows session.tables.publish_jobs (run commands session).tables.publish_jobs
run-Grows_example = run-Grows commands session

perform-Within_example :
    Pairwise
      (RowStep 20 "worker-b")
      session.tables.publish_jobs
      (perform (Command.acquiring "worker-b" 50 20) session).1.tables.publish_jobs
perform-Within_example = (perform-Within "" (Command.acquiring "worker-b" 50 20)).at session

next_candidate-First_example :
    First
      (λ r. is_candidate 20 r && not (str_eq r.id "publish_9"))
      due_order
      session.tables.publish_jobs
      (next_candidate 20 (λ id. str_eq id "publish_9") session.tables)
next_candidate-First_example = next_candidate-First 20 (λ id. str_eq id "publish_9") session.tables

acquired : (acquire_next "worker-b" 50 20 quiet_session).0 ≡ ok (some claim_b)
unfolding acquire_next translating catching transaction query rolled_back ◌>>=◌ pure statement draw
    claim_of next_candidate claim_found claim_candidate update_jobs logged insert_event update_where
    returning order_by due_order is_candidate is_due same_status
acquired = refl

acquire_next-IsClaim_example :
    IsClaim "worker-b" 70 claim_b (acquire_next "worker-b" 50 20 quiet_session).1.tables
acquire_next-IsClaim_example = acquire_next-IsClaim "worker-b" 50 20 quiet_session claim_b acquired

error_message_bounded_example :
    utf16_length
      (classify_publish_orchestration_failure (Thrown.timeout "late") poll true).error_message
    ≤ 500
error_message_bounded_example = error_message_bounded (Thrown.timeout "late") poll true

client-IsKeptBy : (R : Tables → Tables → Type 0) → ((t : Tables) → R t t) → IsKeptBy R client
client-IsKeptBy R same = record {
  submit = λ q o. Moves-Quiet R same _ (Quiet-pure remote_job);
  submit_cta = λ q o. Moves-Quiet R same _ (Quiet-pure remote_job);
  get_job = λ id o. Moves-Quiet R same _ (Quiet-pure remote_job);
  get_download = λ id o. Moves-Quiet R same _ (Quiet-throw (Thrown.job_failed "no download"));
}

execute-IsWellFormed_example :
    All IsWellFormed (execute dependencies claim_a false session).1.tables.publish_jobs
execute-IsWellFormed_example =
    execute-IsWellFormed dependencies claim_a false session (client-IsKeptBy KeepsForm (λ t h. h))
      session-IsWellFormed

execute-Settled_example :
    Pairwise
      (λ r r'. Settled r r' × Grows r r')
      session.tables.publish_jobs
      (execute dependencies claim_a false session).1.tables.publish_jobs
execute-Settled_example = execute-Settled dependencies claim_a false session (
    client-IsKeptBy (Rows (λ r r'. Settled r r' × Grows r r'))
      (λ t. Pairwise-refl _ (λ r. (Settled-refl r, Grows-refl r)) t.publish_jobs))

executed : (execute dependencies claim_a false quiet_session).0 ≡ ok Outcome.waiting
unfolding execute execute_current advance submit_remote_job get_by_id validate_tenant_id
    is_tenant_id translating catching transaction query rolled_back ◌>>=◌ pure throw statement draw
    now find_first ensure_non_empty set_stage stage_current update_jobs logged insert_event
    update_where returning source_of parse_snapshot validate_source is_snapshot is_source
    is_checksum trim utf16_length with_heartbeat heartbeats renew_lease claim_of record_submission
    state_text same_status submit_operation persisted_or_lost
executed = refl

execute_truthful_example :
    (Outcome.waiting ≡ Outcome.lease_lost)
    ⊎ Has
        (is_left_as Outcome.waiting "tenant_1" "publish_2")
        (execute dependencies claim_a false quiet_session).1.tables
execute_truthful_example =
    execute_truthful dependencies claim_a false quiet_session Outcome.waiting executed

-- five hundred blanks before the text
abbrev long_message : String
long_message = padded 500

unrecorded_text : is_empty (trim long_message) ≡ false
unfolding trim
unrecorded_text = refl

unrecorded_blank : is_empty (trim (sanitize_error_message long_message)) ≡ true
unfolding trim sanitize_error_message utf16_length slice_to
unrecorded_blank = refl

worker_named : is_empty (trim "worker-a") ≡ false
unfolding trim
worker_named = refl

handle_failure_unrecorded_example :
    ((handle_failure dependencies leased_job submission (Thrown.plain_error long_message) session).0
      ≡ thrown (validation "errorMessage cannot be empty."))
    × ((handle_failure dependencies leased_job submission
          (Thrown.plain_error long_message)
          session).1.tables
        ≡ session.tables)
handle_failure_unrecorded_example =
    handle_failure_unrecorded dependencies leased_job submission long_message session
      unrecorded_text unrecorded_blank worker_named
