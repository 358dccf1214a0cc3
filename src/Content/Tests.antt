-- ===== src/Content/Tests.antt =====
-- The theorems on content jobs, applied to concrete data.
mod Data
use roam_content_engine.Prelude.{
  ℕ, ◌+◌, ◌≤◌, String, Bool, true, false, Option, none, some, List, [], ◌∷◌, ◌++◌, ◌≡◌, ◌≢◌, refl,
  ap, ◌||◌, ◌&&◌, not, All, Pairwise, arith, is_empty, trim, str_eq,
}
use roam_content_engine.Errors.{conflict}
use roam_content_engine.Json.{Json, object}
use roam_content_engine.Db.{
  Session, Db, ok, thrown, pure, throw, ◌>>=◌, catching, translating, transaction, query,
  rolled_back, statement, draw, now, find_first, update_where, returning, order_by,
  ensure_non_empty,
}
use roam_content_engine.Db.Moves.{Moves, Moves-Quiet, Quiet-pure}
use roam_content_engine.Db.Order.{First}
use roam_content_engine.Db.Extends.{Extends, Extends-refl}
use roam_content_engine.Db.Found.{Has}
use roam_content_engine.Content.Types.{
  ContentJobRow, ContentJob, ContentJobStatus, TranscriptProcessingResult, Tables, same_status,
  is_prefixed_id, WorkerLeasedJob,
}
use roam_content_engine.Json.{text}
use roam_content_engine.Content.Results.{parse_result, parse_fields, result_json}
use roam_content_engine.Content.Statements.{
  content_table, job_of, map_content_job, map_optional, stored_result, update_jobs, insert_event,
  logged,
}
use roam_content_engine.Content.Source.{
  is_candidate, is_due, is_stale, age_order, next_candidate, mark_stage, mark_completed,
  renew_lease, map_worker_leased_job, leased_job, map_optional_leased,
}
use roam_content_engine.Content.Source.Settled.{is_left_as}
use roam_content_engine.Content.Source.Queue.{oldest_candidate}
use roam_content_engine.Content.Recovery.{
  run_once, recover_all, list_stale_processing_jobs, map_all, recover_stale_job, recover_found,
  expiry_order,
}
use roam_content_engine.Content.Recovery.Bounds.{TakesAtMost, CountsAtMost, run_once_bounded}
use roam_content_engine.Content.Repository.{with_result}
use roam_content_engine.Content.Creation.{
  names_version, compute_request_fingerprint, has_valid_correlation, create_or_get_idempotent,
}
use roam_content_engine.Content.Creation.Rows.{IsFresh, Grows, create-Grows}
use roam_content_engine.Content.Creation.Idempotent.{
  IsAcceptable, IsRequested, existing, create_other, create_twice,
}
use roam_content_engine.Content.Steps.{RowStep, is_leased_by}
use roam_content_engine.Content.Steps.Status.{Allowed, is_terminal}
use roam_content_engine.Content.Steps.Shape.{IsWellFormed}
use roam_content_engine.Content.Steps.Progress.{ready_at, ready_job}
use roam_content_engine.Content.Commands.{Command, perform, perform-Evolves, Evolves}
use roam_content_engine.Content.Commands.Histories.{
  run, history-IsWellFormed, leased_unchanged, command-Allowed, ended_unchanged,
}
use roam_content_engine.Content.Commands.Unleased.{Call, call, call-Allowed, put_off_never_ready}
use roam_content_engine.Content.Executor.Keeps.{IsKeptBy}
use roam_content_engine.Content.Executor.{
  WorkerError, returns, awaits, timer_fires, JobExecutionOutcome, execute, run_process,
  report_stage, attempt, renew_lease_once, settle_ending,
}
use roam_content_engine.Content.Executor.Truth.{outcome_truthful}
use roam_content_engine.Content.Executor.Invariants.{
  KeepsForm, KeepsEnded, execute-KeepsForm, execute-KeepsEnded,
}
use roam_content_engine.Content.Tests.Data.{
  externals, queued_job, leased_job as worked_job, failed_job, session, request, worker_b, result,
  commands, claimed_job, process, go_on, dependencies, recovery_config,
}

session-IsWellFormed : All IsWellFormed session.tables.content_jobs
session-IsWellFormed = (
  ((refl, refl, refl), refl),
  (((refl, refl, refl), refl, refl), (((refl, refl, refl), refl, refl, refl), tt)),
)

history-IsWellFormed_example : All IsWellFormed (run externals commands session).tables.content_jobs
history-IsWellFormed_example = history-IsWellFormed externals commands session session-IsWellFormed

other_worker : ◌≢◌ {A = String} "worker-b" "worker-a"
other_worker e = let h : false ≡ true = ap (λ w. str_eq w "worker-a") e in cc

leased_unchanged_example :
    Extends
      (λ r r'. is_leased_by 60 "worker-a" r ≡ true → r' ≡ r)
      IsFresh
      session.tables.content_jobs
      (perform externals (Command.failing worker_b "CODE" "message") session).1.tables.content_jobs
leased_unchanged_example =
    leased_unchanged externals (Command.failing worker_b "CODE" "message") 0 "worker-a" "" session
      other_worker

command-Allowed_example :
    Extends
      (λ r r'. Allowed r.status r'.status)
      (λ r. r.status ≡ ContentJobStatus.queued)
      session.tables.content_jobs
      (perform externals (Command.acquiring "worker-b" 60 50) session).1.tables.content_jobs
command-Allowed_example = command-Allowed externals (Command.acquiring "worker-b" 60 50) session

ended_unchanged_example :
    Extends
      (λ r r'. is_terminal r.status ≡ true → r' ≡ r)
      (λ _. Unit {0})
      session.tables.content_jobs
      (run externals commands session).tables.content_jobs
ended_unchanged_example = ended_unchanged externals commands session

perform-Evolves_example :
    Moves (Evolves 50 "worker-b") (perform externals (Command.acquiring "worker-b" 60 50))
perform-Evolves_example = perform-Evolves externals 0 "" (Command.acquiring "worker-b" 60 50)

call-Allowed_example :
    Pairwise
      (λ r r'. Allowed r.status r'.status × (is_terminal r.status ≡ true → r' ≡ r))
      session.tables.content_jobs
      (call externals "tenant_1" "job_1" Call.claiming session).1.tables.content_jobs
call-Allowed_example = call-Allowed externals "tenant_1" "job_1" Call.claiming session

put_off_never_ready_example :
    Pairwise
      (λ r r'.
        r.status ≡ ContentJobStatus.processing
        → r.next_attempt_at ≡ none
        → r'.status ≡ ContentJobStatus.retrying
        → (now : ℕ) → (is_candidate now r' || is_stale now r') ≡ false)
      session.tables.content_jobs
      (call externals "tenant_1" "job_2" (Call.retrying "CODE" "m") session).1.tables.content_jobs
put_off_never_ready_example =
    put_off_never_ready externals "tenant_1" "job_2" (Call.retrying "CODE" "m") session

oldest_candidate_example :
    First
      (λ r. is_candidate 50 r && not false)
      age_order
      session.tables.content_jobs
      (next_candidate 50 (λ id. false) session.tables)
oldest_candidate_example = oldest_candidate 50 (λ id. false) session.tables

ready_job_example : (is_candidate 120 worked_job || is_stale 120 worked_job) ≡ true
unfolding is_terminal ready_at
ready_job_example = ready_job worked_job 120 ((refl, refl, refl), refl, refl) refl (omega arith)

-- a session at whose time the leased job is stale
abbrev late_session : Session Tables
late_session = record session { clock = λ n. 1000 + n }

recovers_one : (run_once externals recovery_config 1 late_session).0 ≡ ok 1
unfolding run_once recover_all list_stale_processing_jobs map_all translating catching query pure
    ◌>>=◌ now order_by expiry_order same_status map_worker_leased_job map_content_job stored_result
    recover_stale_job transaction rolled_back find_first update_jobs statement logged returning
    insert_event draw
recovers_one = refl

run_once_bounded_example :
    TakesAtMost 1 1000 late_session.tables
      (run_once externals recovery_config 1 late_session).1.tables
    × CountsAtMost 1 (run_once externals recovery_config 1 late_session).0
run_once_bounded_example = run_once_bounded externals recovery_config 1 late_session

-- the result as it is submitted, with a publication that its schema changes
abbrev submitted : TranscriptProcessingResult
submitted = record result { publication = some (text "draft") }

create-Grows_example : Moves Grows (create_or_get_idempotent externals request)
create-Grows_example = create-Grows externals request

request-IsAcceptable : IsAcceptable request session.tables
unfolding is_prefixed_id find_first trim
request-IsAcceptable = record {
  tenant = refl;
  project = refl;
  source = refl;
  correlation = refl;
  key = refl;
  version = record { id = "srcver_1"; tenant_id = "tenant_1"; project_id = "project_1" };
  found = refl;
}

no_job_yet : existing request session.tables ≡ none
unfolding find_first trim
no_job_yet = refl

create_twice_example :
    let first = create_or_get_idempotent externals request (record session { faults = [] }) in
    let second = create_or_get_idempotent externals request (record (first.1) { faults = [] }) in
    ((job : ContentJobRow) × (first.0 ≡ ok (job_of job none))
      × (first.1.tables.content_jobs ≡ session.tables.content_jobs ++ job ∷ [])
      × IsRequested externals request job)
    × (second.0 ≡ first.0)
    × (second.1.tables.content_jobs ≡ first.1.tables.content_jobs)
create_twice_example = create_twice externals request session request-IsAcceptable no_job_yet

module _ (R : Tables → Tables → Type 0) (same : (t : Tables) → R t t) where
  returned_kept :
      (o : Option WorkerError) → IsKeptBy R (go_on (timer_fires (returns (result_json result))) o)
  returned_kept none = tt
  returned_kept (some e) = tt

  awaited_kept :
      (o : Option WorkerError)
      → IsKeptBy R (go_on (awaits (pure tt) (go_on (timer_fires (returns (result_json result))))) o)
  awaited_kept none = (Moves-Quiet R same _ (Quiet-pure tt), returned_kept)
  awaited_kept (some e) = tt

execute-KeepsForm_example :
    KeepsForm session.tables (execute externals dependencies claimed_job false session).1.tables
execute-KeepsForm_example =
    execute-KeepsForm externals dependencies claimed_job false session
      (awaited_kept KeepsForm (λ t h. h))

execute-KeepsEnded_example :
    KeepsEnded session.tables (execute externals dependencies claimed_job false session).1.tables
execute-KeepsEnded_example =
    execute-KeepsEnded externals dependencies claimed_job false session
      (awaited_kept KeepsEnded (λ t. Extends-refl _ (λ _. Unit) (λ r e. refl) t.content_jobs))

executed :
    (execute externals dependencies claimed_job false session).0 ≡ ok JobExecutionOutcome.completed
unfolding execute run_process report_stage attempt renew_lease_once settle_ending mark_stage
    mark_completed renew_lease map_optional_leased map_worker_leased_job leased_job map_content_job
    stored_result parse_result parse_fields result_json is_prefixed_id logged update_jobs
    insert_event translating transaction query rolled_back catching statement draw now pure throw
    ◌>>=◌ update_where returning same_status
executed = refl

outcome_truthful_example :
    Has content_table
      (is_left_as ContentJobStatus.completed "tenant_1" "job_2")
      (execute externals dependencies claimed_job false session).1.tables
outcome_truthful_example =
    outcome_truthful externals dependencies claimed_job false session JobExecutionOutcome.completed
      executed
