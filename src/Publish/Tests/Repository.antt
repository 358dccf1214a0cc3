-- ===== src/Publish/Tests/Repository.antt =====
-- The theorems on single methods of the repository and the source, applied to concrete data.
use roam_content_engine.Prelude.{◌∷◌}
use roam_content_engine.Publish.Types.{PublishJobEvent, PublishJobEventType}
use roam_content_engine.Publish.Repository.Events.{list_events, IsEventOf, list_events-IsEventOf}
use roam_content_engine.Errors.{not_found, conflict}
use roam_content_engine.Publish.Statements.{names_job}
use roam_content_engine.Publish.Repository.Leases.{is_open}
use roam_content_engine.Publish.Types.{PublishJob}
use roam_content_engine.Publish.Repository.Cancel.{cancel}
use roam_content_engine.Publish.Repository.Cancel.Cases.{Cancels, IsCancelled, cancel_lem}
use roam_content_engine.Prelude.{◌||◌, arith, true}
use roam_content_engine.Publish.Source.Returns.{acquire_next_returns}
use roam_content_engine.Publish.Steps.Progress.{ready_at, ready_lem}
use roam_content_engine.Publish.Repository.Recovery.{is_stale}
use roam_content_engine.Publish.Tests.Data.{queued_job, leased_job, session}
use roam_content_engine.Prelude.{
  true, false, none, some, [], ◌∷◌, ◌≡◌, refl, ◌⊎◌, All, Pairwise, ◌≤◌,
}
use roam_content_engine.Db.{
  Session, ok, thrown, pure, query, translating, catching, ◌>>=◌, order_by, find_first,
}
use roam_content_engine.Publish.Types.{PublishJob, Tables, same_status, is_tenant_id}
use roam_content_engine.Publish.Steps.Status.{is_terminal}
use roam_content_engine.Publish.Source.{ClaimedPublishJob, acquire_next, is_candidate, is_due}
use roam_content_engine.Publish.Repository.Leases.{validate_tenant_id}
use mathlib.Core.List.Memᴰ.{head}

queued_is_due : is_candidate 20 queued_job ≡ true
unfolding is_candidate is_due same_status
queued_is_due = refl

acquire_next_returns_example :
    (claim : ClaimedPublishJob) × ((acquire_next "worker-b" 50 20
        (record session { faults = [] })).0
      ≡ ok (some claim))
acquire_next_returns_example =
    acquire_next_returns "worker-b" 50 20 session queued_job (head refl) queued_is_due refl

leased_until : ready_at leased_job.status leased_job ≤ 100
unfolding ready_at
leased_until = omega arith

leased_open : is_terminal leased_job.status ≡ false
unfolding is_terminal
leased_open = refl

ready_lem_example : (is_candidate 100 leased_job || is_stale 100 leased_job) ≡ true
ready_lem_example =
    ready_lem leased_job 100 ((refl, refl, refl), (refl, refl)) leased_open leased_until

tenant_valid : is_tenant_id "tenant_1" ≡ true
unfolding is_tenant_id
tenant_valid = refl

cancel_lem_example :
    (((find_first (names_job "tenant_1" "publish_1") session.tables.publish_jobs ≡ none)
        × ((cancel "tenant_1" "publish_1" 21 (record session { faults = [] })).0
            ≡ thrown (not_found "Publish job was not found.")))
      ⊎ ((r : PublishJob) × (find_first
              (names_job "tenant_1" "publish_1")
              session.tables.publish_jobs
            ≡ some r)
          × (((is_open r.status ≡ false)
                × ((cancel "tenant_1" "publish_1" 21 (record session { faults = [] })).0
                    ≡ thrown (
                        conflict "PUBLISH_JOB_INVALID_STATE"
                          "Publish job can only be cancelled from queued, waiting, or retrying states.")))
              ⊎ ((is_open r.status ≡ true) × IsCancelled "tenant_1" "publish_1" 21 session))))
    × Pairwise
        (Cancels "tenant_1" "publish_1" 21)
        session.tables.publish_jobs
        (cancel "tenant_1" "publish_1" 21 (record session { faults = [] })).1.tables.publish_jobs
cancel_lem_example = cancel_lem "tenant_1" "publish_1" 21 session tenant_valid

abbrev event : PublishJobEvent
event = record {
  id = "pevt_1";
  tenant_id = "tenant_1";
  publish_job_id = "publish_2";
  event_type = PublishJobEventType.publish_job_claimed;
  prior_status = none;
  new_status = none;
  details = none;
  created_at = 10;
}

abbrev logged_session : Session Tables
logged_session = record session {
  faults = [];
  tables = record { publish_jobs = []; publish_job_events = event ∷ [] };
}

listed : (list_events "tenant_1" "publish_2" logged_session).0 ≡ ok (event ∷ [])
unfolding list_events validate_tenant_id is_tenant_id translating catching query pure ◌>>=◌ order_by
listed = refl

list_events-IsEventOf_example : All (IsEventOf "tenant_1" "publish_2") (event ∷ [])
list_events-IsEventOf_example =
    list_events-IsEventOf "tenant_1" "publish_2" logged_session (event ∷ []) listed
