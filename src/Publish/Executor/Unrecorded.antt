-- ===== src/Publish/Executor/Unrecorded.antt =====
-- A failure that handleFailure cannot record.
use roam_content_engine.Prelude.{
  ℕ, String, true, false, Option, none, ◌≡◌, refl, inl, inr, Bool-cases, leb, ◌+◌, trim, is_empty,
  coalesce, ◌∙◌,
}
use roam_content_engine.Errors.{Thrown, validation, to_database_unavailable, is_platform}
use roam_content_engine.Db.{
  Db, Session, thrown, pure, throw, now, catching, translating, ensure_non_empty, ◌>>=◌,
}
use roam_content_engine.Publish.Types.{PublishJob, Tables}
use roam_content_engine.Publish.Repository.Settle.{fail, record_retry}
use roam_content_engine.Publish.Classifier.{
  PublishFailurePhase, sanitize_error_message, classify_publish_orchestration_failure, verdict,
  message_from_error, message_of, message_or,
}
use roam_content_engine.Publish.Heartbeat.{Dependencies, caller}
use roam_content_engine.Publish.Executor.{Outcome, outcome_of, kept_state, handle_failure}
use roam_content_engine.Retry.{calculate_retry_delay_ms}
use roam_content_engine.Publish.Statements.{Caller}

module _ (c : Caller) (code message : String) (named : is_empty (trim c.worker_id) ≡ false)
    (coded : is_empty (trim code) ≡ false) (blank : is_empty (trim message) ≡ true) where
  fail_refused :
      (state correlation : Option String) (polled_at : Option ℕ) (s : Session Tables)
      → fail c code message state correlation polled_at s
        ≡ (thrown (validation "errorMessage cannot be empty."), s)
  unfolding fail ◌>>=◌ throw pure translating catching ensure_non_empty to_database_unavailable
      is_platform validation
  fail_refused state correlation polled_at s = rw (named, coded, blank) refl

  record_retry_refused :
      (attempt_at : ℕ) (s : Session Tables)
      → record_retry c code message attempt_at s
        ≡ (thrown (validation "errorMessage cannot be empty."), s)
  unfolding record_retry ◌>>=◌ throw pure translating catching ensure_non_empty
      to_database_unavailable is_platform validation
  record_retry_refused attempt_at s = rw (named, coded, blank) refl

stopped :
    {A B : Type 0} (m : Db Tables A) (f : A → Db Tables B) (s : Session Tables) {e : Thrown}
    → m s ≡ (thrown e, s)
    → (m >>= f) s ≡ (thrown e, s)
unfolding ◌>>=◌
stopped m f s h = rw h refl

exhausted_coded : is_empty (trim "PUBLISH_JOB_RETRY_EXHAUSTED") ≡ false
unfolding trim
exhausted_coded = refl

transport_coded : is_empty (trim "PUBLISH_ENGINE_TRANSPORT_ERROR") ≡ false
unfolding trim
transport_coded = refl

module _ (deps : Dependencies) (job : PublishJob) (phase : PublishFailurePhase) (message : String)
    (s : Session Tables) (text : is_empty (trim message) ≡ false) where
  abbrev by : Caller
  by = caller job (s.clock s.read)

  abbrev kept : String
  kept = sanitize_error_message message

  abbrev later : Session Tables
  later = record s { read = s.read + 1 }

  abbrev delay_ms : ℕ
  delay_ms =
      calculate_retry_delay_ms (job.consecutive_failure_count + 1) deps.retry_policy deps.draw

  handle_failure_exhausted :
      leb deps.max_consecutive_failures (job.consecutive_failure_count + 1) ≡ true
      → handle_failure deps job phase (Thrown.plain_error message) s
        ≡ (fail by "PUBLISH_JOB_RETRY_EXHAUSTED" kept (kept_state deps phase job) none none >>= λ r.
              pure (outcome_of Outcome.failed r))
            later
  unfolding handle_failure classify_publish_orchestration_failure verdict message_from_error
      message_of message_or ◌>>=◌ now
  handle_failure_exhausted e = rw (text, e) refl

  handle_failure_retried :
      leb deps.max_consecutive_failures (job.consecutive_failure_count + 1) ≡ false
      → handle_failure deps job phase (Thrown.plain_error message) s
        ≡ (record_retry by "PUBLISH_ENGINE_TRANSPORT_ERROR" kept (s.clock s.read + delay_ms)
              >>= λ r. pure (outcome_of Outcome.retry_scheduled r))
            later
  unfolding handle_failure classify_publish_orchestration_failure verdict message_from_error
      message_of message_or ◌>>=◌ now
  handle_failure_retried e = rw (text, e) refl

  handle_failure_refused :
      is_empty (trim (sanitize_error_message message)) ≡ true
      → is_empty (trim (coalesce job.lease_owner "")) ≡ false
      → handle_failure deps job phase (Thrown.plain_error message) s
        ≡ (thrown (validation "errorMessage cannot be empty."), later)
  handle_failure_refused blank worker =
      elim (Bool-cases (leb deps.max_consecutive_failures (job.consecutive_failure_count + 1))) [
        | inl e ↦
            handle_failure_exhausted e
            ∙ stopped _ _ later (
                fail_refused by "PUBLISH_JOB_RETRY_EXHAUSTED" kept worker exhausted_coded blank _ _
                  _ later)
        | inr e ↦
            handle_failure_retried e
            ∙ stopped _ _ later (
                record_retry_refused by "PUBLISH_ENGINE_TRANSPORT_ERROR" kept worker transport_coded
                  blank _ later)
      ]

-- If an Error's message is not blank, but the part of it that is kept is, handleFailure throws a
-- VALIDATION_ERROR for the job of a worker whose name is not blank, and changes nothing in the
-- tables: the job stays in processing.
pub handle_failure_unrecorded :
    (deps : Dependencies) (job : PublishJob) (phase : PublishFailurePhase) (message : String)
    (s : Session Tables)
    → is_empty (trim message) ≡ false
    → is_empty (trim (sanitize_error_message message)) ≡ true
    → is_empty (trim (coalesce job.lease_owner "")) ≡ false
    → ((handle_failure deps job phase (Thrown.plain_error message) s).0
        ≡ thrown (validation "errorMessage cannot be empty."))
      × ((handle_failure deps job phase (Thrown.plain_error message) s).1.tables ≡ s.tables)
handle_failure_unrecorded deps job phase message s text blank worker =
    rw (handle_failure_refused deps job phase message s text blank worker) (refl, refl)
