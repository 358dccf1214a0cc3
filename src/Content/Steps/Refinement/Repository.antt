-- ===== src/Content/Steps/Refinement/Repository.antt =====
-- The methods of the repository, which name no worker, and the cancellation among them.
use roam_content_engine.Prelude.{
  ℕ, String, Bool, true, false, Option, none, some, ◌≡◌, refl, ◌&&◌, &&-true, arith, inl, inr,
  Bool-cases, Option-cases, str_eq,
}
use roam_content_engine.Json.{Json}
use roam_content_engine.Db.{Db, ◌>>=◌, pure, throw, now}
use roam_content_engine.Db.Moves.{
  Moves, Quiet, Quiet-pure, Quiet-throw, Quiet-bind, Quiet-query, Moves-query,
}
use roam_content_engine.Db.Order.{OnSome, OnSome-find_first}
use roam_content_engine.Db.Rows.{SameRows-then}
use roam_content_engine.Content.Types.{
  ContentJobRow, ContentJob, ContentJobStatus, ContentJobStage, JobEventType,
  TranscriptProcessingResult, Tables, same_status,
}
use roam_content_engine.Content.Transitions.{is_transition_allowed, assert_transition_allowed}
use roam_content_engine.Content.Results.{Externals, parse_result, result_json}
use roam_content_engine.Content.Statements.{
  content_table, names_job, stored_result, map_content_job, job_of,
}
use roam_content_engine.Content.Repository.{
  require, validate_tenant_and_job_ids, is_waiting, is_still, transitioned, without_result,
  claimed_row, claim_current, claim, staged_row, mark_stage, transitioned_row, transition_current,
  transition_with_event, same_source, complete_parsed, complete, schedule_retry, fail, cancel,
}
use roam_content_engine.Content.Steps.{
  FreeStep, keeps, claims, moves_on, ends_well, ends_badly, puts_off,
}
use roam_content_engine.Content.Steps.Within.{
  SameJobs, SameJobs-event_then, SameJobs-Quiet, Within, Within-refl, Within-Quiet, Within-ensure,
  Within-translating, Within-transaction, Within-after, Within-update, Quiet-map_content_job,
}
use roam_content_engine.Content.Steps.Refinement.Source.{same_status-eq}

pub Quiet-now : Quiet {T = Tables} now
unfolding now
Quiet-now = record { at = λ s. refl }

pub Quiet-require : (b : Bool) (message : String) → Quiet (require b message)
unfolding require
Quiet-require true message = Quiet-pure tt
Quiet-require false message = Quiet-throw _

pub Quiet-validate :
    (tenant_id job_id : String) → Quiet (validate_tenant_and_job_ids tenant_id job_id)
unfolding validate_tenant_and_job_ids
Quiet-validate tenant_id job_id = Quiet-bind _ _ (Quiet-require _ _) (λ _. Quiet-require _ _)

module _ {ℓ} {A : Type ℓ} (ρ : ContentJobRow → ContentJobRow → Type 0)
    (same : (r : ContentJobRow) → ρ r r) where
  -- What follows the assertion may use that the transition is allowed.
  Moves-assert :
      (from to : ContentJobStatus) (f : Unit {0} → Db Tables A)
      → (is_transition_allowed from to ≡ true → Moves (Within ρ) (f tt))
      → Moves (Within ρ) (assert_transition_allowed from to >>= f)
  unfolding assert_transition_allowed ◌>>=◌ throw pure
  Moves-assert from to f k = record {
    at = λ s. elim (Bool-cases (same_status from ContentJobStatus.completed)) [
      | inl e ↦ rw e (Within-refl ρ same s.tables)
      | inr e ↦ rw e (elim (Bool-cases (is_transition_allowed from to)) [
        | inl a ↦ rw a ((k a).at s)
        | inr a ↦ rw a (Within-refl ρ same s.tables)
      ])
    ];
  }

  -- … and what follows the mapping of a row, that the job is the row's.
  Moves-mapped :
      (x : Externals) (row : ContentJobRow) (f : ContentJob → Db Tables A)
      → ((result : Option TranscriptProcessingResult) → Moves (Within ρ) (f (job_of row result)))
      → Moves (Within ρ) (map_content_job x row >>= f)
  unfolding map_content_job ◌>>=◌ throw pure
  Moves-mapped x row f k = record {
    at = λ s. elim (Option-cases (stored_result x row.result)) [
      | inl e ↦ rw e (Within-refl ρ same s.tables)
      | inr e ↦ rw (e.1) ((k e.0).at s)
    ];
  }

module _ (x : Externals) (tenant_id job_id : String) where
  still :
      (status : ContentJobStatus) (r : ContentJobRow)
      → is_still tenant_id job_id status r ≡ true
      → r.status ≡ status
  still status r h = same_status-eq r.status status (&&-true (names_job tenant_id job_id r) _ h).1

  claimed_row-SameJobs :
      (prior : ContentJobStatus) (o : Option ContentJobRow)
      → Moves SameJobs (claimed_row x tenant_id job_id prior o)
  unfolding claimed_row
  claimed_row-SameJobs prior none = SameJobs-Quiet _ (Quiet-throw _)
  claimed_row-SameJobs prior (some r) =
      SameRows-then content_table _ _ (SameJobs-Quiet _ Quiet-now)
        (λ at. SameJobs-event_then _ _ _ _ _ _ _ _ (Quiet-map_content_job x r))

  claim_current-Within :
      (o : Option ContentJobRow)
      → OnSome (λ k. (names_job tenant_id job_id k && is_waiting k.status) ≡ true) o
      → Moves (Within FreeStep) (claim_current x tenant_id job_id o)
  unfolding claim_current
  claim_current-Within none h = Within-Quiet FreeStep (λ r. keeps) _ (Quiet-throw _)
  claim_current-Within (some k) h =
      Within-after FreeStep (λ r. keeps) _ _ Quiet-now
        (λ at.
          Within-update FreeStep (λ r. keeps) _ _ _
            (λ r e.
              claims {r = r} at
                (rw (still k.status r e) (&&-true (names_job tenant_id job_id k) _ h).1))
            (claimed_row-SameJobs k.status))

  pub claim-Within : Moves (Within FreeStep) (claim x tenant_id job_id)
  unfolding claim
  claim-Within =
      Within-after FreeStep (λ r. keeps) _ _ (Quiet-validate tenant_id job_id)
        (λ _.
          Within-translating FreeStep (λ r. keeps) _ _
            (Within-transaction FreeStep (λ r. keeps) _
              (Moves-query (Within FreeStep) (Within-refl FreeStep (λ r. keeps)) _ _ (λ t locked.
                claim_current-Within _ (
                  OnSome-find_first (λ r. names_job tenant_id job_id r && is_waiting r.status)
                    t.content_jobs)))))

  staged_row-Quiet : (o : Option ContentJobRow) → Quiet (staged_row x tenant_id job_id o)
  unfolding staged_row
  staged_row-Quiet none = Quiet-throw _
  staged_row-Quiet (some r) = Quiet-map_content_job x r

  pub mark_stage-Within :
      (stage : ContentJobStage) → Moves (Within FreeStep) (mark_stage x tenant_id job_id stage)
  unfolding mark_stage
  mark_stage-Within stage =
      Within-after FreeStep (λ r. keeps) _ _ (Quiet-validate tenant_id job_id)
        (λ _.
          Within-translating FreeStep (λ r. keeps) _ _
            (Within-after FreeStep (λ r. keeps) _ _ Quiet-now
              (λ at.
                Within-update FreeStep (λ r. keeps) _ _ _
                  (λ r h. moves_on stage at (&&-true (names_job tenant_id job_id r) _ h).1)
                  (λ o. SameJobs-Quiet _ (staged_row-Quiet o)))))

  -- `transitionWithEvent` takes a row by any step that starts in an allowed status.
  module _ (ρ : ContentJobRow → ContentJobRow → Type 0) (same : (r : ContentJobRow) → ρ r r)
      (target : ContentJobStatus) (stage : ContentJobStage) (type : JobEventType)
      (details : Option Json) (set_values : ContentJobRow → ContentJobRow)
      (before_update : ContentJob → Db Tables (Unit {0}))
      (quiet : (job : ContentJob) → Quiet (before_update job))
      (step : (at : ℕ) (r : ContentJobRow)
        → is_transition_allowed r.status target ≡ true
        → ρ r (transitioned target stage at (set_values r))) where
    transitioned_row-SameJobs :
        (prior : ContentJobStatus) (o : Option ContentJobRow)
        → Moves SameJobs (
            transitioned_row x tenant_id job_id target stage type details set_values before_update
              prior o)
    unfolding transitioned_row
    transitioned_row-SameJobs prior none = SameJobs-Quiet _ (Quiet-throw _)
    transitioned_row-SameJobs prior (some r) =
        SameRows-then content_table _ _ (SameJobs-Quiet _ Quiet-now)
          (λ at. SameJobs-event_then _ _ _ _ _ _ _ _ (Quiet-map_content_job x r))

    transition_current-Within :
        (o : Option ContentJobRow)
        → Moves (Within ρ) (
            transition_current x tenant_id job_id target stage type details set_values before_update
              o)
    unfolding transition_current
    transition_current-Within none = Within-Quiet ρ same _ (Quiet-throw _)
    transition_current-Within (some row) = Moves-mapped ρ same x row _ (λ result.
        Within-after ρ same _ _ (quiet _) (λ _. Moves-assert ρ same row.status target _ (λ allowed.
          Within-after ρ same _ _ Quiet-now (λ at.
            Within-update ρ same _ _ _ (λ r h. step at r (rw (still row.status r h) allowed))
              (transitioned_row-SameJobs row.status)))))

    pub transition_with_event-Within : Moves (Within ρ) (
        transition_with_event x tenant_id job_id target stage type details set_values before_update)
    unfolding transition_with_event
    transition_with_event-Within = Within-after ρ same _ _ (Quiet-validate tenant_id job_id) (λ _.
        Within-translating ρ same _ _ (
          Within-transaction ρ same _
            (Within-after ρ same _ _ (Quiet-query _) transition_current-Within)))

  same_source-Quiet :
      (result : TranscriptProcessingResult) (job : ContentJob)
      → Quiet (same_source x tenant_id job_id result job)
  same_source-Quiet result job =
      elim (Bool-cases (str_eq job.source_version_id result.source_version_id)) [
        | inl e ↦ rw e (Quiet-pure tt)
        | inr e ↦ rw e (Quiet-throw _)
      ]

  from_processing :
      (status target : ContentJobStatus)
      → same_status target ContentJobStatus.processing ≡ false
      → same_status target ContentJobStatus.cancelled ≡ false
      → is_transition_allowed status target ≡ true
      → same_status status ContentJobStatus.processing ≡ true
  unfolding is_transition_allowed same_status
  from_processing status target a b h = ground arith

  from_waiting :
      (status : ContentJobStatus)
      → is_transition_allowed status ContentJobStatus.cancelled ≡ true
      → is_waiting status ≡ true
  unfolding is_transition_allowed same_status is_waiting
  from_waiting status h = ground arith

  complete_parsed-Within :
      (o : Option TranscriptProcessingResult)
      → Moves (Within FreeStep) (complete_parsed x tenant_id job_id o)
  unfolding complete_parsed same_status
  complete_parsed-Within none = Within-Quiet FreeStep (λ r. keeps) _ (Quiet-throw _)
  complete_parsed-Within (some result) =
      Within-after FreeStep (λ r. keeps) _ _ Quiet-now
        (λ ended_at.
          transition_with_event-Within FreeStep (λ r. keeps) _ _ _ _ _ _ (same_source-Quiet result)
            (λ at r h.
              ends_well (result_json result) ended_at at
                (from_processing r.status ContentJobStatus.completed refl refl h)))

  pub complete-Within :
      (result : Json) → Moves (Within FreeStep) (complete x tenant_id job_id result)
  unfolding complete
  complete-Within result = complete_parsed-Within (parse_result x result)

  pub schedule_retry-Within :
      (code message : String)
      → Moves (Within FreeStep) (schedule_retry x tenant_id job_id code message)
  unfolding schedule_retry same_status
  schedule_retry-Within code message =
      Within-ensure FreeStep (λ r. keeps) _ _ _
        (Within-ensure FreeStep (λ r. keeps) _ _ _
          (transition_with_event-Within FreeStep (λ r. keeps) _ _ _ _ _ _ (λ job. Quiet-pure tt)
            (λ at r h.
              puts_off _ _ at (from_processing r.status ContentJobStatus.retrying refl refl h))))

  pub fail-Within :
      (code message : String) → Moves (Within FreeStep) (fail x tenant_id job_id code message)
  unfolding fail same_status
  fail-Within code message =
      Within-ensure FreeStep (λ r. keeps) _ _ _
        (Within-ensure FreeStep (λ r. keeps) _ _ _
          (Within-after FreeStep (λ r. keeps) _ _ Quiet-now
            (λ ended_at.
              transition_with_event-Within FreeStep (λ r. keeps) _ _ _ _ _ _ (λ job. Quiet-pure tt)
                (λ at r h.
                  ends_badly _ _ ended_at at
                    (from_processing r.status ContentJobStatus.failed refl refl h)))))

  pub cancel-Within :
      (ρ : ContentJobRow → ContentJobRow → Type 0)
      → ((r : ContentJobRow) → ρ r r)
      → ((ended_at at : ℕ) (r : ContentJobRow)
          → is_waiting r.status ≡ true
          → ρ r (
              transitioned ContentJobStatus.cancelled ContentJobStage.failed at
                (without_result ended_at r)))
      → Moves (Within ρ) (cancel x tenant_id job_id)
  unfolding cancel
  cancel-Within ρ same step = Within-after ρ same _ _ Quiet-now (λ ended_at.
      transition_with_event-Within ρ same _ _ _ _ _ _ (λ job. Quiet-pure tt)
        (λ at r h. step ended_at at r (from_waiting r.status h)))
