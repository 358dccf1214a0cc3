-- ===== src/Content/Transitions.antt =====
-- src/domain/content-jobs/transitions.ts
use Prim.Native.String.{◌++◌ as str_append}
use roam_content_engine.Prelude.{String, Bool, List, [], ◌∷◌, any, if◌then◌else◌}
use roam_content_engine.Errors.{conflict}
use roam_content_engine.Db.{Db, pure, throw}
use roam_content_engine.Content.Types.{ContentJobStatus, same_status}

-- allowedTransitions
abbrev pub allowed_transitions : ContentJobStatus → List ContentJobStatus
allowed_transitions ContentJobStatus.queued =
    ContentJobStatus.processing ∷ ContentJobStatus.cancelled ∷ []
allowed_transitions ContentJobStatus.processing =
    ContentJobStatus.completed ∷ ContentJobStatus.retrying ∷ ContentJobStatus.failed ∷ []
allowed_transitions ContentJobStatus.retrying =
    ContentJobStatus.processing ∷ ContentJobStatus.cancelled ∷ []
allowed_transitions ContentJobStatus.completed = []
allowed_transitions ContentJobStatus.failed = []
allowed_transitions ContentJobStatus.cancelled = []

-- `allowedTransitions[from].includes(to)`
unfoldable pub is_transition_allowed : ContentJobStatus → ContentJobStatus → Bool
unfolding same_status
is_transition_allowed from to = any (same_status to) (allowed_transitions from)

-- a status as it is spelled in messages
abbrev pub status_text : ContentJobStatus → String
status_text ContentJobStatus.queued = "queued"
status_text ContentJobStatus.processing = "processing"
status_text ContentJobStatus.retrying = "retrying"
status_text ContentJobStatus.completed = "completed"
status_text ContentJobStatus.failed = "failed"
status_text ContentJobStatus.cancelled = "cancelled"

unfoldable pub assert_transition_allowed :
    {T : Type 0} → ContentJobStatus → ContentJobStatus → Db T (Unit {0})
unfolding is_transition_allowed same_status
assert_transition_allowed from to =
    if same_status from ContentJobStatus.completed
    then throw
        (conflict "JOB_ALREADY_COMPLETED" "Completed jobs cannot transition to another state.")
    else if is_transition_allowed from to
    then pure tt
    else throw (
        conflict "INVALID_WORKFLOW_STATE" (
          str_append "Transition from " (
            str_append (status_text from)
              (str_append " to " (str_append (status_text to) " is not allowed.")))))
