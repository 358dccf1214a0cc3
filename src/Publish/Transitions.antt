-- ===== src/Publish/Transitions.antt =====
-- src/domain/publish-jobs/transitions.ts
use roam_content_engine.Prelude.{Bool, List, [], ◌∷◌, any}
use roam_content_engine.Publish.Types.{PublishJobStatus, same_status}

-- transitionPolicy
abbrev pub transition_policy : PublishJobStatus → List PublishJobStatus
transition_policy PublishJobStatus.queued =
    PublishJobStatus.processing ∷ PublishJobStatus.cancelled ∷ []
transition_policy PublishJobStatus.processing =
    PublishJobStatus.waiting ∷ PublishJobStatus.retrying ∷ PublishJobStatus.completed
    ∷ PublishJobStatus.failed ∷ PublishJobStatus.cancelled ∷ []
transition_policy PublishJobStatus.waiting =
    PublishJobStatus.processing ∷ PublishJobStatus.cancelled ∷ []
transition_policy PublishJobStatus.retrying =
    PublishJobStatus.processing ∷ PublishJobStatus.cancelled ∷ PublishJobStatus.failed ∷ []
transition_policy PublishJobStatus.completed = []
transition_policy PublishJobStatus.failed = []
transition_policy PublishJobStatus.cancelled = []

-- `transitionPolicy[from].includes(to)`
unfoldable pub is_publish_job_transition_allowed : PublishJobStatus → PublishJobStatus → Bool
unfolding same_status
is_publish_job_transition_allowed from to = any (same_status to) (transition_policy from)
