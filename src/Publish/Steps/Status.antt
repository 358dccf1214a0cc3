-- ===== src/Publish/Steps/Status.antt =====
-- What a step does to a row's status, and to the fields that describe the request.
use roam_content_engine.Prelude.{ℕ, String, Bool, true, false, ◌≡◌, refl, ◌⊎◌, inl, arith}
use roam_content_engine.Publish.Types.{PublishJob, PublishJobStatus, same_status}
use roam_content_engine.Publish.Transitions.{is_publish_job_transition_allowed}
use roam_content_engine.Publish.Repository.Leases.{is_open}
use roam_content_engine.Publish.Steps.{
  RowStep, is_worked_by, is_leased_by, stays, claims, renews, stages, submits, waits, retries,
  completes, fails, calls_off, cancels, recovers,
}

-- no way leads on from this status
unfoldable pub is_terminal : PublishJobStatus → Bool
is_terminal PublishJobStatus.completed = true
is_terminal PublishJobStatus.failed = true
is_terminal PublishJobStatus.cancelled = true
is_terminal _ = false

-- the status stays, or changes as the policy allows
abbrev pub Allowed : PublishJobStatus → PublishJobStatus → Type 0
Allowed a b = (b ≡ a) ⊎ (is_publish_job_transition_allowed a b ≡ true)

pub worked-processing :
    (w : String) (r : PublishJob) → is_worked_by w r ≡ true → r.status ≡ PublishJobStatus.processing
unfolding same_status
worked-processing w r h = ground arith

pub leased-processing :
    (now : ℕ) (w : String) (r : PublishJob)
    → is_leased_by now w r ≡ true
    → r.status ≡ PublishJobStatus.processing
unfolding same_status
leased-processing now w r h = ground arith

pub RowStep-Allowed :
    {now : ℕ} {who : String} {r r' : PublishJob} → RowStep now who r r' → Allowed r.status r'.status
unfolding is_publish_job_transition_allowed is_open same_status
RowStep-Allowed stays = inl refl
RowStep-Allowed (claims d o f) = ground arith
RowStep-Allowed (renews d h) = inl refl
RowStep-Allowed (stages stage h) = inl refl
RowStep-Allowed {now} {who} {r} (submits _ _ _ _ _ h) =
    ground (arith, leased-processing now who r h)
RowStep-Allowed {now} {who} {r} (waits _ _ _ _ h) = ground (arith, leased-processing now who r h)
RowStep-Allowed {now} {who} {r} (retries _ _ _ h) = ground (arith, leased-processing now who r h)
RowStep-Allowed {now} {who} {r} (completes _ _ _ _ h) =
    ground (arith, leased-processing now who r h)
RowStep-Allowed {now} {who} {r} (fails _ _ _ _ _ h) = ground (arith, leased-processing now who r h)
RowStep-Allowed {now} {who} {r} (calls_off _ _ _ h) = ground (arith, leased-processing now who r h)
RowStep-Allowed (cancels o) = ground arith
RowStep-Allowed (recovers stale max delay h) = ground arith

-- A row in a terminal status never changes again.
pub RowStep-terminal :
    {now : ℕ} {who : String} {r r' : PublishJob}
    → RowStep now who r r'
    → is_terminal r.status ≡ true
    → r' ≡ r
unfolding is_terminal is_open same_status
RowStep-terminal stays t = refl
RowStep-terminal (claims d o f) t = absurd (ground arith)
RowStep-terminal {now} {who} {r} (renews d h) t = absurd (ground (arith, worked-processing who r h))
RowStep-terminal {now} {who} {r} (stages stage h) t =
    absurd (ground (arith, worked-processing who r h))
RowStep-terminal {now} {who} {r} (submits _ _ _ _ _ h) t =
    absurd (ground (arith, leased-processing now who r h))
RowStep-terminal {now} {who} {r} (waits _ _ _ _ h) t =
    absurd (ground (arith, leased-processing now who r h))
RowStep-terminal {now} {who} {r} (retries _ _ _ h) t =
    absurd (ground (arith, leased-processing now who r h))
RowStep-terminal {now} {who} {r} (completes _ _ _ _ h) t =
    absurd (ground (arith, leased-processing now who r h))
RowStep-terminal {now} {who} {r} (fails _ _ _ _ _ h) t =
    absurd (ground (arith, leased-processing now who r h))
RowStep-terminal {now} {who} {r} (calls_off _ _ _ h) t =
    absurd (ground (arith, leased-processing now who r h))
RowStep-terminal (cancels o) t = absurd (ground arith)
RowStep-terminal (recovers stale max delay h) t = absurd (ground arith)
