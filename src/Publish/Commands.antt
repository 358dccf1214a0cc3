-- ===== src/Publish/Commands.antt =====
-- The repository and the source behind one interface: every method that writes, as a command, and
-- what any sequence of such calls, by any workers and users and under any faults, does to the table.
pub mod Histories
use roam_content_engine.Prelude.{ℕ, String, Option, trim}
use roam_content_engine.Db.{Db, ◌>>=◌, pure}
use roam_content_engine.Db.Moves.{Moves, Moves-before, Quiet-pure}
use roam_content_engine.Publish.Types.{PublishJobStage, PublishDownloadMetadata, Tables}
use roam_content_engine.Publish.Statements.{Caller}
use roam_content_engine.Publish.Repository.Settle.{
  record_submission, record_remote_waiting, record_retry, complete, fail, mark_remote_cancelled,
}
use roam_content_engine.Publish.Repository.Leases.{claim_next_due, heartbeat, set_stage}
use roam_content_engine.Publish.Repository.Cancel.{cancel}
use roam_content_engine.Publish.Repository.Recovery.{recover_stale_leases}
use roam_content_engine.Publish.Source.{acquire_next, renew_lease}
use roam_content_engine.Publish.Steps.Within.{Within}
use roam_content_engine.Publish.Steps.Refinement

pub data Command : Type 0 where
  acquiring claiming : (worker : String) (lease_ms now : ℕ) → Command
  renewing beating : Caller → (lease_ms : ℕ) → Command
  staging : Caller → PublishJobStage → Command
  submitting :
      Caller → (job_id state : String) (correlation : Option String) (at poll_at : ℕ) → Command
  polling :
      Caller → (state : String) (correlation : Option String) (polled_at poll_at : ℕ) → Command
  retrying : Caller → (code message : String) (attempt_at : ℕ) → Command
  completing :
      Caller
      → (state : String) (correlation : Option String) (polled_at : Option ℕ)
      → PublishDownloadMetadata
      → Command
  failing :
      Caller
      → (code message : String) (state correlation : Option String) (polled_at : Option ℕ) → Command
  abandoning :
      Caller → (state : String) (correlation : Option String) (polled_at : Option ℕ) → Command
  cancelling : (tenant_id job_id : String) (now : ℕ) → Command
  recovering : (now max_failures delay_ms limit : ℕ) → Command

done {ℓ} : {A : Type ℓ} → Db Tables A → Db Tables (Unit {0})
done m = m >>= λ _. pure tt

-- The call of the method.
unfoldable pub perform : Command → Db Tables (Unit {0})
unfolding done
perform (acquiring w d now) = done (acquire_next w d now)
perform (claiming w d now) = done (claim_next_due w d now)
perform (renewing c d) = done (renew_lease c d)
perform (beating c d) = done (heartbeat c d)
perform (staging c stage) = done (set_stage c stage)
perform (submitting c job_id state correlation at poll_at) =
    done (record_submission c job_id state correlation at poll_at)
perform (polling c state correlation polled_at poll_at) =
    done (record_remote_waiting c state correlation polled_at poll_at)
perform (retrying c code message attempt_at) = done (record_retry c code message attempt_at)
perform (completing c state correlation polled_at download) =
    done (complete c state correlation polled_at download)
perform (failing c code message state correlation polled_at) =
    done (fail c code message state correlation polled_at)
perform (abandoning c state correlation polled_at) =
    done (mark_remote_cancelled c state correlation polled_at)
perform (cancelling tenant_id job_id now) = done (cancel tenant_id job_id now)
perform (recovering now max delay limit) = done (recover_stale_leases now max delay limit)

-- the time that the call is given
abbrev pub time : Command → ℕ
time (acquiring w d now) = now
time (claiming w d now) = now
time (renewing c d) = c.now
time (beating c d) = c.now
time (staging c _) = c.now
time (submitting c _ _ _ _ _) = c.now
time (polling c _ _ _ _) = c.now
time (retrying c _ _ _) = c.now
time (completing c _ _ _ _) = c.now
time (failing c _ _ _ _ _) = c.now
time (abandoning c _ _ _) = c.now
time (cancelling _ _ now) = now
time (recovering now _ _ _) = now

-- the worker that calls, by the name that is compared with the lease's owner; the cancellation and
-- the recovery are not made by the owner of a lease, and take `nobody`
abbrev pub agent : String → Command → String
agent nobody (acquiring w d now) = w
agent nobody (claiming w d now) = trim w
agent nobody (renewing c d) = c.worker_id
agent nobody (beating c d) = trim c.worker_id
agent nobody (staging c _) = trim c.worker_id
agent nobody (submitting c _ _ _ _ _) = trim c.worker_id
agent nobody (polling c _ _ _ _) = trim c.worker_id
agent nobody (retrying c _ _ _) = trim c.worker_id
agent nobody (completing c _ _ _ _) = trim c.worker_id
agent nobody (failing c _ _ _ _ _) = trim c.worker_id
agent nobody (abandoning c _ _ _) = trim c.worker_id
agent nobody (cancelling _ _ _) = nobody
agent nobody (recovering _ _ _ _) = nobody

done-Within {ℓ} :
    (now : ℕ) (who : String) {A : Type ℓ} (m : Db Tables A)
    → Moves (Within now who) m
    → Moves (Within now who) (done m)
unfolding done
done-Within now who m k = Moves-before (Within now who) m _ k (λ _. Quiet-pure tt)

-- Each call takes every row at most one step of the step relation, at the time of the call and for
-- its caller; `nobody` stands for the caller of a cancellation and of the recovery.
pub perform-Within :
    (nobody : String) (c : Command) → Moves (Within (time c) (agent nobody c)) (perform c)
unfolding perform
perform-Within nobody (acquiring w d now) =
    done-Within _ _ _ (Refinement.acquire_next-Within w d now)
perform-Within nobody (claiming w d now) =
    done-Within _ _ _ (Refinement.claim_next_due-Within w d now)
perform-Within nobody (renewing c d) = done-Within _ _ _ (Refinement.renew_lease-Within c d)
perform-Within nobody (beating c d) = done-Within _ _ _ (Refinement.heartbeat-Within c d)
perform-Within nobody (staging c stage) = done-Within _ _ _ (Refinement.set_stage-Within c stage)
perform-Within nobody (submitting c job_id state correlation at poll_at) =
    done-Within _ _ _ (Refinement.record_submission-Within c job_id state correlation at poll_at)
perform-Within nobody (polling c state correlation polled_at poll_at) =
    done-Within _ _ _
      (Refinement.record_remote_waiting-Within c state correlation polled_at poll_at)
perform-Within nobody (retrying c code message attempt_at) =
    done-Within _ _ _ (Refinement.record_retry-Within c code message attempt_at)
perform-Within nobody (completing c state correlation polled_at download) =
    done-Within _ _ _ (Refinement.complete-Within c state correlation polled_at download)
perform-Within nobody (failing c code message state correlation polled_at) =
    done-Within _ _ _ (Refinement.fail-Within c code message state correlation polled_at)
perform-Within nobody (abandoning c state correlation polled_at) =
    done-Within _ _ _ (Refinement.mark_remote_cancelled-Within c state correlation polled_at)
perform-Within nobody (cancelling tenant_id job_id now) =
    done-Within _ _ _ (Refinement.cancel-Within nobody tenant_id job_id now)
perform-Within nobody (recovering now max delay limit) =
    done-Within _ _ _ (Refinement.recover_stale_leases-Within now max delay nobody limit)
