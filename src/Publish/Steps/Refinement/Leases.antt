-- ===== src/Publish/Steps/Refinement/Leases.antt =====
-- The methods that take a job, keep its lease or report its stage, and the cancellation.
use roam_content_engine.Prelude.{
  ℕ, String, Bool, true, Option, none, some, ◌≡◌, refl, ◌&&◌, &&-true, trim, arith, not, inl, inr,
  Bool-cases,
}
use roam_content_engine.Db.Moves.{
  Moves, Moves-Quiet, Quiet, Quiet-pure, Quiet-query, Quiet-throw, Moves-before, Moves-query,
  Moves-after, Moves-translating, Moves-transaction,
}
use roam_content_engine.Db.Order.{OnSome, OnSome-map, OnSome-first}
use roam_content_engine.Publish.Types.{
  PublishJob, PublishJobStatus, PublishJobStage, Tables, is_tenant_id, same_status,
}
use roam_content_engine.Publish.Statements.{Caller, is_free, names_job}
use roam_content_engine.Publish.Repository.Leases.{
  is_open, is_claimable, is_still, claim_candidate, claim_next_due, heartbeat, stage_current,
  set_stage, validate_tenant_id, claim_order,
}
use roam_content_engine.Publish.Repository.Cancel.{
  cancel, cancel_current, cancel_updated, cancelled_by_request,
}
use roam_content_engine.Publish.Source.{
  is_candidate, due_order, claim_found, acquire_next, renew_lease,
}
use roam_content_engine.Publish.Steps.{RowStep, stays, claims, renews, stages, cancels}
use roam_content_engine.Publish.Steps.Rows.{
  Rows, SameJobs, SameJobs-insert_event, SameJobs-then, SameJobs-pure, Pairwise-refl,
  Moves-update_then,
}
use roam_content_engine.Publish.Steps.Within.{
  Within, Within-refl, Within-Quiet, Within-ensure, Within-translating, Within-transaction,
  Within-after, Within-update, Within-update_logged, owned,
}

pub same_status-eq : (a b : PublishJobStatus) → same_status a b ≡ true → a ≡ b
unfolding same_status
same_status-eq a b h = ground arith

-- A row that is still as an open candidate was is open itself, and no lease on it is to expire.
open_still :
    (now : ℕ) (k r : PublishJob) (extra : Bool)
    → is_open k.status ≡ true
    → (is_still k now r && extra) ≡ true
    → (is_open r.status ≡ true) × (is_free now r ≡ true)
open_still now k r extra o h =
    let parts : (same_status r.status k.status ≡ true) × (is_free now r ≡ true) = ground arith in
    (rw (same_status-eq r.status k.status parts.0) o, parts.1)

claim_candidate-Within :
    (extra : PublishJob → Bool) (w : String) (d now : ℕ) (k : Option PublishJob)
    → OnSome (λ k. is_open k.status ≡ true) k
    → Moves (Within now w) (claim_candidate extra w d now k)
unfolding claim_candidate
claim_candidate-Within extra w d now none o = Within-Quiet now _ _ (Quiet-pure none)
claim_candidate-Within extra w d now (some k) o =
    Within-update_logged now _ _ _ _
      (λ r h. let s = open_still now k r (extra r) o h in claims d s.0 s.1)
      (λ r. SameJobs-insert_event _ _ _ _ _ _)

claimable-open : (now : ℕ) (k : PublishJob) → is_claimable now k ≡ true → is_open k.status ≡ true
unfolding is_claimable
claimable-open now k h = ground arith

pub claim_next_due-Within :
    (w : String) (d now : ℕ) → Moves (Within now (trim w)) (claim_next_due w d now)
unfolding claim_next_due
claim_next_due-Within w d now = Within-ensure now _ _ _ _ (
    Within-translating now _ _ _ (
      Within-transaction now _ _ (
        Moves-query (Within now _) (Within-refl now _) _ _ (λ t locked.
          claim_candidate-Within _ _ d now _ (
            OnSome-map _ _ (claimable-open now) _
              (OnSome-first (is_claimable now) claim_order t.publish_jobs))))))

candidate-open :
    (now : ℕ) (locked : String → Bool) (k : PublishJob)
    → (is_candidate now k && not (locked k.id)) ≡ true
    → is_open k.status ≡ true
unfolding is_candidate is_open
candidate-open now locked k h = ground arith

acquire_rest-Within :
    (w : String) (d now : ℕ) (k : Option PublishJob)
    → OnSome (λ k. is_open k.status ≡ true) k
    → Moves (Within now w) (claim_found w d now k)
unfolding claim_found
acquire_rest-Within w d now none o = Within-Quiet now _ _ (Quiet-pure none)
acquire_rest-Within w d now (some k) o = claim_candidate-Within _ w d now (some k) o

pub acquire_next-Within : (w : String) (d now : ℕ) → Moves (Within now w) (acquire_next w d now)
unfolding acquire_next
acquire_next-Within w d now = Within-translating now _ _ _ (
    Within-transaction now _ _ (
      Moves-query (Within now _) (Within-refl now _) _ _ (λ t locked.
        Moves-before (Within now _) _ _
          (acquire_rest-Within w d now _ (
            OnSome-map _ _ (candidate-open now locked) _ (
              OnSome-first (λ r. is_candidate now r && not (locked r.id)) due_order
                t.publish_jobs)))
          (λ claim. Quiet-pure _))))

module _ (c : Caller) where
  pub heartbeat-Within : (d : ℕ) → Moves (Within c.now (trim c.worker_id)) (heartbeat c d)
  unfolding heartbeat
  heartbeat-Within d = Within-ensure c.now _ _ _ _ (
      Within-translating c.now _ _ _
        (Within-update c.now _ _ _ (λ r h. renews d (owned c _ r (&&-true _ _ h).0))))

  pub renew_lease-Within : (d : ℕ) → Moves (Within c.now c.worker_id) (renew_lease c d)
  unfolding renew_lease
  renew_lease-Within d = Within-translating c.now _ _ _ (
      Moves-before (Within c.now _) _ _
        (Within-update c.now _ _ _ (λ r h. renews d (owned c _ r (&&-true _ _ h).0)))
        (λ updated. Quiet-pure _))

  stage_current-Within :
      (w : String) (stage : PublishJobStage) (k : Option PublishJob)
      → Moves (Within c.now w) (stage_current c w stage k)
  unfolding stage_current
  stage_current-Within w stage none = Within-Quiet c.now _ _ (Quiet-pure none)
  stage_current-Within w stage (some k) =
      Within-update_logged c.now _ _ _ _
        (λ r h.
          stages stage (owned (record c { tenant_id = k.tenant_id; publish_job_id = k.id }) w r h))
        (λ r. SameJobs-insert_event _ _ _ _ _ _)

  pub set_stage-Within :
      (stage : PublishJobStage) → Moves (Within c.now (trim c.worker_id)) (set_stage c stage)
  unfolding set_stage
  set_stage-Within stage = Within-ensure c.now _ _ _ _ (
      Within-translating c.now _ _ _ (
        Within-transaction c.now _ _
          (Within-after c.now _ _ _ (Quiet-query _) (λ k. stage_current-Within _ stage k))))

cancel_updated-SameJobs :
    (k : PublishJob) (now : ℕ) (updated : Option PublishJob)
    → Moves SameJobs (cancel_updated k now updated)
unfolding cancel_updated
cancel_updated-SameJobs k now none = Moves-Quiet SameJobs (λ t. refl) _ (Quiet-throw _)
cancel_updated-SameJobs k now (some r) =
    SameJobs-then _ _ (SameJobs-insert_event _ _ _ _ _ _) (λ _. SameJobs-pure r)

pub open_as :
    (k r : PublishJob) (named : Bool)
    → is_open k.status ≡ true
    → (named && same_status r.status k.status) ≡ true
    → is_open r.status ≡ true
open_as k r named o h = rw (same_status-eq r.status k.status (&&-true named _ h).1) o

Quiet-validate_tenant_id : (tenant_id : String) → Quiet (validate_tenant_id tenant_id)
unfolding validate_tenant_id
Quiet-validate_tenant_id tenant_id = elim (Bool-cases (is_tenant_id tenant_id)) [
  | inl e ↦ rw e (Quiet-pure tt)
  | inr e ↦ rw e (Quiet-throw _)
]

-- What a cancellation does to the rows, for any relation that it keeps on the named job while that
-- is open.
module _ {κ} (ρ : PublishJob → PublishJob → Type κ) (same : (r : PublishJob) → ρ r r)
    (tenant_id job_id : String) (now : ℕ)
    (step : (r : PublishJob)
      → names_job tenant_id job_id r ≡ true
      → is_open r.status ≡ true
      → ρ r (cancelled_by_request now r)) where
  cancel_current-Rows :
      (k : Option PublishJob) → Moves (Rows ρ) (cancel_current tenant_id job_id now k)
  unfolding cancel_current
  cancel_current-Rows none =
      Moves-Quiet (Rows ρ) (λ t. Pairwise-refl ρ same t.publish_jobs) _ (Quiet-throw _)
  cancel_current-Rows (some k) = elim (Bool-cases (is_open k.status)) [
    | inl o ↦ rw o (
        Moves-update_then ρ same _ _ _
          (λ r h. step r (&&-true _ _ h).0 (open_as k r (names_job tenant_id job_id r) o h))
          (cancel_updated-SameJobs k now))
    | inr o ↦
        rw o (Moves-Quiet (Rows ρ) (λ t. Pairwise-refl ρ same t.publish_jobs) _ (Quiet-throw _))
  ]

  pub cancel-Rows : Moves (Rows ρ) (cancel tenant_id job_id now)
  unfolding cancel
  cancel-Rows =
      let stays_so : (t : Tables) → Rows ρ t t = λ t. Pairwise-refl ρ same t.publish_jobs in
      Moves-after (Rows ρ) stays_so _ _ (Quiet-validate_tenant_id tenant_id) (λ _.
        Moves-translating (Rows ρ) stays_so _ _ (
          Moves-transaction (Rows ρ) stays_so _
            (Moves-after (Rows ρ) stays_so _ _ (Quiet-query _) cancel_current-Rows)))

pub cancel-Within :
    (who tenant_id job_id : String) (now : ℕ) → Moves (Within now who) (cancel tenant_id job_id now)
cancel-Within who tenant_id job_id now =
    cancel-Rows (RowStep now who) (λ r. stays) tenant_id job_id now (λ r named o. cancels {r = r} o)
