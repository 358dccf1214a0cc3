-- ===== src/Publish/Source/Returns.antt =====
-- A worker that asks for a job gets one, if there is one and the database answers.
use roam_content_engine.Prelude.{
  ℕ, ◌+◌, String, Bool, true, false, none, some, Memᴰ, Option-cases, inl, inr, [], ◌≡◌, refl, ◌&&◌,
  head?, str_eq, eq_iff, &&-true, not, arith,
}
use roam_content_engine.Db.{
  Session, ok, returning, translating, catching, transaction, query, rolled_back, pure, ◌>>=◌,
  statement, draw,
}
use roam_content_engine.Db.Order.{First, returning-some, All-at}
use roam_content_engine.Publish.Types.{Tables, PublishJob, PublishJobStatus, same_status}
use roam_content_engine.Publish.Statements.{update_jobs, logged, insert_event, is_free}
use roam_content_engine.Publish.Repository.Leases.{claimed, claim_candidate, is_still}
use roam_content_engine.Publish.Source.{
  ClaimedPublishJob, acquire_next, claim_found, claim_of, next_candidate, is_candidate, is_due,
  due_order,
}
use roam_content_engine.Publish.Source.Queue.{next_candidate-First}

pub same_status_refl : (st : PublishJobStatus) → same_status st st ≡ true
unfolding same_status
same_status_refl st = ground arith

still_itself :
    (now : ℕ) (k : PublishJob)
    → is_candidate now k ≡ true
    → (is_still k now k && str_eq k.tenant_id k.tenant_id) ≡ true
unfolding is_candidate
still_itself now k h =
    rw
      (
        (eq_iff k.id k.id).1 refl,
        (eq_iff k.tenant_id k.tenant_id).1 refl,
        same_status_refl k.status,
        (&&-true (is_due now k.status k) (is_free now k) h).1,
      )
      refl

-- what is read again by the UPDATE
claim_row :
    (w : String) (d now : ℕ) (locked : String → Bool) (t : Tables) (k : PublishJob)
    → next_candidate now locked t ≡ some k
    → (u : PublishJob) × (head? (
          returning
            (λ r. is_still k now r && str_eq r.tenant_id k.tenant_id)
            (claimed w d now)
            t.publish_jobs)
        ≡ some (claimed w d now u))
claim_row w d now locked t k found =
    let first : First (λ r. is_candidate now r && not (locked r.id)) due_order t.publish_jobs
        (some k) =
      rw found at (next_candidate-First now locked t) in
    returning-some _ (claimed w d now) k t.publish_jobs first.1
      (still_itself now k (&&-true (is_candidate now k) _ first.0).0)

-- The SELECT finds a job if there is one to find.
candidate_found :
    (now : ℕ) (locked : String → Bool) (t : Tables) (k : PublishJob)
    → Memᴰ k t.publish_jobs
    → (is_candidate now k && not (locked k.id)) ≡ true
    → (c : PublishJob) × (next_candidate now locked t ≡ some c)
candidate_found now locked t k there fits = elim (Option-cases (next_candidate now locked t)) [
  | inr found ↦ found
  | inl missing ↦
      let none_fits : First (λ r. is_candidate now r && not (locked r.id)) due_order t.publish_jobs
          none =
        rw missing at (next_candidate-First now locked t) in
      let unfit = All-at _ k t.publish_jobs none_fits there in absurd (ground arith)
]

candidate_claimed :
    (w : String) (d now : ℕ) (s : Session Tables) (k : PublishJob)
    → next_candidate now s.locked s.tables ≡ some k
    → (claim : ClaimedPublishJob) × ((acquire_next w d now (record s { faults = [] })).0
        ≡ ok (some claim))
unfolding acquire_next translating catching transaction query rolled_back pure ◌>>=◌ claim_found
    claim_candidate update_jobs statement logged insert_event draw claim_of
candidate_claimed w d now s k found =
    let row = claim_row w d now s.locked s.tables k found in
    (
      record {
        tenant_id = row.0.tenant_id;
        publish_job_id = row.0.id;
        worker_id = w;
        lease_expires_at = now + d;
      },
      rw (found, row.1) refl,
    )

-- If the database reports no fault and some job of the table is due, free and not locked by another
-- transaction, acquireNext returns a claim.
pub acquire_next_returns :
    (w : String) (d now : ℕ) (s : Session Tables) (k : PublishJob)
    → Memᴰ k s.tables.publish_jobs
    → is_candidate now k ≡ true
    → s.locked k.id ≡ false
    → (claim : ClaimedPublishJob) × ((acquire_next w d now (record s { faults = [] })).0
        ≡ ok (some claim))
acquire_next_returns w d now s k there due unlocked =
    let (c, found) = candidate_found now s.locked s.tables k there (rw (due, unlocked) refl) in
    candidate_claimed w d now s c found
