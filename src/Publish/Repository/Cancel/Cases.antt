-- ===== src/Publish/Repository/Cancel/Cases.antt =====
-- What a cancellation does, case by case.
use roam_content_engine.Prelude.{
  ℕ, String, Bool, Memᴰ, Pairwise, &&-true, arith, eq_iff, true, false, none, some, [], ◌≡◌, refl,
  ◌&&◌, ◌⊎◌, inl, inr, Bool-cases, head?, subst, Option-cases,
}
use roam_content_engine.Errors.{conflict, not_found, to_database_unavailable, is_platform}
use roam_content_engine.Db.{
  Session, ok, thrown, find_first, returning, update_where, translating, catching, transaction,
  query, rolled_back, pure, throw, ◌>>=◌, statement, draw,
}
use roam_content_engine.Db.Order.{OnSome, OnSome-find_first, returning-row, find_first-Mem}
use roam_content_engine.Db.Found.{returned}
use roam_content_engine.Publish.Steps.Refinement.{cancel-Rows, open_as}
use roam_content_engine.Publish.Source.Returns.{same_status_refl}
use roam_content_engine.Publish.Types.{PublishJob, Tables, is_tenant_id, same_status}
use roam_content_engine.Publish.Statements.{names_job, update_jobs, insert_event}
use roam_content_engine.Publish.Repository.Leases.{validate_tenant_id, is_open}
use roam_content_engine.Publish.Repository.Cancel.{
  cancel, cancel_current, cancel_updated, cancelled_by_request,
}

-- A row stays, or is the named job, open, and is cancelled.
abbrev pub Cancels : String → String → ℕ → PublishJob → PublishJob → Type 0
Cancels tenant_id job_id now r r' =
    (r' ≡ r)
    ⊎ (((r.tenant_id ≡ tenant_id) × (r.id ≡ job_id))
        × (is_open r.status ≡ true)
        × (r' ≡ cancelled_by_request now r))

-- An open row of the table with the tenant and the id is returned as cancelled, and stands so in the
-- table afterwards.
pub record IsCancelled (tenant_id job_id : String) (now : ℕ) (s : Session Tables) : Type 0 where
  pub row : PublishJob
  pub there : Memᴰ row s.tables.publish_jobs
  pub named : names_job tenant_id job_id row ≡ true
  pub was_open : is_open row.status ≡ true
  pub answer :
      (cancel tenant_id job_id now (record s { faults = [] })).0 ≡ ok (cancelled_by_request now row)
  pub stored :
      Memᴰ
        (cancelled_by_request now row)
        (cancel tenant_id job_id now (record s { faults = [] })).1.tables.publish_jobs

module _ (tenant_id job_id : String) (now : ℕ) (s : Session Tables)
    (valid : is_tenant_id tenant_id ≡ true) where
  -- No such job: the answer is that it was not found.
  cancel_missing :
      find_first (names_job tenant_id job_id) s.tables.publish_jobs ≡ none
      → (cancel tenant_id job_id now (record s { faults = [] })).0
        ≡ thrown (not_found "Publish job was not found.")
  unfolding cancel cancel_current validate_tenant_id translating catching transaction query
      rolled_back pure throw ◌>>=◌ to_database_unavailable is_platform not_found
  cancel_missing e = rw (valid, e) refl

  cancel_closed :
      (r : PublishJob)
      → find_first (names_job tenant_id job_id) s.tables.publish_jobs ≡ some r
      → is_open r.status ≡ false
      → (cancel tenant_id job_id now (record s { faults = [] })).0
        ≡ thrown (
            conflict "PUBLISH_JOB_INVALID_STATE"
              "Publish job can only be cancelled from queued, waiting, or retrying states.")
  unfolding cancel cancel_current validate_tenant_id translating catching transaction query
      rolled_back pure throw ◌>>=◌ to_database_unavailable is_platform conflict
  cancel_closed r e closed = rw (valid, e, closed) refl

  -- the condition of the UPDATE behind the row that was read
  abbrev meant : PublishJob → PublishJob → Bool
  meant r x = names_job tenant_id job_id x && same_status x.status r.status

  cancel_row :
      (r : PublishJob)
      → find_first (names_job tenant_id job_id) s.tables.publish_jobs ≡ some r
      → (u : PublishJob) × Memᴰ u s.tables.publish_jobs
        × (meant r u ≡ true)
        × (head? (returning (meant r) (cancelled_by_request now) s.tables.publish_jobs)
            ≡ some (cancelled_by_request now u))
  cancel_row r e =
      let named : names_job tenant_id job_id r ≡ true =
        subst (OnSome (λ x. names_job tenant_id job_id x ≡ true)) e
          (OnSome-find_first (names_job tenant_id job_id) s.tables.publish_jobs) in
      returning-row (meant r) (cancelled_by_request now) r s.tables.publish_jobs
        (find_first-Mem (names_job tenant_id job_id) r s.tables.publish_jobs e)
        (rw (named, same_status_refl r.status) refl)

  cancel_updates :
      (r u : PublishJob)
      → find_first (names_job tenant_id job_id) s.tables.publish_jobs ≡ some r
      → is_open r.status ≡ true
      → head? (returning (meant r) (cancelled_by_request now) s.tables.publish_jobs)
        ≡ some (cancelled_by_request now u)
      → ((cancel tenant_id job_id now (record s { faults = [] })).0
          ≡ ok (cancelled_by_request now u))
        × Memᴰ
            (cancelled_by_request now u)
            (cancel tenant_id job_id now (record s { faults = [] })).1.tables.publish_jobs
  unfolding cancel cancel_current cancel_updated validate_tenant_id translating catching transaction
      query rolled_back pure ◌>>=◌ update_jobs statement insert_event draw
  cancel_updates r u e opened row =
      let there : OnSome
          (λ v.
            Memᴰ v (update_where (meant r) (cancelled_by_request now) s.tables.publish_jobs)
            × Unit {0})
          (some (cancelled_by_request now u)) =
        rw row at (
          returned (λ v. Unit {0}) (meant r) (cancelled_by_request now) (λ v. tt)
            s.tables.publish_jobs) in
      rw (valid, e, opened, row) (refl, there.0)

  cancel_open :
      (r : PublishJob)
      → find_first (names_job tenant_id job_id) s.tables.publish_jobs ≡ some r
      → is_open r.status ≡ true
      → IsCancelled tenant_id job_id now s
  cancel_open r e opened =
      let (u, there, fits, row) = cancel_row r e in
      let (answer, stored) = cancel_updates r u e opened row in
      let (named, same) = &&-true (names_job tenant_id job_id u) _ fits in
      record {
        row = u;
        there = there;
        named = named;
        was_open = open_as r u (names_job tenant_id job_id u) opened fits;
        answer = answer;
        stored = stored;
      }

-- With a valid tenant and a database that reports no fault, a cancellation answers in one of three
-- ways: there is no such job, and it was not found; the job is processed or has ended, and its state
-- conflicts; or it is queued, waiting or to be retried, and an open row of that tenant and id is
-- returned as cancelled and stands so in the table. Of all rows only open ones of that tenant and id
-- are changed, to cancelled ones.
pub cancel_lem :
    (tenant_id job_id : String) (now : ℕ) (s : Session Tables)
    → is_tenant_id tenant_id ≡ true
    → (((find_first (names_job tenant_id job_id) s.tables.publish_jobs ≡ none)
          × ((cancel tenant_id job_id now (record s { faults = [] })).0
              ≡ thrown (not_found "Publish job was not found.")))
        ⊎ ((r : PublishJob) × (find_first (names_job tenant_id job_id) s.tables.publish_jobs
              ≡ some r)
            × (((is_open r.status ≡ false)
                  × ((cancel tenant_id job_id now (record s { faults = [] })).0
                      ≡ thrown (
                          conflict "PUBLISH_JOB_INVALID_STATE"
                            "Publish job can only be cancelled from queued, waiting, or retrying states.")))
                ⊎ ((is_open r.status ≡ true) × IsCancelled tenant_id job_id now s))))
      × Pairwise
          (Cancels tenant_id job_id now)
          s.tables.publish_jobs
          (cancel tenant_id job_id now (record s { faults = [] })).1.tables.publish_jobs
cancel_lem tenant_id job_id now s valid = (
  elim (Option-cases (find_first (names_job tenant_id job_id) s.tables.publish_jobs)) [
    | inl e ↦ inl (e, cancel_missing tenant_id job_id now s valid e)
    | inr (r, e) ↦ elim (Bool-cases (is_open r.status)) [
      | inl o ↦ inr (r, e, inr (o, cancel_open tenant_id job_id now s valid r e o))
      | inr c ↦ inr (r, e, inl (c, cancel_closed tenant_id job_id now s valid r e c))
    ]
  ],
  (cancel-Rows (Cancels tenant_id job_id now) (λ r. inl refl) tenant_id job_id now
        (λ r named o. inr (by_names r named, o, refl))).at
      (record s { faults = [] }),
)
  where
    by_names :
        (r : PublishJob)
        → names_job tenant_id job_id r ≡ true
        → (r.tenant_id ≡ tenant_id) × (r.id ≡ job_id)
    by_names r named = ground (arith, eq_iff r.tenant_id tenant_id, eq_iff r.id job_id)
