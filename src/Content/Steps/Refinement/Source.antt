-- ===== src/Content/Steps/Refinement/Source.antt =====
-- The methods of the source by which a worker takes, keeps and gives up a job.
use roam_content_engine.Prelude.{
  ℕ, String, Bool, true, Option, none, some, ◌≡◌, ◌&&◌, &&-true, arith, not, inl, inr, Bool-cases,
  str_eq,
}
use roam_content_engine.Json.{Json}
use roam_content_engine.Db.{Db, ◌>>=◌, translating, transaction}
use roam_content_engine.Db.Moves.{Moves, Quiet, Quiet-pure, Quiet-throw, Quiet-bind, Moves-query}
use roam_content_engine.Db.Order.{OnSome, OnSome-map, OnSome-first}
use roam_content_engine.Db.Rows.{SameRows-pure}
use roam_content_engine.Content.Types.{
  ContentJobRow, ContentJobStatus, ContentJobStage, Tables, same_status,
}
use roam_content_engine.Content.Results.{Externals}
use roam_content_engine.Content.Statements.{content_table, names_job, update_jobs, logged}
use roam_content_engine.Content.Source.{
  Caller, holds_lease, is_candidate, age_order, is_set, map_worker_leased_job, leased_job,
  map_optional_leased, acquired_row, acquire_candidate, acquire_next, renew_lease, mark_stage,
  mark_completed, schedule_retry, mark_failed,
}
use roam_content_engine.Content.Repository.{is_waiting}
use roam_content_engine.Content.Steps.{
  RowStep, is_leased_by, stays, acquires, renews, stages, completes, retries, fails,
}
use roam_content_engine.Content.Steps.Within.{
  SameJobs, SameJobs-insert_event, SameJobs-event_then, SameJobs-Quiet, SameJobs-logged, Within,
  Within-refl, Within-Quiet, Within-translating, Within-transaction, Within-update,
  Quiet-map_content_job,
}

pub same_status-eq : (a b : ContentJobStatus) → same_status a b ≡ true → a ≡ b
unfolding same_status
same_status-eq a b h = ground arith

-- The condition of an UPDATE names the job, its worker and its lease; a step asks the last two.
leased :
    (c : Caller) (r : ContentJobRow)
    → holds_lease c r ≡ true
    → is_leased_by c.now c.worker_id r ≡ true
leased c r h =
    ground (arith, &&-true (names_job c.tenant_id c.job_id r) (is_leased_by c.now c.worker_id r))

module _ (x : Externals) where
  Quiet-leased_job :
      (row : ContentJobRow) (o : Option String) (t h : Option ℕ) → Quiet (leased_job x row o t h)
  unfolding leased_job
  Quiet-leased_job row (some o) (some t) (some h) =
      Quiet-bind _ _ (Quiet-map_content_job x row) (λ job. Quiet-pure _)
  Quiet-leased_job row none t h = Quiet-throw _
  Quiet-leased_job row (some o) none h = Quiet-throw _
  Quiet-leased_job row (some o) (some t) none = Quiet-throw _

  pub Quiet-map_worker_leased_job : (row : ContentJobRow) → Quiet (map_worker_leased_job x row)
  unfolding map_worker_leased_job
  Quiet-map_worker_leased_job row = elim (Bool-cases (is_set row.lease_owner)) [
    | inr e ↦ rw e (Quiet-throw _)
    | inl e ↦ rw e (Quiet-leased_job row row.lease_owner row.lease_expires_at row.heartbeat_at)
  ]

  Quiet-map_optional_leased : (o : Option ContentJobRow) → Quiet (map_optional_leased x o)
  unfolding map_optional_leased
  Quiet-map_optional_leased none = Quiet-pure none
  Quiet-map_optional_leased (some row) =
      Quiet-bind _ _ (Quiet-map_worker_leased_job row) (λ job. Quiet-pure (some job))

  acquired_row-SameJobs :
      (w : String) (now : ℕ) (prior : ContentJobStatus) (o : Option ContentJobRow)
      → Moves SameJobs (acquired_row x w now prior o)
  unfolding acquired_row
  acquired_row-SameJobs w now prior none = SameRows-pure content_table none
  acquired_row-SameJobs w now prior (some r) =
      SameJobs-event_then _ _ _ _ _ _ _ _ (Quiet-map_optional_leased (some r))

  acquire_candidate-Within :
      (w : String) (d now : ℕ) (k : Option ContentJobRow)
      → OnSome (λ k. is_waiting k.status ≡ true) k
      → Moves (Within (RowStep now w)) (acquire_candidate x w d now k)
  unfolding acquire_candidate
  acquire_candidate-Within w d now none o =
      Within-Quiet (RowStep now w) (λ r. stays) _ (Quiet-pure none)
  acquire_candidate-Within w d now (some k) o =
      Within-update (RowStep now w) (λ r. stays) _ _ _
        (λ r h.
          acquires {r = r} d
            (rw (same_status-eq r.status k.status (&&-true (str_eq r.id k.id) _ h).1) o))
        (acquired_row-SameJobs w now k.status)

  candidate-waiting :
      (now : ℕ) (locked : String → Bool) (k : ContentJobRow)
      → (is_candidate now k && not (locked k.id)) ≡ true
      → is_waiting k.status ≡ true
  unfolding is_candidate is_waiting
  candidate-waiting now locked k h = ground arith

  pub acquire_next-Within :
      (w : String) (d now : ℕ) → Moves (Within (RowStep now w)) (acquire_next x w d now)
  unfolding acquire_next
  acquire_next-Within w d now =
      Within-translating (RowStep now w) (λ r. stays) _ _
        (Within-transaction (RowStep now w) (λ r. stays) _
          (Moves-query (Within (RowStep now w)) (Within-refl (RowStep now w) (λ r. stays)) _ _
            (λ t locked. acquire_candidate-Within w d now _ (
              OnSome-map _ _ (candidate-waiting now locked) _ (
                OnSome-first (λ r. is_candidate now r && not (locked r.id)) age_order
                  t.content_jobs)))))

  module _ (c : Caller) where
    -- an UPDATE under the lease, and something behind it that can only log
    leased_update {ℓ} :
        {A : Type ℓ} (set : ContentJobRow → ContentJobRow) (f : Option ContentJobRow → Db Tables A)
        → ((r : ContentJobRow)
            → is_leased_by c.now c.worker_id r ≡ true
            → RowStep c.now c.worker_id r (set r))
        → ((o : Option ContentJobRow) → Moves SameJobs (f o))
        → Moves (Within (RowStep c.now c.worker_id)) (update_jobs (holds_lease c) set >>= f)
    leased_update set f step =
        Within-update (RowStep c.now c.worker_id) (λ r. stays) (holds_lease c) set f
          (λ r h. step r (leased c r h))

    -- the same in a transaction, whose rest is an event and the row
    leased_transaction :
        (message : String) (set : ContentJobRow → ContentJobRow)
        (log : ContentJobRow → Db Tables (Unit {0}))
        → ((r : ContentJobRow)
            → is_leased_by c.now c.worker_id r ≡ true
            → RowStep c.now c.worker_id r (set r))
        → ((r : ContentJobRow) → Moves SameJobs (log r))
        → Moves
            (Within (RowStep c.now c.worker_id))
            (translating message (transaction (update_jobs (holds_lease c) set >>= logged x log)))
    leased_transaction message set log step quiet =
        Within-translating (RowStep c.now c.worker_id) (λ r. stays) _ _
          (Within-transaction (RowStep c.now c.worker_id) (λ r. stays) _
            (leased_update set _ step (SameJobs-logged x log quiet)))

    pub renew_lease-Within :
        (d : ℕ) → Moves (Within (RowStep c.now c.worker_id)) (renew_lease x c d)
    unfolding renew_lease
    renew_lease-Within d =
        Within-translating (RowStep c.now c.worker_id) (λ r. stays) _ _
          (leased_update _ _ (λ r. renews d) (λ o. SameJobs-Quiet _ (Quiet-map_optional_leased o)))

    pub mark_stage-Within :
        (stage : ContentJobStage)
        → Moves (Within (RowStep c.now c.worker_id)) (mark_stage x c stage)
    unfolding mark_stage
    mark_stage-Within stage =
        Within-translating (RowStep c.now c.worker_id) (λ r. stays) _ _
          (leased_update _ _ (λ r. stages stage)
            (λ o. SameJobs-Quiet _ (Quiet-map_optional_leased o)))

    pub mark_completed-Within :
        (result : Option Json)
        → Moves (Within (RowStep c.now c.worker_id)) (mark_completed x c result)
    unfolding mark_completed
    mark_completed-Within result =
        leased_transaction _ _ _ (λ r. completes result) (λ r. SameJobs-insert_event _ _ _ _ _ _ _)

    pub schedule_retry-Within :
        (code message : String) (attempt_at : ℕ)
        → Moves (Within (RowStep c.now c.worker_id)) (schedule_retry x c code message attempt_at)
    unfolding schedule_retry
    schedule_retry-Within code message attempt_at =
        leased_transaction _ _ _ (λ r. retries code message attempt_at)
          (λ r. SameJobs-insert_event _ _ _ _ _ _ _)

    pub mark_failed-Within :
        (code message : String)
        → Moves (Within (RowStep c.now c.worker_id)) (mark_failed x c code message)
    unfolding mark_failed
    mark_failed-Within code message =
        leased_transaction _ _ _ (λ r. fails code message)
          (λ r. SameJobs-insert_event _ _ _ _ _ _ _)
