-- ===== src/Content/Steps.antt =====
-- The life of one row of content_jobs as a step relation: what a method of the source, called at time `now`
-- by the worker `who`, and a cancellation may do to a row. What the other methods of the repository,
-- which ask for no lease, may do is a second relation.

pub mod Within
pub mod Refinement
pub mod Status
pub mod Shape
pub mod Progress
use roam_content_engine.Prelude.{
  ℕ, String, Bool, true, Option, none, some, ◌≡◌, ◌&&◌, holds, ltb, str_eq,
}
use roam_content_engine.Json.{Json}
use roam_content_engine.Content.Types.{
  ContentJobRow, ContentJobStatus, ContentJobStage, same_status,
}
use roam_content_engine.Content.Statements.{is_free}
use roam_content_engine.Content.Source.{
  is_due, acquired, renewed, staged, done, to_retry, given_up, is_stale, recovery,
}
use roam_content_engine.Content.Repository.{
  is_waiting, claimed, transitioned, with_result, with_error, without_result,
}

-- the row is being processed by the worker, under a lease that is still to expire
abbrev pub is_leased_by : ℕ → String → ContentJobRow → Bool
is_leased_by now w r =
    same_status r.status ContentJobStatus.processing
    && holds (λ o. str_eq o w) r.lease_owner
    && holds (ltb now) r.lease_expires_at

pub data RowStep (now : ℕ) (who : String) : ContentJobRow → ContentJobRow → Type 0 where
  stays : {r : ContentJobRow} → RowStep now who r r
  acquires :
      {r : ContentJobRow} (d : ℕ)
      → is_waiting r.status ≡ true
      → RowStep now who r (acquired who d now r)
  renews :
      {r : ContentJobRow} (d : ℕ)
      → is_leased_by now who r ≡ true
      → RowStep now who r (renewed d now r)
  stages :
      {r : ContentJobRow} (stage : ContentJobStage)
      → is_leased_by now who r ≡ true
      → RowStep now who r (staged stage now r)
  completes :
      {r : ContentJobRow} (result : Option Json)
      → is_leased_by now who r ≡ true
      → RowStep now who r (done result now r)
  retries :
      {r : ContentJobRow} (code message : String) (attempt_at : ℕ)
      → is_leased_by now who r ≡ true
      → RowStep now who r (to_retry code message attempt_at now r)
  fails :
      {r : ContentJobRow} (code message : String)
      → is_leased_by now who r ≡ true
      → RowStep now who r (given_up code message now r)
  recovers :
      {r : ContentJobRow} (exhausted : Bool) (attempt_at : ℕ)
      → is_stale now r ≡ true
      → RowStep now who r (recovery exhausted attempt_at now r)
  cancels :
      {r : ContentJobRow} (ended_at at : ℕ)
      → is_waiting r.status ≡ true
      → RowStep now who r (
          transitioned ContentJobStatus.cancelled ContentJobStage.failed at
            (without_result ended_at r))

-- the methods that name no worker
pub data FreeStep : ContentJobRow → ContentJobRow → Type 0 where
  keeps : {r : ContentJobRow} → FreeStep r r
  claims : {r : ContentJobRow} (at : ℕ) → is_waiting r.status ≡ true → FreeStep r (claimed at r)
  moves_on :
      {r : ContentJobRow} (stage : ContentJobStage) (at : ℕ)
      → same_status r.status ContentJobStatus.processing ≡ true
      → FreeStep r (record r { current_stage = stage; updated_at = at })
  ends_well :
      {r : ContentJobRow} (result : Json) (ended_at at : ℕ)
      → same_status r.status ContentJobStatus.processing ≡ true
      → FreeStep r (
          transitioned ContentJobStatus.completed ContentJobStage.completed at
            (with_result result ended_at r))
  ends_badly :
      {r : ContentJobRow} (code message : String) (ended_at at : ℕ)
      → same_status r.status ContentJobStatus.processing ≡ true
      → FreeStep r (
          transitioned ContentJobStatus.failed ContentJobStage.failed at
            (with_error code message (some ended_at) r))
  puts_off :
      {r : ContentJobRow} (code message : String) (at : ℕ)
      → same_status r.status ContentJobStatus.processing ≡ true
      → FreeStep r (
          transitioned ContentJobStatus.retrying ContentJobStage.failed at
            (with_error code message none r))
  calls_off :
      {r : ContentJobRow} (ended_at at : ℕ)
      → is_waiting r.status ≡ true
      → FreeStep r (
          transitioned ContentJobStatus.cancelled ContentJobStage.failed at
            (without_result ended_at r))
