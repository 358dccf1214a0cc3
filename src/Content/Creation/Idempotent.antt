-- ===== src/Content/Creation/Idempotent.antt =====
-- A request that is made again with the same idempotency key.
use Prim.Native.String.{◌++◌ as str_append}
use roam_content_engine.Prelude.{
  ◌+◌, String, Bool, true, false, Option, none, some, List, [], ◌∷◌, ◌++◌, ◌≡◌, refl, sym, ap,
  subst, ◌∙◌, inl, inr, Bool-cases, str_eq, eq_refl, trim, is_empty,
}
use roam_content_engine.Errors.{conflict, to_database_unavailable, is_platform, is_unique_violation}
use roam_content_engine.Db.{
  Session, ok, thrown, pure, throw, ◌>>=◌, catching, transaction, query, rolled_back, statement,
  draw, now, ensure_non_empty, find_first,
}
use roam_content_engine.Content.Types.{
  ContentJobRow, ContentJobStatus, CreateContentJobInput, SourceVersion, Tables, is_prefixed_id,
}
use roam_content_engine.Content.Results.{Externals}
use roam_content_engine.Content.Statements.{map_content_job, stored_result, job_of, insert_event}
use roam_content_engine.Content.Repository.{require}
use roam_content_engine.Content.Creation.{
  names_key, names_version, new_row, insert_job, correlation_or_new, create_new, create_or_take,
  with_version, recover_create, create_with_key, has_valid_correlation, compute_request_fingerprint,
  create_or_get_idempotent,
}

-- The request passes the checks, and its source version is there.
pub record IsAcceptable (input : CreateContentJobInput) (t : Tables) : Type 0 where
  pub tenant : is_prefixed_id input.tenant_id "tenant" ≡ true
  pub project : is_prefixed_id input.project_id "project" ≡ true
  pub source : is_prefixed_id input.source_version_id "srcver" ≡ true
  pub correlation : has_valid_correlation input.correlation_id ≡ true
  pub key : is_empty (trim input.idempotency_key) ≡ false
  pub version : SourceVersion
  pub found : find_first (names_version input) t.source_versions ≡ some version

-- the job of the request's key, if there is one
abbrev pub existing : CreateContentJobInput → Tables → Option ContentJobRow
existing input t =
    find_first (names_key input.tenant_id (trim input.idempotency_key)) t.content_jobs

module _ (x : Externals) (input : CreateContentJobInput) (s : Session Tables)
    (fits : IsAcceptable input s.tables) where
  -- With a database that reports no fault, a request whose key a job has that was created by the same
  -- request returns that job, and changes no table.
  pub create_same :
      (r : ContentJobRow)
      → existing input s.tables ≡ some r
      → str_eq r.request_fingerprint (compute_request_fingerprint x input) ≡ true
      → r.result ≡ none
      → create_or_get_idempotent x input (record s { faults = [] })
        ≡ (ok (job_of r none), record s { faults = [] })
  unfolding create_or_get_idempotent create_with_key with_version create_or_take require
      ensure_non_empty catching transaction query rolled_back pure throw ◌>>=◌ map_content_job
      stored_result
  create_same r e same fresh =
      rw
        (
          fits.tenant, fits.project, fits.source, fits.correlation, fits.key, fits.found, e, same,
          fresh,
        )
        refl

  -- … and a job of that key that another request created makes it fail, and no table changes.
  pub create_other :
      (r : ContentJobRow)
      → existing input s.tables ≡ some r
      → str_eq r.request_fingerprint (compute_request_fingerprint x input) ≡ false
      → create_or_get_idempotent x input (record s { faults = [] }) ≡ (
        thrown (
            conflict "IDEMPOTENCY_KEY_REUSED"
              "Idempotency key was reused with a different request payload."),
        record s { faults = [] },
      )
  unfolding create_or_get_idempotent create_with_key with_version create_or_take require
      ensure_non_empty catching transaction query rolled_back pure throw ◌>>=◌ recover_create
      is_unique_violation to_database_unavailable is_platform conflict
  create_other r e other =
      rw (fits.tenant, fits.project, fits.source, fits.correlation, fits.key, fits.found, e, other)
        refl

  -- the row that is inserted for a request of a new key
  abbrev pub inserted : String → ContentJobRow
  inserted correlation_id =
      new_row input (trim input.idempotency_key) (compute_request_fingerprint x input)
        (str_append "job_" (s.ulids s.drawn)) correlation_id (s.clock s.read)

  abbrev drawn_correlation : Option String → String
  drawn_correlation none = str_append "corr_" (s.ulids (s.drawn + 1))
  drawn_correlation (some id) = id

  create_new_job :
      (o : Option String)
      → input.correlation_id ≡ o
      → existing input s.tables ≡ none
      → ((create_or_get_idempotent x input (record s { faults = [] })).0
          ≡ ok (job_of (inserted (drawn_correlation o)) none))
        × ((create_or_get_idempotent x input (record s { faults = [] })).1.tables.content_jobs
            ≡ s.tables.content_jobs ++ inserted (drawn_correlation o) ∷ [])
        × ((create_or_get_idempotent x input (record s { faults = [] })).1.tables.source_versions
            ≡ s.tables.source_versions)
  unfolding create_or_get_idempotent create_with_key with_version create_or_take require
      ensure_non_empty catching transaction query rolled_back pure throw ◌>>=◌ create_new insert_job
      correlation_or_new map_content_job stored_result statement draw now insert_event
  create_new_job none c e = (
    rw (fits.tenant, fits.project, fits.source, fits.correlation, fits.key, fits.found, e, c) refl,
    rw (fits.tenant, fits.project, fits.source, fits.correlation, fits.key, fits.found, e, c) refl,
    rw (fits.tenant, fits.project, fits.source, fits.correlation, fits.key, fits.found, e, c) refl,
  )
  create_new_job (some id) c e = (
    rw (fits.tenant, fits.project, fits.source, fits.correlation, fits.key, fits.found, e, c) refl,
    rw (fits.tenant, fits.project, fits.source, fits.correlation, fits.key, fits.found, e, c) refl,
    rw (fits.tenant, fits.project, fits.source, fits.correlation, fits.key, fits.found, e, c) refl,
  )

find_first-append :
    (p : ContentJobRow → Bool) (r : ContentJobRow) (rs : List ContentJobRow)
    → find_first p rs ≡ none
    → p r ≡ true
    → find_first p (rs ++ r ∷ []) ≡ some r
unfolding find_first
find_first-append p r [] e h = rw h refl
find_first-append p r (y ∷ ys) e h = elim (Bool-cases (p y)) [
  | inl c ↦ let no : some y ≡ none = rw c at e in cc
  | inr c ↦ rw c (find_first-append p r ys (rw c at e) h)
]

-- The row is a queued job of the request, under its key and with its fingerprint, that nobody works on.
pub record IsRequested (x : Externals) (input : CreateContentJobInput) (r : ContentJobRow)
    : Type 0 where
  pub tenant : r.tenant_id ≡ input.tenant_id
  pub version : r.source_version_id ≡ input.source_version_id
  pub key : r.idempotency_key ≡ trim input.idempotency_key
  pub fingerprint : r.request_fingerprint ≡ compute_request_fingerprint x input
  pub queued : r.status ≡ ContentJobStatus.queued
  pub free : r.lease_owner ≡ none
  pub fresh : r.attempt_count ≡ 0

-- If the database reports no fault, an acceptable request of a new key returns a job and adds its
-- row to the table, a queued job of the request; and the same request again answers the same, with
-- the same job, and changes no job and adds none.
pub create_twice :
    (x : Externals) (input : CreateContentJobInput) (s : Session Tables)
    (fits : IsAcceptable input s.tables)
    → existing input s.tables ≡ none
    → let first = create_or_get_idempotent x input (record s { faults = [] }) in
      let second = create_or_get_idempotent x input (record (first.1) { faults = [] }) in
      ((job : ContentJobRow) × (first.0 ≡ ok (job_of job none))
        × (first.1.tables.content_jobs ≡ s.tables.content_jobs ++ job ∷ [])
        × IsRequested x input job)
      × (second.0 ≡ first.0)
      × (second.1.tables.content_jobs ≡ first.1.tables.content_jobs)
create_twice x input s fits e =
    let made = create_new_job x input s fits input.correlation_id refl e in
    let first = create_or_get_idempotent x input (record s { faults = [] }) in
    let row = inserted x input s fits (drawn_correlation x input s fits input.correlation_id) in
    let again : IsAcceptable input first.1.tables = record {
      tenant = fits.tenant;
      project = fits.project;
      source = fits.source;
      correlation = fits.correlation;
      key = fits.key;
      version = fits.version;
      found =
          subst (λ vs. find_first (names_version input) vs ≡ some fits.version) (sym made.2)
            fits.found;
    } in
    let found : existing input first.1.tables ≡ some row = rw (made.1) (
      find_first-append (names_key input.tenant_id (trim input.idempotency_key)) row
        s.tables.content_jobs e
        (rw (eq_refl input.tenant_id, eq_refl (trim input.idempotency_key)) refl)) in
    let second =
      create_same x input first.1 again row found (eq_refl (compute_request_fingerprint x input))
        refl in
    let requested : IsRequested x input row = record {
      tenant = refl;
      version = refl;
      key = refl;
      fingerprint = refl;
      queued = refl;
      free = refl;
      fresh = refl;
    } in
    (
      (row, made.0, made.1, requested),
      ap (λ p. p.0) second ∙ sym made.0,
      ap (λ p. p.1.tables.content_jobs) second,
    )
