-- ===== src/Content/Creation.antt =====
-- How a content job is created: createOrGetIdempotent and getByIdempotencyKey of
-- src/infrastructure/repositories/drizzle-content-job-repository.ts, on top of
-- src/platform/security/fingerprinting/index.ts, and the use cases of src/application/content-jobs.
pub mod Rows
pub mod Idempotent
use Prim.Native.Char.{code}
use Prim.Native.String.{◌++◌ as str_append}
use roam_content_engine.Prelude.{
  ℕ, ◌/◌, ◌%◌, ◌+◌, String, Bool, true, false, Option, none, some, List, [], ◌∷◌, ◌++◌, ◌&&◌, not,
  ltb, ◌==◌, coalesce, str_eq, if◌then◌else◌,
}
use roam_content_engine.Errors.{
  Thrown, validation, conflict, not_found, is_unique_violation, to_database_unavailable,
}
use roam_content_engine.Json.{Json, text, object, field, end}
use roam_content_engine.Db.{
  Db, ◌>>=◌, ◌>>◌, pure, throw, statement, query, draw, transaction, translating, catching,
  ensure_non_empty, find_first, now,
}
use roam_content_engine.Content.Types.{
  ContentJobRow, ContentJob, ContentJobStatus, ContentJobStage, JobEventType, SourceVersion,
  CreateContentJobInput, Tables, is_prefixed_id,
}
use roam_content_engine.Content.Results.{Externals}
use roam_content_engine.Content.Statements.{insert_event, map_content_job, map_optional}
use roam_content_engine.Content.Repository.{require, get_by_id}

-- `JSON.stringify` of a text: quotation marks, backslashes and control characters are escaped. A
-- native text has no lone surrogates.
abbrev hex_digit : ℕ → String
hex_digit n =
    if n == 0
    then "0"
    else if n == 1
    then "1"
    else if n == 2
    then "2"
    else if n == 3
    then "3"
    else if n == 4
    then "4"
    else if n == 5
    then "5"
    else if n == 6
    then "6"
    else if n == 7
    then "7"
    else if n == 8
    then "8"
    else if n == 9
    then "9"
    else if n == 10
    then "a"
    else if n == 11
    then "b"
    else if n == 12
    then "c"
    else if n == 13
    then "d"
    else if n == 14
    then "e"
    else "f"

unfoldable pub escaped : ℕ → String → String
escaped c itself =
    if c == 34
    then "\\\""
    else if c == 92
    then "\\\\"
    else if c == 8
    then "\\b"
    else if c == 12
    then "\\f"
    else if c == 10
    then "\\n"
    else if c == 13
    then "\\r"
    else if c == 9
    then "\\t"
    else if ltb c 32
    then str_append "\\u00" (str_append (hex_digit (c / 16)) (hex_digit (c % 16)))
    else itself

unfoldable pub escaped_text : String → String
unfolding escaped
escaped_text String.[] = ""
escaped_text (String.◌∷◌ c s) = str_append (escaped (code c) (String.◌∷◌ c "")) (escaped_text s)

unfoldable pub stringify : String → String
unfolding escaped_text
stringify s = str_append "\"" (str_append (escaped_text s) "\"")

-- `"key":value` of the entries, with commas between
unfoldable pub canonical_entries : List (String × String) → String
unfolding stringify
canonical_entries [] = ""
canonical_entries ((k, v) ∷ []) = str_append (stringify k) (str_append ":" (stringify v))
canonical_entries ((k, v) ∷ e ∷ rest) =
    str_append (stringify k)
      (str_append ":" (str_append (stringify v) (str_append "," (canonical_entries (e ∷ rest)))))

-- `canonicalize(input)`: an object of texts, its keys in the order of `localeCompare`
unfoldable pub canonical_request : CreateContentJobInput → String
unfolding canonical_entries
canonical_request input = str_append "{" (
    str_append
      (canonical_entries (
        ("jobType", input.job_type)
        ∷ ("projectId", input.project_id)
        ∷ ("requestSchemaVersion", input.request_schema_version)
        ∷ ("sourceVersionId", input.source_version_id)
        ∷ ("tenantId", input.tenant_id)
        ∷ []))
      "}")

abbrev pub names_key : String → String → ContentJobRow → Bool
names_key tenant_id key r = str_eq r.tenant_id tenant_id && str_eq r.idempotency_key key

abbrev pub names_version : CreateContentJobInput → SourceVersion → Bool
names_version input v =
    str_eq v.id input.source_version_id
    && str_eq v.tenant_id input.tenant_id
    && str_eq v.project_id input.project_id

-- the row that is inserted
abbrev pub new_row : CreateContentJobInput → String → String → String → String → ℕ → ContentJobRow
new_row input key fingerprint id correlation_id at = record {
  id = id;
  tenant_id = input.tenant_id;
  project_id = input.project_id;
  source_version_id = input.source_version_id;
  status = ContentJobStatus.queued;
  current_stage = ContentJobStage.queued;
  idempotency_key = key;
  request_fingerprint = fingerprint;
  attempt_count = 0;
  result = none;
  error_code = none;
  error_message = none;
  correlation_id = correlation_id;
  lease_owner = none;
  lease_expires_at = none;
  heartbeat_at = none;
  next_attempt_at = none;
  created_at = at;
  started_at = none;
  completed_at = none;
  updated_at = at;
}

-- INSERT INTO content_jobs … RETURNING *
unfoldable pub insert_job : ContentJobRow → Db Tables ContentJobRow
insert_job row = statement λ t. (row, record t { content_jobs = t.content_jobs ++ row ∷ [] })

-- `input.correlationId ?? createCorrelationId()`
unfoldable pub correlation_or_new : Option String → Db Tables String
correlation_or_new (some id) = pure id
correlation_or_new none = do id ← draw; pure (str_append "corr_" id)

abbrev reused : Thrown
reused =
    conflict "IDEMPOTENCY_KEY_REUSED" "Idempotency key was reused with a different request payload."

-- `input.correlationId !== undefined && !isPrefixedId(…)`
abbrev pub has_valid_correlation : Option String → Bool
has_valid_correlation none = true
has_valid_correlation (some id) = is_prefixed_id id "corr"

module _ (x : Externals) where
  -- `computeRequestFingerprint`
  unfoldable pub compute_request_fingerprint : CreateContentJobInput → String
  unfolding canonical_request
  compute_request_fingerprint input = x.sha256 (canonical_request input)

  unfoldable pub get_by_idempotency_key : String → String → Db Tables (Option ContentJob)
  get_by_idempotency_key tenant_id idempotency_key = do
    require (is_prefixed_id tenant_id "tenant") "Invalid tenant ID."
    key ← ensure_non_empty idempotency_key "idempotencyKey"
    translating "Unable to fetch content job by idempotency key." do
      row ← query λ t _. find_first (names_key tenant_id key) t.content_jobs
      map_optional x row

  module _ (input : CreateContentJobInput) (key fingerprint : String) where
    unfoldable pub create_new : Db Tables ContentJob
    unfolding insert_job correlation_or_new
    create_new = do
      at ← now
      id ← draw
      correlation_id ← correlation_or_new input.correlation_id
      created ← insert_job (new_row input key fingerprint (str_append "job_" id) correlation_id at)
      insert_event input.tenant_id created.id JobEventType.job_created none (some created.status)
          (some (
            object (
              field "requestFingerprint" (text fingerprint)
                (field "idempotencyKey" (text key) end))))
          at
      map_content_job x created

    -- a job of that key exists, or not
    unfoldable pub create_or_take : Option ContentJobRow → Db Tables ContentJob
    unfolding create_new
    create_or_take none = create_new
    create_or_take (some existing) =
        if str_eq existing.request_fingerprint fingerprint
        then map_content_job x existing
        else throw reused

    unfoldable pub with_version : Option SourceVersion → Db Tables ContentJob
    unfolding create_or_take
    with_version none = throw (not_found "Source version was not found.")
    with_version (some _) = do
      existing ← query λ t _. find_first (names_key input.tenant_id key) t.content_jobs
      create_or_take existing

    -- the job that somebody else has inserted in the meantime
    unfoldable pub take_existing : Thrown → Option ContentJob → Db Tables ContentJob
    take_existing error none =
        throw (to_database_unavailable error "Unable to create or read idempotent content job.")
    take_existing error (some existing) =
        if str_eq existing.request_fingerprint fingerprint then pure existing else throw reused

    -- the `catch (error)` block
    unfoldable pub recover_create : Thrown → Db Tables ContentJob
    unfolding take_existing
    recover_create error =
        if is_unique_violation error
        then (get_by_idempotency_key input.tenant_id key >>= take_existing error)
        else throw
            (to_database_unavailable error "Unable to create or read idempotent content job.")

    unfoldable pub create_with_key : Db Tables ContentJob
    unfolding with_version recover_create
    create_with_key =
        catching
          (transaction do
            version ← query λ t _. find_first (names_version input) t.source_versions
            with_version version)
          recover_create

  unfoldable pub create_or_get_idempotent : CreateContentJobInput → Db Tables ContentJob
  unfolding compute_request_fingerprint create_with_key require is_prefixed_id
  create_or_get_idempotent input = do
    require (is_prefixed_id input.tenant_id "tenant") "Invalid tenant ID."
    require (is_prefixed_id input.project_id "project") "Invalid project ID."
    require (is_prefixed_id input.source_version_id "srcver") "Invalid source version ID."
    require (has_valid_correlation input.correlation_id) "Invalid correlation ID."
    key ← ensure_non_empty input.idempotency_key "idempotencyKey"
    create_with_key input key (compute_request_fingerprint input)

  -- GetContentJob.execute
  unfoldable pub get_content_job : String → String → Db Tables ContentJob
  get_content_job tenant_id job_id = do
    job ← get_by_id x tenant_id job_id
    elim job [ none ↦ throw (not_found "Content job was not found.") | some j ↦ pure j ]
