-- ===== src/Lib.antt =====
-- Verification library of the content engine.
--
-- The engine turns content into rendered artifacts and publishes them through a remote publish
-- engine. This library is about its two kinds of jobs, which are rows of tables, and about the text of
-- the HTML that it writes. A content job (table content_jobs) is a transcript that a worker's processor
-- turns into documents. A publish job (table publish_jobs) goes from a user's request through a
-- worker's claim, the submission to the remote engine, polls of it and the retrieval of the download
-- to its end. Any number of workers share the tables and use nothing else to agree; a lease with a
-- date of expiry says who may write a row.
--
-- The parts, and the files that model them:
--   * src/domain/publish-jobs (types.ts, transitions.ts): Publish/Types, Publish/Transitions. The
--     row of the table is the record PublishJob; dates are numbers of milliseconds.
--   * src/infrastructure/repositories/drizzle-publish-job-repository.ts: Publish/Statements (what
--     its statements share) and Publish/Repository: Settle (recordSubmission,
--     recordRemoteWaiting, recordRetry, complete, fail, markRemoteCancelled), Leases (getById,
--     claimNextDue, heartbeat, setStage), Cancel (cancel), Recovery (recoverStaleLeases) and Events
--     (listEvents).
--   * src/infrastructure/publish-jobs/database-publish-job-source.ts: Publish/Source (acquireNext,
--     renewLease).
--   * src/application/publish-jobs/publish-retry-classifier.ts: Publish/Classifier.
--   * src/infrastructure/publish-engine (types, client interface, artifact validator):
--     Publish/Engine and Publish/Artifact.
--   * src/application/publish-jobs/publish-job-executor.ts: Publish/Heartbeat (withHeartbeat) and
--     Publish/Executor, on top of all these.
--   * src/domain/content-jobs (types.ts, transitions.ts), src/domain/workers and the rows of
--     src/db/schema: Content/Types, Content/Transitions; the schema of a job's result, and how it is
--     written, over JSON values (Json): Content/Results.
--   * src/infrastructure/workers/database-job-source.ts: Content/Statements (what the statements on
--     content_jobs share), Content/Source (acquireNext, renewLease, markStage, markCompleted,
--     scheduleRetry, markFailed) and Content/Recovery (listStaleProcessingJobs, recoverStaleJob),
--     with src/application/workers/stale-job-recovery.ts.
--   * src/infrastructure/repositories/drizzle-content-job-repository.ts: Content/Repository (the
--     methods on a job that exists) and Content/Creation (createOrGetIdempotent,
--     getByIdempotencyKey), with src/platform/security/fingerprinting/index.ts.
--   * src/application/workers/job-executor.ts: Content/Executor.
--   * src/application/rendering/html-escaping.ts: Html/Escaping; html-markup-serializer.ts beside it:
--     Html/Attributes (serializeAttributes), Html/Markup (classes, addresses and attributes of an
--     element), Html/Serializer (serializeNode) and Html/Document (serializeDocumentParts), with
--     src/domain/publications/html-types.ts: Html/Types. How a browser reads what was written is
--     described on its own, in Html/Escaping/Reading and Html/Attributes/Reading.
--   * src/platform/security/url-safety.ts: Html/Url.
--   * src/application/workers/retry-policy.ts and
--     src/infrastructure/publish-engine/publish-engine-retry-policy.ts: Retry.
--   * src/platform/shared/errors, src/infrastructure/publish-engine/publish-engine-errors.ts and
--     src/infrastructure/repositories/error-utils.ts: Errors.
--
-- A method is an action on a session with the database (Db): the tables, the faults that the driver
-- is going to report, statement by statement, the rows that others have locked, the ids that are
-- drawn and the times that the clock shows. An action returns, throws, or ends the process. A
-- statement is atomic and a transaction rolls back when it throws. The calls of several workers are
-- run one after the other, in any order: statements of two calls do not alternate. Rows that other
-- transactions hold locked are part of the session, and what others write while the engine or a
-- processor is awaited is part of that call.
--
-- What a method may do to a row is a step relation (Publish/Steps: RowStep; Content/Steps), to which
-- the methods are shown to keep; the invariants are shown of the relation and carried over to single
-- calls and to histories of calls (Publish/Commands, Content/Commands), and to runs of the
-- executors, whose engine and processor are interfaces: a call of them may change the tables too,
-- since other workers go on while it is awaited. What both kinds of tables share is in Db: Db/Moves
-- and Db/Ensures (rules for actions), Db/Rows (updates of a table), Db/Found (what an update that
-- returned a row left), Db/Extends (tables that have grown) and Db/Order (ORDER BY and LIMIT).
--
-- No loop needs fuel: the recoveries' loops and the histories go along lists, the heartbeats of an
-- operation on a publish job are counted, by a number that the dependencies give, and the calls of a
-- processor of content jobs are a tree of finite depth.
--
-- Not modelled: the creation of publish jobs, the HTTP client of the engine, the workers' loops, the
-- built-in transcript processor, the repository of job events, the composer of HTML documents and the
-- renderers, packaging, themes, the API and the processes that start all this. SHA-256, zod's formats
-- and texts, the schemas of the documents in a result, the platform's URL parser and its comparison by
-- locale, and the rounding of floating-point products are parameters or left out, as each file says.
-- The keys of a request's canonical text stand in their sorted order from the outset, since a request
-- has always the same ones. A violated unique index is a fault like others that the driver reports, at
-- any statement. A text is one of Unicode characters: half of a surrogate pair, which a cut may leave,
-- is written as U+FFFD.
pub mod Prelude
pub mod Errors
pub mod Db
pub mod Json
pub mod Retry
pub mod Content
pub mod Html
pub mod Publish
