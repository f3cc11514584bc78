-- ===== src/Lib.antt =====
-- Verification of nest-base, a NestJS server template, over models of its core services.
--
-- The program serves HTTP requests through Nest guards and interceptors and keeps its state in
-- Postgres. Some of its mechanisms have logic of their own that must be right under retries and
-- several replicas, and these are modelled:
-- - Idempotency keys. An interceptor calls IdempotencyService.runOrCache around a handler: the
--   first call with a key runs the handler and stores its response, a later call with the same
--   body gets the stored response. A cron prunes old records.
-- - The email outbox. EmailOutboxRecorder.enqueue stores a message, EmailOutboxWorker.runOnce
--   claims and sends what is due, the planner decides on retries and dead letters, an admin page
--   retries or cancels a record.
-- - The event outbox. OutboxRecorder.record stores an event with a sequence number, OutboxWorker
--   claims a batch with an in-flight sentinel and hands each entry to its handlers.
-- - The rate limiter. ThrottlerService.consume counts a request in each of several windows of time and
--   tells whether one is over its limit.
-- - Webhooks. WebhookDispatcher.dispatch posts an event to an endpoint, counts its failures in a row
--   and disables it at a threshold.
-- - Resumable uploads. UploadSessionManager keeps the offset and the status of each upload.
-- - Jobs. InMemoryJobQueue runs jobs one after the other in this process, and keeps their history.
-- - Abilities. PermissionService.abilityForCached keeps what the rules of a user in a tenant come to,
--   and an API key's scopes restrict that ability for the requests made with the key.
-- - Share links. signShareLink makes a token for a file, verifyShareLink resolves it before a download.
-- - Field encryption. FieldEncryptionService seals a field under one key, MultiKekFieldEncryption
--   opens it with the first key of its chain that fits.
-- - Optimistic concurrency. computeETag makes a tag of a record's version, verifyIfMatch tells whether a
--   mutation's If-Match header names the current one.
-- - New devices. decideDeviceHandling decides on the sessions of a user who signs in, and a throttle
--   spaces the mails about it.
-- - resolveStoragePath derives the key of a stored file from its tenant, folder, id and name.
-- - The file manager's breadcrumb goes up from a folder to the root.
-- - The grace-period planner sorts the requests for erasure, and the tenant guard's classifier tells
--   which paths need a tenant.
--
-- Files, with the source each models:
-- - Base: notation and the lemmas on Bool, Option and List that the parts share. Base/Lists: lists.
--   Base/Dict: a Map with string keys. Base/Text: prefixes of strings. Base/Split: split at a character.
--   Base/Decimal: whole numbers printed and parsed. Base/Trim: trim.
--   Base/Table: an UPDATE statement on the rows of a table.
--   Base/Backoff: min(initial * factor^(n-1), cap).
-- - Idempotency, Idempotency/Hash: src/core/idempotency/idempotency.service.ts, and
--   InMemoryIdempotencyStoreWithCleanup of idempotency-cleanup.ts beside it. Proofs: Scope,
--   KeyOrder, Replay, Cleanup. Idempotency/Exclusion has the step relation of interleaved calls.
-- - EmailOutbox/Planner: src/core/email/email-outbox-planner.ts and planOutboxAdminAction of
--   email-outbox-action-planner.ts. EmailOutbox/Storage: email-outbox.prisma.ts, a statement of
--   PrismaEmailOutboxStorage per function. EmailOutbox/Recorder, EmailOutbox/Worker: the two
--   classes of email-outbox.ts. Proofs: Backoff, Claims, Consistency, Counts, Dedup, Admin.
--   EmailOutbox/Listing: listFiltered of email-outbox.prisma.ts, with CursorRecord of
--   src/core/pagination/cursor.ts. EmailOutbox/ListFilter: parseOutboxListFilter of
--   email-outbox-action-planner.ts. Proofs: Order, Paging, Browsing.
-- - Outbox/Storage: src/core/outbox/outbox.prisma.ts. Outbox/Recorder: OutboxRecorder of outbox.ts
--   and the start-up in outbox.module.ts, with its two queries that may fail. Outbox/Worker: outbox-worker.ts. Outbox/Stuck has the
--   ticks of the worker's timer. Proofs: Batches, Outcome, Stuck.
-- - Throttler/Store: src/core/throttler/throttler-postgres-backend.ts and PostgresThrottlerStore of
--   throttler.ts. Throttler/Service: ThrottlerService. Throttler/BucketKey: bucket-key.ts. Proofs:
--   Decision, Window.
-- - Webhooks/Retry: src/core/webhooks/retry-policy.ts. Webhooks/Url: webhook-url-validator.ts and the
--   signing half of hmac-signature.ts. Webhooks/Dispatcher: webhook-dispatcher.ts, for a
--   call that no other one overlaps. Webhooks/Overlap: the same code cut at its awaits. Proofs:
--   Delivery, Disabling, Overlap/Quiet, Overlap/Alone.
-- - Uploads/Session: src/core/files/upload-session.ts. Proofs: Offsets, Resume.
-- - Jobs/Queue: src/core/jobs/job-queue.ts. Jobs/Steps has the step relation of its operations and
--   turns, Jobs/Soundness its invariant, Jobs/History listJobs, Jobs/Result jobResult.
-- - Permissions/Cache: the cache of src/core/permissions/permission.service.ts. Permissions/Scoped: its
--   abilityFor. Proofs: Eviction, Served, Invalidation, and Scoped.
-- - Encryption/Field: src/core/encryption/field-encryption.service.ts. Encryption/Keys:
--   multi-kek.service.ts beside it. Proofs: Base64, Rotation.
-- - ApiKeys/Scopes, ApiKeys/Restriction: src/core/auth/api-keys/api-key-scope-planner.ts and
--   buildAbility of src/core/permissions/casl-ability.ts. Proofs: Planned, Narrowed.
-- - StoragePath: src/core/files/storage-path.ts. Proofs: Keys.
-- - Etag: src/core/concurrency/etag.ts. Proofs: Header.
-- - ShareLink/Token: src/core/files/share-link.ts. Proofs: RoundTrip, Soundness.
-- - Folders/Breadcrumb: src/core/files/file-manager-breadcrumb.ts. Proof: Trail.
-- - Devices/Handling: src/core/devices/device-handling.ts. Devices/Throttle: new-device-throttle.ts
--   beside it, and sendNewDevice of src/core/auth/better-auth-email-hooks.runner.ts. Proofs: Oldest,
--   Spacing.
-- - Erasure/Grace: src/core/gdpr/gdpr-grace.planner.ts. Tenancy/Paths, Tenancy/Guard:
--   src/core/multi-tenancy/tenant-guard.ts.
-- - A file Tests beside each part has runs on concrete data and the instances of the theorems.
--
-- Choices of the models:
-- - A Date is a natural number of milliseconds. Counters and delays are natural numbers, exact
--   where the source has doubles; the retry delays in use are far below 2^53.
-- - A camelCase name of the source is the same name in snake_case. A record of the source is a
--   record, a union of string literals a data type, undefined and NULL are none.
-- - One SQL statement, and one transaction with row locks, is one step on the rows of its table.
--   Between two awaits the code runs alone, so an operation with awaits that others can interleave
--   with is cut at them (Idempotency/Exclusion, Jobs/Steps, Webhooks/Overlap,
--   Devices/Throttle). A statement that throws has had no effect.
-- - What the code calls and does not own is a parameter: SHA-256 (Idempotency, Etag), JSON.stringify
--   of a string and localeCompare (Idempotency.Hash.Platform), the URL parser, toLowerCase and HMAC
--   (Webhooks.Url.Platform), the base64 digest of an HMAC
--   (ShareLink/Token), encodeURIComponent (Permissions/Cache), CASL's can (ApiKeys/Restriction),
--   AES-GCM and base64 (Encryption.Field.Platform), the tests on a JSON payload, the order of ids and
--   the coding of a cursor (EmailOutbox/Listing), new Date of a text (EmailOutbox/ListFilter),
--   the letters and digits of Unicode (StoragePath),
--   toUpperCase, new ids, clocks, the database's unique keys, the handlers, the mail
--   transport and the HTTP client, whose outcomes are inputs of the run.
-- - Loops run over lists and need no fuel, but for these: the eviction from the ability cache has as many
--   rounds as there are entries, each of which deletes one, and the breadcrumb has one more than there
--   are folders, each round of which visits another. The reader of all pages (EmailOutbox/Paging) asks
--   for at most one page more than there are rows, each page of which holds a row.
--
-- Not modelled: the Nest modules, decorators and controllers, the admin pages (tsx), the Prisma
-- client, the generators under dx, and the parts that only call a library (S3, Redis, sharp,
-- better-auth, CASL). Logging and metrics calls are left out of the modelled functions.
pub mod Base
pub mod Idempotency
pub mod EmailOutbox
pub mod Outbox
pub mod Throttler
pub mod Webhooks
pub mod Jobs
pub mod Uploads
pub mod Etag
pub mod Erasure
pub mod ShareLink
pub mod Tenancy
pub mod Permissions
pub mod ApiKeys
pub mod Folders
pub mod Devices
pub mod Encryption
pub mod StoragePath
