-- ===== src/Lib.antt =====
-- esodm, an object-document mapper for Elasticsearch (Go): a model of its core.
--
-- The program. A Client checks the server's version and performs requests; a Repository writes and
-- reads documents through it, one by one (repository.go), in batches (bulk.go, bulk_retry.go,
-- bulk_sequence.go) and by searches; an Iterator (iterator.go) walks a search page by page over a
-- point in time; Admin (admin.go, operations.go) manages indices, aliases and tasks, and
-- checkpointed migrations (migration.go) are built on it.
--
-- The files, and the code that each one models.
--   Prelude                        Go's byte strings and signed integers, lists, Boolean tests
--   Error, Error/Classes           client.go: *Error, the sentinel errors, errors.Is and errors.As
--                                  over wrapped errors; the error types of the other files
--   Decimal, Decimal/RoundTrip     strconv.Atoi, strconv.Itoa and the digits of ParseUint
--   Version, Version/*             client.go: Version, ParseVersion, String, Compare, validateVersion
--   Names, Names/Safe              client.go: validateName, validateID; index.go: validateIndexName,
--                                  validateReadTarget
--   Paths, Paths/*                 client.go: segment, requestOperation; net/url's escaping of a
--                                  segment; Segments and Operations are about them
--   Client, Client/Perform         client.go: perform, request, Do; Client/Success is about perform
--   Client/Calls                   Client/Success for Do
--   Client/Connect, Client/Typed   client.go: Connect, ConnectVersion, newClient; DoTyped
--   Retry, Retry/Bounds            bulk_retry.go: RetryPolicy, its validation and the delay
--   Write, Write/Values            repository.go: Metadata, WriteResult, WriteOptions
--   Bulk                           bulk.go: the types of a batch and what a batch calls (Backend)
--   Bulk/Send                      bulk.go: sendBulk; repository.go: afterWrite
--   Bulk/Loop, Bulk/Loop/*         bulk_retry.go: BulkWithOptions; Bulk/Loop/Steps is the induction
--                                  rule for its attempts, the other files prove from it
--   Bulk/Sequence, .../Batches     bulk_sequence.go: BulkSeq2 without concurrency
--   Iterator                       iterator.go: Next and Close
--   Iterator/Paging                iterator.go: Each, and which hits it delivers
--   Iterator/Ownership             iterator.go: the release of the point in time
--   Iterator/Cursors               iterator.go: Cursor, Detach, EncodeCursor, DecodeCursor
--   Finder                         finder.go: Page
--   Read                           read_options.go; repository.go: Hit
--   Relations, Relations/*         relations.go: Load; Lookup and Loading are lemmas for Order
--   Relations/Graph, .../Bounds    relations.go: Preload
--   Join                           relations.go: compileJoin, validateJoin, requireJoinRouting
--   Effect                         fallible functions that reach the outside
--   Repository                     repository.go, model.go: a repository, its hooks and its model
--   Repository/Writing, .../Delivery, .../Preparation
--                                  repository.go, model.go, options.go: write, Create, Replace,
--                                  Save, Insert; what they check, and when they succeed
--   Repository/Creations, .../Steps
--                                  lemmas for Delivery: the tests of a write and its hooks
--   Repository/Patching            repository.go: Update, Upsert, Delete
--   Repository/Reading, .../Joins  repository.go: GetWith, ExistsWith, EnsureIndex, CountWith; what
--                                  a join field requires of reads and writes
--   Repository/Updates             operations.go: UpdateWith
--   Repository/Loading             relations.go: MGetWith
--   Repository/Batches, .../BatchHeader, .../BatchChecks
--                                  bulk.go, bulk_retry.go: prepareBulk, normalizeBulk,
--                                  EncodeOperation
--   Search, Search/Building        search.go: Search, its methods, and chains of them
--   Search/Running                 search.go: Repository.Search
--   Search/Pinned, .../Including, .../Complete, .../Runs
--                                  its conditions: the point in time, the vectors in the source, the
--                                  response; and when it succeeds
--   Registry, Registry/Distinct    model.go: Registry
--   Admin, Admin/Polling           admin.go: indices, mappings, aliases, jsonEqual; operations.go:
--                                  Task, WaitTask, validateTaskID; Admin/Waiting is about WaitTask
--   ByQuery                        operations.go: UpdateByQuery, DeleteByQuery
--   Migration                      migration.go: MigrationState, its validation and checks
--   Migration/Sequence             the monad of functions that return a state beside an error
--   Migration/Steps                migration.go: StartMigration, submitMigration, ResumeMigration
--   Migration/Triples              pre- and postconditions of such functions
--   Migration/Still, Resume, Start
--                                  what these functions do to the alias and to the phase
--   Migration/Apply                admin.go: ApplyMigration
--   Tests                          runs on concrete inputs, and the theorems at such inputs
--
-- How code becomes a definition. A function that reaches the cluster, the clock, a hook or a
-- callback takes a state of type `World` and returns the next one; what it reaches is a field of a
-- record (Backend for batches, Server for iterators, Cluster for management), which stands for the
-- transport, for the packages encoding/json, encoding/base64 and math/rand, and for callbacks. A
-- context is the part of the world that ctx.Err and waitContext read. An error is a value of
-- `Error.Err`; nil is `none`. A pair of a value and an error keeps the value where the code reads it
-- beside an error (batches, migrations, iterators), and is a Result where it does not.
--
-- Integers. A Go int or int64 is an integer without a bound where the code's own checks keep it
-- in range: retry counts, delays (a doubled delay stays at most the maximum) and batch sizes.
--
-- Loops and fuel. The attempts of BulkWithOptions recurse on the retries that are left, and the
-- loop of BulkSeq2 on what the producer yields. WaitTask and Each run until the server ends
-- them: they take fuel, and their theorems name the number of polls or hits that suffices.
--
-- Not modelled. Query and schema building (query.go, facets.go, the rest of finder.go, geo.go,
-- fields.go, schema.go), MultiSearch, aggregations and inner hits, the reflection of model.go,
-- the concurrent BulkStream, mapping drift, PlanMigration, the file store of
-- migrationstore, adapters, generators, observability, tests and examples. encode and normalize of
-- Backend are parameters of the model of batches; Repository/Batches has the code behind them.
-- `search` of Server stands for Repository.Search, and the requests of Cluster for Client.Do and
-- Client.DoTyped. Text of error messages is not kept.
pub mod Prelude
pub mod Error
pub mod Names
pub mod Paths
pub mod Decimal
pub mod Version
pub mod Client
pub mod Retry
pub mod Write
pub mod Bulk
pub mod Iterator
pub mod Search
pub mod Finder
pub mod Admin
pub mod ByQuery
pub mod Read
pub mod Relations
pub mod Repository
pub mod Join
pub mod Registry
pub mod Effect
pub mod Migration
pub mod Tests
