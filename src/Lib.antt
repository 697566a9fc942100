-- ===== src/Lib.antt =====
-- Vessica knowledge server: a model of the core of the Go program, and what it guarantees.
--
-- The program keeps scopes, entities, artifacts, memories and relationships in SQL tables, each object
-- in numbered versions, next to a log of events. Every write goes through the service: the options are
-- checked, a write whose idempotency key is in the log is answered from the store, and a new one adds
-- an event and a row in one transaction. Reads collect the current versions; a context selects artifacts
-- and ranked memories for a question within a budget of tokens.
--
--   Base         shared helpers; Base/Calls has the results of fallible calls that thread a state, with
--                the error values of knowledge/errors.go
--   Models       the records of knowledge/models.go (Models/Json: `map[string]any`; Models/Retrieval:
--                requests and answers of retrieval and context)
--   Store        knowledge/sqlstore.go on tables as lists: Store/Table is a versioned table with its table
--                of current versions, Store/Tables the whole schema, Store/Write the transactions
--                (`eventTx`, `CreateScope`, `PutEntity` to `PutRelationship`), Store/Read the queries for one
--                row, Store/Queries those for lists, Store/Ancestors `ScopeAncestors`, Store/Jobs the
--                embedding queue, Store/Backfill `QueueEmbeddings`, Store/Projections `RebuildProjections`,
--                Store/Replay knowledge/replay.go, Store/Snapshots `Export` and `Import`
--   Service      knowledge/service.go: Service/Rules and Service/Writing are the checks and the idempotent
--                frame of every write, Service/Scopes to Service/Relationships the ten writes, one function
--                per method, Service/Workflow `IngestWorkflowEvent`, Service/Snapshots `ImportSnapshot`,
--                Service/Worker a round of `StartEmbeddingWorker`; Service/Run is any sequence of writes, Service/Kept carries a
--                property of the tables through each, Service/Replayed replays the log that they leave
--   Text         the functions of Go's package `strings` that the program uses; Text/Bytes is a text in UTF-8
--   Context      `Context` of knowledge/service.go: Context/Compose goes from the request to the response,
--                through the four loops over artifacts and ranked memories and the selection of artifacts
--                (`explicitArtifact`, `artifactRelevant`, `artifactReasons`, `matchesArtifact`)
--   Retrieval    knowledge/retrieval.go: Retrieval/Retrieve is `RetrieveMemories`, over the searches of the
--                store (Retrieval/Search, Retrieval/Memories), the names in a query (Retrieval/Subjects), the scores
--                (Retrieval/Scores, Retrieval/Candidates) and the reordering by a provider (`maybeRerank`)
--   Server       server/http.go: pages, rate limit, credentials and write options, and the handlers from a
--                decoded body to the answer (Server/Handlers, Server/Questions, Server/Searches,
--                Server/Snapshots)
--   Providers    knowledge/embedder.go and knowledge/reranker.go: `HTTPEmbedder` and `HTTPReranker`, which fill
--                the interfaces that the service uses
--   Client       client/client.go: `do` (Client) and the request of each method (Client/Calls)
--   Tests        concrete data, and each theorem at it
--
-- How the model stands to the code. A method is an action: a function from the tables to a result and the
-- tables after it. A transaction that fails leaves the tables as they were, which is what the rollback of
-- `eventTx` does. The order of the statements, the primary keys and the unique indexes are those of the
-- schema. `time.Now` and the random suffixes of `NewID` are read from an `Env` that each call gets, so
-- every statement holds for every clock and every draw, also for draws that repeat. The floats, SHA-256 and
-- `unicode.ToLower` are the fields of a `Host`, and no statement assumes anything of them; base64 and `strconv`
-- are those of a `Codec`, whose laws a statement names. What the database adds (the matches and ranks of a
-- full-text table, `LIKE`, the distance of pgvector) are the fields of an `Engine` and a `Database`, and no
-- statement assumes anything of them either. A time is a number of nanoseconds, which stands still during a
-- retrieval, and a JSON column holds the value that it encodes. The columns of times hold texts, which the claim of an
-- embedding job compares, over any text of a time; the other queries compare the times. A query without an
-- ORDER BY is answered as SQLite does it. A version number and a token count are natural numbers, and the limits of
-- requests integers, without the bound of Go's 64-bit int.
--
-- Most loops of the program are a recursion on the list that they walk. On fuel run the client that follows
-- the cursors of pages (Server/Pages/Walk), one page per item and one more; `ScopeAncestors`, for which two
-- more than the number of scopes are enough if no parents form a cycle, and no fuel is if they do; and the
-- digits of a number, one per unit.
--
-- Not modelled: the command, the exchanges over HTTP and the encoding of JSON (parameters of Client and
-- Providers), the routes of the server with its handlers `health` and `ready`, the migrations, and
-- failures of the database itself other than violated constraints.
pub mod Base
pub mod Models
pub mod Store
pub mod Service
pub mod Providers
pub mod Text
pub mod Context
pub mod Retrieval
pub mod Server
pub mod Client
pub mod Tests
