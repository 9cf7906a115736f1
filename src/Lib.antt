-- ===== src/Lib.antt =====
-- Grasshopper is a memory server for coding agents: a Go program that keeps short records in SQLite,
-- versions them, and gives an agent the ones that apply when it starts. This library models the code
-- that decides what is stored, what is read and who may ask.
--
-- The parts, and the files that model them:
-- - Base: numbers, tests, equality, lists and text that the other files share. A string is a native
--   one; `codes` are its code points. Base/Text has the tests of Go's strings and unicode packages.
-- - Outcome: the results of fallible functions, with one constructor for each error message.
-- - Scope and Scope/Applies: internal/memory/reader.go, Scope.Key, durableProject and
--   applicableKeys. `ScopeKey` stands for the JSON text of a scope that the table stores.
-- - Store: internal/memory/init.go and writer.go. `Db` is the tables `chunks`, `chunks_fts`,
--   `memory_revisions` and `memory_requests`; a table is a function from keys to optional rows, with
--   the next id beside it. Store/Tx is a transaction: an action on `Db` that keeps, on an error, what
--   it had written, and commitOrRollback, which drops it. Store/Inputs has the inputs and their
--   checks; Store/Requests replay, acknowledge, getInTx, snapshot, checkDuplicate and retireHandoffs;
--   Store/Plan and Store/Save the two halves of writeTx, Store/Write puts them together;
--   Store/Archive is archiveTx and Store/Move is Move, made of the other two as in the code.
--   The files below Store from Steps to Moved hold the proofs: Steps is the step relation on
--   databases (a memory gets a version, or a request its answer), Invariant and Preserve the
--   invariant and its preservation, Evolution what never changes, Handoffs, Saved, Finish, Written,
--   Archived, Moved and Calls which steps each transaction makes.
-- - Api: any sequence of calls of Write, Archive and Move. Api/Facts, Retry, History, Effects and
--   Visibility hold the theorems on them; Api/Registers is an abstract store that they refine.
-- - Reader: internal/memory/reader.go, the reads of one record for a client (Get) and for the owner
--   (BrowseGet, RecordByID), and the scope filter of the owner's list; Reader/Visible has the theorems, Reader/Lists the lists,
--   titles and counts.
-- - Startup: internal/memory/reader.go, from contextKeys to chooseHandoff and boundRecords: which
--   records an agent gets; Startup/Preview is StartupPreview. The size of a record's JSON and Go's stable sort are parameters; of the
--   sort it is assumed that it reorders.
-- - Access: internal/memory/client_tokens.go and owner_sessions.go, and from internal/service the
--   sections of pairing.go that hold its lock and the login limit of visualizer_session.go.
-- - Versions: parseVersion of cmd/grasshopper-server/upgrade.go, ParseVersion and CompareVersions of
--   internal/client/update.go, on code points; Versions/Digits,
--   Versions/RoundTrip and Versions/Compare hold the proofs.
-- - Checksums: checksumFor, which both files have.
-- - Actions: actions on files, links and processes. What one changed stays when a later one fails.
-- - Upgrade: cmd/grasshopper-server/upgrade.go. `Machine` is the folder of the archives, the links
--   `current` and `previous`, the skip file, the plist's folder, the archive that runs and the
--   backups. Whether an action outside the program succeeds is the next of `outcomes`; what launchd
--   lists and the servers answer are `listings` and `polls`. Every theorem holds for all of these.
--   Cutover is waitHealthy, unload, restartOn and cutover; Archives fetchArchive and pruneArchives;
--   Backups the retention of backup; Adopt adopt; Command upgrade and rollback. The other files
--   hold the proofs: Links and Adopted what an action leaves alone, Outcomes, Stopped, Rollback, Installed,
--   Kept, Nightly, Live, Upgraded and Health what each has done when it returns or stops.
-- - Client: internal/client/update.go, the folder that `Managed` stands for: Client and Client/Install
--   the code, Client/Kept, Client/Followed and Client/Stopped what Follow has done when it returns
--   or fails.
-- - Audit: internal/service/audit.go, the limit on the lines for failures: one window for each event,
--   route and peer. Audit/Bounded bounds the windows.
-- - Search: internal/memory/search.go, prepareFTSQuery and splitCamel; Search/Terms has the theorem.
-- - Rotation: cmd/grasshopper-server/rotation.go, rotateOwnerToken; Rotation/Kept and Rotation/Safe
--   the proofs that no token is lost.
--
-- Calls of the store run one after the other, since the database has one connection. Loops are structural
-- recursion; `alternate` in Startup runs on fuel, the number of records, of which every round takes
-- one at least. SHA-256, the digests of payloads and the clock are parameters: `Digests` and `Clock`
-- in Store/Inputs, `sha256` in Access.
--
-- Not modelled: HTTP, MCP, SQL text and schema migration, the embedding model, the rankings of a
-- search, the pages of the visualizer, and the command-line programs apart from the upgrade
-- of the server, the rotation of its token and the update of the client.
mod Base
mod Outcome
pub mod Scope
pub mod Store
pub mod Api
pub mod Reader
pub mod Startup
pub mod Access
mod Actions
pub mod Versions
pub mod Checksums
pub mod Upgrade
pub mod Client
pub mod Audit
pub mod Search
pub mod Rotation
