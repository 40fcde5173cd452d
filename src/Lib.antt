-- ===== src/Lib.antt =====
-- The synchronisation core of cloud_sync_lib: a daemon keeps a watched directory and cloud storage
-- in step. The program's parts, as they stand in the repository, and where each is modelled:
--
-- Base: the shared names. Strings are lists of UTF-8 bytes (Base/Text), hash maps are association
-- lists (Base/Dict), multisets of paths are compared by sums of weights (Base/Count).
-- Storage (crates/cloud_sync_core/src/traits.rs, state.rs): `StorageError` and its classes,
-- `StorageCapabilities`, `SyncPolicy`, `ConflictPolicy`, `FileState`, `SyncState`, the FNV-1a
-- checksum.
-- Engine (crates/cloud_sync_daemon/src/engine): Conflict (conflict.rs), Plan (plan.rs), Rename
-- (rename_detector.rs), Filter (filter.rs), Scanner (scanner.rs: the remote scan, and the local
-- one in Scanner/Local) and Planner (planner.rs). A scan yields two trees; `Planner.plan` compares
-- them with the catalog and returns a plan.
-- Engine, executing: Host (the storage backend and the local file system as the executor calls
-- them, over one state of the world), Versioning (versioning.rs, with the cleanup of the trash in
-- Versioning/Cleanup), Executor (executor.rs), Orchestrator (orchestrator.rs), which plans,
-- executes and then records the plan in the catalog, and StateRepository (state_repository.rs),
-- the place of the catalog and the migration of old ones.
-- Providers (crates/cloud_sync_lib/src/providers): Backend (the operations of a storage backend),
-- Translate (the errors that responses become, utils.rs), Sessions (the chunked uploads of
-- utils.rs, with the upload session of Dropbox in Sessions/Dropbox), Tokens (the OAuth token
-- manager of utils.rs), Retries (the retry helper of utils.rs), LocalSim (local_sim.rs), Fallback
-- (fallback.rs, which turns to the simulation when the credentials are refused), Encryption (the
-- vault format of encryption.rs) and Wrapped (mod.rs and src/rate_limit.rs: how a provider is put
-- behind the fallback, the limiters and the encryption).
-- Layers (crates/cloud_sync_lib/src/layers): Breaker (circuit_breaker.rs) as a state machine over
-- the two halves of a call, Retry (retry.rs), Metrics (metrics.rs) and RateLimit (rate_limit.rs).
-- Client (crates/cloud_sync_lib/src/client.rs): the builder of a client with its layers, and the
-- operations of the client.
-- Paths (crates/cloud_sync_core/src/path.rs): normalized paths, their joins, the relative and
-- absolute forms, percent-encoding.
-- Daemon (crates/cloud_sync_daemon/src): Watcher (watcher.rs and utils.rs), the tasks that a file
-- system event spawns; Control (control.rs), the commands of the control socket, with the
-- resolution of conflicts in Control/Resolve; Status (control.rs), the status that the daemon
-- prints; Backends (lib.rs, config.rs), the backends that a configuration asks for.
-- Ui (crates/cloud_sync_ui/src/parser.rs): how the web interface reads that status.
-- Store (crates/cloud_sync_core/src/state_io.rs): the framed state file, its recovery from the
-- backup, and a save that may be cut off at every step, over a file system that is a map from
-- paths to bytes.
--
-- How the model reads the source: a method that mutates its receiver returns the new state; a
-- `Duration`, an `Instant` and a `SystemTime` are numbers of nanoseconds; machine integers are
-- natural numbers with their saturation or wrap-around written out; logging has no counterpart.
-- The order in which a hash map or a hash set is iterated is an argument; the set of the paths
-- that a plan walks is `Planner.all_paths`. Commands of the control socket and the ends of the
-- synchronisations that they spawned are a sequence of events, in the order in which they lock the
-- state of the daemon (`Control.run_events`).
--
-- Fuel: `Executor.upload_chunks` runs on fuel, one unit for each chunk; a session of which each
-- chunk makes progress needs no more than its number of chunks and one. `Retry.retry_loop` runs on
-- fuel; `execute_with_retry` gives it one unit more than the configured number of attempts, which
-- is enough since every attempt is counted. `Scanner.scan_loop` runs on fuel, one unit for each
-- directory visited; more fuel than the size of the tree is enough. `Local.scan_dirs` runs on
-- fuel, one unit for each directory; more fuel than the size of the watched directory is enough.
-- `Sessions.upload_ranges` takes one unit for each chunk, `Encryption.encrypt_chunks` and
-- `Encryption.decrypt_chunks` one for each frame; more than the bytes of the file, or of the
-- vault, is enough. `Retries.attempts_loop` takes one unit for each attempt; as many as are
-- configured are enough. `Dropbox.append_chunks` takes one unit for each chunk, the last one
-- included; more than the bytes of the file is enough. All other loops are structural.
--
-- Not modelled: the HTTP clients of single providers, the graphical front ends, the reading of
-- configuration files and command lines, the token bucket (which counts in floating point), and
-- mega-rs, a copy of another project's library. AES-256-GCM, PBKDF2, the floating-point product of
-- a delay and the multiplier of the retry helper, the JSON of a token response and the temporary
-- files of the encryption are parameters. White space and upper and lower case are those of ASCII.
-- The logging layer, the buffer pool and the JSON state store are not modelled; how a layer
-- intercepts the calls of a client is an argument, but for its server-side operations; the tasks
-- that the watcher spawns run concurrently, and only the attempts of a single one are modelled;
-- the file system of the state store has no input and output errors; the orchestrator takes the
-- two scans and the state repository as collaborators. Error values of other libraries are a
-- parameter (`Errors.Foreign`), and so are the random numbers of a retry and the order of hash
-- maps.
pub mod Base
pub mod Storage
pub mod Engine
pub mod Layers
pub mod Paths
pub mod Store
pub mod Providers
pub mod Daemon
pub mod Ui
pub mod Client
