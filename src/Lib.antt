-- ===== src/Lib.antt =====
-- claw-mem: the backup of an agent's memory, its recovery, and the resurrection of an agent on a
-- carrier (packages/soul), the semantic memory that a prompt is given (packages/claw-mem), and the
-- nodes that an agent runs (packages/node), as definitions that run and theorems about them.
--
-- A backup is a run of `BackupScheduler` (packages/soul/src/backup/scheduler.ts). It scans the base
-- directory and compares it with the last manifest (change-detector.ts), uploads what changed and
-- carries over what did not (uploader.ts), builds a manifest with a Merkle root
-- (manifest-builder.ts), stores and anchors it (anchor.ts) and writes the state file
-- (local-state.ts). A restore follows manifests by their parent CIDs (recovery/chain-resolver.ts),
-- checks their roots and the registry (state-restorer.ts), writes the files (downloader.ts) and reads
-- them back (integrity-checker.ts). A carrier polls for agents that are offline
-- (carrier/offline-monitor.ts), accepts requests (carrier-daemon.ts) and restores, spawns and
-- registers the agent (resurrection-flow.ts). Encrypted files have the layout of crypto.ts, and a CID
-- is found by its hash over three layers (recovery/cid-resolver.ts).
--
-- The memory keeps observations in a table (packages/claw-mem/src/db/observation-store.ts). A pass of
-- the compactor (observer/chat-compactor.ts) rolls old messages up into one observation and may prune
-- them. Before a prompt, recall (hooks/index.ts) merges what a search finds (search/search.ts) with the
-- newest rows, and the context builder (context/builder.ts) packs them into a budget of tokens.
--
-- A node is installed, started, stopped and removed by `NodeManager` (packages/node/src/node-manager.ts)
-- over a registry: a JSON file (json-registry.ts) or a table of the database
-- (packages/claw-mem/src/db/node-store.ts), which keep the same promise. The quota manager
-- (storage-quota-manager.ts) reserves space and measures a directory.
--
-- Files:
--   Prelude            shared notation, tests, lists over the native numbers, results
--   JsMap              `Map` and plain objects with string keys
--   Task               asynchronous methods that change an object and may throw
--   Backup.Types       packages/soul/src/backup-types.ts
--   Backup.Pattern     the regular expressions of change-detector.ts and their matcher
--   Backup.Classify    its tables and `classifyFile`
--   Backup.Scan        its `scanFiles`
--   Backup.Detect      its `detectChanges`
--   Backup.Upload      packages/soul/src/backup/uploader.ts
--   Backup.Merkle      the Merkle tree of packages/soul/src/backup/manifest-builder.ts
--   Backup.Manifest    its data root and `buildManifest`
--   Backup.Anchor      packages/soul/src/backup/anchor.ts, and the state of local-state.ts
--   Backup.Scheduler   packages/soul/src/backup/scheduler.ts: runs, and Timer the timer; History says
--                      what a history of runs is
--   Recovery.Chain     packages/soul/src/recovery/chain-resolver.ts
--   Recovery.Download  packages/soul/src/recovery/downloader.ts
--   Recovery.Integrity packages/soul/src/recovery/integrity-checker.ts
--   Recovery.Restore   packages/soul/src/recovery/state-restorer.ts
--   Recovery.Registry  its `restoreFromChain`
--   Carrier.Monitor    packages/soul/src/carrier/offline-monitor.ts
--   Carrier.Flow       packages/soul/src/carrier/resurrection-flow.ts
--   Carrier.Daemon     packages/soul/src/carrier/carrier-daemon.ts
--   Recovery.Crypto    packages/soul/src/crypto.ts
--   Recovery.Resolver  packages/soul/src/recovery/cid-resolver.ts
--   Memory.Types       packages/claw-mem/src/types.ts
--   Memory.Sql         the order of rows that a query asks for: Insertion is one that keeps the laws
--   Memory.Observations   packages/claw-mem/src/db/observation-store.ts
--   Memory.Compactor   packages/claw-mem/src/observer/chat-compactor.ts
--   Memory.Context     packages/claw-mem/src/context/builder.ts
--   Memory.Search      packages/claw-mem/src/search/search.ts
--   Memory.Sessions    packages/claw-mem/src/db/session-store.ts and summary-store.ts
--   Memory.Archives    packages/claw-mem/src/db/archive-store.ts, but for `countIncrementalChain`
--   Memory.Hooks       the handlers of packages/claw-mem/src/hooks/index.ts that change the memory
--   Memory.Recall      `recallObservations` of packages/claw-mem/src/hooks/index.ts
--   Node.Types         packages/node/src/types.ts
--   Node.Registry      what a registry of nodes promises, and what follows for sequences of calls
--   Node.Order         the orders in which the two registries list
--   Node.Json          packages/node/src/json-registry.ts
--   Node.Table         packages/claw-mem/src/db/node-store.ts
--   Node.Stores        both registries side by side
--   Node.Manager       packages/node/src/node-manager.ts
--   Node.Processes     packages/node/src/process-manager.ts
--   Node.Quota         packages/node/src/storage-quota-manager.ts
--   Tests, and Tests of a part   the theorems at concrete inputs
--
-- Text is `String`, a path expression works on the numbers of the characters, and a hexadecimal
-- digest is the list of bytes that it spells. SHA-256, keccak256, UTF-8, IPFS CIDs and the answers
-- of services, files and clocks are parameters, and so are scrypt, AES-256-GCM, the full-text index
-- and `LIKE`. A method that is asynchronous runs to its end. A statement of SQL is what it does to the
-- rows, and the order of rows with the same key is a parameter with laws. Where a path leads through
-- symbolic links is a parameter of a restore, and a write that fails may leave anything in its file; the
-- file of the JSON registry may refuse its writes; a signal to a process is sent and no more. An
-- importance is the number that the bits of the double spell, which has the same order.
--
-- Fuel: `climb` takes as much as there are leaves behind the first, and every round removes a node
-- at least; `follow` takes fuel for its loop over parents, and a chain of n backups above a full
-- one needs n + 1 rounds. The readiness loop of a resurrection runs over the list of its rounds before
-- the timeout. `usage_loop` needs as many rounds as there are paths below the directory.
--
-- Not modelled: command line, plugin glue, clients of external services, configuration files, the
-- recovery package, the pointer to the latest manifest in MFS, the texts that summaries and contexts are
-- written as, importance scores and the extractors, the artifact table, the content of
-- node-config.json, and the services that bootstrap.
mod Prelude
pub mod JsMap
pub mod Task
pub mod Backup
pub mod Recovery
pub mod Carrier
pub mod Memory
pub mod Node
pub mod Tests
