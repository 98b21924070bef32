-- ===== src/Lib.antt =====
-- edge-proc, a Python library that runs tasks on the device and distributes signed bundles of data:
-- a model of its core logic, and what holds of it.
--
-- The program. `edgeproc/core` sends a task to the first registered runtime that accepts it, if the
-- memory that the task declares can be reserved. `edgeproc/bundles` distributes files: a publisher
-- cuts them into chunks, addresses chunks and a manifest by hash, and signs a pointer to the
-- manifest; a consumer fetches the pointer, checks it under a key or a keyring, fetches what it
-- lacks, checks that every file can be put together, and makes the pointer the active one.
-- `edgeproc/localvec` is a runtime of the core that searches on the device: it keeps a vector index,
-- whose snapshots survive a crash, and decides where its embedding model may come from.
--
-- Which file models what.
--   Chunking        edgeproc/bundles/chunking.py: `_cut_point`, `GearCDC.chunk`
--   Core.Models     edgeproc/core/models.py, protocols.py
--   Core.Router     edgeproc/core/router.py, registry.py
--   Core.Memory     edgeproc/core/memory.py
--   Core.Telemetry  edgeproc/core/telemetry.py: `BufferedSink`
--   Core.Facade     edgeproc/core/facade.py; its module Steps has runs that interleave
--   Core.Duration   edgeproc/core/settings.py: `parse_duration`
--   Core.Settings   edgeproc/core/settings.py: `EdgeProcSettings`
--   Localvec        edgeproc/localvec: Fusion, Runtime, Searcher and ModelSource are fusion.py,
--                   runtime.py, searcher.py and model_source.py
--   Localvec.Index  edgeproc/localvec/faiss_index.py: `FaissVectorIndex`, over the flat index of
--                   Localvec.Flat; Persist is what is saved and restored, Spec the map that an
--                   index stands for
--   Localvec.Snapshots  edgeproc/localvec/snapshot_store.py; Commit writes and collects, Safe has
--                   the places where a commit stops
--   Localvec.Saved  faiss_index.py again: `save` and `load` over the snapshots; loader.py
--   Errors          edgeproc/errors.py and the exceptions of the modules
--   Containment     edgeproc/bundles/containment.py: `ensure_safe_relpath`
--   Manifest        edgeproc/bundles/manifest.py; Json is `canonical_bytes`, Preimage is
--                   `pointer_signing_bytes`
--   Signing         edgeproc/bundles/signing.py
--   Keyring         edgeproc/bundles/keyring.py
--   Promotion       edgeproc/bundles/cas.py: `_downgrade_reason` and what it calls
--   Disk            the files under a store's root; Atomic is `_atomic_write` of cas.py
--   Cas             edgeproc/bundles/cas.py: `FilesystemCacheStore`; Active is the active pointer,
--                   Collect the garbage collection
--   Adapters        edgeproc/bundles/adapters.py: the capped read of a response
--   Sync            edgeproc/bundles/sync.py
--   Publish         edgeproc/bundles/publish.py; Signed has the pointers that it signs
--   Externals       the parameters: cryptography, zstandard, pydantic's JSON
--   Exec, Prelude   methods that change files and may raise; shared helpers
--   Tests           examples on small inputs
--
-- State. A store's method maps a disk, a table of paths, to a result and a disk; what was written
-- before a raise stays written. The `FileLock` of a store makes the methods that take it atomic.
-- The facade's state is the registry, the memory manager, the sink and the runs in flight, and each
-- part of a run between two awaits is a step. A vector index is a record of its maps; its lock makes
-- a method one step. A directory of snapshots is a table of names, which a commit changes request by
-- request, and which a reader without the lock looks at while it changes: each file that it reads is
-- looked up at a later moment than the one before.
--
-- A commit may stop, or fail, at any of its requests and in the middle of a write; a disk says for
-- each path which part of an atomic write of it fails, if one does.
--
-- Numbers. Sizes that a validator bounds below are natural numbers. So are the sizes of a chunker, the
-- settings and the caps of a sync, which the code takes as integers without a check and documents as
-- positive constants. Other unvalidated sizes are integers. The rolling hash of the chunker keeps its
-- 64 bits as a remainder by 2 ^ 64. Texts are code points or UTF-8
-- bytes. `chunk` has one round of fuel for each byte and one more, and `digits` has fuel above its
-- number. A snapshot is looked for three times, as in the code.
--
-- Parameters. FAISS's flat index and file format, BM25, floats, the table that `random.Random` fills,
-- Ed25519, SHA-256, base64, zstandard, pydantic's reading and writing of a pointer, of a snapshot
-- manifest and of an index's sidecar, PEP 440 versions, the fetch adapter and the clock. Their laws
-- are the records `IsFlat`, `IsCodec`, `IsLawful`, `IsOrder` and `IsSigning`, of which the examples
-- have an instance each.
--
-- Not modelled: the embedding model itself, the command line (arguments and printing around the
-- library), the environment, HTTP, logging, the durability of `fsync`, and the repository's scripts.
pub mod Prelude
pub mod Chunking
pub mod Core
pub mod Errors
pub mod Exec
pub mod Disk
pub mod Containment
pub mod Manifest
pub mod Promotion
pub mod Externals
pub mod Signing
pub mod Keyring
pub mod Cas
pub mod Adapters
pub mod Sync
pub mod Publish
pub mod Localvec
pub mod Tests
