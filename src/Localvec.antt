-- ===== src/Localvec.antt =====
-- edgeproc/localvec: search on the device. The encoder and the index are third-party models.
pub mod Fusion
pub mod Flat
pub mod Index
pub mod Saved
pub mod Snapshots
pub mod ModelSource
pub mod Runtime
pub mod Searcher
