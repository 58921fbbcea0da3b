-- ===== src/Builds.antt =====
-- Builds of functions from source (pkg/gateway): the history of builds, the retained output, and the
-- checks on uploaded archives.
pub mod Tracker
pub mod Buffer
pub mod Archive
pub mod Filter
pub mod Context
pub mod Tests
