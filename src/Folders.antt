-- ===== src/Folders.antt =====
-- core/files/file-manager-breadcrumb.ts: the way from a folder up to the root.
pub mod Breadcrumb
pub mod Trail
mod Tests
