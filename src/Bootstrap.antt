-- ===== src/Bootstrap.antt =====
-- The scaffold builder, scripts/bootstrap-repo.mjs: it writes the files that it carries in a comment
-- of its own source below the root of a repository.
pub mod Args
pub mod Payload
pub mod Writer
pub mod Safety
pub mod Report
pub mod Rerun
mod Tests
