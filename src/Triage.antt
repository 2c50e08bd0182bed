-- ===== src/Triage.antt =====
-- The issue triage script, .squad/templates/ralph-triage.js.
pub mod Cells
pub mod Tables
pub mod Matching
pub mod Issues
pub mod Remote
pub mod Best
pub mod Members
pub mod Labels
pub mod Pages
mod Tests
