-- ===== src/ApiTypes.antt =====
-- scripts/generate-api-types.mjs: TypeScript types from C# sources.
pub mod Blanks
pub mod Scan
pub mod Parse
pub mod Types
pub mod Emit
pub mod Run
mod Tests
