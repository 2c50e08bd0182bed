-- ===== src/Diagram.antt =====
-- scripts/diagrams: the kit that draws the documents' diagrams, and their validator.
pub mod Metrics
pub mod Geometry
pub mod Rng
pub mod Scene
pub mod Shapes
pub mod Arrows
pub mod Checks
pub mod Overlap
pub mod Lookup
pub mod Links
pub mod Drawing
pub mod Connecting
pub mod Passing
pub mod Bounds
pub mod Fits
pub mod Validate
pub mod Pictures
pub mod Generator
pub mod Svg
mod Tests
