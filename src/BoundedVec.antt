-- ===== src/BoundedVec.antt =====
-- merkle-tree/bounded-vec/src/lib.rs: the two vectors of fixed capacity, `BoundedVec` in `Plain`
-- and `CyclicBoundedVec` in `Cyclic`, over a buffer of cells (`Cells`).
pub mod Tests
pub mod Cells
pub mod Plain
pub mod Cyclic
