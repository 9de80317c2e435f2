-- ===== src/Examples.antt =====
-- The theorems, applied in a small world.
pub mod Office
pub mod Uploads
pub mod Files
pub mod Services
pub mod Trees
pub mod Batches
pub mod Access
